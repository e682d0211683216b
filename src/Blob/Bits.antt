-- ===== src/Blob/Bits.antt =====
-- The bit operations of crates/primitives/src/blob.rs: how two bytes share the six free bits of
-- four field elements.
use taiko_mk.Prelude.{ℕ, zero, suc, ◌+◌, ◌*◌, ◌/◌, ◌%◌, ◌^◌, ◌<◌, ◌≡◌, refl, arith}
use taiko_mk.Prelude.{Bool, true, false, ◌==◌}
use Prim.Native.Nat.{bit_and, bit_or}

-- Two operations on bytes, compared at every value under a bound.
table : (f g : ℕ → ℕ) → ℕ → Bool
table f g zero = true
table f g (suc bound) = elim (f bound == g bound) [ true ↦ table f g bound | false ↦ false ]

agree : (bound : ℕ) (f g : ℕ → ℕ) (x : ℕ) → table f g bound ≡ true → x < bound → f x ≡ g x
unfolding table
agree zero f g x same lt = absurd (omega arith)
agree (suc bound) f g x same lt = ground (arith, agree bound f g x)

pub low_six : (x : ℕ) → x < 256 → bit_and x 0b0011_1111 ≡ x % 64
unfolding table
low_six x h = agree 256 (λ x. bit_and x 0b0011_1111) (λ x. x % 64) x refl h

pub high_two : (x : ℕ) → x < 256 → bit_and x 0b1100_0000 / 2 ^ 2 ≡ x / 64 * 16
unfolding table
high_two x h = agree 256 (λ x. bit_and x 0b1100_0000 / 2 ^ 2) (λ x. x / 64 * 16) x refl h

pub low_four : (x : ℕ) → x < 256 → bit_and x 0b0000_1111 ≡ x % 16
unfolding table
low_four x h = agree 256 (λ x. bit_and x 0b0000_1111) (λ x. x % 16) x refl h

pub high_four : (x : ℕ) → x < 256 → bit_and x 0b1111_0000 / 2 ^ 4 ≡ x / 16
unfolding table
high_four x h = agree 256 (λ x. bit_and x 0b1111_0000 / 2 ^ 4) (λ x. x / 16) x refl h

-- The six bits of a field element, and its two highest bits.
pub top_clear : (e : ℕ) → e < 64 → bit_and e 0b1100_0000 ≡ 0
unfolding table
top_clear e h = agree 64 (λ e. bit_and e 0b1100_0000) (λ e. 0) e refl h

pub middle_two : (e : ℕ) → e < 64 → bit_and e 0b0011_0000 * 2 ^ 2 % 256 ≡ e / 16 * 64
unfolding table
middle_two e h = agree 64 (λ e. bit_and e 0b0011_0000 * 2 ^ 2 % 256) (λ e. e / 16 * 64) e refl h

pub shifted_four : (e : ℕ) → e < 64 → bit_and e 0b0000_1111 * 2 ^ 4 % 256 ≡ e % 16 * 16
unfolding table
shifted_four e h = agree 64 (λ e. bit_and e 0b0000_1111 * 2 ^ 4 % 256) (λ e. e % 16 * 16) e refl h

or_nibbles_at : (t : ℕ) → t < 256 → bit_or (t % 16) (t / 16 * 16) ≡ t
unfolding table
or_nibbles_at t h = agree 256 (λ t. bit_or (t % 16) (t / 16 * 16)) (λ t. t) t refl h

or_nibbles_at_flipped : (t : ℕ) → t < 256 → bit_or (t / 16 * 16) (t % 16) ≡ t
unfolding table
or_nibbles_at_flipped t h = agree 256 (λ t. bit_or (t / 16 * 16) (t % 16)) (λ t. t) t refl h

or_six_two_at : (t : ℕ) → t < 256 → bit_or (t % 64) (t / 64 * 64) ≡ t
unfolding table
or_six_two_at t h = agree 256 (λ t. bit_or (t % 64) (t / 64 * 64)) (λ t. t) t refl h

-- `|` of parts that do not overlap is a sum.
pub or_nibbles : (a b : ℕ) → a < 16 → b < 16 → bit_or a (b * 16) ≡ a + b * 16
or_nibbles a b p q = ground (arith, split, or_nibbles_at (a + b * 16))
  where
    split : ((a + b * 16) % 16 ≡ a) × ((a + b * 16) / 16 ≡ b)
    split = omega arith

pub or_nibbles_flipped : (a b : ℕ) → a < 16 → b < 16 → bit_or (b * 16) a ≡ a + b * 16
or_nibbles_flipped a b p q = ground (arith, split, or_nibbles_at_flipped (a + b * 16))
  where
    split : ((a + b * 16) % 16 ≡ a) × ((a + b * 16) / 16 ≡ b)
    split = omega arith

pub or_six_two : (a b : ℕ) → a < 64 → b < 4 → bit_or a (b * 64) ≡ a + b * 64
or_six_two a b p q = ground (arith, split, or_six_two_at (a + b * 64))
  where
    split : ((a + b * 64) % 64 ≡ a) × ((a + b * 64) / 64 ≡ b)
    split = omega arith
