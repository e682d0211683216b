-- ===== src/Signer/Modular.antt =====
-- Products modulo a number, for the signature equation of
-- crates/primitives/src/taiko/deterministic_signer.rs.
use native.Mathlib.Nat.{
  div-add-mod, add-mul-mod_self_left, mul_assoc, mul_comm, mul-add, mod-eq_of_lt,
}
use taiko_mk.Prelude.{ℕ, ◌+◌, ◌*◌, ◌/◌, ◌%◌, ◌<◌, ◌≡◌, sym, ap, ◌∙◌, arith}

split_product : (a b n : ℕ) → a * b ≡ a % n * b + n * (a / n * b)
split_product a b n =
    ap (◌* b) (sym (div-add-mod a n))
    ∙ mul_comm (n * (a / n) + a % n) b
    ∙ mul-add b (n * (a / n)) (a % n)
    ∙ omega (arith, mul_comm b (n * (a / n)), mul_comm b (a % n), mul_assoc n (a / n) b)

pub mod_mul : (a b n : ℕ) → (a % n * b) % n ≡ (a * b) % n
mod_mul a b n =
    sym (add-mul-mod_self_left (a % n * b) n (a / n * b)) ∙ ap (◌% n) (sym (split_product a b n))

pub mul_mod : (a b n : ℕ) → (a * (b % n)) % n ≡ (a * b) % n
mul_mod a b n = ap (◌% n) (mul_comm a (b % n)) ∙ mod_mul b a n ∙ ap (◌% n) (mul_comm b a)

-- A factor is taken off by multiplication with the number that it inverts.
pub cancel_inverse : (a i k n : ℕ) → 1 < n → a < n → (i * k) % n ≡ 1 → ((a * i) % n * k) % n ≡ a
cancel_inverse a i k n big lt h =
    mod_mul (a * i) k n
    ∙ ap (◌% n) (mul_assoc a i k)
    ∙ sym (mul_mod a (i * k) n)
    ∙ ap (λ p. (a * p) % n) h
    ∙ small
  where
    small : (a * 1) % n ≡ a
    small = let one : a * 1 ≡ a = omega arith in rw one (mod-eq_of_lt lt)
