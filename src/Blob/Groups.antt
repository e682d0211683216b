-- ===== src/Blob/Groups.antt =====
-- What a blob of crates/primitives/src/blob.rs holds, with no offsets: the stream of the header and
-- the input, cut into groups of 127 bytes, each of which four field elements hold.
use taiko_mk.Prelude.{ℕ, zero, suc, ◌+◌, ◌*◌, ◌/◌, ◌%◌, ◌≡◌, refl, sym, ap, ap₂, subst, ◌∙◌, arith}
use taiko_mk.Prelude.{List, ◌∷◌, ◌++◌, [], length, length-append, drop}
use mathlib.Core.List.{append_assoc}
use taiko_mk.Blob.Bytes.{
  zeros, pad_take, first_or_zero, length-pad_take, zeros-add, drop-drop, drop-append,
}

-- The three bytes of a group that do not stand in a field element of their own.
abbrev pub byte_x : List ℕ → ℕ
byte_x stream = first_or_zero (drop 31 stream)

abbrev pub byte_y : List ℕ → ℕ
byte_y stream = first_or_zero (drop 63 stream)

abbrev pub byte_z : List ℕ → ℕ
byte_z stream = first_or_zero (drop 95 stream)

-- A group: 127 bytes of the stream in four field elements, which start with six bits of `x`, the
-- low half of `y` and the rest of `x`, six bits of `z`, and the high half of `y` and the rest of `z`.
unfoldable pub element_0 : List ℕ → List ℕ
element_0 s = (byte_x s % 64) ∷ pad_take 31 s

unfoldable pub element_1 : List ℕ → List ℕ
element_1 s = (byte_y s % 16 + byte_x s / 64 * 16) ∷ pad_take 31 (drop 32 s)

unfoldable pub element_2 : List ℕ → List ℕ
element_2 s = (byte_z s % 64) ∷ pad_take 31 (drop 64 s)

unfoldable pub element_3 : List ℕ → List ℕ
element_3 s = (byte_y s / 16 + byte_z s / 64 * 16) ∷ pad_take 31 (drop 96 s)

unfoldable pub group : List ℕ → List ℕ
group s = element_0 s ++ (element_1 s ++ (element_2 s ++ element_3 s))

unfoldable pub groups : ℕ → List ℕ → List ℕ
groups zero s = []
groups (suc n) s = group s ++ groups n (drop 127 s)

module _ (s : List ℕ) where
  pub length-element_0 : length (element_0 s) ≡ 32
  unfolding element_0
  length-element_0 = ap suc (length-pad_take 31 s)

  pub length-element_1 : length (element_1 s) ≡ 32
  unfolding element_1
  length-element_1 = ap suc (length-pad_take 31 (drop 32 s))

  pub length-element_2 : length (element_2 s) ≡ 32
  unfolding element_2
  length-element_2 = ap suc (length-pad_take 31 (drop 64 s))

  pub length-element_3 : length (element_3 s) ≡ 32
  unfolding element_3
  length-element_3 = ap suc (length-pad_take 31 (drop 96 s))

  pub length-group : length (group s) ≡ 128
  unfolding group
  length-group =
      simp (length-append, length-element_0, length-element_1, length-element_2, length-element_3)

pub length-groups : (n : ℕ) (s : List ℕ) → length (groups n s) ≡ 128 * n
unfolding groups
length-groups zero s = refl
length-groups (suc n) s = omega (
  arith,
  length-append (group s) (groups n (drop 127 s)),
  length-group s,
  length-groups n (drop 127 s),
)

-- Past the end of the stream the blob is zero.
group-nil : group [] ≡ zeros 128
unfolding group element_0 element_1 element_2 element_3 first_or_zero pad_take zeros
group-nil = refl

pub groups-nil : (n : ℕ) → groups n [] ≡ zeros (128 * n)
unfolding groups
groups-nil zero = unfold zeros in refl
groups-nil (suc n) =
    ap₂ ◌++◌ group-nil (groups-nil n) ∙ (sym (zeros-add 128 (128 * n)) ∙ ap zeros (omega arith))

-- What is left of the blob after `m` groups.
pub drop-groups :
    (m n : ℕ) (s : List ℕ) → drop (128 * m) (groups (m + n) s) ≡ groups n (drop (127 * m) s)
unfolding groups
drop-groups zero n s = ground arith
drop-groups (suc m) n s =
    rw (rounds, steps.0, steps.1)
      (sym (drop-drop 128 (128 * m) (group s ++ groups (m + n) (drop 127 s)))
        ∙ (ap (drop (128 * m)) tail
            ∙ (drop-groups m n (drop 127 s) ∙ ap (groups n) (drop-drop 127 (127 * m) s))))
  where
    rounds : suc m + n ≡ suc (m + n)
    rounds = omega arith

    steps : (128 * suc m ≡ 128 + 128 * m) × (127 * suc m ≡ 127 + 127 * m)
    steps = omega arith

    tail : drop 128 (group s ++ groups (m + n) (drop 127 s)) ≡ groups (m + n) (drop 127 s)
    tail =
        subst
          (λ (t : ℕ). drop t (group s ++ groups (m + n) (drop 127 s)) ≡ groups (m + n) (drop 127 s))
          (length-group s) (drop-append (group s) (groups (m + n) (drop 127 s)))

-- The next group, behind what is there.
pub groups_next :
    (n p : ℕ) (done input : List ℕ)
    → done ++ groups (suc n) (drop p input)
      ≡ (done ++ group (drop p input)) ++ groups n (drop (p + 127) input)
unfolding groups
groups_next n p done input =
    simp append_assoc
      (ap (λ t. done ++ (group (drop p input) ++ groups n t)) (drop-drop p 127 input))

-- The stream of an empty input is four zeros.
pub groups-zeros : (n : ℕ) → groups (suc n) (0 ∷ 0 ∷ 0 ∷ 0 ∷ []) ≡ zeros (128 * suc n)
groups-zeros n = same ∙ groups-nil (suc n)
  where
    same : groups (suc n) (0 ∷ 0 ∷ 0 ∷ 0 ∷ []) ≡ groups (suc n) []
    same =
        unfold groups group element_0 element_1 element_2 element_3 first_or_zero pad_take in refl
