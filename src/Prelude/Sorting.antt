-- ===== src/Prelude/Sorting.antt =====
-- `slice::sort_by_key` of the standard library: a stable sort, as an insertion sort.
use mathlib.Core.List.Perm
use mathlib.Core.List.{Perm}
use Prim.Native.Nat.{ℕ, suc, ◌+◌, ◌≤◌}
use mathlib.Core.Path.{◌≡◌, refl, ap, ◌∙◌}
use mathlib.Core.Logic.{inl, inr}
use mathlib.Core.List.{List, [], ◌∷◌}
use native.Mathlib.Omega.{arith}
use taiko_mk.Prelude.Tests.{leb, leb→le, if◌then◌else◌, Bool-cases}
use taiko_mk.Prelude.Lists.{All, length, sum_by}

module _ {ℓ} {A : Type ℓ} (key : A → ℕ) where
  unfoldable pub insert_by_key : A → List A → List A
  insert_by_key x [] = x ∷ []
  insert_by_key x (y ∷ ys) =
      let rest = insert_by_key x ys in if leb (key x) (key y) then x ∷ y ∷ ys else y ∷ rest

  unfoldable pub sort_by_key : List A → List A
  unfolding insert_by_key
  sort_by_key [] = []
  sort_by_key (x ∷ xs) = insert_by_key x (sort_by_key xs)

  -- The keys do not decrease, from `low` on.
  abbrev pub IsSortedFrom : ℕ → List A → Type 0
  IsSortedFrom low [] = Unit
  IsSortedFrom low (x ∷ xs) = (low ≤ key x) × IsSortedFrom (key x) xs

  insert_by_key-IsSortedFrom :
      (low : ℕ) (x : A) (xs : List A)
      → low ≤ key x
      → IsSortedFrom low xs
      → IsSortedFrom low (insert_by_key x xs)
  unfolding insert_by_key
  insert_by_key-IsSortedFrom low x [] le h = (le, tt)
  insert_by_key-IsSortedFrom low x (y ∷ ys) le h = elim (Bool-cases (leb (key x) (key y))) [
    | inl e ↦ rw e (le, (leb→le _ _ e, h.1))
    | inr e ↦ rw e (h.0, insert_by_key-IsSortedFrom (key y) x ys (ground arith) h.1)
  ]

  pub sort_by_key-IsSortedFrom : (xs : List A) → IsSortedFrom 0 (sort_by_key xs)
  unfolding sort_by_key
  sort_by_key-IsSortedFrom [] = tt
  sort_by_key-IsSortedFrom (x ∷ xs) =
      insert_by_key-IsSortedFrom 0 x (sort_by_key xs) (omega arith) (sort_by_key-IsSortedFrom xs)

  insert_by_key-perm : (x : A) (xs : List A) → Perm (insert_by_key x xs) (x ∷ xs)
  unfolding insert_by_key
  insert_by_key-perm x [] = Perm.refl (x ∷ [])
  insert_by_key-perm x (y ∷ ys) = elim (Bool-cases (leb (key x) (key y))) [
    | inl e ↦ rw e (Perm.refl (x ∷ y ∷ ys))
    | inr e ↦ rw e (Perm.trans (Perm.cons y (insert_by_key-perm x ys)) (Perm.swap x y ys))
  ]

  -- A sort moves the entries, and loses none.
  pub sort_by_key-perm : (xs : List A) → Perm (sort_by_key xs) xs
  unfolding sort_by_key
  sort_by_key-perm [] = Perm.refl []
  sort_by_key-perm (x ∷ xs) =
      Perm.trans (insert_by_key-perm x (sort_by_key xs)) (Perm.cons x (sort_by_key-perm xs))

  insert_by_key_least :
      (x : A) (xs : List A) → IsSortedFrom (key x) xs → insert_by_key x xs ≡ x ∷ xs
  unfolding insert_by_key
  insert_by_key_least x [] h = refl
  insert_by_key_least x (y ∷ ys) h = ground arith

  -- A sorted list stays as it is.
  pub sort_by_key_sorted : (low : ℕ) (xs : List A) → IsSortedFrom low xs → sort_by_key xs ≡ xs
  unfolding sort_by_key
  sort_by_key_sorted low [] h = refl
  sort_by_key_sorted low (x ∷ xs) h =
      ap (insert_by_key x) (sort_by_key_sorted (key x) xs h.1) ∙ insert_by_key_least x xs h.1

  length-insert_by_key : (x : A) (xs : List A) → length (insert_by_key x xs) ≡ suc (length xs)
  unfolding insert_by_key
  length-insert_by_key x [] = refl
  length-insert_by_key x (y ∷ ys) = ground (arith, length-insert_by_key x ys)

  pub length-sort_by_key : (xs : List A) → length (sort_by_key xs) ≡ length xs
  unfolding sort_by_key
  length-sort_by_key [] = refl
  length-sort_by_key (x ∷ xs) =
      omega (arith, length-insert_by_key x (sort_by_key xs), length-sort_by_key xs)

  module _ {κ} (P : A → Type κ) where
    All-insert_by_key : (x : A) (xs : List A) → P x → All P xs → All P (insert_by_key x xs)
    unfolding insert_by_key
    All-insert_by_key x [] p h = (p, tt)
    All-insert_by_key x (y ∷ ys) p h = elim (Bool-cases (leb (key x) (key y))) [
      | inl e ↦ rw e (p, h)
      | inr e ↦ rw e (h.0, All-insert_by_key x ys p h.1)
    ]

    pub All-sort_by_key : (xs : List A) → All P xs → All P (sort_by_key xs)
    unfolding sort_by_key
    All-sort_by_key [] h = tt
    All-sort_by_key (x ∷ xs) h = All-insert_by_key x _ h.0 (All-sort_by_key xs h.1)

  module _ (f : A → ℕ) where
    sum_by-insert_by_key : (x : A) (xs : List A) → sum_by f (insert_by_key x xs) ≡ f x + sum_by f xs
    unfolding insert_by_key
    sum_by-insert_by_key x [] = refl
    sum_by-insert_by_key x (y ∷ ys) = ground (arith, sum_by-insert_by_key x ys)

    -- A sort keeps every sum over the entries.
    pub sum_by-sort_by_key : (xs : List A) → sum_by f (sort_by_key xs) ≡ sum_by f xs
    unfolding sort_by_key
    sum_by-sort_by_key [] = refl
    sum_by-sort_by_key (x ∷ xs) =
        omega (arith, sum_by-insert_by_key x (sort_by_key xs), sum_by-sort_by_key xs)
