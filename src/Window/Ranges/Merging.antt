-- ===== src/Window/Ranges/Merging.antt =====
-- What the merge of ranges in crates/driver/src/lookahead.rs leaves of them: no slot is lost or
-- added, and what is left is apart.
use taiko_mk.Prelude.{
  ℕ, ◌≤◌, ◌<◌, ◌≡◌, refl, ◌∙◌, ◌⊎◌, inl, inr, Bool, false, ◌||◌, List, [], ◌∷◌, ◌++◌, arith, All,
  ◌==◌, Bool-cases, leb, sort_by_key, All-sort_by_key, insert_by_key,
}
use taiko_mk.Slots.{SlotRange, range_contains}
use taiko_mk.Window.Ranges.{collapse, collapse_all, merge_adjacent_ranges}

-- Some range holds the slot.
unfoldable pub covers : ℕ → List SlotRange → Bool
covers slot [] = false
covers slot (r ∷ rs) = range_contains r slot || covers slot rs

-- The start is not behind the end.
abbrev pub IsForward : SlotRange → Type 0
IsForward r = r.start ≤ r.end

-- One range ends before the other begins; the second also begins strictly earlier when it is the
-- one in front.
abbrev pub Apart : SlotRange → SlotRange → Type 0
Apart a b = (a.end ≤ b.start) ⊎ ((b.end ≤ a.start) × (b.start < a.start))

-- Forward ranges that are apart, each from all behind it.
abbrev pub AllApart : List SlotRange → Type 0
AllApart [] = Unit
AllApart (r ∷ rs) = IsForward r × All (Apart r) rs × AllApart rs

-- One behind the other from `low` on.
abbrev pub IsOrderedFrom : ℕ → List SlotRange → Type 0
IsOrderedFrom low [] = Unit
IsOrderedFrom low (r ∷ rs) = (low ≤ r.start) × IsForward r × IsOrderedFrom r.end rs

-- Between any two neighbours at least one slot is free.
abbrev pub AllSeparated : List SlotRange → Type 0
AllSeparated [] = Unit
AllSeparated (r ∷ []) = IsForward r
AllSeparated (r ∷ s ∷ rs) = IsForward r × (r.end < s.start) × AllSeparated (s ∷ rs)

covers-append :
    (slot : ℕ) (xs ys : List SlotRange)
    → covers slot (xs ++ ys) ≡ (covers slot xs || covers slot ys)
unfolding covers
covers-append slot [] ys = refl
covers-append slot (x ∷ xs) ys = ground (arith, covers-append slot xs ys)

covers-insert :
    (slot : ℕ) (x : SlotRange) (xs : List SlotRange)
    → covers slot (insert_by_key (λ (r : SlotRange). r.start) x xs)
      ≡ (range_contains x slot || covers slot xs)
unfolding covers insert_by_key
covers-insert slot x [] = refl
covers-insert slot x (y ∷ ys) = ground (arith, covers-insert slot x ys)

covers-sort :
    (slot : ℕ) (xs : List SlotRange)
    → covers slot (sort_by_key (λ (r : SlotRange). r.start) xs) ≡ covers slot xs
unfolding covers sort_by_key
covers-sort slot [] = refl
covers-sort slot (x ∷ xs) =
    ground (
      arith,
      covers-insert slot x (sort_by_key (λ (r : SlotRange). r.start) xs),
      covers-sort slot xs,
    )

-- Two ranges that touch hold what their union holds.
touching :
    (a b : SlotRange) (slot : ℕ)
    → IsForward a
    → IsForward b
    → a.end ≡ b.start
    → range_contains (record a { end = b.end }) slot
      ≡ (range_contains a slot || range_contains b slot)
unfolding range_contains
touching a b slot h k e = ground arith

covers-collapse :
    (slot : ℕ) (collapsed : List SlotRange) (current : SlotRange) (rs : List SlotRange)
    → IsForward current
    → All IsForward rs
    → covers slot (collapse collapsed current rs)
      ≡ (covers slot collapsed || (range_contains current slot || covers slot rs))
unfolding collapse covers
covers-collapse slot collapsed current [] h k = covers-append slot collapsed (current ∷ [])
covers-collapse slot collapsed current (r ∷ rs) h k = elim (Bool-cases (current.end == r.start)) [
  | inl e ↦
      rw (covers, e) ground
        (
          arith,
          touching current r slot h k.0,
          covers-collapse slot collapsed (record current { end = r.end }) rs (ground arith) k.1,
        )
  | inr e ↦
      rw (covers, e) ground
        (
          arith,
          covers-append slot collapsed (current ∷ []),
          covers-collapse slot (collapsed ++ current ∷ []) r rs k.0 k.1,
        )
]

covers-collapse_all :
    (slot : ℕ) (rs : List SlotRange)
    → All IsForward rs
    → covers slot (collapse_all rs) ≡ covers slot rs
unfolding covers collapse_all
covers-collapse_all slot [] h = refl
covers-collapse_all slot (r ∷ rs) h = covers-collapse slot [] r rs h.0 h.1

-- The merge of forward ranges holds the slots that the ranges hold.
pub covers-merge :
    (slot : ℕ) (rs : List SlotRange)
    → All IsForward rs
    → covers slot (merge_adjacent_ranges rs) ≡ covers slot rs
unfolding merge_adjacent_ranges
covers-merge slot rs h =
    covers-collapse_all slot _ (All-sort_by_key _ IsForward rs h) ∙ covers-sort slot rs

IsForward-of_apart : (rs : List SlotRange) → AllApart rs → All IsForward rs
IsForward-of_apart [] h = tt
IsForward-of_apart (r ∷ rs) h = (h.0, IsForward-of_apart rs h.2)

-- A range that is apart from the ordered ones is inserted between them.
insert-IsOrderedFrom :
    (low : ℕ) (x : SlotRange) (xs : List SlotRange)
    → low ≤ x.start
    → IsForward x
    → All (Apart x) xs
    → IsOrderedFrom low xs
    → IsOrderedFrom low (insert_by_key (λ (r : SlotRange). r.start) x xs)
unfolding insert_by_key
insert-IsOrderedFrom low x [] le f a h = (le, f, tt)
insert-IsOrderedFrom low x (y ∷ ys) le f a h = elim (Bool-cases (leb x.start y.start)) [
  | inl e ↦ rw e (le, f, (ground arith, h.1, h.2))
  | inr e ↦ rw e (h.0, h.1, insert-IsOrderedFrom y.end x ys (ground arith) f a.1 h.2)
]

sort-IsOrderedFrom :
    (rs : List SlotRange)
    → AllApart rs
    → IsOrderedFrom 0 (sort_by_key (λ (r : SlotRange). r.start) rs)
unfolding sort_by_key
sort-IsOrderedFrom [] h = tt
sort-IsOrderedFrom (r ∷ rs) h =
    insert-IsOrderedFrom 0 r _ (omega arith) h.0 (All-sort_by_key _ (Apart r) rs h.1)
      (sort-IsOrderedFrom rs h.2)

-- The last of the ranges may grow at its end.
grow-AllSeparated :
    (xs : List SlotRange) (a b : SlotRange)
    → b.start ≡ a.start
    → IsForward b
    → AllSeparated (xs ++ a ∷ [])
    → AllSeparated (xs ++ b ∷ [])
grow-AllSeparated [] a b e f h = f
grow-AllSeparated (x ∷ []) a b e f h = (h.0, omega arith, f)
grow-AllSeparated (x ∷ y ∷ xs) a b e f h = (h.0, h.1, grow-AllSeparated (y ∷ xs) a b e f h.2)

-- A range with a free slot before it may be put behind the last.
push-AllSeparated :
    (xs : List SlotRange) (a b : SlotRange)
    → a.end < b.start
    → IsForward b
    → AllSeparated (xs ++ a ∷ [])
    → AllSeparated ((xs ++ a ∷ []) ++ b ∷ [])
push-AllSeparated [] a b lt f h = (h, lt, f)
push-AllSeparated (x ∷ []) a b lt f h = (h.0, h.1, push-AllSeparated [] a b lt f h.2)
push-AllSeparated (x ∷ y ∷ xs) a b lt f h = (h.0, h.1, push-AllSeparated (y ∷ xs) a b lt f h.2)

collapse-AllSeparated :
    (collapsed : List SlotRange) (current : SlotRange) (rs : List SlotRange)
    → IsForward current
    → AllSeparated (collapsed ++ current ∷ [])
    → IsOrderedFrom current.end rs
    → AllSeparated (collapse collapsed current rs)
unfolding collapse
collapse-AllSeparated collapsed current [] f s h = s
collapse-AllSeparated collapsed current (r ∷ rs) f s h =
    elim (Bool-cases (current.end == r.start)) [
      | inl e ↦
          rw (AllSeparated, e)
            (collapse-AllSeparated collapsed (record current { end = r.end }) rs (ground arith)
              (grow-AllSeparated collapsed current (record current { end = r.end }) refl
                (ground arith) s)
              h.2)
      | inr e ↦
          rw (AllSeparated, e)
            (collapse-AllSeparated (collapsed ++ current ∷ []) r rs h.1
              (push-AllSeparated collapsed current r (ground arith) h.1 s) h.2)
    ]

collapse_all-AllSeparated :
    (rs : List SlotRange) → IsOrderedFrom 0 rs → AllSeparated (collapse_all rs)
unfolding collapse_all
collapse_all-AllSeparated [] h = tt
collapse_all-AllSeparated (r ∷ rs) h = collapse-AllSeparated [] r rs h.1 h.1 h.2

-- For ranges that do not run backwards and that are apart from each other, in whatever order, the
-- merge holds the same slots, and its ranges come in order with at least one slot free between any
-- two neighbours.
pub merge_adjacent_ranges_lem :
    (rs : List SlotRange)
    → AllApart rs
    → ((slot : ℕ) → covers slot (merge_adjacent_ranges rs) ≡ covers slot rs)
      × AllSeparated (merge_adjacent_ranges rs)
unfolding merge_adjacent_ranges
merge_adjacent_ranges_lem rs h = (
  λ slot. covers-merge slot rs (IsForward-of_apart rs h),
  collapse_all-AllSeparated _ (sort-IsOrderedFrom rs h),
)
