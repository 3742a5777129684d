-- ===== src/Together/Ranges.antt =====
-- What the ranges of `_recompute_ranges` look like, and what they cover.
use littleorbit.Prelude.{
  ℕ, ◌≤◌, ◌<◌, Bool, false, ◌&&◌, ◌||◌, Option, none, some, List, [], ◌∷◌, map, ◌==◌, ltb, leb,
  keep, arith, All, Bool-cases, inl, inr,
}
use littleorbit.Together.{Range, sort_ranges, window, is_recent, extended, merge, recompute_ranges}

abbrev Below : Option ℕ → ℕ → Type 0
Below none s = Unit {0}
Below (some p) s = p < s

-- No range is empty, and each begins after the end of the one before; the first after the bound.
abbrev pub IsSeparate : Option ℕ → List Range → Type 0
IsSeparate bound [] = Unit {0}
IsSeparate bound (a ∷ more) = Below bound a.start × (a.start < a.end) × IsSeparate (some a.end) more

merge-IsSeparate-some :
    (bound : Option ℕ) (m : Range) (rs : List Range)
    → Below bound m.start
    → m.start < m.end
    → IsSeparate bound (merge (some m) rs)
unfolding merge
merge-IsSeparate-some bound m [] b n = (b, n, tt)
merge-IsSeparate-some bound m (r ∷ rs) b n = elim (Bool-cases (leb r.end r.start)) [
  | inl empty ↦ rw empty (merge-IsSeparate-some bound m rs b n)
  | inr full ↦ elim (Bool-cases (leb r.start m.end)) [
    | inl near ↦
        rw (full, near) (merge-IsSeparate-some bound (extended (some m) r) rs b (ground arith))
    | inr far ↦
        rw (full, far) (b, n, merge-IsSeparate-some (some m.end) r rs (ground arith) (ground arith))
  ]
]

merge-IsSeparate : (rs : List Range) → IsSeparate none (merge none rs)
unfolding merge
merge-IsSeparate [] = tt
merge-IsSeparate (r ∷ rs) = elim (Bool-cases (leb r.end r.start)) [
  | inl empty ↦ rw empty (merge-IsSeparate rs)
  | inr full ↦ rw full (merge-IsSeparate-some none r rs tt (ground arith))
]

-- The half-open ranges that hold a moment.
abbrev pub contains : ℕ → Range → Bool
contains x r = leb r.start x && ltb x r.end

pub covers : ℕ → List Range → Bool
covers x [] = false
covers x (r ∷ rs) = contains x r || covers x rs

-- Every range starts at `s` or later.
abbrev IsFrom : ℕ → List Range → Type 0
IsFrom s rs = All (λ r. s ≤ r.start) rs

abbrev Ascends : List Range → Type 0
Ascends [] = Unit {0}
Ascends (r ∷ rs) = IsFrom r.start rs × Ascends rs

-- `v` stands in the list.
abbrev pub is_changed : ℕ → List ℕ → Bool
is_changed v [] = false
is_changed v (t ∷ ts) = t == v || is_changed v ts

-- The ranges to recompute are not empty, and each begins after the end of the one before.
pub recompute_ranges-IsSeparate :
    (changed_at : List ℕ) (safe_start now : ℕ)
    → IsSeparate none (recompute_ranges changed_at safe_start now)
unfolding recompute_ranges
recompute_ranges-IsSeparate changed_at safe_start now =
    merge-IsSeparate
      (sort_ranges (map (window safe_start now) (keep (is_recent safe_start now) changed_at)))
