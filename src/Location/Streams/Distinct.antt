-- ===== src/Location/Streams/Distinct.antt =====
-- What `_deduplicate` of domain/location.py returns.
use littleorbit.Prelude.{
  ℕ, ◌≡◌, refl, ap, ◌∙◌, Bool, true, false, ◌||◌, inl, inr, List, [], ◌∷◌, ◌++◌, arith, ◌==◌,
  Bool-cases, All, if◌then◌else◌,
}
use littleorbit.Location.Types.{TimedPoint}
use littleorbit.Location.Streams.{
  key_le, insert_by_key, sort_samples, has_id, first_by_id, deduplicate,
}

has_id-insert :
    (k : ℕ) (a : TimedPoint) (l : List TimedPoint)
    → has_id k (insert_by_key a l) ≡ (a.sample_id == k || has_id k l)
unfolding has_id insert_by_key
has_id-insert k a [] = refl
has_id-insert k a (b ∷ l) = ground (arith, has_id-insert k a l)

has_id-sort : (k : ℕ) (l : List TimedPoint) → has_id k (sort_samples l) ≡ has_id k l
unfolding has_id sort_samples
has_id-sort k [] = refl
has_id-sort k (a ∷ l) =
    has_id-insert k a (sort_samples l) ∙ ap (λ b. a.sample_id == k || b) (has_id-sort k l)

has_id-append :
    (k : ℕ) (a : TimedPoint) (l : List TimedPoint)
    → has_id k (l ++ a ∷ []) ≡ (has_id k l || a.sample_id == k)
unfolding has_id
has_id-append k a [] = ground arith
has_id-append k a (b ∷ l) = ground (arith, has_id-append k a l)

has_id-first_by_id :
    (k : ℕ) (u l : List TimedPoint) → has_id k (first_by_id u l) ≡ (has_id k u || has_id k l)
unfolding has_id first_by_id
has_id-first_by_id k u [] = ground arith
has_id-first_by_id k u (a ∷ l) = elim (Bool-cases (has_id a.sample_id u)) [
  | inl old ↦ ground (arith, old, has_id-first_by_id k u l)
  | inr new ↦ ground (arith, new, has_id-first_by_id k (u ++ a ∷ []) l, has_id-append k a u)
]

-- No id occurs twice.
abbrev pub Distinct : List TimedPoint → Type 0
Distinct [] = Unit {0}
Distinct (a ∷ l) = (has_id a.sample_id l ≡ false) × Distinct l

Distinct-append :
    (a : TimedPoint) (l : List TimedPoint)
    → has_id a.sample_id l ≡ false
    → Distinct l
    → Distinct (l ++ a ∷ [])
unfolding has_id
Distinct-append a [] n d = (refl, tt)
Distinct-append a (b ∷ l) n d =
    (ground (arith, has_id-append b.sample_id a l, d.0), Distinct-append a l (ground arith) d.1)

Distinct-first_by_id : (u l : List TimedPoint) → Distinct u → Distinct (first_by_id u l)
unfolding first_by_id
Distinct-first_by_id u [] d = d
Distinct-first_by_id u (a ∷ l) d =
    Distinct-first_by_id (if has_id a.sample_id u then u else u ++ a ∷ []) l
      (next (has_id a.sample_id u) refl)
  where
    next : (b : Bool) → has_id a.sample_id u ≡ b → Distinct (if b then u else u ++ a ∷ [])
    next true h = d
    next false h = Distinct-append a u h d

Distinct-insert :
    (a : TimedPoint) (l : List TimedPoint)
    → has_id a.sample_id l ≡ false
    → Distinct l
    → Distinct (insert_by_key a l)
unfolding insert_by_key has_id
Distinct-insert a [] n d = (refl, tt)
Distinct-insert a (b ∷ l) n d = elim (Bool-cases (key_le a b)) [
  | inl le ↦ rw (le, insert_by_key) (n, d)
  | inr gt ↦
      rw (gt, insert_by_key)
        (ground (arith, has_id-insert b.sample_id a l, d.0), Distinct-insert a l (ground arith) d.1)
]

Distinct-sort : (l : List TimedPoint) → Distinct l → Distinct (sort_samples l)
unfolding sort_samples
Distinct-sort [] d = d
Distinct-sort (a ∷ l) d =
    Distinct-insert a (sort_samples l) (has_id-sort a.sample_id l ∙ d.0) (Distinct-sort l d.1)

-- Each sample is at or before all that follow it.
abbrev pub Ordered : List TimedPoint → Type 0
Ordered [] = Unit {0}
Ordered (a ∷ l) = All (λ b. key_le a b ≡ true) l × Ordered l

All-insert :
    (P : TimedPoint → Type 0) (a : TimedPoint) (l : List TimedPoint)
    → P a
    → All P l
    → All P (insert_by_key a l)
unfolding insert_by_key
All-insert P a [] p h = (p, tt)
All-insert P a (b ∷ l) p h = elim (Bool-cases (key_le a b)) [
  | inl le ↦ rw (le, insert_by_key) (p, h)
  | inr gt ↦ rw (gt, insert_by_key) (h.0, All-insert P a l p h.1)
]

All-key_le :
    (a b : TimedPoint) (l : List TimedPoint)
    → key_le a b ≡ true
    → All (λ c. key_le b c ≡ true) l
    → All (λ c. key_le a c ≡ true) l
unfolding key_le
All-key_le a b [] h k = tt
All-key_le a b (c ∷ l) h k = (ground (arith, k.0), All-key_le a b l h k.1)

key_le_total : (a b : TimedPoint) → key_le a b ≡ false → key_le b a ≡ true
unfolding key_le
key_le_total a b h = ground arith

Ordered-insert : (a : TimedPoint) (l : List TimedPoint) → Ordered l → Ordered (insert_by_key a l)
unfolding insert_by_key
Ordered-insert a [] o = (tt, tt)
Ordered-insert a (b ∷ l) o = elim (Bool-cases (key_le a b)) [
  | inl le ↦ rw (le, insert_by_key) ((le, All-key_le a b l le o.0), o)
  | inr gt ↦
      rw (gt, insert_by_key)
        (All-insert (λ c. key_le b c ≡ true) a l (key_le_total a b gt) o.0, Ordered-insert a l o.1)
]

Ordered-sort : (l : List TimedPoint) → Ordered (sort_samples l)
unfolding sort_samples
Ordered-sort [] = tt
Ordered-sort (a ∷ l) = Ordered-insert a (sort_samples l) (Ordered-sort l)

-- `_deduplicate` keeps every sample id of its input, each once, ordered by time and id.
pub deduplicate_lem :
    (samples : List TimedPoint)
    → Distinct (deduplicate samples)
      × Ordered (deduplicate samples)
      × ((k : ℕ) → has_id k (deduplicate samples) ≡ has_id k samples)
unfolding deduplicate has_id
deduplicate_lem samples =
    let u = first_by_id [] (sort_samples samples) in
    (
      Distinct-sort u (Distinct-first_by_id [] (sort_samples samples) tt),
      Ordered-sort u,
      λ k. has_id-sort k u ∙ has_id-first_by_id k [] (sort_samples samples) ∙ has_id-sort k samples,
    )
