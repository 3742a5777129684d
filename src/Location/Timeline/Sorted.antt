-- ===== src/Location/Timeline/Sorted.antt =====
-- What every timeline's estimates satisfy, whatever the samples.
use littleorbit.Prelude.{
  ℕ, ◌<◌, Bool, true, false, inl, inr, Option, none, List, [], ◌∷◌, arith, leb, Bool-cases, All,
  if◌then◌else◌,
}
use littleorbit.Location.Types.{Point, TimedPoint, EvidenceAnchor, EvidenceKind, MinuteEstimate}
use littleorbit.Location.Minutes.Buckets.{
  IsBucket, IsApart, Distinct, IsValid, split_minutes-IsValid,
}
use littleorbit.Location.Timeline.{
  pair_kind, interval_distance, clipped_start, clipped_end, add_interval, add_pair_interval,
  add_pairs, bridges, add_bridges, insert_estimate, sort_estimates, build_proximity_timeline,
}

module _ (cs ce : Option ℕ) where
  add_interval-IsValid :
      (k : EvidenceKind) (p c : EvidenceAnchor) (es : List MinuteEstimate)
      → IsValid es
      → IsValid (add_interval k p c cs ce es)
  unfolding add_interval
  add_interval-IsValid k p c es h =
      elim (Bool-cases (leb (clipped_end c.recorded_at ce) (clipped_start p.recorded_at cs))) [
        | inl nothing ↦ rw (nothing, add_interval) h
        | inr some_time ↦
            rw (some_time, add_interval)
              (split_minutes-IsValid es _ _ (interval_distance p c) k (ground arith) h)
      ]

  add_pairs-IsValid :
      (l : List EvidenceAnchor) (es : List MinuteEstimate)
      → IsValid es
      → IsValid (add_pairs l cs ce es)
  unfolding add_pairs add_pair_interval
  add_pairs-IsValid [] es h = h
  add_pairs-IsValid (a ∷ []) es h = h
  add_pairs-IsValid (a ∷ b ∷ l) es h =
      add_pairs-IsValid (b ∷ l) (add_pair_interval a b cs ce es)
        (pair (leb b.recorded_at a.recorded_at))
    where
      pair : (t : Bool) → IsValid (if t then es else add_interval (pair_kind a b) a b cs ce es)
      pair true = h
      pair false = add_interval-IsValid (pair_kind a b) a b es h

  add_bridges-IsValid :
      (l : List (EvidenceAnchor × EvidenceAnchor)) (es : List MinuteEstimate)
      → IsValid es
      → IsValid (add_bridges l cs ce es)
  unfolding add_bridges
  add_bridges-IsValid [] es h = h
  add_bridges-IsValid ((p, c) ∷ l) es h =
      add_bridges-IsValid l _ (add_interval-IsValid EvidenceKind.bridged p c es h)

-- Strictly growing minutes.
abbrev pub Rises : List MinuteEstimate → Type 0
Rises [] = Unit {0}
Rises (e ∷ es) = All (λ f. e.bucket_start < f.bucket_start) es × Rises es

insert_estimate-All :
    (P : MinuteEstimate → Type 0) (e : MinuteEstimate) (es : List MinuteEstimate)
    → P e
    → All P es
    → All P (insert_estimate e es)
unfolding insert_estimate
insert_estimate-All P e [] p h = (p, tt)
insert_estimate-All P e (x ∷ xs) p h = elim (Bool-cases (leb e.bucket_start x.bucket_start)) [
  | inl le ↦ rw (le, insert_estimate) (p, h)
  | inr gt ↦ rw (gt, insert_estimate) (h.0, insert_estimate-All P e xs p h.1)
]

sort_estimates-All :
    (P : MinuteEstimate → Type 0) (es : List MinuteEstimate) → All P es → All P (sort_estimates es)
unfolding sort_estimates
sort_estimates-All P [] h = h
sort_estimates-All P (e ∷ es) h =
    insert_estimate-All P e (sort_estimates es) h.0 (sort_estimates-All P es h.1)

All-above :
    (a b : ℕ) (es : List MinuteEstimate)
    → a < b
    → All (λ f. b < f.bucket_start) es
    → All (λ f. a < f.bucket_start) es
All-above a b [] h l = tt
All-above a b (e ∷ es) h l = (omega arith, All-above a b es h l.1)

insert_estimate-Rises :
    (e : MinuteEstimate) (es : List MinuteEstimate)
    → All (IsApart e) es
    → Rises es
    → Rises (insert_estimate e es)
unfolding insert_estimate
insert_estimate-Rises e [] a r = (tt, tt)
insert_estimate-Rises e (x ∷ xs) a r = elim (Bool-cases (leb e.bucket_start x.bucket_start)) [
  | inl le ↦
      let lt : e.bucket_start < x.bucket_start = ground (arith, a.0) in
      rw (le, insert_estimate) ((lt, All-above e.bucket_start x.bucket_start xs lt r.0), r)
  | inr gt ↦
      rw (gt, insert_estimate)
        (
          insert_estimate-All (λ f. x.bucket_start < f.bucket_start) e xs (ground arith) r.0,
          insert_estimate-Rises e xs a.1 r.1,
        )
]

sort_estimates-Rises : (es : List MinuteEstimate) → Distinct es → Rises (sort_estimates es)
unfolding sort_estimates
sort_estimates-Rises [] h = tt
sort_estimates-Rises (e ∷ es) h =
    insert_estimate-Rises e (sort_estimates es) (sort_estimates-All (IsApart e) es h.0)
      (sort_estimates-Rises es h.1)

-- Whatever the two streams and the clipping, a timeline has one well-formed estimate at most for each
-- minute, in the order of the minutes.
pub build_proximity_timeline-IsValid :
    (d : Point → Point → ℕ) (left right : List TimedPoint) (threshold : ℕ) (cs ce : Option ℕ)
    → let t = build_proximity_timeline d left right threshold cs ce in
      All IsBucket t.estimates × Rises t.estimates
unfolding build_proximity_timeline
build_proximity_timeline-IsValid d left right threshold cs ce =
    let t = build_proximity_timeline d left right threshold cs ce in
    let direct = add_pairs-IsValid cs ce t.anchors [] (tt, tt) in
    let all = add_bridges-IsValid cs ce (bridges none false t.anchors) _ direct in
    (sort_estimates-All IsBucket _ all.0, sort_estimates-Rises _ all.1)
