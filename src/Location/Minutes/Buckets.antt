-- ===== src/Location/Minutes/Buckets.antt =====
-- The well-formedness of the minute estimates of `_split_minutes` of domain/location.py.
use littleorbit.Prelude.{
  ℕ, ◌+◌, ◌-◌, ◌/◌, ◌%◌, ◌≤◌, ◌≡◌, ◌≢◌, min, inl, inr, Option, some, List, [], ◌∷◌, arith, ltb,
  ◌==◌, Bool-cases, All, subst,
}
use littleorbit.Location.Types.{MinuteEstimate, EvidenceKind, second, minute}
use littleorbit.Location.Minutes.{
  Components, Segment, components, add_component, merged_components, component_kind, get_estimate,
  set_estimate, make_estimate, merged_distance, add_segment, add_segments, split_minutes,
}
use littleorbit.Location.Minutes.Cover.{Covers, segments_cover}

-- A stored estimate: a whole minute, components of at most a minute each, and the derived fields
-- derived from them.
pub record IsBucket (e : MinuteEstimate) : Type 0 where
  pub aligned : e.bucket_start % minute ≡ 0
  pub observed_fits : e.observed_seconds ≤ 60
  pub bridged_fits : e.bridged_seconds ≤ 60
  pub unverified_fits : e.unverified_seconds ≤ 60
  pub apart_fits : e.apart_seconds ≤ 60
  pub poor_accuracy_fits : e.poor_accuracy_seconds ≤ 60
  pub counted : e.duration_seconds ≡ min 60 (e.observed_seconds + e.bridged_seconds)
  pub kind_fits : e.evidence_kind ≡ component_kind (components (some e))

-- No two estimates stand for one minute.
abbrev pub IsApart : MinuteEstimate → MinuteEstimate → Type 0
IsApart e f = e.bucket_start ≢ f.bucket_start

abbrev pub Distinct : List MinuteEstimate → Type 0
Distinct [] = Unit {0}
Distinct (e ∷ es) = All (IsApart e) es × Distinct es

abbrev pub IsValid : List MinuteEstimate → Type 0
IsValid es = All IsBucket es × Distinct es

abbrev pub Fits : Components → Type 0
Fits v =
    (v.observed ≤ 60)
    × (v.bridged ≤ 60)
    × (v.unverified ≤ 60)
    × (v.apart ≤ 60)
    × (v.poor_accuracy ≤ 60)

add_component-Fits :
    (k : EvidenceKind) (n : ℕ) (v : Components) → Fits v → Fits (add_component k n v)
unfolding add_component
add_component-Fits EvidenceKind.observed n v h = omega arith
add_component-Fits EvidenceKind.bridged n v h = omega arith
add_component-Fits EvidenceKind.unverified n v h = omega arith
add_component-Fits EvidenceKind.apart n v h = omega arith
add_component-Fits EvidenceKind.poor_accuracy n v h = omega arith
add_component-Fits EvidenceKind.mixed n v h = h

get_estimate-Fits :
    (k : ℕ) (es : List MinuteEstimate) → All IsBucket es → Fits (components (get_estimate k es))
unfolding get_estimate components
get_estimate-Fits k [] h = omega arith
get_estimate-Fits k (e ∷ es) h = elim (Bool-cases (e.bucket_start == k)) [
  | inl here ↦ rw (here, get_estimate) (fields e h.0)
  | inr there ↦ rw (there, get_estimate) (get_estimate-Fits k es h.1)
]
  where
    fields : (e : MinuteEstimate) → IsBucket e → Fits (components (some e))
    fields e b =
        (b.observed_fits, b.bridged_fits, b.unverified_fits, b.apart_fits, b.poor_accuracy_fits)

make_estimate-IsBucket :
    (b : ℕ) (v : Components) (d : Option ℕ)
    → b % minute ≡ 0
    → Fits v
    → IsBucket (make_estimate b v d)
unfolding make_estimate components
make_estimate-IsBucket b v d h f = ground arith

pub set_estimate-All :
    (P : MinuteEstimate → Type 0) (v : MinuteEstimate) (es : List MinuteEstimate)
    → P v
    → All P es
    → All P (set_estimate v es)
unfolding set_estimate
set_estimate-All P v [] hv h = (hv, tt)
set_estimate-All P v (e ∷ es) hv h = elim (Bool-cases (e.bucket_start == v.bucket_start)) [
  | inl same ↦ rw (same, set_estimate) (hv, h.1)
  | inr other ↦ rw (other, set_estimate) (h.0, set_estimate-All P v es hv h.1)
]

set_estimate-Distinct :
    (v : MinuteEstimate) (es : List MinuteEstimate) → Distinct es → Distinct (set_estimate v es)
unfolding set_estimate
set_estimate-Distinct v [] h = (tt, tt)
set_estimate-Distinct v (e ∷ es) h = elim (Bool-cases (e.bucket_start == v.bucket_start)) [
  | inl same ↦
      let eq : e.bucket_start ≡ v.bucket_start = ground arith in
      rw (same, set_estimate) (subst (λ (k : ℕ). All (λ f. k ≢ f.bucket_start) es) eq h.0, h.1)
  | inr other ↦
      rw (other, set_estimate)
        (set_estimate-All (IsApart e) v es (λ eq. ground arith) h.0, set_estimate-Distinct v es h.1)
]

add_segment-IsValid :
    (d : Option ℕ) (k : EvidenceKind) (s : Segment) (es : List MinuteEstimate)
    → s.bucket % minute ≡ 0
    → IsValid es
    → IsValid (add_segment d k s es)
unfolding add_segment merged_components
add_segment-IsValid d k s es a h =
    let span = (s.until - s.from) / second in
    let old = get_estimate s.bucket es in
    let v = add_component k span (components old) in
    let new = make_estimate s.bucket v (merged_distance old d) in
    let fits = add_component-Fits k span (components old) (get_estimate-Fits s.bucket es h.0) in
    elim (Bool-cases (ltb 0 span)) [
      | inl some_time ↦
          rw (some_time, add_segment)
            (
              set_estimate-All IsBucket new es
                  (make_estimate-IsBucket s.bucket v (merged_distance old d) a fits) h.0,
              set_estimate-Distinct new es h.1,
            )
      | inr no_time ↦ rw (no_time, add_segment) h
    ]

add_segments-IsValid :
    (d : Option ℕ) (k : EvidenceKind) (cursor end : ℕ) (ss : List Segment)
    (es : List MinuteEstimate)
    → Covers cursor end ss
    → IsValid es
    → IsValid (add_segments d k ss es)
unfolding add_segments
add_segments-IsValid d k cursor end [] es c h = h
add_segments-IsValid d k cursor end (s ∷ ss) es c h =
    add_segments-IsValid d k s.until end ss (add_segment d k s es) c.1
      (add_segment-IsValid d k s es (omega arith) h)

-- Adding an interval keeps the estimates well formed and keyed by distinct minutes.
pub split_minutes-IsValid :
    (es : List MinuteEstimate) (start end : ℕ) (d : Option ℕ) (k : EvidenceKind)
    → start ≤ end
    → IsValid es
    → IsValid (split_minutes es start end d k)
unfolding split_minutes
split_minutes-IsValid es start end d k le h =
    add_segments-IsValid d k start end _ es (segments_cover start end le) h
