-- ===== src/Location/Timeline.antt =====
-- `build_proximity_timeline` of domain/location.py with its passes over the anchors.
pub mod Sorted
pub mod Bridging
use littleorbit.Prelude.{
  ℕ, ◌+◌, ◌-◌, min, max, Bool, true, false, not, ◌&&◌, ◌||◌, Option, none, some, List, [], ◌∷◌,
  ◌++◌, ltb, leb, keep, if◌then◌else◌,
}
use littleorbit.Location.Types.{
  Point, TimedPoint, EvidenceAnchor, EvidenceState, EvidenceKind, MinuteEstimate, ProximityTimeline,
  max_counted_interval, max_bridged_interval,
}
use littleorbit.Location.Proximity.{anchor}
use littleorbit.Location.Streams.{Observation, deduplicate, group_events}
use littleorbit.Location.Minutes.{larger, split_minutes}

-- new or latest
abbrev pub newest : Option TimedPoint → Option TimedPoint → Option TimedPoint
newest (some a) latest = some a
newest none latest = latest

-- the loop over the events: one anchor for each, from the latest sample of each phone
pub anchors_from :
    (Point → Point → ℕ)
    → ℕ
    → Option TimedPoint
    → Option TimedPoint
    → List Observation
    → List EvidenceAnchor
anchors_from d threshold l r [] = []
anchors_from d threshold l r (o ∷ os) =
    let l' = newest o.new_left l in
    let r' = newest o.new_right r in
    anchor d o.instant l' r' threshold ∷ anchors_from d threshold l' r' os

unfoldable pub is_state : EvidenceState → EvidenceState → Bool
is_state EvidenceState.waiting_for_partner EvidenceState.waiting_for_partner = true
is_state EvidenceState.nearby EvidenceState.nearby = true
is_state EvidenceState.apart EvidenceState.apart = true
is_state EvidenceState.poor_accuracy EvidenceState.poor_accuracy = true
is_state EvidenceState.stale EvidenceState.stale = true
is_state _ _ = false

-- _pair_kind
pub pair_kind : EvidenceAnchor → EvidenceAnchor → EvidenceKind
unfolding is_state
pair_kind previous current =
    if is_state previous.state EvidenceState.nearby
      && (is_state current.state EvidenceState.nearby
          && leb current.recorded_at (previous.recorded_at + max_counted_interval))
    then EvidenceKind.observed
    else if is_state previous.state EvidenceState.apart
        || is_state current.state EvidenceState.apart
    then EvidenceKind.apart
    else if is_state previous.state EvidenceState.poor_accuracy
        || is_state current.state EvidenceState.poor_accuracy
    then EvidenceKind.poor_accuracy
    else EvidenceKind.unverified

-- _interval_distance
pub interval_distance : EvidenceAnchor → EvidenceAnchor → Option ℕ
interval_distance previous current = larger previous.measured_distance current.measured_distance

abbrev pub clipped_start : ℕ → Option ℕ → ℕ
clipped_start t none = t
clipped_start t (some c) = max t c

abbrev pub clipped_end : ℕ → Option ℕ → ℕ
clipped_end t none = t
clipped_end t (some c) = min t c

-- the shared end of `_add_pair_interval` and `_add_bridge`
pub add_interval :
    EvidenceKind
    → EvidenceAnchor
    → EvidenceAnchor
    → Option ℕ
    → Option ℕ
    → List MinuteEstimate
    → List MinuteEstimate
unfolding interval_distance
add_interval kind previous current clip_start clip_end es =
    let start = clipped_start previous.recorded_at clip_start in
    let end = clipped_end current.recorded_at clip_end in
    if leb end start
    then es
    else split_minutes es start end (interval_distance previous current) kind

-- _add_pair_interval
pub add_pair_interval :
    EvidenceAnchor
    → EvidenceAnchor
    → Option ℕ
    → Option ℕ
    → List MinuteEstimate
    → List MinuteEstimate
unfolding pair_kind add_interval
add_pair_interval previous current clip_start clip_end es =
    if leb current.recorded_at previous.recorded_at
    then es
    else add_interval (pair_kind previous current) previous current clip_start clip_end es

-- for previous, current in pairwise(anchors)
pub add_pairs :
    List EvidenceAnchor → Option ℕ → Option ℕ → List MinuteEstimate → List MinuteEstimate
unfolding add_pair_interval
add_pairs [] cs ce es = es
add_pairs (a ∷ []) cs ce es = es
add_pairs (a ∷ b ∷ l) cs ce es = add_pairs (b ∷ l) cs ce (add_pair_interval a b cs ce es)

-- the test of `_add_confirmed_bridges` on the gap
pub is_bridge_gap : EvidenceAnchor → EvidenceAnchor → Bool
is_bridge_gap last current =
    ltb (last.recorded_at + max_counted_interval) current.recorded_at
    && leb current.recorded_at (last.recorded_at + max_bridged_interval)

abbrev pub bridge_of :
    Option EvidenceAnchor → Bool → EvidenceAnchor → List (EvidenceAnchor × EvidenceAnchor)
bridge_of none blocked current = []
bridge_of (some last) blocked current =
    if not blocked && is_bridge_gap last current then (last, current) ∷ [] else []

-- The loop of `_add_confirmed_bridges`, as the list of the pairs for which it calls `_add_bridge`.
pub bridges :
    Option EvidenceAnchor → Bool → List EvidenceAnchor → List (EvidenceAnchor × EvidenceAnchor)
unfolding is_state is_bridge_gap
bridges last blocked [] = []
bridges last blocked (current ∷ l) =
    let reset = bridges none true l in
    let skip = bridges last blocked l in
    let found = bridge_of last blocked current ++ bridges (some current) false l in
    if is_state current.state EvidenceState.apart
      || is_state current.state EvidenceState.poor_accuracy
    then reset
    else if not (is_state current.state EvidenceState.nearby)
    then skip
    else found

pub add_bridges :
    List (EvidenceAnchor × EvidenceAnchor)
    → Option ℕ
    → Option ℕ
    → List MinuteEstimate
    → List MinuteEstimate
unfolding add_interval
add_bridges [] cs ce es = es
add_bridges ((p, c) ∷ l) cs ce es =
    add_bridges l cs ce (add_interval EvidenceKind.bridged p c cs ce es)

-- tuple(estimates[key] for key in sorted(estimates))
pub insert_estimate : MinuteEstimate → List MinuteEstimate → List MinuteEstimate
insert_estimate e [] = e ∷ []
insert_estimate e (x ∷ xs) =
    if leb e.bucket_start x.bucket_start then e ∷ x ∷ xs else x ∷ insert_estimate e xs

pub sort_estimates : List MinuteEstimate → List MinuteEstimate
unfolding insert_estimate
sort_estimates [] = []
sort_estimates (e ∷ es) = insert_estimate e (sort_estimates es)

pub build_proximity_timeline :
    (Point → Point → ℕ)
    → List TimedPoint
    → List TimedPoint
    → ℕ
    → Option ℕ
    → Option ℕ
    → ProximityTimeline
unfolding anchors_from add_pairs bridges add_bridges sort_estimates
build_proximity_timeline d left right threshold cs ce =
    let events = group_events (deduplicate left) (deduplicate right) in
    let anchors = anchors_from d threshold none none events in
    let direct = add_pairs anchors cs ce [] in
    let all = add_bridges (bridges none false anchors) cs ce direct in
    record { anchors = anchors; estimates = sort_estimates all }

-- estimate_nearby_minutes
unfoldable pub estimate_nearby_minutes :
    (Point → Point → ℕ) → List TimedPoint → List TimedPoint → ℕ → List MinuteEstimate
unfolding build_proximity_timeline
estimate_nearby_minutes d left right threshold =
    keep (λ e. ltb 0 e.duration_seconds)
      (build_proximity_timeline d left right threshold none none).estimates
