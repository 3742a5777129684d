-- ===== src/Location/Proximity.antt =====
-- `raw_location_expires_at`, `decide_proximity` and `_anchor` of domain/location.py. The great-circle
-- distance `haversine_m` (radians, sin, cos, asin, sqrt of Python's math) is the parameter `distance`.
pub mod Classes
use littleorbit.Prelude.{
  ℕ, ◌+◌, ◌-◌, ◌*◌, min, max, Bool, true, false, ◌&&◌, ◌||◌, Option, none, some, ltb, leb,
  if◌then◌else◌,
}
use littleorbit.Location.Types.{
  Point, ProximityDecision, TimedPoint, EvidenceAnchor, EvidenceState, max_sample_skew,
  max_mutual_evidence_age,
}

abbrev pub raw_location_retention : ℕ
raw_location_retention = 24 * 3_600_000_000

abbrev pub privacy_maintenance_interval : ℕ
privacy_maintenance_interval = 5 * 60_000_000

-- The instant is in UTC already: a naive datetime, which the source refuses, is no instant.
pub raw_location_expires_at : ℕ → ℕ
raw_location_expires_at recorded_at =
    recorded_at + raw_location_retention - privacy_maintenance_interval

-- the classification of two fresh samples
unfoldable pub decided_state : ProximityDecision → ℕ → EvidenceState
decided_state d threshold =
    if d.together
    then EvidenceState.nearby
    else if ltb threshold d.minimum_distance
    then EvidenceState.apart
    else EvidenceState.poor_accuracy

-- skew > MAX_SAMPLE_SKEW or older_age > MAX_MUTUAL_EVIDENCE_AGE
unfoldable pub is_stale : ℕ → TimedPoint → TimedPoint → Bool
is_stale recorded_at l r =
    let older = min l.recorded_at r.recorded_at in
    let newer = max l.recorded_at r.recorded_at in
    ltb (older + max_sample_skew) newer || ltb (older + max_mutual_evidence_age) recorded_at

abbrev pub waiting_anchor : ℕ → Option TimedPoint → Option TimedPoint → EvidenceAnchor
waiting_anchor recorded_at left right = record {
  recorded_at = recorded_at;
  state = EvidenceState.waiting_for_partner;
  measured_distance = none;
  left = left;
  right = right;
}

module _ (distance : Point → Point → ℕ) where
  unfoldable pub decide_proximity : Point → Point → ℕ → ProximityDecision
  decide_proximity left right threshold =
      let measured = distance left right in
      let uncertainty = left.accuracy + right.accuracy in
      let minimum = measured - uncertainty in
      let maximum = measured + uncertainty in
      let definite = leb maximum threshold in
      let likely = leb measured threshold && leb (max left.accuracy right.accuracy) threshold in
      record {
        measured_distance = measured;
        minimum_distance = minimum;
        maximum_distance = maximum;
        together = definite || likely;
        uncertain = leb minimum threshold && ltb threshold maximum;
      }

  unfoldable pub both_anchor : ℕ → TimedPoint → TimedPoint → ℕ → EvidenceAnchor
  unfolding decide_proximity decided_state is_stale
  both_anchor recorded_at l r threshold =
      if is_stale recorded_at l r
      then record {
        recorded_at = recorded_at;
        state = EvidenceState.stale;
        measured_distance = none;
        left = some l;
        right = some r;
      }
      else (let decision = decide_proximity l.point r.point threshold in
          record {
            recorded_at = recorded_at;
            state = decided_state decision threshold;
            measured_distance = some decision.measured_distance;
            left = some l;
            right = some r;
          })

  -- _anchor
  unfoldable pub anchor : ℕ → Option TimedPoint → Option TimedPoint → ℕ → EvidenceAnchor
  unfolding both_anchor
  anchor recorded_at (some l) (some r) threshold = both_anchor recorded_at l r threshold
  anchor recorded_at (some l) none threshold = waiting_anchor recorded_at (some l) none
  anchor recorded_at none right threshold = waiting_anchor recorded_at none right
