-- ===== src/Location/Proximity/Classes.antt =====
-- What the classification of two samples means.
use littleorbit.Prelude.{ℕ, ◌+◌, ◌≤◌, ◌<◌, ◌≡◌, max, min, ◌↔◌, ◌⊎◌, some, arith}
use littleorbit.Location.Types.{
  Point, TimedPoint, EvidenceState, max_sample_skew, max_mutual_evidence_age,
}
use littleorbit.Location.Proximity.{
  decide_proximity, decided_state, is_stale, both_anchor, anchor, raw_location_expires_at,
  raw_location_retention,
}

-- A raw sample expires at least one maintenance round, five minutes, before its 24-hour ceiling.
pub raw_location_expires_early :
    (recorded_at : ℕ)
    → raw_location_expires_at recorded_at + 300_000_000 ≡ recorded_at + raw_location_retention
unfolding raw_location_expires_at
raw_location_expires_early recorded_at = omega arith

module _ (distance : Point → Point → ℕ) (t : ℕ) (l r : TimedPoint) (threshold : ℕ) where
  -- The samples are fresh: five minutes apart at most, the older at most five minutes old.
  abbrev pub Fresh : Type 0
  Fresh =
      (max l.recorded_at r.recorded_at ≤ min l.recorded_at r.recorded_at + max_sample_skew)
      × (t ≤ min l.recorded_at r.recorded_at + max_mutual_evidence_age)

  abbrev pub measured : ℕ
  measured = distance l.point r.point

  abbrev pub doubt : ℕ
  doubt = l.point.accuracy + r.point.accuracy

  -- Two samples are classified as nearby exactly if they are fresh and either even the largest
  -- distance that their accuracies allow is within the threshold, or the measured one is and so is
  -- either accuracy; as apart exactly if they are fresh and even the smallest distance exceeds the
  -- threshold; as stale exactly if they are not fresh.
  pub anchor_classes :
      let s = (anchor distance t (some l) (some r) threshold).state in
      (s ≡ EvidenceState.nearby ↔ (
        Fresh
        × ((measured + doubt ≤ threshold)
            ⊎ ((measured ≤ threshold)
                × (l.point.accuracy ≤ threshold)
                × (r.point.accuracy ≤ threshold)))))
      × (s ≡ EvidenceState.apart ↔ (Fresh × (threshold + doubt < measured)))
      × (s ≡ EvidenceState.stale ↔ ¬ Fresh)
  unfolding anchor both_anchor decide_proximity decided_state is_stale
  anchor_classes = ground arith
