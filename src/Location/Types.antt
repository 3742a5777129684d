-- ===== src/Location/Types.antt =====
-- The data of services/api/src/little_orbit_api/domain/location.py. An instant is its UTC time in
-- microseconds since the epoch, a timedelta a number of microseconds. Lengths in metres (floats in
-- the source) are whole numbers of one small unit, so that comparisons and sums are exact. A sample
-- id (the text of a UUID, which orders as the UUID does) is a number.
use littleorbit.Prelude.{ℕ, ◌+◌, ◌*◌, Bool, Option, List}

-- A signed coordinate in a small unit; nothing but the distance reads it.
pub data ℤ : Type 0 where
  pos : ℕ → ℤ
  negsuc : ℕ → ℤ

abbrev pub second : ℕ
second = 1_000_000

abbrev pub minute : ℕ
minute = 60 * 1_000_000

abbrev pub max_mutual_evidence_age : ℕ
max_mutual_evidence_age = 5 * 60_000_000

abbrev pub max_sample_skew : ℕ
max_sample_skew = 5 * 60_000_000

abbrev pub max_counted_interval : ℕ
max_counted_interval = 5 * 60_000_000

abbrev pub max_bridged_interval : ℕ
max_bridged_interval = 20 * 60_000_000

abbrev pub recompute_horizon : ℕ
recompute_horizon = (23 * 60 + 45) * 60_000_000

pub data EvidenceState : Type 0 where
  waiting_for_partner nearby apart poor_accuracy stale : EvidenceState

pub data CountingState : Type 0 where
  sharing_disabled waiting_for_partner confirming nearby apart poor_accuracy stale : CountingState

pub data EvidenceKind : Type 0 where
  observed bridged mixed apart poor_accuracy unverified : EvidenceKind

pub record Point : Type 0 where
  pub latitude : ℤ
  pub longitude : ℤ
  pub accuracy : ℕ

pub record ProximityDecision : Type 0 where
  pub measured_distance : ℕ
  pub minimum_distance : ℕ
  pub maximum_distance : ℕ
  pub together : Bool
  pub uncertain : Bool

pub record TimedPoint : Type 0 where
  pub sample_id : ℕ
  pub recorded_at : ℕ
  pub point : Point

pub record EvidenceAnchor : Type 0 where
  pub recorded_at : ℕ
  pub state : EvidenceState
  pub measured_distance : Option ℕ
  pub left : Option TimedPoint
  pub right : Option TimedPoint

pub record MinuteEstimate : Type 0 where
  pub bucket_start : ℕ
  pub duration_seconds : ℕ
  pub estimated_distance : Option ℕ
  pub evidence_kind : EvidenceKind
  pub observed_seconds : ℕ
  pub bridged_seconds : ℕ
  pub unverified_seconds : ℕ
  pub apart_seconds : ℕ
  pub poor_accuracy_seconds : ℕ

pub record ProximityTimeline : Type 0 where
  pub anchors : List EvidenceAnchor
  pub estimates : List MinuteEstimate

pub record LiveProjection : Type 0 where
  pub state : CountingState
  pub anchor_at : Option ℕ
  pub live_until : Option ℕ
  pub mutual_evidence_at : Option ℕ
  pub provisional_seconds : ℕ
