-- ===== src/Location/Projection.antt =====
-- `live_projection` of domain/location.py: how long a phone may go on ticking without new evidence.
pub mod Bounds
use littleorbit.Prelude.{
  ℕ, ◌+◌, ◌-◌, ◌/◌, min, max, Bool, true, false, not, ◌&&◌, ◌||◌, Option, none, some, List, [], ◌∷◌,
  ltb, leb, if◌then◌else◌,
}
use littleorbit.Location.Types.{
  TimedPoint, EvidenceAnchor, EvidenceState, CountingState, LiveProjection, max_counted_interval,
  max_mutual_evidence_age, second,
}
use littleorbit.Location.Timeline.{is_state}

abbrev pub no_projection : CountingState → Option ℕ → LiveProjection
no_projection s mutual_at = record {
  state = s;
  anchor_at = none;
  live_until = none;
  mutual_evidence_at = mutual_at;
  provisional_seconds = 0;
}

-- _unavailable_projection
pub unavailable_projection : Bool → Option ℕ → LiveProjection
unavailable_projection sharing mutual_at =
    no_projection
      (if sharing then CountingState.waiting_for_partner else CountingState.sharing_disabled)
      mutual_at

abbrev pub older_of : Option TimedPoint → Option TimedPoint → Option ℕ
older_of (some l) (some r) = some (min l.recorded_at r.recorded_at)
older_of (some l) none = none
older_of none r = none

-- _mutual_evidence_at
unfoldable pub mutual_evidence_at : EvidenceAnchor → Option ℕ
mutual_evidence_at a = older_of a.left a.right

-- _confirmed_for_projection
unfoldable pub confirmed_for_projection : Option EvidenceAnchor → EvidenceAnchor → ℕ → Bool
confirmed_for_projection none current now = false
confirmed_for_projection (some previous) current now =
    is_state previous.state EvidenceState.nearby
    && (leb current.recorded_at (previous.recorded_at + max_counted_interval)
        && leb current.recorded_at now)

-- the evidence state as a counting state
abbrev pub counting : EvidenceState → CountingState
counting EvidenceState.waiting_for_partner = CountingState.waiting_for_partner
counting EvidenceState.nearby = CountingState.nearby
counting EvidenceState.apart = CountingState.apart
counting EvidenceState.poor_accuracy = CountingState.poor_accuracy
counting EvidenceState.stale = CountingState.stale

-- timeline.anchors[-1] and timeline.anchors[-2]
unfoldable pub last_two :
    Option EvidenceAnchor → List EvidenceAnchor → Option EvidenceAnchor × Option EvidenceAnchor
last_two before [] = (none, before)
last_two before (a ∷ []) = (before, some a)
last_two before (a ∷ b ∷ l) = last_two (some a) (b ∷ l)

-- the part of `live_projection` behind its test of `mutual_at`
unfoldable pub project : Option EvidenceAnchor → EvidenceAnchor → ℕ → ℕ → Bool → LiveProjection
unfolding confirmed_for_projection
project previous current mutual_at now sharing =
    let live_until = mutual_at + max_mutual_evidence_age in
    if not sharing
    then no_projection CountingState.sharing_disabled (some mutual_at)
    else if is_state current.state EvidenceState.stale || leb live_until now
    then no_projection CountingState.stale (some mutual_at)
    else if not (is_state current.state EvidenceState.nearby)
    then no_projection (counting current.state) (some mutual_at)
    else if not (confirmed_for_projection previous current now)
    then no_projection CountingState.confirming (some mutual_at)
    else record {
      state = CountingState.nearby;
      anchor_at = some current.recorded_at;
      live_until = some live_until;
      mutual_evidence_at = some mutual_at;
      provisional_seconds = (min now live_until - current.recorded_at) / second;
    }

unfoldable pub project_current :
    Option EvidenceAnchor → Option EvidenceAnchor → ℕ → Bool → LiveProjection
unfolding project mutual_evidence_at unavailable_projection
project_current previous none now sharing = unavailable_projection sharing none
project_current previous (some current) now sharing = elim (mutual_evidence_at current) [
  | none ↦ unavailable_projection sharing none
  | some at ↦ project previous current at now sharing
]

unfoldable pub live_projection : List EvidenceAnchor → ℕ → Bool → LiveProjection
unfolding last_two project_current
live_projection anchors now sharing =
    let (previous, current) = last_two none anchors in project_current previous current now sharing
