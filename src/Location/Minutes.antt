-- ===== src/Location/Minutes.antt =====
-- The minute buckets of domain/location.py: `_split_minutes` and what it calls. The dict of estimates
-- is the list of its values, keyed by `bucket_start`, in insertion order.
pub mod Cover
pub mod Buckets
use littleorbit.Prelude.{
  ℕ, zero, suc, ◌+◌, ◌-◌, ◌*◌, ◌/◌, ◌%◌, min, max, Bool, true, false, not, Option, none, some, List,
  [], ◌∷◌, ltb, leb, ◌==◌, if◌then◌else◌,
}
use littleorbit.Location.Types.{MinuteEstimate, EvidenceKind, second, minute}

-- The tuple of `_components`.
pub record Components : Type 0 where
  pub observed : ℕ
  pub bridged : ℕ
  pub unverified : ℕ
  pub apart : ℕ
  pub poor_accuracy : ℕ

-- _components
pub components : Option MinuteEstimate → Components
components none = record { observed = 0; bridged = 0; unverified = 0; apart = 0; poor_accuracy = 0 }
components (some e) = record {
  observed = e.observed_seconds;
  bridged = e.bridged_seconds;
  unverified = e.unverified_seconds;
  apart = e.apart_seconds;
  poor_accuracy = e.poor_accuracy_seconds;
}

-- `_merged_components`: a bridge first takes its span from the unverified seconds; every component is
-- capped at 60; the kind "mixed" has no component.
pub add_component : EvidenceKind → ℕ → Components → Components
add_component EvidenceKind.observed n v = record v { observed = min 60 (v.observed + n) }
add_component EvidenceKind.bridged n v = record v {
  bridged = min 60 (v.bridged + n);
  unverified = v.unverified - min v.unverified n;
}
add_component EvidenceKind.unverified n v = record v { unverified = min 60 (v.unverified + n) }
add_component EvidenceKind.apart n v = record v { apart = min 60 (v.apart + n) }
add_component EvidenceKind.poor_accuracy n v = record v {
  poor_accuracy = min 60 (v.poor_accuracy + n);
}
add_component EvidenceKind.mixed n v = v

pub merged_components : Option MinuteEstimate → EvidenceKind → ℕ → Components
unfolding components add_component
merged_components existing kind span = add_component kind span (components existing)

abbrev pub with_kind : EvidenceKind → ℕ → List EvidenceKind → List EvidenceKind
with_kind k n ks = if n == 0 then ks else k ∷ ks

-- [name for name, seconds in zip(names, values) if seconds]
pub present : Components → List EvidenceKind
present v = with_kind EvidenceKind.observed v.observed (
    with_kind EvidenceKind.bridged v.bridged (
      with_kind EvidenceKind.unverified v.unverified (
        with_kind EvidenceKind.apart v.apart
          (with_kind EvidenceKind.poor_accuracy v.poor_accuracy []))))

pub only : List EvidenceKind → EvidenceKind
only (k ∷ []) = k
only ks = EvidenceKind.mixed

-- _component_kind
pub component_kind : Components → EvidenceKind
unfolding present only
component_kind v = only (present v)

-- max(values) if values else None
unfoldable pub larger : Option ℕ → Option ℕ → Option ℕ
larger none b = b
larger (some a) none = some a
larger (some a) (some b) = some (max a b)

abbrev pub distance_of : Option MinuteEstimate → Option ℕ
distance_of none = none
distance_of (some e) = e.estimated_distance

-- _merged_distance
pub merged_distance : Option MinuteEstimate → Option ℕ → Option ℕ
unfolding larger
merged_distance existing incoming = larger (distance_of existing) incoming

-- estimates.get(minute)
pub get_estimate : ℕ → List MinuteEstimate → Option MinuteEstimate
get_estimate k [] = none
get_estimate k (e ∷ es) = if e.bucket_start == k then some e else get_estimate k es

-- estimates[minute] = value
pub set_estimate : MinuteEstimate → List MinuteEstimate → List MinuteEstimate
set_estimate v [] = v ∷ []
set_estimate v (e ∷ es) = if e.bucket_start == v.bucket_start then v ∷ es else e ∷ set_estimate v es

pub make_estimate : ℕ → Components → Option ℕ → MinuteEstimate
unfolding component_kind
make_estimate bucket v distance = record {
  bucket_start = bucket;
  duration_seconds = min 60 (v.observed + v.bridged);
  estimated_distance = distance;
  evidence_kind = component_kind v;
  observed_seconds = v.observed;
  bridged_seconds = v.bridged;
  unverified_seconds = v.unverified;
  apart_seconds = v.apart;
  poor_accuracy_seconds = v.poor_accuracy;
}

-- One round of the loop: the part of the interval that lies in one minute.
pub record Segment : Type 0 where
  pub bucket : ℕ
  pub from : ℕ
  pub until : ℕ

-- cursor.replace(second=0, microsecond=0)
abbrev pub floor_minute : ℕ → ℕ
floor_minute t = t - t % minute

-- `while cursor < end`, on fuel: each round ends at `end` or at the next minute.
pub segments : ℕ → ℕ → ℕ → List Segment
segments zero cursor end = []
segments (suc fuel) cursor end =
    let next = min end (floor_minute cursor + minute) in
    let rest = segments fuel next end in
    if ltb cursor end
    then record { bucket = floor_minute cursor; from = cursor; until = next } ∷ rest
    else []

-- the fuel: the minutes that the interval touches
abbrev pub rounds : ℕ → ℕ → ℕ
rounds start end = end / minute - start / minute + 1

-- the body of the loop
pub add_segment : Option ℕ → EvidenceKind → Segment → List MinuteEstimate → List MinuteEstimate
unfolding get_estimate set_estimate merged_components merged_distance make_estimate
add_segment distance kind s es =
    let span_seconds = (s.until - s.from) / second in
    let existing = get_estimate s.bucket es in
    let value =
      make_estimate s.bucket (merged_components existing kind span_seconds)
        (merged_distance existing distance) in
    if ltb 0 span_seconds then set_estimate value es else es

pub add_segments :
    Option ℕ → EvidenceKind → List Segment → List MinuteEstimate → List MinuteEstimate
unfolding add_segment
add_segments distance kind [] es = es
add_segments distance kind (s ∷ ss) es =
    add_segments distance kind ss (add_segment distance kind s es)

-- _split_minutes
unfoldable pub split_minutes :
    List MinuteEstimate → ℕ → ℕ → Option ℕ → EvidenceKind → List MinuteEstimate
unfolding segments add_segments
split_minutes es start end distance kind =
    add_segments distance kind (segments (rounds start end) start end) es
