-- ===== src/Location/Examples.antt =====
-- Concrete runs of the location modules.
use littleorbit.Prelude.{
  ℕ, ◌-◌, ◌*◌, ◌≤◌, ◌<◌, ◌≡◌, ◌↔◌, ◌⊎◌, refl, max, min, true, false, none, some, List, [], ◌∷◌,
  arith, All,
}
use littleorbit.Location.Types.{
  ℤ, pos, negsuc, Point, TimedPoint, EvidenceAnchor, EvidenceState, MinuteEstimate,
}
use littleorbit.Location.Proximity.{anchor}
use littleorbit.Location.Proximity.Classes.{Fresh, anchor_classes}
use littleorbit.Location.Streams.{deduplicate, group_events, has_id}
use littleorbit.Location.Streams.Distinct
use littleorbit.Location.Streams.Distinct.{Ordered, deduplicate_lem}
use littleorbit.Location.Minutes.{segments, rounds, split_minutes, larger}
use littleorbit.Location.Minutes.Cover.{Covers, segments_cover}
use littleorbit.Location.Minutes.Buckets.{IsBucket}
use littleorbit.Location.Timeline.{
  bridges, build_proximity_timeline, estimate_nearby_minutes, is_state,
}
use littleorbit.Location.Timeline.Sorted.{Rises, build_proximity_timeline-IsValid}
use littleorbit.Location.Timeline.Bridging.{Spans, bridges_confirmed}
use littleorbit.Location.Projection.{live_projection}
use littleorbit.Location.Projection.Bounds.{TicksOn, live_projection_nearby}

-- A distance on one line, for the runs below.
abbrev north : ℤ → ℕ
north (pos n) = n
north (negsuc n) = 0

abbrev on_line : Point → Point → ℕ
on_line a b = max (north a.latitude) (north b.latitude) - min (north a.latitude) (north b.latitude)

abbrev at : ℕ → Point
at n = record { latitude = pos n; longitude = pos 0; accuracy = 10 }

abbrev sample : ℕ → ℕ → ℕ → TimedPoint
sample k seconds place = record {
  sample_id = k;
  recorded_at = seconds * 1_000_000;
  point = at place;
}

-- Both phones at about one place at 0:00 and 4:00, silent until 14:00; one sample is sent twice.
abbrev hers : List TimedPoint
hers = sample 1 0 0 ∷ sample 2 240 5 ∷ sample 2 240 5 ∷ sample 3 840 0 ∷ []

abbrev his : List TimedPoint
his = sample 11 0 20 ∷ sample 12 240 20 ∷ sample 13 840 20 ∷ []

abbrev nearby_at : ℕ → EvidenceAnchor
nearby_at t = record {
  recorded_at = t * 1_000_000;
  state = EvidenceState.nearby;
  measured_distance = some 20;
  left = some (sample 1 t 0);
  right = some (sample 2 t 20);
}

abbrev stale_at : ℕ → EvidenceAnchor
stale_at t = record {
  recorded_at = t * 1_000_000;
  state = EvidenceState.stale;
  measured_distance = none;
  left = some (sample 1 0 0);
  right = some (sample 2 t 20);
}

deduplicate_lem_example :
    Distinct.Distinct (deduplicate hers)
    × Ordered (deduplicate hers)
    × ((k : ℕ) → has_id k (deduplicate hers) ≡ has_id k hers)
deduplicate_lem_example = deduplicate_lem hers

anchor_classes_example :
    let s =
      (anchor on_line 240_000_000 (some (sample 2 240 5)) (some (sample 12 240 20)) 100).state in
    let fresh = Fresh on_line 240_000_000 (sample 2 240 5) (sample 12 240 20) 100 in
    (s ≡ EvidenceState.nearby ↔ (fresh × ((35 ≤ 100) ⊎ ((15 ≤ 100) × (10 ≤ 100) × (10 ≤ 100)))))
    × (s ≡ EvidenceState.apart ↔ (fresh × (120 < 15)))
    × (s ≡ EvidenceState.stale ↔ ¬ fresh)
anchor_classes_example = anchor_classes on_line 240_000_000 (sample 2 240 5) (sample 12 240 20) 100

segments_cover_example :
    Covers 30_000_000 150_500_000 (segments (rounds 30_000_000 150_500_000) 30_000_000 150_500_000)
segments_cover_example = segments_cover 30_000_000 150_500_000 (omega arith)

build_proximity_timeline-IsValid_example :
    let t = build_proximity_timeline on_line hers his 100 none none in
    All IsBucket t.estimates × Rises t.estimates
build_proximity_timeline-IsValid_example =
    build_proximity_timeline-IsValid on_line hers his 100 none none

bridges_confirmed_example :
    let l = nearby_at 0 ∷ stale_at 400 ∷ nearby_at 700 ∷ [] in All (Spans l) (bridges none false l)
bridges_confirmed_example = bridges_confirmed (nearby_at 0 ∷ stale_at 400 ∷ nearby_at 700 ∷ [])

live_projection_nearby_example :
    let l = nearby_at 0 ∷ nearby_at 240 ∷ [] in
    TicksOn l (live_projection l 300_000_000 true) 300_000_000 true
unfolding live_projection is_state
live_projection_nearby_example =
    live_projection_nearby (nearby_at 0 ∷ nearby_at 240 ∷ []) 300_000_000 true refl

abbrev seconds : List MinuteEstimate → List ℕ
seconds [] = []
seconds (e ∷ es) = e.duration_seconds ∷ seconds es

-- Four observed minutes, then a confirmed bridge of ten.
minutes_counted :
    seconds (estimate_nearby_minutes on_line hers his 100)
    ≡ 60 ∷ 60 ∷ 60 ∷ 60 ∷ 60 ∷ 60 ∷ 60 ∷ 60 ∷ 60 ∷ 60 ∷ 60 ∷ 60 ∷ 60 ∷ 60 ∷ []
unfolding estimate_nearby_minutes anchor deduplicate group_events split_minutes is_state larger
minutes_counted = refl
