-- ===== src/Activity/Examples.antt =====
-- Concrete runs of the activity modules.
use littleorbit.Prelude.{ℕ, ◌≡◌, refl, true, false, none, some, List, [], ◌∷◌, ◌++◌, arith, text_eq}
use littleorbit.Activity.{
  Event, Entry, Kind, Target, Timeline, is_recorded, new_event, record_activity, purge_activity,
  seen_through, is_seen, list_activity,
}
use littleorbit.Activity.Order.{Ascends, record_activity-Ascends}
use littleorbit.Activity.Unread.{IsBehind, record_activity_unread, purge_hides_next_event}

abbrev target : Target
target = record { target_id = none; target_title = none; emoji = none }

abbrev event : ℕ → ℕ → Event
event couple n = record {
  couple_id = couple;
  actor_id = some 1;
  sequence = n;
  dedupe_key = n ∷ [];
  kind = Kind.note_updated;
  target = target;
  created_at = 5;
}

abbrev entry : Entry
entry = record {
  couple_id = 1;
  actor_id = some 2;
  kind = Kind.note_updated;
  dedupe_key = 9 ∷ [];
  target = target;
  now = 3_000_000_000_000;
}

-- Two couples; one member has seen both of the first couple's events.
abbrev events : List Event
events = event 1 1 ∷ event 2 1 ∷ event 1 2 ∷ []

abbrev timeline : Timeline
timeline = record {
  events = events;
  seen = record { couple_id = 1; account_id = 7; through_sequence = 2 } ∷ [];
}

unread_page :
    (list_activity 1 7 none 30 true
      (record timeline { events = record_activity entry events })).items
    ≡ new_event entry events ∷ []
unfolding list_activity record_activity text_eq
unread_page = refl

record_activity-Ascends_example : Ascends (record_activity entry (event 1 1 ∷ event 1 2 ∷ []))
record_activity-Ascends_example =
    record_activity-Ascends entry (event 1 1 ∷ event 1 2 ∷ []) (omega arith)

-- With no watermark at all.
nothing_seen-IsBehind : IsBehind (record { events = events; seen = [] })
unfolding seen_through
nothing_seen-IsBehind c a = omega arith

record_activity_unread_example :
    let t : Timeline = record { events = events; seen = [] } in
    (record_activity entry events ≡ events ++ new_event entry events ∷ [])
    × ((a : ℕ) → is_seen (seen_through 1 a []) (new_event entry events) ≡ false)
    × IsBehind (record t { events = record_activity entry events })
unfolding is_recorded text_eq
record_activity_unread_example =
    record_activity_unread entry (record { events = events; seen = [] }) nothing_seen-IsBehind refl

purge_hides_next_event_example :
    let p = purge_activity 3_000_000_000_000 timeline in
    (new_event entry p.events).sequence ≡ 1
    × (is_seen (seen_through 1 7 p.seen) (new_event entry p.events) ≡ true)
unfolding seen_through
purge_hides_next_event_example =
    purge_hides_next_event 3_000_000_000_000 entry 7 timeline (omega arith) (omega arith)
