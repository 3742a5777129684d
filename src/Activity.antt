-- ===== src/Activity.antt =====
-- services/api/src/little_orbit_api/activity_service.py, routes/activity.py and the purge of activity
-- events in maintenance.py. A table is the list of its rows, oldest first. Identifiers are numbers
-- (a UUID is a 128-bit integer), times are microseconds since the epoch.
pub mod Order
pub mod Unread
mod Examples
use littleorbit.Prelude.{
  ℕ, suc, zero, ◌+◌, ◌*◌, min, max, Bool, true, false, ◌&&◌, not, Option, none, some, List, [], ◌∷◌,
  ◌++◌, ◌==◌, ltb, leb, if◌then◌else◌, Text, text_eq, keep, length, take,
}

pub data Kind : Type 0 where
  note_created note_updated attachment_available countdown_created countdown_updated : Kind
  quiz_submitted quiz_revealed smooch_received relationship_name_changed : Kind

-- The optional columns; an emoji is its place in the fixed vocabulary.
pub record Target : Type 0 where
  pub target_id : Option ℕ
  pub target_title : Option Text
  pub emoji : Option ℕ

pub record Event : Type 0 where
  pub couple_id : ℕ
  pub actor_id : Option ℕ
  pub sequence : ℕ
  pub dedupe_key : Text
  pub kind : Kind
  pub target : Target
  pub created_at : ℕ

-- The arguments of `record_activity`, with the clock's time.
pub record Entry : Type 0 where
  pub couple_id : ℕ
  pub actor_id : Option ℕ
  pub kind : Kind
  pub dedupe_key : Text
  pub target : Target
  pub now : ℕ

-- select(ActivityEvent.id).where(couple_id == ..., dedupe_key == ...)
pub is_recorded : ℕ → Text → List Event → Bool
is_recorded c k [] = false
is_recorded c k (e ∷ es) =
    if e.couple_id == c && text_eq e.dedupe_key k then true else is_recorded c k es

-- coalesce(max(sequence), 0) over the couple's rows
pub last_sequence : ℕ → List Event → ℕ
last_sequence c [] = 0
last_sequence c (e ∷ es) = max (if e.couple_id == c then e.sequence else 0) (last_sequence c es)

abbrev pub new_event : Entry → List Event → Event
new_event a es = record {
  couple_id = a.couple_id;
  actor_id = a.actor_id;
  sequence = last_sequence a.couple_id es + 1;
  dedupe_key = a.dedupe_key;
  kind = a.kind;
  target = a.target;
  created_at = a.now;
}

pub record_activity : Entry → List Event → List Event
unfolding is_recorded last_sequence
record_activity a es =
    if is_recorded a.couple_id a.dedupe_key es then es else es ++ new_event a es ∷ []

-- A row of `activity_seen`; its table has one row for each couple and account.
pub record Seen : Type 0 where
  pub couple_id : ℕ
  pub account_id : ℕ
  pub through_sequence : ℕ

-- _seen_through
pub seen_through : ℕ → ℕ → List Seen → ℕ
seen_through c a [] = 0
seen_through c a (s ∷ ss) =
    if s.couple_id == c && s.account_id == a then s.through_sequence else seen_through c a ss

-- insert ... on conflict (couple_id, account_id) do update set greatest(...)
pub advance_seen : ℕ → ℕ → ℕ → List Seen → List Seen
advance_seen c a through [] =
    record { couple_id = c; account_id = a; through_sequence = through } ∷ []
advance_seen c a through (s ∷ ss) =
    if s.couple_id == c && s.account_id == a
    then record s { through_sequence = max s.through_sequence through } ∷ ss
    else s ∷ advance_seen c a through ss

pub record Timeline : Type 0 where
  pub events : List Event
  pub seen : List Seen

-- `mark_activity_seen` of an active member
pub mark_activity_seen : ℕ → ℕ → ℕ → Timeline → Timeline
unfolding last_sequence advance_seen
mark_activity_seen c a through_sequence t =
    let through = min through_sequence (last_sequence c t.events) in
    record t { seen = advance_seen c a through t.seen }

-- the field `seen` of `_response`
pub is_seen : ℕ → Event → Bool
is_seen seen e = leb e.sequence seen

abbrev pub thirty_days : ℕ
thirty_days = 30 * 86_400_000_000

-- delete(ActivityEvent).where(created_at <= now - timedelta(days=30)), in maintenance.py
pub purge_activity : ℕ → Timeline → Timeline
purge_activity now t = record t {
  events = keep (λ e. ltb now (e.created_at + thirty_days)) t.events;
}

-- order_by(sequence.desc())
pub insert_newest : Event → List Event → List Event
insert_newest e [] = e ∷ []
insert_newest e (x ∷ xs) = if leb x.sequence e.sequence then e ∷ x ∷ xs else x ∷ insert_newest e xs

pub newest_first : List Event → List Event
unfolding insert_newest
newest_first [] = []
newest_first (e ∷ es) = insert_newest e (newest_first es)

pub record Page : Type 0 where
  pub items : List Event
  pub next_cursor : Option ℕ
  pub seen_through : ℕ

pub last_cursor : List Event → Option ℕ
last_cursor [] = none
last_cursor (e ∷ []) = some e.sequence
last_cursor (e ∷ x ∷ es) = last_cursor (x ∷ es)

pub below_cursor : Option ℕ → Event → Bool
below_cursor none e = true
below_cursor (some k) e = ltb e.sequence k

-- `list_activity` for an active member: the names of actors, which the response adds, are left out.
pub list_activity : ℕ → ℕ → Option ℕ → ℕ → Bool → Timeline → Page
unfolding newest_first below_cursor last_cursor seen_through
list_activity c a cursor limit unread_only t =
    let seen = seen_through c a t.seen in
    let chosen =
      keep
        (λ e.
          e.couple_id == c
          && below_cursor cursor e
          && (if unread_only then ltb seen e.sequence else true))
        t.events in
    let events = take (limit + 1) (newest_first chosen) in
    let items = take limit events in
    record {
      items = items;
      next_cursor = if ltb limit (length events) then last_cursor items else none;
      seen_through = seen;
    }
