-- ===== src/Smooch.antt =====
-- routes/smooches.py and smooch_service.py of services/api/src/little_orbit_api: the emojis that partners
-- send each other, at most five in an hour. An emoji is its place in EMOJIS, any other text a number past
-- it, and a phrase is its place in PHRASE_KEYS. Display names, notifications and the calendar of the
-- zone database are not modelled.
pub mod Received
pub mod Hourly
pub mod Prior
pub mod Retried
mod Examples
use littleorbit.Prelude.{
  ℕ, ◌+◌, ◌-◌, ◌*◌, ◌/◌, ◌%◌, min, max, Bool, true, false, not, ◌&&◌, ◌||◌, Option, none, some,
  List, [], ◌∷◌, ◌++◌, ◌==◌, ltb, leb, if◌then◌else◌, is_some, is_none, Text, keep, length, take,
}
use littleorbit.Activity.{Entry, Event, Kind, record_activity}
use littleorbit.Pairing.{
  Couple, CoupleMember, Response, answers, fails, active_member, lock_couple, is_active_in,
}

-- len(EMOJIS) and len(PHRASE_KEYS)
abbrev pub emojis : ℕ
emojis = 9

abbrev pub phrase_keys : ℕ
phrase_keys = 6

abbrev pub hourly_limit : ℕ
hourly_limit = 5

abbrev pub one_hour : ℕ
one_hour = 3_600_000_000

pub record Smooch : Type 0 where
  pub id : ℕ
  pub operation_id : ℕ
  pub couple_id : ℕ
  pub sender_id : Option ℕ
  pub recipient_id : Option ℕ
  pub emoji : ℕ
  pub phrase_key : ℕ
  pub sent_at : ℕ
  pub delivered_at : Option ℕ

pub record Db : Type 0 where
  pub couples : List Couple
  pub members : List CoupleMember
  pub smooches : List Smooch
  pub events : List Event

abbrev pub is_account : ℕ → Option ℕ → Bool
is_account a none = false
is_account a (some b) = b == a

-- choose_phrase
abbrev pub choose_phrase : ℕ → ℕ
choose_phrase operation = operation % phrase_keys

-- item > now - timedelta(hours=1)
abbrev pub is_recent : ℕ → ℕ → Bool
is_recent now t = ltb now (t + one_hour)

-- The first of the sorted times.
unfoldable pub earliest : ℕ → List ℕ → ℕ
earliest t [] = t
earliest t (u ∷ us) = earliest (min t u) us

abbrev pub slot_wait : ℕ → List ℕ → ℕ
slot_wait now [] = 0
slot_wait now (t ∷ ts) = max 1 ((earliest t ts + one_hour - now) / 1_000_000 + 1)

-- retry_after_seconds
unfoldable pub retry_after_seconds : List ℕ → ℕ → ℕ
unfolding earliest
retry_after_seconds sent now =
    let recent = keep (is_recent now) sent in
    if ltb (length recent) hourly_limit then 0 else slot_wait now recent

-- The partner of `_partner`
unfoldable pub find_partner : ℕ → ℕ → List CoupleMember → Option ℕ
find_partner c a [] = none
find_partner c a (m ∷ ms) =
    if is_active_in c m && not (m.account_id == a) then some m.account_id else find_partner c a ms

abbrev pub is_by : ℕ → ℕ → Smooch → Bool
is_by c a x = x.couple_id == c && is_account a x.sender_id

-- The earlier send of one operation.
unfoldable pub find_prior : ℕ → ℕ → ℕ → List Smooch → Option Smooch
find_prior c a operation [] = none
find_prior c a operation (x ∷ xs) =
    if is_by c a x && x.operation_id == operation then some x else find_prior c a operation xs

-- _recent_sends
unfoldable pub recent_sends : ℕ → ℕ → ℕ → List Smooch → List ℕ
recent_sends c a now [] = []
recent_sends c a now (x ∷ xs) =
    let rest = recent_sends c a now xs in
    if is_by c a x && is_recent now x.sent_at then x.sent_at ∷ rest else rest

-- The payload with its activity key `smooch:<operation_id>`, and the id that the row draws.
pub record Send : Type 0 where
  pub actor_id : ℕ
  pub operation_id : ℕ
  pub emoji : ℕ
  pub key : Text
  pub id : ℕ
  pub now : ℕ

pub record SmoochResponse : Type 0 where
  pub id : ℕ
  pub emoji : ℕ
  pub phrase_key : ℕ
  pub sent_at : ℕ
  pub remaining_this_hour : ℕ

-- _send_response
abbrev pub send_response : Smooch → ℕ → SmoochResponse
send_response x count = record {
  id = x.id;
  emoji = x.emoji;
  phrase_key = x.phrase_key;
  sent_at = x.sent_at;
  remaining_this_hour = hourly_limit - count;
}

-- The exceptions of `_enforce_send_allowed`, and what `send_smooch` answers or raises.
pub data Denial : Type 0 where
  unavailable_emoji : Denial
  too_many : (retry_after : ℕ) → Denial

pub data Sent : Type 0 where
  sent : SmoochResponse → Sent
  inactive : Sent
  denied : Denial → Sent

-- What `_enforce_send_allowed` raises, if it does.
unfoldable pub enforce_send_allowed : ℕ → List ℕ → ℕ → Option Denial
unfolding retry_after_seconds
enforce_send_allowed emoji recent now =
    if leb emojis emoji
    then some unavailable_emoji
    else if not (retry_after_seconds recent now == 0)
    then some (too_many (retry_after_seconds recent now))
    else none

abbrev pub new_smooch : Send → ℕ → ℕ → Smooch
new_smooch p c partner = record {
  id = p.id;
  operation_id = p.operation_id;
  couple_id = c;
  sender_id = some p.actor_id;
  recipient_id = some partner;
  emoji = p.emoji;
  phrase_key = choose_phrase p.operation_id;
  sent_at = p.now;
  delivered_at = none;
}

abbrev pub smooch_entry : Send → Smooch → Entry
smooch_entry p x = record {
  couple_id = x.couple_id;
  actor_id = some p.actor_id;
  kind = Kind.smooch_received;
  dedupe_key = p.key;
  target = record { target_id = some x.id; target_title = none; emoji = some x.emoji };
  now = p.now;
}

unfoldable pub add_smooch : Send → Smooch → ℕ → Option Denial → Db → Sent × Db
add_smooch p x count (some denial) db = (denied denial, db)
add_smooch p x count none db = (
  sent (send_response x (count + 1)),
  record db {
    smooches = db.smooches ++ x ∷ [];
    events = record_activity (smooch_entry p x) db.events;
  },
)

unfoldable pub send_new : Send → ℕ → ℕ → Option Smooch → Db → Sent × Db
unfolding recent_sends enforce_send_allowed add_smooch
send_new p c partner (some prior) db =
    (sent (send_response prior (length (recent_sends c p.actor_id p.now db.smooches))), db)
send_new p c partner none db =
    let recent = recent_sends c p.actor_id p.now db.smooches in
    add_smooch p (new_smooch p c partner) (length recent)
      (enforce_send_allowed p.emoji recent p.now) db

unfoldable pub send_to : Send → ℕ → Option ℕ → Db → Sent × Db
unfolding send_new find_prior
send_to p c none db = (inactive, db)
send_to p c (some partner) db =
    send_new p c partner (find_prior c p.actor_id p.operation_id db.smooches) db

unfoldable pub send_locked : Send → ℕ → Response Couple → Db → Sent × Db
unfolding send_to find_partner
send_locked p c (fails s) db = (inactive, db)
send_locked p c (answers k) db = send_to p c (find_partner c p.actor_id db.members) db

unfoldable pub send_by : Send → Response CoupleMember → Db → Sent × Db
unfolding send_locked lock_couple
send_by p (fails s) db = (inactive, db)
send_by p (answers m) db = send_locked p m.couple_id (lock_couple m.couple_id db.couples) db

-- send_smooch
unfoldable pub send_smooch : Send → Db → Sent × Db
unfolding send_by active_member
send_smooch p db = send_by p (active_member p.actor_id db.members) db
