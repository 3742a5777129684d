-- ===== src/Pairing/Teardown.antt =====
-- relationship_service.py: the locks of an active relationship and its end. Of the tables that the end
-- clears, a row is its owner: the couple's id, or for the reminders the countdown's.
use littleorbit.Prelude.{
  ℕ, Bool, false, not, ◌&&◌, ◌||◌, Option, none, some, List, [], ◌∷◌, ◌==◌, if◌then◌else◌, is_none,
  keep, length,
}
use littleorbit.Pairing.{
  Couple, CoupleMember, Status, Response, answers, fails, is_active_in, active_couple_id,
  find_couple,
}

pub record NotificationDevice : Type 0 where
  pub account_id : ℕ
  pub notifications_enabled : Bool
  pub disabled_at : Option ℕ

pub record Countdown : Type 0 where
  pub id : ℕ
  pub couple_id : ℕ

-- The rows that belong to one couple, by the ids that the end's conditions read.
pub record Ephemeral : Type 0 where
  pub notification_events : List ℕ
  pub devices : List NotificationDevice
  pub location_samples : List ℕ
  pub device_health : List ℕ
  pub avatars : List ℕ
  pub name_operations : List ℕ
  pub names : List ℕ
  pub countdowns : List Countdown
  pub countdown_reminders : List ℕ
  pub activity_seen : List ℕ
  pub activity_events : List ℕ

-- select(CoupleMember.account_id).where(couple_id == ...): former members too
pub is_member : ℕ → ℕ → List CoupleMember → Bool
is_member c a [] = false
is_member c a (m ∷ ms) = m.couple_id == c && m.account_id == a || is_member c a ms

unfoldable pub is_countdown_of : ℕ → ℕ → List Countdown → Bool
is_countdown_of c k [] = false
is_countdown_of c k (d ∷ ds) = d.id == k && d.couple_id == c || is_countdown_of c k ds

unfoldable pub disable_devices :
    ℕ → ℕ → List CoupleMember → List NotificationDevice → List NotificationDevice
unfolding is_member
disable_devices c ended_at ms [] = []
disable_devices c ended_at ms (d ∷ ds) =
    (if is_member c d.account_id ms
      then record d { notifications_enabled = false; disabled_at = some ended_at }
      else d)
    ∷ disable_devices c ended_at ms ds

abbrev pub not_of : ℕ → ℕ → Bool
not_of c owner = not (owner == c)

-- _delete_ephemeral_relationship_state
unfoldable pub delete_ephemeral : ℕ → ℕ → List CoupleMember → Ephemeral → Ephemeral
unfolding disable_devices is_countdown_of
delete_ephemeral c ended_at ms e = record {
  notification_events = keep (not_of c) e.notification_events;
  devices = disable_devices c ended_at ms e.devices;
  location_samples = keep (not_of c) e.location_samples;
  device_health = keep (not_of c) e.device_health;
  avatars = keep (not_of c) e.avatars;
  name_operations = keep (not_of c) e.name_operations;
  names = keep (not_of c) e.names;
  countdowns = e.countdowns;
  countdown_reminders = keep (λ r. not (is_countdown_of c r e.countdowns)) e.countdown_reminders;
  activity_seen = keep (not_of c) e.activity_seen;
  activity_events = keep (not_of c) e.activity_events;
}

pub record Relationships : Type 0 where
  pub couples : List Couple
  pub members : List CoupleMember
  pub ephemeral : Ephemeral

-- The rows of the couple's active members under the locks.
abbrev pub active_members : ℕ → List CoupleMember → List CoupleMember
active_members c ms = keep (is_active_in c) ms

pub has_account : ℕ → List CoupleMember → Bool
has_account a [] = false
has_account a (m ∷ ms) = m.account_id == a || has_account a ms

abbrev pub is_live : Option Couple → Bool
is_live none = false
is_live (some k) = is_none k.ended_at

abbrev pub is_same : Option ℕ → ℕ → Bool
is_same none c = false
is_same (some d) c = d == c

-- `lock_active_relationship`, on the couple that it read before its locks and the tables under them:
-- no relationship, a conflict, or the couple's id
unfoldable pub lock_active_relationship : ℕ → Option ℕ → Relationships → Response (Option ℕ)
unfolding active_couple_id has_account find_couple
lock_active_relationship actor none db = answers none
lock_active_relationship actor (some c) db = elim (active_couple_id actor db.members) [
  | none ↦ answers none
  | some d ↦
      let members = active_members c db.members in
      if not (d == c)
        || not (is_live (find_couple c db.couples))
        || not (length members == 2)
        || not (has_account actor members)
      then fails Status.conflict
      else answers (some c)
]

unfoldable pub end_couple : ℕ → ℕ → List Couple → List Couple
end_couple c ended_at [] = []
end_couple c ended_at (k ∷ ks) =
    (if k.id == c then record k { ended_at = some ended_at; updated_at = ended_at } else k)
    ∷ end_couple c ended_at ks

abbrev pub left_member : ℕ → CoupleMember → CoupleMember
left_member ended_at m = record m {
  left_at = some ended_at;
  intimacy_enabled = false;
  location_enabled = false;
}

unfoldable pub leave_members : ℕ → ℕ → List CoupleMember → List CoupleMember
leave_members c ended_at [] = []
leave_members c ended_at (m ∷ ms) =
    (if is_active_in c m then left_member ended_at m else m) ∷ leave_members c ended_at ms

unfoldable pub end_locked : ℕ → ℕ → Relationships → Relationships
unfolding end_couple leave_members delete_ephemeral
end_locked c ended_at db =
    let members = leave_members c ended_at db.members in
    record {
      couples = end_couple c ended_at db.couples;
      members = members;
      ephemeral = delete_ephemeral c ended_at members db.ephemeral;
    }

unfoldable pub end_with :
    ℕ → Response (Option ℕ) → Relationships → Response (Option ℕ) × Relationships
unfolding end_locked
end_with ended_at (fails s) db = (fails s, db)
end_with ended_at (answers none) db = (answers none, db)
end_with ended_at (answers (some c)) db = (answers (some c), end_locked c ended_at db)

-- end_active_relationship
unfoldable pub end_active_relationship :
    ℕ → Option ℕ → ℕ → Relationships → Response (Option ℕ) × Relationships
unfolding lock_active_relationship end_with
end_active_relationship actor read ended_at db =
    end_with ended_at (lock_active_relationship actor read db) db
