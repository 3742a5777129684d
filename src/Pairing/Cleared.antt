-- ===== src/Pairing/Cleared.antt =====
-- What the end of a relationship in relationship_service.py leaves.
use littleorbit.Prelude.{
  ℕ, ◌+◌, ◌≡◌, refl, ap, subst, Bool, false, not, ◌&&◌, Option, none, some, List, [], ◌∷◌, ◌==◌,
  map, if◌then◌else◌, keep, arith, Bool-cases, inl, inr, All,
}
use littleorbit.Pairing.{CoupleMember, Response, answers, fails}
use littleorbit.Pairing.Teardown.{
  Ephemeral, NotificationDevice, Countdown, Relationships, is_member, is_countdown_of,
  disable_devices, delete_ephemeral, not_of, leave_members, end_locked, end_with,
  end_active_relationship, lock_active_relationship,
}
use littleorbit.Pairing.Members.{size_of, size_of-leave}

-- The rows of a couple in a table.
pub rows_of : ℕ → List ℕ → ℕ
rows_of d [] = 0
rows_of d (o ∷ os) = (if o == d then 1 else 0) + rows_of d os

rows_of-keep :
    (c d : ℕ) (os : List ℕ) → rows_of d (keep (not_of c) os) ≡ (if d == c then 0 else rows_of d os)
unfolding rows_of
rows_of-keep c d [] = ground arith
rows_of-keep c d (o ∷ os) = ground (arith, rows_of-keep c d os)

-- The tables whose rows name their couple.
abbrev pub owned : Ephemeral → List (List ℕ)
owned e =
    e.notification_events ∷ e.location_samples ∷ e.device_health ∷ e.avatars ∷ e.name_operations
    ∷ e.names ∷ e.activity_seen ∷ e.activity_events ∷ []

map-rows_of :
    (c d : ℕ) (tables : List (List ℕ))
    → map (rows_of d) (map (keep (not_of c)) tables)
      ≡ map (λ t. if d == c then 0 else rows_of d t) tables
map-rows_of c d [] = refl
map-rows_of c d (t ∷ ts) = rw (rows_of-keep c d t, map-rows_of c d ts) refl

-- A member's device that would still notify.
abbrev pub notifies : ℕ → List CoupleMember → NotificationDevice → Bool
notifies c ms d = is_member c d.account_id ms && d.notifications_enabled

disable_devices_lem :
    (c t : ℕ) (ms : List CoupleMember) (ds : List NotificationDevice)
    → All (λ d. notifies c ms d ≡ false) (disable_devices c t ms ds)
unfolding disable_devices
disable_devices_lem c t ms [] = tt
disable_devices_lem c t ms (d ∷ ds) = elim (Bool-cases (is_member c d.account_id ms)) [
  | inl mine ↦ rw mine (ground arith, disable_devices_lem c t ms ds)
  | inr other ↦ rw other (rw other refl, disable_devices_lem c t ms ds)
]

reminders_lem :
    (c : ℕ) (ds : List Countdown) (rs : List ℕ)
    → All (λ r. is_countdown_of c r ds ≡ false) (keep (λ r. not (is_countdown_of c r ds)) rs)
reminders_lem c ds [] = tt
reminders_lem c ds (r ∷ rs) = elim (Bool-cases (is_countdown_of c r ds)) [
  | inl mine ↦ rw mine (reminders_lem c ds rs)
  | inr other ↦ rw other (other, reminders_lem c ds rs)
]

-- Nothing of the couple `c` is left, and the rows of all other couples are as they were.
abbrev pub IsCleared : ℕ → Relationships → Relationships → Type 0
IsCleared c before after =
    ((d : ℕ) → size_of d after.members ≡ (if d == c then 0 else size_of d before.members))
    × ((d : ℕ)
        → map (rows_of d) (owned after.ephemeral)
          ≡ map (λ t. if d == c then 0 else rows_of d t) (owned before.ephemeral))
    × All (λ r. is_countdown_of c r after.ephemeral.countdowns ≡ false)
        after.ephemeral.countdown_reminders
    × All (λ d. notifies c after.members d ≡ false) after.ephemeral.devices

end_locked-IsCleared : (c t : ℕ) (db : Relationships) → IsCleared c db (end_locked c t db)
unfolding end_locked delete_ephemeral
end_locked-IsCleared c t db = (
  λ d. size_of-leave c t d db.members,
  λ d. map-rows_of c d (owned db.ephemeral),
  reminders_lem c db.ephemeral.countdowns db.ephemeral.countdown_reminders,
  disable_devices_lem c t (leave_members c t db.members) db.ephemeral.devices,
)

end_with-IsCleared :
    (r : Response (Option ℕ)) (c t : ℕ) (db db' : Relationships)
    → end_with t r db ≡ (answers (some c), db')
    → IsCleared c db db'
unfolding end_with
end_with-IsCleared (fails s) c t db db' h = absurd (ground arith)
end_with-IsCleared (answers none) c t db db' h = absurd (ground arith)
end_with-IsCleared (answers (some d)) c t db db' h =
    let e : d ≡ c = ground arith in
    let f : end_locked d t db ≡ db' = ap (λ (x : Response (Option ℕ) × Relationships). x.1) h in
    subst (λ x. IsCleared x db db') e (subst (IsCleared d db) f (end_locked-IsCleared d t db))

-- When a relationship has ended, no member of the couple is active, none of the tables that it clears
-- holds a row of the couple or a reminder of its countdowns, no device of a member is notified, and
-- the rows of the other couples are as many as before.
pub end_active_relationship-IsCleared :
    (actor : ℕ) (read : Option ℕ) (t c : ℕ) (db db' : Relationships)
    → end_active_relationship actor read t db ≡ (answers (some c), db')
    → IsCleared c db db'
unfolding end_active_relationship
end_active_relationship-IsCleared actor read t c db db' h =
    end_with-IsCleared (lock_active_relationship actor read db) c t db db' h
