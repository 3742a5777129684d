-- ===== src/Pairing/Examples.antt =====
-- Two accounts pair, and their relationship ends.
use littleorbit.Prelude.{ℕ, ◌≡◌, refl, true, none, some, [], ◌∷◌, arith}
use littleorbit.Pairing.{Account, fails, Status}
use littleorbit.Pairing.Codes.{Draw, new_code, create_code, redeem_locked, confirm_locked, reserve}
use littleorbit.Pairing.Teardown.{Ephemeral, end_active_relationship}
use littleorbit.Pairing.Invariant.{
  World, Reaches, here, next, creates, redeems, confirms, ends, IsPaired, set_db, relationships,
  set_relationships, has_code, Reaches-IsPaired,
}
use littleorbit.Pairing.Members.{memberships, size_of, accounts_of}
use littleorbit.Pairing.Consumed.{confirm_locked_once}
use littleorbit.Pairing.Cleared.{IsCleared, end_active_relationship-IsCleared}

abbrev account : ℕ → Account
account k = record {
  id = k;
  display_name = k ∷ [];
  verified_at = some 1;
  suspended_at = none;
  deleted_at = none;
}

abbrev tables : Ephemeral
tables = record {
  notification_events = 50 ∷ 51 ∷ [];
  devices = record { account_id = 1; notifications_enabled = true; disabled_at = none } ∷ [];
  location_samples = 50 ∷ [];
  device_health = [];
  avatars = [];
  name_operations = [];
  names = 50 ∷ [];
  countdowns = record { id = 9; couple_id = 50 } ∷ [];
  countdown_reminders = 9 ∷ 8 ∷ [];
  activity_seen = [];
  activity_events = 51 ∷ [];
}

abbrev start : World
start = record {
  db = record {
    accounts = account 1 ∷ account 2 ∷ [];
    couples = [];
    members = [];
    codes = [];
    buckets = [];
    blocked_redeems = [];
  };
  ephemeral = tables;
}

abbrev draw : Draw
draw = record { id = 7; digest = 99; now = 10 }

abbrev created : World
created = set_db start (create_code 1 draw start.db).1

abbrev redeemed : World
redeemed = set_db created (redeem_locked 2 (new_code 1 draw) 99 20 created.db).1

abbrev paired : World
paired = set_db redeemed (confirm_locked 7 1 2 50 30 redeemed.db).1

abbrev ended : World
ended = set_relationships paired (end_active_relationship 1 (some 50) 40 (relationships paired)).1

start-IsPaired : IsPaired start
unfolding memberships size_of accounts_of
start-IsPaired = record {
  single = λ a. ground arith;
  couple = λ c. ground arith;
  keyed = λ a. ground arith;
}

all_steps : Reaches start ended
unfolding create_code redeem_locked reserve has_code size_of
all_steps =
    next
      (next (next (next here (creates 1 draw refl)) (redeems 2 99 20 (new_code 1 draw)))
        (confirms 7 1 2 50 30 refl))
      (ends 1 (some 50) 40)

Reaches-IsPaired_example : IsPaired ended
Reaches-IsPaired_example = Reaches-IsPaired all_steps start-IsPaired

confirm_locked_once_example :
    confirm_locked 7 1 2 60 35 paired.db ≡ (fails Status.bad_request, paired.db)
unfolding create_code redeem_locked reserve confirm_locked
confirm_locked_once_example =
    confirm_locked_once 7 1 2 50 30 50 redeemed paired paired.db 1 2 60 35 refl here

end_active_relationship-IsCleared_example :
    IsCleared 50
      (relationships paired)
      (end_active_relationship 1 (some 50) 40 (relationships paired)).1
unfolding create_code redeem_locked reserve confirm_locked end_active_relationship
end_active_relationship-IsCleared_example =
    end_active_relationship-IsCleared 1 (some 50) 40 50 (relationships paired)
      (end_active_relationship 1 (some 50) 40 (relationships paired)).1 refl
