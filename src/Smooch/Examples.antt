-- ===== src/Smooch/Examples.antt =====
-- A first send, and the same again.
use littleorbit.Prelude.{ℕ, refl, false, none, [], ◌∷◌, arith}
use littleorbit.Pairing.{Couple, CoupleMember, active_member, lock_couple, find_couple}
use littleorbit.Smooch.{
  Db, Send, SmoochResponse, send_smooch, send_by, send_locked, find_partner, send_to, find_prior,
  send_new, recent_sends, enforce_send_allowed, retry_after_seconds, add_smooch,
}
use littleorbit.Smooch.Hourly.{
  IsLimited, here, next, sends, acknowledges, sends_within, Reaches-IsLimited,
}
use littleorbit.Smooch.Received.{
  acknowledge_deliveries, acknowledge_by, acknowledge_locked, acknowledge,
}
use littleorbit.Smooch.Retried.{again, IsAnsweredAs, send_smooch_retry}

abbrev member : ℕ → CoupleMember
member k = record {
  couple_id = 50;
  account_id = k;
  joined_at = 1;
  left_at = none;
  intimacy_enabled = false;
  location_enabled = false;
}

abbrev couple : Couple
couple = record { id = 50; ended_at = none; created_at = 1; updated_at = 1 }

abbrev start : Db
start = record {
  couples = couple ∷ [];
  members = member 1 ∷ member 2 ∷ [];
  smooches = [];
  events = [];
}

abbrev send : Send
send = record { actor_id = 1; operation_id = 13; emoji = 3; key = 115 ∷ []; id = 8; now = 1000 }

abbrev response : SmoochResponse
response = record { id = 8; emoji = 3; phrase_key = 1; sent_at = 1000; remaining_this_hour = 4 }

start-IsLimited : IsLimited start.smooches
unfolding sends_within
start-IsLimited = λ c a w. omega arith

Reaches-IsLimited_example :
    IsLimited (send_smooch (again send 4 [] 9 1001) (send_smooch send start).1).1.smooches
Reaches-IsLimited_example =
    Reaches-IsLimited (next (next here (sends send)) (sends (again send 4 [] 9 1001)))
      start-IsLimited

abbrev first_sent : Db
first_sent = (send_smooch send start).1

-- Another smooch is sent and the first is acknowledged.
abbrev other_sent : Db
other_sent = (send_smooch (record send { operation_id = 14; id = 10; now = 2000 }) first_sent).1

abbrev last : Db
last = acknowledge_deliveries (8 ∷ []) 2 3000 other_sent

send_smooch_retry_example : IsAnsweredAs response last (send_smooch (again send 4 [] 9 5000) last)
unfolding send_smooch active_member send_by lock_couple find_couple send_locked find_partner send_to
    find_prior send_new recent_sends enforce_send_allowed retry_after_seconds add_smooch
    acknowledge_deliveries acknowledge_by acknowledge_locked acknowledge
send_smooch_retry_example =
    send_smooch_retry send 4 9 5000 2 [] response (member 1) (member 1) couple start first_sent last
      refl refl
      (next (next here (sends (record send { operation_id = 14; id = 10; now = 2000 })))
        (acknowledges (8 ∷ []) 2 3000))
      refl refl refl refl
