-- ===== src/Smooch/Received.antt =====
-- What the other routes of routes/smooches.py make of the table: acknowledged deliveries and the totals of a
-- week.
use littleorbit.Prelude.{
  ℕ, ◌+◌, Bool, false, ◌&&◌, ◌||◌, some, List, [], ◌∷◌, ◌==◌, ltb, leb, if◌then◌else◌, is_none,
  keep,
}
use littleorbit.Pairing.{Couple, CoupleMember, Response, answers, fails, active_member, lock_couple}
use littleorbit.Smooch.{Smooch, Db, is_account}

pub has_id : ℕ → List ℕ → Bool
has_id k [] = false
has_id k (i ∷ ids) = i == k || has_id k ids

-- The rows that `acknowledge_deliveries` marks.
abbrev pub is_acknowledged : List ℕ → ℕ → ℕ → Smooch → Bool
is_acknowledged ids c a x =
    has_id x.id ids && (x.couple_id == c && (is_account a x.recipient_id && is_none x.delivered_at))

unfoldable pub acknowledge : List ℕ → ℕ → ℕ → ℕ → List Smooch → List Smooch
unfolding has_id
acknowledge ids c a now [] = []
acknowledge ids c a now (x ∷ xs) =
    (if is_acknowledged ids c a x then record x { delivered_at = some now } else x)
    ∷ acknowledge ids c a now xs

unfoldable pub acknowledge_locked : List ℕ → ℕ → ℕ → ℕ → Response Couple → Db → Db
unfolding acknowledge
acknowledge_locked ids c a now (fails s) db = db
acknowledge_locked ids c a now (answers k) db = record db {
  smooches = acknowledge ids c a now db.smooches;
}

unfoldable pub acknowledge_by : List ℕ → ℕ → ℕ → Response CoupleMember → Db → Db
unfolding acknowledge_locked lock_couple
acknowledge_by ids a now (fails s) db = db
acknowledge_by ids a now (answers m) db =
    acknowledge_locked ids m.couple_id a now (lock_couple m.couple_id db.couples) db

-- The smooches of `acknowledge_deliveries`; its update of notification events is left out
unfoldable pub acknowledge_deliveries : List ℕ → ℕ → ℕ → Db → Db
unfolding acknowledge_by active_member
acknowledge_deliveries ids a now db = acknowledge_by ids a now (active_member a db.members) db

-- The totals of `_week_summary` over the rows between its bounds.
pub record WeekSummary : Type 0 where
  pub sent : ℕ
  pub received : ℕ
  pub combined : ℕ

abbrev pub count_if : Bool → ℕ
count_if b = if b then 1 else 0

unfoldable pub week_totals : ℕ → List Smooch → WeekSummary
week_totals a [] = record { sent = 0; received = 0; combined = 0 }
week_totals a (x ∷ xs) =
    let rest = week_totals a xs in
    record {
      sent = count_if (is_account a x.sender_id) + rest.sent;
      received = count_if (is_account a x.recipient_id) + rest.received;
      combined = 1 + rest.combined;
    }

abbrev pub week_summary : ℕ → ℕ → ℕ → List Smooch → WeekSummary
week_summary a lower upper rows =
    week_totals a (keep (λ (x : Smooch). leb lower x.sent_at && ltb x.sent_at upper) rows)
