-- ===== src/Pairing/Codes.antt =====
-- routes/pairing.py: a pair code is created, redeemed by the partner and confirmed by its creator. A
-- handler first reads a preview, then takes its locks and reads again: the tables may have changed in
-- between, so that it is given as two functions, the second on the tables under the locks.
use littleorbit.Prelude.{
  ℕ, ◌+◌, Bool, true, false, not, ◌&&◌, ◌||◌, Option, none, some, List, [], ◌∷◌, ◌++◌, ◌==◌, ltb,
  if◌then◌else◌, is_some, is_none, Text, length,
}
use littleorbit.Throttle.{RateLimitDecision, RateLimitBucket, consume_rules, request_rules}
use littleorbit.Pairing.{
  Account, Couple, CoupleMember, PairCode, Status, Response, answers, fails, active_couple_id,
  lock_accounts, all_eligible, locked_memberships,
}

-- The tables that the handlers use; a security event is the account whose attempt was blocked.
pub record Db : Type 0 where
  pub accounts : List Account
  pub couples : List Couple
  pub members : List CoupleMember
  pub codes : List PairCode
  pub buckets : List RateLimitBucket
  pub blocked_redeems : List ℕ

abbrev pub ten_minutes : ℕ
ten_minutes = 600_000_000

abbrev pub one_hour : ℕ
one_hour = 3_600_000_000

-- What a request of `create_code` draws: the id of the row and the digest of the code.
pub record Draw : Type 0 where
  pub id : ℕ
  pub digest : ℕ
  pub now : ℕ

abbrev pub new_code : ℕ → Draw → PairCode
new_code actor d = record {
  id = d.id;
  creator_id = actor;
  code_hash = d.digest;
  pending_partner_id = none;
  expires_at = d.now + ten_minutes;
  consumed_at = none;
  created_at = d.now;
}

-- create_code
unfoldable pub create_code : ℕ → Draw → Db → Response ℕ × Db
unfolding active_couple_id lock_accounts all_eligible
create_code actor d db =
    let accounts = lock_accounts actor actor db.accounts in
    if not (length accounts == 1) || not (all_eligible accounts)
    then (fails Status.conflict, db)
    else if is_some (active_couple_id actor db.members)
    then (fails Status.conflict, db)
    else (answers (d.now + ten_minutes), record db { codes = db.codes ++ new_code actor d ∷ [] })

-- expires_at > now, consumed_at.is_(None)
abbrev pub is_open : ℕ → PairCode → Bool
is_open now c = ltb now c.expires_at && is_none c.consumed_at

-- The preview of `redeem_code`.
pub find_digest : ℕ → ℕ → List PairCode → Option PairCode
find_digest digest now [] = none
find_digest digest now (c ∷ cs) =
    if c.code_hash == digest && is_open now c then some c else find_digest digest now cs

-- The row of `redeem_code` under the locks.
unfoldable pub find_redeemed : ℕ → ℕ → ℕ → List PairCode → Option PairCode
find_redeemed k digest now [] = none
find_redeemed k digest now (c ∷ cs) =
    if c.id == k && (c.code_hash == digest && is_open now c)
    then some c
    else find_redeemed k digest now cs

-- The update of the row with one id.
unfoldable pub update_code : ℕ → (PairCode → PairCode) → List PairCode → List PairCode
update_code k f [] = []
update_code k f (c ∷ cs) = (if c.id == k then f c else c) ∷ update_code k f cs

unfoldable pub reserve : ℕ → Option PairCode → Db → Response ℕ × Db
unfolding update_code
reserve actor none db = (fails Status.bad_request, db)
reserve actor (some c) db =
    if is_some c.pending_partner_id then (fails Status.bad_request, db) else (
      answers c.id,
      record db {
        codes = update_code c.id (λ x. record x { pending_partner_id = some actor }) db.codes;
      },
    )

-- `redeem_code` from its locks on
unfoldable pub redeem_locked : ℕ → PairCode → ℕ → ℕ → Db → Response ℕ × Db
unfolding reserve find_redeemed lock_accounts all_eligible locked_memberships
redeem_locked actor preview digest now db =
    let accounts = lock_accounts actor preview.creator_id db.accounts in
    if not (length accounts == 2)
      || not (all_eligible accounts)
      || not (length (locked_memberships actor preview.creator_id db.members) == 0)
    then (fails Status.bad_request, db)
    else reserve actor (find_redeemed preview.id digest now db.codes) db

abbrev pub is_allowed : RateLimitDecision → Bool
is_allowed RateLimitDecision.allowed = true
is_allowed (RateLimitDecision.blocked scope) = false

-- The settings and the texts of the two rules.
pub record RedeemLimits : Type 0 where
  pub ip_scope : Text
  pub subject_scope : Text
  pub pair_redeem_ip_per_hour : ℕ
  pub pair_redeem_subject_per_hour : ℕ

module _ (hash_token : Text → Text → ℕ) where
  -- _redeem_allowed
  pub redeem_allowed : RedeemLimits → Text → Text → ℕ → Db → Bool × Db
  redeem_allowed limits client_ip subject now db =
      let x =
        consume_rules hash_token
          (request_rules limits.ip_scope limits.subject_scope client_ip subject
            limits.pair_redeem_ip_per_hour limits.pair_redeem_subject_per_hour one_hour)
          now db.buckets in
      (is_allowed x.0, record db { buckets = x.1 })

  -- `redeem_code` up to its locks: the preview, or the failure of the request
  pub redeem_preview : RedeemLimits → Text → Text → ℕ → ℕ → ℕ → Db → Response PairCode × Db
  unfolding redeem_allowed find_digest
  redeem_preview limits client_ip subject actor digest now db =
      let x = redeem_allowed limits client_ip subject now db in
      if not x.0
      then (
        fails Status.too_many_requests,
        record x.1 { blocked_redeems = actor ∷ db.blocked_redeems },
      )
      else elim (find_digest digest now db.codes) [
        | none ↦ (fails Status.bad_request, x.1)
        | some c ↦
            if c.creator_id == actor then (fails Status.bad_request, x.1) else (answers c, x.1)
      ]

-- The preview of `confirm_pairing`, with the partner that the code waits for.
unfoldable pub find_request : ℕ → ℕ → ℕ → List PairCode → Option PairCode
find_request k actor now [] = none
find_request k actor now (c ∷ cs) =
    if c.id == k && (c.creator_id == actor && is_open now c)
    then some c
    else find_request k actor now cs

abbrev pub partner_of : Option PairCode → Response ℕ
partner_of none = fails Status.bad_request
partner_of (some c) = elim c.pending_partner_id [
  | none ↦ fails Status.bad_request
  | some p ↦ answers p
]

-- `confirm_pairing` up to its locks
unfoldable pub confirm_preview : ℕ → ℕ → ℕ → Db → Response ℕ
unfolding find_request
confirm_preview k actor now db = partner_of (find_request k actor now db.codes)

-- PairCode.pending_partner_id == partner
abbrev pub waits_for : ℕ → PairCode → Bool
waits_for partner c = elim c.pending_partner_id [ none ↦ false | some p ↦ p == partner ]

-- The row of `confirm_pairing` under the locks.
unfoldable pub find_confirmed : ℕ → ℕ → ℕ → ℕ → List PairCode → Option PairCode
find_confirmed k actor partner now [] = none
find_confirmed k actor partner now (c ∷ cs) =
    if c.id == k && (c.creator_id == actor && (waits_for partner c && is_open now c))
    then some c
    else find_confirmed k actor partner now cs

abbrev pub new_couple : ℕ → ℕ → Couple
new_couple c now = record { id = c; ended_at = none; created_at = now; updated_at = now }

abbrev pub new_member : ℕ → ℕ → ℕ → CoupleMember
new_member c now account = record {
  couple_id = c;
  account_id = account;
  joined_at = now;
  left_at = none;
  intimacy_enabled = false;
  location_enabled = false;
}

-- The couple, its two members and the consumed code; `c` is the couple's new id.
unfoldable pub pair : ℕ → ℕ → ℕ → ℕ → PairCode → Db → Db
unfolding update_code
pair actor partner c now code db = record db {
  couples = db.couples ++ new_couple c now ∷ [];
  members = db.members ++ (new_member c now actor ∷ new_member c now partner ∷ []);
  codes = update_code code.id (λ x. record x { consumed_at = some now }) db.codes;
}

unfoldable pub confirm_found : ℕ → ℕ → ℕ → ℕ → Option PairCode → Db → Response ℕ × Db
unfolding pair lock_accounts all_eligible locked_memberships
confirm_found actor partner c now none db = (fails Status.bad_request, db)
confirm_found actor partner c now (some code) db =
    let accounts = lock_accounts actor partner db.accounts in
    if not (length accounts == 2) || not (all_eligible accounts)
    then (fails Status.bad_request, db)
    else if not (length (locked_memberships actor partner db.members) == 0)
    then (fails Status.conflict, db)
    else (answers c, pair actor partner c now code db)

-- `confirm_pairing` from its locks on
unfoldable pub confirm_locked : ℕ → ℕ → ℕ → ℕ → ℕ → Db → Response ℕ × Db
unfolding confirm_found find_confirmed
confirm_locked k actor partner c now db =
    confirm_found actor partner c now (find_confirmed k actor partner now db.codes) db

-- The newest code of `pending_pairing`: by creation, the first of equal ones.
abbrev pub is_pending : ℕ → ℕ → PairCode → Bool
is_pending actor now c = c.creator_id == actor && (is_some c.pending_partner_id && is_open now c)

abbrev pub newer : PairCode → Option PairCode → Option PairCode
newer c none = some c
newer c (some d) = if ltb c.created_at d.created_at then some d else some c

pub newest_pending : ℕ → ℕ → List PairCode → Option PairCode
newest_pending actor now [] = none
newest_pending actor now (c ∷ cs) =
    let rest = newest_pending actor now cs in if is_pending actor now c then newer c rest else rest

pub find_account : ℕ → List Account → Option Account
find_account a [] = none
find_account a (x ∷ xs) = if x.id == a then some x else find_account a xs

abbrev pub name_of : Option ℕ → List Account → Response Text
unfolding find_account
name_of none accounts = fails Status.not_found
name_of (some p) accounts = elim (find_account p accounts) [
  | none ↦ fails Status.not_found
  | some x ↦ answers x.display_name
]

-- The partner's name that `pending_pairing` shows; a reserved partner has an account.
pub pending_pairing : ℕ → ℕ → Db → Response Text
unfolding newest_pending
pending_pairing actor now db = elim (newest_pending actor now db.codes) [
  | none ↦ fails Status.not_found
  | some c ↦ name_of c.pending_partner_id db.accounts
]
