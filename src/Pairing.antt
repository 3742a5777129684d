-- ===== src/Pairing.antt =====
-- The relationship tables of services/api/src/little_orbit_api, and the queries on them of
-- couple_access.py and relationship_service.py. A table is the list of its rows, whose columns of
-- profiles and settings are left out.
pub mod Codes
pub mod Teardown
pub mod Members
pub mod Invariant
pub mod Consumed
pub mod Cleared
mod Examples
use littleorbit.Prelude.{
  ℕ, ◌+◌, Bool, true, false, not, ◌&&◌, ◌||◌, Option, none, some, List, [], ◌∷◌, ◌++◌, map, ◌==◌,
  ltb, if◌then◌else◌, is_some, is_none, Text, keep, length,
}

pub record Account : Type 0 where
  pub id : ℕ
  pub display_name : Text
  pub verified_at : Option ℕ
  pub suspended_at : Option ℕ
  pub deleted_at : Option ℕ

pub record Couple : Type 0 where
  pub id : ℕ
  pub ended_at : Option ℕ
  pub created_at : ℕ
  pub updated_at : ℕ

pub record CoupleMember : Type 0 where
  pub couple_id : ℕ
  pub account_id : ℕ
  pub joined_at : ℕ
  pub left_at : Option ℕ
  pub intimacy_enabled : Bool
  pub location_enabled : Bool

pub record PairCode : Type 0 where
  pub id : ℕ
  pub creator_id : ℕ
  pub code_hash : ℕ
  pub pending_partner_id : Option ℕ
  pub expires_at : ℕ
  pub consumed_at : Option ℕ
  pub created_at : ℕ

-- The status of the HTTPException that a handler raises.
pub data Status : Type 0 where
  conflict bad_request too_many_requests not_found relationship_inactive : Status

pub data Response {ℓ} (A : Type ℓ) : Type ℓ where
  answers : A → Response A
  fails : Status → Response A

-- CoupleMember.account_id == account_id, CoupleMember.left_at.is_(None)
abbrev pub is_active_of : ℕ → CoupleMember → Bool
is_active_of a m = m.account_id == a && is_none m.left_at

-- CoupleMember.couple_id == couple_id, CoupleMember.left_at.is_(None)
abbrev pub is_active_in : ℕ → CoupleMember → Bool
is_active_in c m = m.couple_id == c && is_none m.left_at

pub first_active : ℕ → List CoupleMember → Option CoupleMember
first_active a [] = none
first_active a (m ∷ ms) = if is_active_of a m then some m else first_active a ms

abbrev pub couple_of : Option CoupleMember → Option ℕ
couple_of none = none
couple_of (some m) = some m.couple_id

-- _active_couple_id
pub active_couple_id : ℕ → List CoupleMember → Option ℕ
unfolding first_active
active_couple_id a ms = couple_of (first_active a ms)

abbrev pub or_inactive {ℓ} : {A : Type ℓ} → Option A → Status → Response A
or_inactive none s = fails s
or_inactive (some a) s = answers a

-- active_member
unfoldable pub active_member : ℕ → List CoupleMember → Response CoupleMember
unfolding first_active
active_member a ms = or_inactive (first_active a ms) Status.relationship_inactive

pub first_archived : ℕ → ℕ → List CoupleMember → Option CoupleMember
first_archived a c [] = none
first_archived a c (m ∷ ms) =
    if m.account_id == a && (m.couple_id == c && is_some m.left_at)
    then some m
    else first_archived a c ms

-- archived_member
pub archived_member : ℕ → ℕ → List CoupleMember → Response CoupleMember
unfolding first_archived
archived_member a c ms = or_inactive (first_archived a c ms) Status.not_found

-- The allowlisted columns of both_members_consent.
pub data Consent : Type 0 where
  intimacy_consent location_consent : Consent

abbrev pub has_consent : Consent → CoupleMember → Bool
has_consent intimacy_consent m = m.intimacy_enabled
has_consent location_consent m = m.location_enabled

-- both_members_consent
pub both_members_consent : ℕ → Consent → List CoupleMember → Bool
both_members_consent c field ms =
    length (keep (λ m. is_active_in c m && has_consent field m) ms) == 2

unfoldable pub find_couple : ℕ → List Couple → Option Couple
find_couple c [] = none
find_couple c (k ∷ ks) = if k.id == c then some k else find_couple c ks

abbrev pub live_couple : Option Couple → Response Couple
live_couple none = fails Status.relationship_inactive
live_couple (some k) = if is_some k.ended_at then fails Status.relationship_inactive else answers k

-- lock_couple
unfoldable pub lock_couple : ℕ → List Couple → Response Couple
unfolding find_couple
lock_couple c ks = live_couple (find_couple c ks)

-- The rows that lock_accounts gives for two ids; their order only orders the locks.
pub lock_accounts : ℕ → ℕ → List Account → List Account
lock_accounts a b accounts = keep (λ (x : Account). x.id == a || x.id == b) accounts

-- _eligible
abbrev pub is_eligible : Account → Bool
is_eligible x = is_some x.verified_at && (is_none x.suspended_at && is_none x.deleted_at)

pub all_eligible : List Account → Bool
all_eligible [] = true
all_eligible (x ∷ xs) = is_eligible x && all_eligible xs

-- _locked_active_memberships
pub locked_memberships : ℕ → ℕ → List CoupleMember → List CoupleMember
locked_memberships a b ms = keep (λ m. is_active_of a m || is_active_of b m) ms
