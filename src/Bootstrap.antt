-- ===== src/Bootstrap.antt =====
-- services/api/src/little_orbit_api/big_orbit_bootstrap.py: the PIN that the server's terminal issues to an
-- administrator, and the restricted setup session that it buys, with create_enrollment_device of
-- big_orbit_auth.py. Digests, secrets and ids are numbers that the calls draw or are given; the checks of
-- passwords and keys are parameters.
pub mod Setup
pub mod Attempts
pub mod Later
pub mod Once
mod Examples
use littleorbit.Prelude.{
  ℕ, ◌+◌, min, Bool, true, false, not, ◌&&◌, ◌||◌, Option, none, some, List, [], ◌∷◌, ◌++◌, ◌==◌,
  ltb, leb, if◌then◌else◌, is_some, is_none, Text,
}

-- BOOTSTRAP_LIFETIME
abbrev pub bootstrap_lifetime : ℕ
bootstrap_lifetime = 600_000_000

abbrev pub pin_attempt_limit : ℕ
pin_attempt_limit = 5

pub record Account : Type 0 where
  pub id : ℕ
  pub is_admin : Bool
  pub verified_at : Option ℕ
  pub suspended_at : Option ℕ
  pub deleted_at : Option ℕ

pub record AdminBootstrapCredential : Type 0 where
  pub id : ℕ
  pub account_id : ℕ
  pub pin_hash : ℕ
  pub failed_attempts : ℕ
  pub expires_at : ℕ
  pub consumed_at : Option ℕ
  pub invalidated_at : Option ℕ
  pub created_at : ℕ

pub record AdminBootstrapSession : Type 0 where
  pub account_id : ℕ
  pub device_id : ℕ
  pub token_hash : ℕ
  pub mfa_required : Bool
  pub expires_at : ℕ
  pub device_confirmed_at : Option ℕ
  pub completed_at : Option ℕ
  pub created_at : ℕ

pub record AdminDevice : Type 0 where
  pub id : ℕ
  pub account_id : ℕ
  pub label : Text
  pub public_key_spki : Text
  pub key_fingerprint : ℕ
  pub credential_hash : Option ℕ
  pub credential_expires_at : Option ℕ
  pub approved_at : Option ℕ
  pub revoked_at : Option ℕ
  pub last_seen_at : Option ℕ
  pub created_at : ℕ

pub record AdminMfa : Type 0 where
  pub account_id : ℕ
  pub encrypted_secret : ℕ
  pub pending_encrypted_secret : Option ℕ
  pub pending_created_at : Option ℕ
  pub recovery_hashes : List ℕ
  pub enabled_at : Option ℕ
  pub last_accepted_counter : Option ℕ
  pub created_at : ℕ
  pub updated_at : ℕ

pub record Db : Type 0 where
  pub credentials : List AdminBootstrapCredential
  pub sessions : List AdminBootstrapSession
  pub devices : List AdminDevice
  pub mfas : List AdminMfa
  -- the accounts of the events "pin_consumed"
  pub consumed_events : List ℕ

-- The account's credential is neither consumed nor invalidated.
abbrev pub is_live : ℕ → AdminBootstrapCredential → Bool
is_live a c = c.account_id == a && (is_none c.consumed_at && is_none c.invalidated_at)

unfoldable pub invalidate : ℕ → ℕ → List AdminBootstrapCredential → List AdminBootstrapCredential
invalidate a now [] = []
invalidate a now (c ∷ cs) =
    (if is_live a c then record c { invalidated_at = some now } else c) ∷ invalidate a now cs

abbrev pub is_open : ℕ → ℕ → AdminBootstrapSession → Bool
is_open a now s = s.account_id == a && ltb now s.expires_at

abbrev pub completed_by : ℕ → Option ℕ → Option ℕ
completed_by now none = some now
completed_by now (some t) = some t

unfoldable pub close_sessions : ℕ → ℕ → List AdminBootstrapSession → List AdminBootstrapSession
close_sessions a now [] = []
close_sessions a now (s ∷ ss) =
    (if is_open a now s
      then record s { expires_at = now; completed_at = completed_by now s.completed_at }
      else s)
    ∷ close_sessions a now ss

-- The device of an open setup.
unfoldable pub is_setup_device : ℕ → ℕ → ℕ → List AdminBootstrapSession → Bool
is_setup_device a now d [] = false
is_setup_device a now d (s ∷ ss) = is_open a now s && s.device_id == d || is_setup_device a now d ss

unfoldable pub revoke_devices :
    ℕ → ℕ → List AdminBootstrapSession → List AdminDevice → List AdminDevice
unfolding is_setup_device
revoke_devices a now sessions [] = []
revoke_devices a now sessions (d ∷ ds) =
    (if is_setup_device a now d.id sessions && is_none d.approved_at
      then record d { revoked_at = some now }
      else d)
    ∷ revoke_devices a now sessions ds

abbrev pub new_credential : ℕ → ℕ → ℕ → ℕ → AdminBootstrapCredential
new_credential k a digest now = record {
  id = k;
  account_id = a;
  pin_hash = digest;
  failed_attempts = 0;
  expires_at = now + bootstrap_lifetime;
  consumed_at = none;
  invalidated_at = none;
  created_at = now;
}

-- `issue_bootstrap_pin` of the account `a`, for a PIN with the digest `digest`
unfoldable pub issue_bootstrap_pin : ℕ → ℕ → ℕ → ℕ → Db → Db
unfolding invalidate close_sessions revoke_devices
issue_bootstrap_pin k a digest now db = record db {
  credentials = invalidate a now db.credentials ++ new_credential k a digest now ∷ [];
  sessions = close_sessions a now db.sessions;
  devices = revoke_devices a now db.sessions db.devices;
}

-- The first by `created_at.desc()`.
abbrev pub newer :
    AdminBootstrapCredential → Option AdminBootstrapCredential → Option AdminBootstrapCredential
newer c none = some c
newer c (some d) = if ltb c.created_at d.created_at then some d else some c

unfoldable pub newest_live : ℕ → List AdminBootstrapCredential → Option AdminBootstrapCredential
newest_live a [] = none
newest_live a (c ∷ cs) = let rest = newest_live a cs in if is_live a c then newer c rest else rest

unfoldable pub update_credential :
    ℕ
    → (AdminBootstrapCredential → AdminBootstrapCredential)
    → List AdminBootstrapCredential
    → List AdminBootstrapCredential
update_credential k f [] = []
update_credential k f (c ∷ cs) = (if c.id == k then f c else c) ∷ update_credential k f cs

abbrev pub is_valid_pin : ℕ → ℕ → AdminBootstrapCredential → Bool
is_valid_pin digest now c =
    ltb now c.expires_at && (ltb c.failed_attempts pin_attempt_limit && c.pin_hash == digest)

abbrev pub failed_once : ℕ → AdminBootstrapCredential → AdminBootstrapCredential
failed_once now c =
    let n = min pin_attempt_limit (c.failed_attempts + 1) in
    record c {
      failed_attempts = n;
      invalidated_at = if n == pin_attempt_limit then some now else c.invalidated_at;
    }

-- `_consume_pin` returns the credential, or raises with its commit done.
pub data Consumed : Type 0 where
  accepts : AdminBootstrapCredential → Consumed
  refuses : List AdminBootstrapCredential → Consumed

unfoldable pub check_pin :
    ℕ → ℕ → Option AdminBootstrapCredential → List AdminBootstrapCredential → Consumed
unfolding update_credential
check_pin digest now none cs = refuses cs
check_pin digest now (some c) cs =
    if is_valid_pin digest now c
    then accepts c
    else refuses (update_credential c.id (failed_once now) cs)

-- _consume_pin
unfoldable pub consume_pin : ℕ → ℕ → ℕ → List AdminBootstrapCredential → Consumed
unfolding check_pin newest_live
consume_pin a digest now cs = check_pin digest now (newest_live a cs) cs

-- _active_admin
abbrev pub active_admin : Account → Bool
active_admin x =
    x.is_admin && (is_some x.verified_at && (is_none x.suspended_at && is_none x.deleted_at))

-- `_verified_admin`, for the account with the given address and whether its password fits
abbrev pub verified_admin : Bool → Option Account → Option Account
verified_admin fits none = none
verified_admin fits (some x) = if fits && active_admin x then some x else none
