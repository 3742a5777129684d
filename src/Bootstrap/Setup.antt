-- ===== src/Bootstrap/Setup.antt =====
-- The start of a setup in big_orbit_bootstrap.py, with its device (create_enrollment_device of
-- big_orbit_auth.py) and the staging of the second factor.
use littleorbit.Prelude.{
  ℕ, ◌+◌, Bool, true, not, ◌&&◌, Option, none, some, List, [], ◌∷◌, ◌++◌, ◌==◌, if◌then◌else◌,
  is_some, is_none, Text,
}
use littleorbit.Bootstrap.{
  bootstrap_lifetime, Account, AdminBootstrapSession, AdminDevice, AdminMfa, Db, update_credential,
  Consumed, consume_pin, verified_admin, accepts, refuses,
}

-- The key that a device offers, whether the server has a key for TOTP secrets, and what the call draws.
pub record Enrollment : Type 0 where
  pub is_valid_key : Bool
  pub has_totp_key : Bool
  pub label : Text
  pub public_key_spki : Text
  pub fingerprint : ℕ
  pub device_id : ℕ
  pub token_hash : ℕ
  pub secret : ℕ
  pub now : ℕ

unfoldable pub find_device : ℕ → ℕ → List AdminDevice → Option AdminDevice
find_device a fingerprint [] = none
find_device a fingerprint (d ∷ ds) =
    if d.account_id == a && d.key_fingerprint == fingerprint
    then some d
    else find_device a fingerprint ds

unfoldable pub update_device : ℕ → (AdminDevice → AdminDevice) → List AdminDevice → List AdminDevice
update_device k f [] = []
update_device k f (d ∷ ds) = (if d.id == k then f d else d) ∷ update_device k f ds

abbrev pub staged_again : Enrollment → AdminDevice → AdminDevice
staged_again e d = record d {
  label = e.label;
  public_key_spki = e.public_key_spki;
  approved_at = none;
  revoked_at = none;
  credential_hash = none;
  credential_expires_at = none;
}

abbrev pub new_device : ℕ → Enrollment → AdminDevice
new_device a e = record {
  id = e.device_id;
  account_id = a;
  label = e.label;
  public_key_spki = e.public_key_spki;
  key_fingerprint = e.fingerprint;
  credential_hash = none;
  credential_expires_at = none;
  approved_at = none;
  revoked_at = none;
  last_seen_at = none;
  created_at = e.now;
}

-- The id of the staged device and the devices, or none where the handler raises.
unfoldable pub stage_device :
    ℕ → Enrollment → Option AdminDevice → List AdminDevice → Option (ℕ × List AdminDevice)
unfolding update_device
stage_device a e none ds = some (e.device_id, ds ++ new_device a e ∷ [])
stage_device a e (some d) ds =
    if is_some d.approved_at && is_none d.revoked_at
    then none
    else some (d.id, update_device d.id (staged_again e) ds)

-- create_enrollment_device
unfoldable pub create_enrollment_device :
    ℕ → Enrollment → List AdminDevice → Option (ℕ × List AdminDevice)
unfolding stage_device find_device
create_enrollment_device a e ds =
    if not e.is_valid_key then none else stage_device a e (find_device a e.fingerprint ds) ds

unfoldable pub find_mfa : ℕ → List AdminMfa → Option AdminMfa
find_mfa a [] = none
find_mfa a (m ∷ ms) = if m.account_id == a then some m else find_mfa a ms

abbrev pub is_mfa_required : Option AdminMfa → Bool
is_mfa_required none = true
is_mfa_required (some m) = is_none m.enabled_at

abbrev pub pending_mfa : ℕ → ℕ → AdminMfa → AdminMfa
pending_mfa secret now m = record m {
  encrypted_secret = secret;
  pending_encrypted_secret = some secret;
  pending_created_at = some now;
  updated_at = now;
}

unfoldable pub update_mfa : ℕ → ℕ → ℕ → List AdminMfa → List AdminMfa
update_mfa a secret now [] = []
update_mfa a secret now (m ∷ ms) =
    (if m.account_id == a then pending_mfa secret now m else m) ∷ update_mfa a secret now ms

-- _stage_mfa
unfoldable pub stage_mfa : ℕ → ℕ → ℕ → Option AdminMfa → List AdminMfa → List AdminMfa
unfolding update_mfa
stage_mfa a secret now none ms =
    ms
    ++ (record {
      account_id = a;
      encrypted_secret = secret;
      pending_encrypted_secret = some secret;
      pending_created_at = some now;
      recovery_hashes = [];
      enabled_at = none;
      last_accepted_counter = none;
      created_at = now;
      updated_at = now;
    })
      ∷ []
stage_mfa a secret now (some m) ms = update_mfa a secret now ms

abbrev pub new_session : ℕ → ℕ → Bool → Enrollment → AdminBootstrapSession
new_session a device mfa e = record {
  account_id = a;
  device_id = device;
  token_hash = e.token_hash;
  mfa_required = mfa;
  expires_at = e.now + bootstrap_lifetime;
  device_confirmed_at = none;
  completed_at = none;
  created_at = e.now;
}

-- `start_bootstrap` gives the setup session, or raises; the PIN's failures stay in the table.
pub data Started : Type 0 where
  starts : AdminBootstrapSession → Db → Started
  raises : Db → Started

unfoldable pub start_staged : ℕ → ℕ → Enrollment → Option (ℕ × List AdminDevice) → Db → Started
unfolding stage_mfa find_mfa update_credential
start_staged a k e none db = raises db
start_staged a k e (some (device, devices)) db =
    let required = is_mfa_required (find_mfa a db.mfas) in
    let setup = new_session a device required e in
    if required && not e.has_totp_key
    then raises db
    else starts setup (record {
      credentials = update_credential k (λ c. record c { consumed_at = some e.now }) db.credentials;
      sessions = db.sessions ++ setup ∷ [];
      devices = devices;
      mfas = if required then stage_mfa a e.secret e.now (find_mfa a db.mfas) db.mfas else db.mfas;
      consumed_events = db.consumed_events ++ a ∷ [];
    })

unfoldable pub start_consumed : ℕ → Enrollment → Consumed → Db → Started
unfolding start_staged create_enrollment_device
start_consumed a e (refuses cs) db = raises (record db { credentials = cs })
start_consumed a e (accepts c) db =
    start_staged a c.id e (create_enrollment_device a e db.devices) db

unfoldable pub start_verified : ℕ → Enrollment → Option Account → Db → Started
unfolding start_consumed consume_pin
start_verified digest e none db = raises db
start_verified digest e (some x) db =
    start_consumed x.id e (consume_pin x.id digest e.now db.credentials) db

-- start_bootstrap
unfoldable pub start_bootstrap : Bool → Option Account → ℕ → Enrollment → Db → Started
unfolding start_verified
start_bootstrap fits found digest e db = start_verified digest e (verified_admin fits found) db
