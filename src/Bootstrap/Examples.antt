-- ===== src/Bootstrap/Examples.antt =====
-- A PIN of the terminal, a wrong one, and a setup.
use littleorbit.Prelude.{◌+◌, ◌≡◌, refl, true, false, ◌&&◌, ltb, length, none, some, List, [], ◌∷◌}
use littleorbit.Bootstrap.{
  Account, AdminBootstrapSession, Db, issue_bootstrap_pin, invalidate, close_sessions,
  revoke_devices, consume_pin, newest_live, check_pin, update_credential, pin_attempt_limit,
  bootstrap_lifetime,
}
use littleorbit.Bootstrap.Setup.{
  Enrollment, Started, starts, raises, new_session, start_bootstrap, start_verified, start_consumed,
  start_staged, create_enrollment_device, find_device, stage_device, find_mfa, stage_mfa,
}
use littleorbit.Bootstrap.Attempts.{
  Attempt, try_all, is_accepted, has_credential, issue_bootstrap_pin_attempts,
}
use littleorbit.Bootstrap.Later.{Step, Reaches}
use littleorbit.Bootstrap.Once.{start_bootstrap_once}

abbrev admin : Account
admin = record {
  id = 1;
  is_admin = true;
  verified_at = some 1;
  suspended_at = none;
  deleted_at = none;
}

abbrev empty : Db
empty = record { credentials = []; sessions = []; devices = []; mfas = []; consumed_events = [] }

abbrev wrong : List Attempt
wrong = record { digest = 9; now = 110 } ∷ []

abbrev enrollment : Enrollment
enrollment = record {
  is_valid_key = true;
  has_totp_key = true;
  label = [];
  public_key_spki = [];
  fingerprint = 5;
  device_id = 6;
  token_hash = 7;
  secret = 8;
  now = 120;
}

abbrev issued : Db
issued = issue_bootstrap_pin 3 1 77 100 empty

abbrev tried : Db
tried = record issued { credentials = try_all 1 wrong issued.credentials }

abbrev setup : AdminBootstrapSession
setup = new_session 1 6 true enrollment

abbrev after_start : Started → Db
after_start (starts s db) = db
after_start (raises db) = db

abbrev started : Db
started = after_start (start_bootstrap true (some admin) 77 enrollment tried)

issue_bootstrap_pin_attempts_example :
    is_accepted
      (consume_pin 1 77 120 (try_all 1 wrong (issue_bootstrap_pin 3 1 77 100 empty).credentials))
    ≡ ltb (length wrong) pin_attempt_limit && ltb 120 (100 + bootstrap_lifetime)
unfolding has_credential
issue_bootstrap_pin_attempts_example =
    issue_bootstrap_pin_attempts 3 1 77 100 120 wrong empty refl (refl, tt)

-- The same PIN again, and a PIN for another account.
abbrev started_again : Db
started_again = after_start (start_bootstrap true (some admin) 77 enrollment started)

start_bootstrap_once_example :
    is_accepted (consume_pin 1 77 130 (issue_bootstrap_pin 4 2 77 125 started_again).credentials)
    ≡ false
unfolding has_credential issue_bootstrap_pin invalidate close_sessions revoke_devices try_all
    consume_pin newest_live check_pin update_credential start_bootstrap start_verified
    start_consumed start_staged create_enrollment_device find_device stage_device find_mfa stage_mfa
start_bootstrap_once_example =
    start_bootstrap_once 3 77 100 77 77 130 true admin enrollment setup wrong empty tried started
      (issue_bootstrap_pin 4 2 77 125 started_again) refl (refl, tt) refl refl
      (Reaches.next (Reaches.next Reaches.here (Step.raised true (some admin) 77 enrollment refl))
        (Step.issued 4 2 77 125 refl))
