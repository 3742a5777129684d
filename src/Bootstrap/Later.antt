-- ===== src/Bootstrap/Later.antt =====
-- What the transactions of big_orbit_bootstrap.py do to an account without a live PIN, until one is issued
-- to it.
use littleorbit.Prelude.{
  ℕ, ◌≡◌, refl, subst, Bool, false, not, ◌&&◌, Option, none, some, List, [], ◌∷◌, ◌++◌, ◌==◌, ltb,
  keep, arith, Bool-cases, inl, inr,
}
use littleorbit.Bootstrap.{
  Account, AdminDevice, AdminBootstrapCredential, AdminBootstrapSession, Db, is_live, invalidate,
  new_credential, issue_bootstrap_pin, newest_live, update_credential, failed_once, is_valid_pin,
  check_pin, consume_pin, verified_admin,
}
use littleorbit.Bootstrap.Setup.{
  Enrollment, Started, starts, raises, start_staged, start_consumed, start_verified,
  start_bootstrap, create_enrollment_device, is_mfa_required, find_mfa,
}
use littleorbit.Bootstrap.Attempts.{any_live, is_accepted}

-- One transaction: a start that comes through or raises, an issue to another account than `a`, the
-- deletion of credentials that ended up to a time (maintenance.py), or one that leaves the credentials
-- alone.
pub data Step (a : ℕ) (db : Db) : Db → Type 0 where
  started :
      (fits : Bool) (found : Option Account) (digest : ℕ) (e : Enrollment)
      (setup : AdminBootstrapSession) {after : Db}
      → start_bootstrap fits found digest e db ≡ starts setup after
      → Step a db after
  raised :
      (fits : Bool) (found : Option Account) (digest : ℕ) (e : Enrollment) {after : Db}
      → start_bootstrap fits found digest e db ≡ raises after
      → Step a db after
  issued :
      (k b digest now : ℕ) → (b == a) ≡ false → Step a db (issue_bootstrap_pin k b digest now db)
  purged :
      (t : ℕ) {after : Db}
      → after.credentials ≡ keep (λ c. ltb t c.expires_at) db.credentials
      → Step a db after
  other : {after : Db} → after.credentials ≡ db.credentials → Step a db after

pub data Reaches (a : ℕ) (db : Db) : Db → Type 0 where
  here : Reaches a db db
  next : {mid after : Db} → Reaches a db mid → Step a mid after → Reaches a db after

pub any_live-append :
    (a : ℕ) (cs : List AdminBootstrapCredential) (c : AdminBootstrapCredential)
    → any_live a cs ≡ false
    → is_live a c ≡ false
    → any_live a (cs ++ c ∷ []) ≡ false
unfolding any_live
any_live-append a [] c h e = ground arith
any_live-append a (d ∷ ds) c h e = ground (arith, any_live-append a ds c)

-- An update that revives no credential.
any_live-update :
    (a k : ℕ) (f : AdminBootstrapCredential → AdminBootstrapCredential)
    (cs : List AdminBootstrapCredential)
    → ((c : AdminBootstrapCredential) → is_live a c ≡ false → is_live a (f c) ≡ false)
    → any_live a cs ≡ false
    → any_live a (update_credential k f cs) ≡ false
unfolding any_live update_credential
any_live-update a k f [] keeps h = refl
any_live-update a k f (c ∷ cs) keeps h =
    let dead = keeps c in ground (arith, any_live-update a k f cs keeps, dead)

any_live-kept :
    (a b now : ℕ) (cs : List AdminBootstrapCredential)
    → any_live a cs ≡ false
    → any_live a (invalidate b now cs) ≡ false
unfolding any_live invalidate
any_live-kept a b now [] h = refl
any_live-kept a b now (c ∷ cs) h = ground (arith, any_live-kept a b now cs)

any_live-keep :
    (a t : ℕ) (cs : List AdminBootstrapCredential)
    → any_live a cs ≡ false
    → any_live a (keep (λ c. ltb t c.expires_at) cs) ≡ false
unfolding any_live
any_live-keep a t [] h = refl
any_live-keep a t (c ∷ cs) h = ground (arith, any_live-keep a t cs)

failed_once-dead :
    (a now : ℕ) (c : AdminBootstrapCredential)
    → is_live a c ≡ false
    → is_live a (failed_once now c) ≡ false
failed_once-dead a now c h = ground arith

-- Without a live credential no PIN is accepted.
newest_live-dead :
    (a : ℕ) (cs : List AdminBootstrapCredential) → any_live a cs ≡ false → newest_live a cs ≡ none
unfolding any_live newest_live
newest_live-dead a [] h = refl
newest_live-dead a (c ∷ cs) h = ground (arith, newest_live-dead a cs)

pub consume_pin-dead :
    (a digest now : ℕ) (cs : List AdminBootstrapCredential)
    → any_live a cs ≡ false
    → is_accepted (consume_pin a digest now cs) ≡ false
unfolding consume_pin check_pin
consume_pin-dead a digest now cs h = rw (newest_live-dead a cs h) refl

abbrev db_of : Started → Db
db_of (starts setup db) = db
db_of (raises db) = db

-- No start revives a credential.
abbrev IsDead : ℕ → Started → Type 0
IsDead a s = any_live a (db_of s).credentials ≡ false

start_staged-IsDead :
    (a b k : ℕ) (e : Enrollment) (o : Option (ℕ × List AdminDevice)) (db : Db)
    → any_live a db.credentials ≡ false
    → IsDead a (start_staged b k e o db)
unfolding start_staged
start_staged-IsDead a b k e none db h = h
start_staged-IsDead a b k e (some (device, devices)) db h =
    elim (Bool-cases (is_mfa_required (find_mfa b db.mfas) && not e.has_totp_key)) [
      | inl keyless ↦ rw keyless h
      | inr ready ↦ rw ready (any_live-update a k _ db.credentials (λ c dead. ground arith) h)
    ]

check_pin-IsDead :
    (a b digest : ℕ) (e : Enrollment) (o : Option AdminBootstrapCredential) (db : Db)
    → any_live a db.credentials ≡ false
    → IsDead a (start_consumed b e (check_pin digest e.now o db.credentials) db)
unfolding start_consumed check_pin
check_pin-IsDead a b digest e none db h = h
check_pin-IsDead a b digest e (some c) db h = elim (Bool-cases (is_valid_pin digest e.now c)) [
  | inl good ↦
      rw good (start_staged-IsDead a b c.id e (create_enrollment_device b e db.devices) db h)
  | inr bad ↦
      rw bad
        (any_live-update a c.id (failed_once e.now) db.credentials (failed_once-dead a e.now) h)
]

start_verified-IsDead :
    (a digest : ℕ) (e : Enrollment) (o : Option Account) (db : Db)
    → any_live a db.credentials ≡ false
    → IsDead a (start_verified digest e o db)
unfolding start_verified consume_pin
start_verified-IsDead a digest e none db h = h
start_verified-IsDead a digest e (some x) db h =
    check_pin-IsDead a x.id digest e (newest_live x.id db.credentials) db h

start_bootstrap-IsDead :
    (a digest : ℕ) (fits : Bool) (found : Option Account) (e : Enrollment) (db : Db)
    → any_live a db.credentials ≡ false
    → IsDead a (start_bootstrap fits found digest e db)
unfolding start_bootstrap
start_bootstrap-IsDead a digest fits found e db h =
    start_verified-IsDead a digest e (verified_admin fits found) db h

issue_bootstrap_pin-dead :
    (a k b digest now : ℕ) (db : Db)
    → (b == a) ≡ false
    → any_live a db.credentials ≡ false
    → any_live a (issue_bootstrap_pin k b digest now db).credentials ≡ false
unfolding issue_bootstrap_pin
issue_bootstrap_pin-dead a k b digest now db distinct h =
    any_live-append a (invalidate b now db.credentials) (new_credential k b digest now)
      (any_live-kept a b now db.credentials h) (ground arith)

Step-dead :
    (a : ℕ) {db after : Db}
    → Step a db after
    → any_live a db.credentials ≡ false
    → any_live a after.credentials ≡ false
Step-dead a {db} (started fits found digest e setup run) h =
    subst (IsDead a) run (start_bootstrap-IsDead a digest fits found e db h)
Step-dead a {db} (raised fits found digest e run) h =
    subst (IsDead a) run (start_bootstrap-IsDead a digest fits found e db h)
Step-dead a {db} (issued k b digest now distinct) h =
    issue_bootstrap_pin-dead a k b digest now db distinct h
Step-dead a {db} (purged t kept) h = rw kept (any_live-keep a t db.credentials h)
Step-dead a (other same) h = rw same h

pub Reaches-dead :
    (a : ℕ) {db after : Db}
    → Reaches a db after
    → any_live a db.credentials ≡ false
    → any_live a after.credentials ≡ false
Reaches-dead a here h = h
Reaches-dead a (next r s) h = Step-dead a s (Reaches-dead a r h)
