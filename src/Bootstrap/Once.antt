-- ===== src/Bootstrap/Once.antt =====
-- A PIN of big_orbit_bootstrap.py after it has bought a setup session.
use littleorbit.Prelude.{
  not, ℕ, ◌+◌, ◌≡◌, refl, sym, subst, ◌∙◌, Bool, true, false, ◌&&◌, Option, none, some, List, ◌==◌,
  ltb, if◌then◌else◌, length, All, arith, Bool-cases, inl, inr,
}
use littleorbit.Bootstrap.{
  Account, AdminDevice, AdminBootstrapCredential, AdminBootstrapSession, Db, bootstrap_lifetime,
  is_live, invalidate, issue_bootstrap_pin, newest_live, update_credential, check_pin, consume_pin,
  active_admin, is_valid_pin,
}
use littleorbit.Bootstrap.Setup.{
  is_mfa_required, find_mfa, Enrollment, Started, starts, raises, start_staged, start_consumed,
  start_verified, start_bootstrap, create_enrollment_device,
}
use littleorbit.Bootstrap.Later.{Reaches, Reaches-dead, consume_pin-dead, any_live-append}
use littleorbit.Bootstrap.Attempts.{
  has_credential, any_live, any_live-invalidate, has_credential-invalidate, update_credential-last,
  Attempt, try_all, is_accepted, IsTried, issued-IsTried, newest_of,
}

-- The credentials after a start came through: one of them is consumed.
IsUsed : List AdminBootstrapCredential → ℕ → Started → Type 0
IsUsed cs k (starts setup after) =
    (t : ℕ) × (after.credentials ≡ update_credential k (λ c. record c { consumed_at = some t }) cs)
IsUsed cs k (raises after) = Unit {0}

start_staged-IsUsed :
    (a k : ℕ) (e : Enrollment) (o : Option (ℕ × List AdminDevice)) (db : Db)
    → IsUsed db.credentials k (start_staged a k e o db)
unfolding start_staged IsUsed
start_staged-IsUsed a k e none db = tt
start_staged-IsUsed a k e (some (device, devices)) db =
    elim (Bool-cases (is_mfa_required (find_mfa a db.mfas) && not e.has_totp_key)) [
      | inl keyless ↦ rw keyless tt
      | inr ready ↦ rw ready (e.now, refl)
    ]

-- The credential that `_consume_pin` accepts is the newest live one.
check_pin-IsUsed :
    (a digest k : ℕ) (e : Enrollment) (o : Option AdminBootstrapCredential) (db : Db)
    → ((c : AdminBootstrapCredential) → o ≡ some c → c.id ≡ k)
    → IsUsed db.credentials k (start_consumed a e (check_pin digest e.now o db.credentials) db)
unfolding start_consumed check_pin IsUsed
check_pin-IsUsed a digest k e none db id = tt
check_pin-IsUsed a digest k e (some c) db id = elim (Bool-cases (is_valid_pin digest e.now c)) [
  | inl good ↦ rw good (
      subst
        (λ i.
          IsUsed db.credentials i
            (start_staged a c.id e (create_enrollment_device a e db.devices) db))
        (id c refl) (start_staged-IsUsed a c.id e (create_enrollment_device a e db.devices) db))
  | inr bad ↦ rw bad tt
]

start_verified-IsUsed :
    (digest k : ℕ) (x : Account) (e : Enrollment) (db : Db)
    → ((c : AdminBootstrapCredential) → newest_live x.id db.credentials ≡ some c → c.id ≡ k)
    → IsUsed db.credentials k (start_verified digest e (some x) db)
unfolding start_verified consume_pin
start_verified-IsUsed digest k x e db id =
    check_pin-IsUsed x.id digest k e (newest_live x.id db.credentials) db id

start_bootstrap-IsUsed :
    (fits : Bool) (digest k : ℕ) (x : Account) (e : Enrollment) (db : Db)
    → ((c : AdminBootstrapCredential) → newest_live x.id db.credentials ≡ some c → c.id ≡ k)
    → IsUsed db.credentials k (start_bootstrap fits (some x) digest e db)
unfolding start_bootstrap start_verified IsUsed
start_bootstrap-IsUsed fits digest k x e db id = elim (Bool-cases (fits && active_admin x)) [
  | inl good ↦ rw good (start_verified-IsUsed digest k x e db id)
  | inr bad ↦ rw bad tt
]

last_id :
    (b : Bool) (l c : AdminBootstrapCredential) (k : ℕ)
    → (if b then some l else none) ≡ some c
    → l.id ≡ k
    → c.id ≡ k
last_id true l c k e h =
    let same : l ≡ c = ground arith in subst (λ (x : AdminBootstrapCredential). x.id ≡ k) same h
last_id false l c k e h = absurd (ground arith)

-- The issued credential, once consumed, leaves the account without a live one.
consumed-dead :
    (a k digest expires n t : ℕ) (old cs : List AdminBootstrapCredential)
    → any_live a old ≡ false
    → has_credential k old ≡ false
    → IsTried a k digest expires n old cs
    → any_live a (update_credential k (λ c. record c { consumed_at = some t }) cs) ≡ false
consumed-dead a k digest expires n t old cs dead fresh h =
    let f : AdminBootstrapCredential → AdminBootstrapCredential =
      λ c. record c { consumed_at = some t } in
    let used : is_live a (f h.last) ≡ false = ground arith in
    rw (h.table, update_credential-last k f old h.last fresh h.id)
      (any_live-append a old (f h.last) dead used)

-- Once a setup was started with the PIN that was issued under a new id, whatever wrong PINs were tried
-- before, no PIN at all is accepted for the account after any further starts of setups, successful or
-- refused and for whichever account, issues of PINs to other accounts, deletions of credentials that
-- have ended, and transactions that leave the credentials alone.
pub start_bootstrap_once :
    (k digest issued used again now : ℕ) (fits : Bool) (x : Account) (e : Enrollment)
    (setup : AdminBootstrapSession) (ws : List Attempt) (db tried after last : Db)
    → has_credential k db.credentials ≡ false
    → All (λ w. (w.digest == digest) ≡ false) ws
    → tried.credentials ≡ try_all x.id ws (issue_bootstrap_pin k x.id digest issued db).credentials
    → start_bootstrap fits (some x) used e tried ≡ starts setup after
    → Reaches x.id after last
    → is_accepted (consume_pin x.id again now last.credentials) ≡ false
unfolding IsUsed
start_bootstrap_once k digest issued used again now fits x e setup ws db tried after last fresh
      wrong same h r =
    let a = x.id in
    let ends = issued + bootstrap_lifetime in
    let old = invalidate a issued db.credentials in
    let dead = any_live-invalidate a issued db.credentials in
    let unused = has_credential-invalidate k a issued db.credentials ∙ fresh in
    let t =
      subst (λ cs. IsTried a k digest ends (length ws) old cs) (sym same)
        (issued-IsTried k a digest issued ws db fresh wrong) in
    let newest = newest_of a k digest ends old dead unused (length ws) tried.credentials t in
    let (at, spent) = subst (IsUsed tried.credentials k) h (
      start_bootstrap-IsUsed fits used k x e tried
        (λ c first. last_id (ltb (length ws) 5) t.last c k (sym newest ∙ first) t.id)) in
    let gone = consumed-dead a k digest ends (length ws) at old tried.credentials dead unused t in
    consume_pin-dead a again now last.credentials (Reaches-dead a r (rw spent gone))
