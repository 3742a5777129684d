-- ===== src/Bootstrap/Attempts.antt =====
-- How many wrong PINs big_orbit_bootstrap.py bears after a PIN was issued.
use littleorbit.Prelude.{
  ℕ, suc, ◌+◌, min, ◌≡◌, refl, sym, subst, ap, ◌∙◌, Bool, true, false, ◌&&◌, ◌||◌, Option, none,
  some, List, [], ◌∷◌, ◌++◌, ◌==◌, ltb, if◌then◌else◌, is_none, length, All, arith, Bool-cases, inl,
  inr,
}
use littleorbit.Bootstrap.{
  AdminBootstrapCredential, Db, pin_attempt_limit, bootstrap_lifetime, is_live, invalidate,
  new_credential, issue_bootstrap_pin, newest_live, update_credential, is_valid_pin, failed_once,
  Consumed, accepts, refuses, check_pin, consume_pin,
}

unfoldable pub has_credential : ℕ → List AdminBootstrapCredential → Bool
has_credential k [] = false
has_credential k (c ∷ cs) = c.id == k || has_credential k cs

unfoldable pub any_live : ℕ → List AdminBootstrapCredential → Bool
any_live a [] = false
any_live a (c ∷ cs) = is_live a c || any_live a cs

pub any_live-invalidate :
    (a now : ℕ) (cs : List AdminBootstrapCredential) → any_live a (invalidate a now cs) ≡ false
unfolding any_live invalidate
any_live-invalidate a now [] = refl
any_live-invalidate a now (c ∷ cs) = ground (arith, any_live-invalidate a now cs)

pub has_credential-invalidate :
    (k a now : ℕ) (cs : List AdminBootstrapCredential)
    → has_credential k (invalidate a now cs) ≡ has_credential k cs
unfolding has_credential invalidate
has_credential-invalidate k a now [] = refl
has_credential-invalidate k a now (c ∷ cs) = ground (arith, has_credential-invalidate k a now cs)

pub newest_live-last :
    (a : ℕ) (old : List AdminBootstrapCredential) (c : AdminBootstrapCredential)
    → any_live a old ≡ false
    → newest_live a (old ++ c ∷ []) ≡ (if is_live a c then some c else none)
unfolding any_live newest_live
newest_live-last a [] c h = ground arith
newest_live-last a (d ∷ ds) c h =
    let dead : is_live a d ≡ false = ground arith in
    rw dead (newest_live-last a ds c (ground arith))

pub update_credential-last :
    (k : ℕ) (f : AdminBootstrapCredential → AdminBootstrapCredential)
    (old : List AdminBootstrapCredential) (c : AdminBootstrapCredential)
    → has_credential k old ≡ false
    → c.id ≡ k
    → update_credential k f (old ++ c ∷ []) ≡ old ++ f c ∷ []
unfolding has_credential update_credential
update_credential-last k f [] c h e = ground arith
update_credential-last k f (d ∷ ds) c h e =
    let other : (d.id == k) ≡ false = ground arith in
    rw other (ap (λ xs. d ∷ xs) (update_credential-last k f ds c (ground arith) e))

-- An attempt with a digest at a time, and what it leaves of the table.
pub record Attempt : Type 0 where
  pub digest : ℕ
  pub now : ℕ

abbrev pub left_of : Consumed → List AdminBootstrapCredential → List AdminBootstrapCredential
left_of (accepts c) cs = cs
left_of (refuses next) cs = next

unfoldable pub try_all :
    ℕ → List Attempt → List AdminBootstrapCredential → List AdminBootstrapCredential
unfolding consume_pin
try_all a [] cs = cs
try_all a (w ∷ ws) cs = try_all a ws (left_of (consume_pin a w.digest w.now cs) cs)

abbrev pub is_accepted : Consumed → Bool
is_accepted (accepts c) = true
is_accepted (refuses cs) = false

-- The PIN's credential after `n` wrong attempts.
pub record IsTried (a k digest expires n : ℕ) (old cs : List AdminBootstrapCredential)
    : Type 0 where
  pub last : AdminBootstrapCredential
  pub table : cs ≡ old ++ last ∷ []
  pub id : last.id ≡ k
  pub account : last.account_id ≡ a
  pub pin : last.pin_hash ≡ digest
  pub ends : last.expires_at ≡ expires
  pub unused : last.consumed_at ≡ none
  pub failures : last.failed_attempts ≡ min 5 n
  pub valid : is_none last.invalidated_at ≡ ltb n 5

module _ (a k digest expires : ℕ) (old : List AdminBootstrapCredential)
    (dead : any_live a old ≡ false) (fresh : has_credential k old ≡ false) where
  pub newest_of :
      (n : ℕ) (cs : List AdminBootstrapCredential) (h : IsTried a k digest expires n old cs)
      → newest_live a cs ≡ (if ltb n 5 then some h.last else none)
  newest_of n cs h =
      let live : is_live a h.last ≡ ltb n 5 = ground (arith, h.account, h.unused, h.valid) in
      rw (h.table, newest_live-last a old h.last dead, live) refl

  wrong-IsTried :
      (w : Attempt) (n : ℕ) (cs : List AdminBootstrapCredential)
      (o : Option AdminBootstrapCredential)
      → (w.digest == digest) ≡ false
      → (h : IsTried a k digest expires n old cs) → (if ltb n 5 then some h.last else none) ≡ o
      → IsTried a k digest expires (suc n) old (left_of (check_pin w.digest w.now o cs) cs)
  unfolding check_pin
  wrong-IsTried w n cs none wrong h e =
      let many : ltb n 5 ≡ false = ground arith in
      record {
        last = h.last;
        table = h.table;
        id = h.id;
        account = h.account;
        pin = h.pin;
        ends = h.ends;
        unused = h.unused;
        failures = ground (arith, h.failures);
        valid = ground (arith, h.valid);
      }
  wrong-IsTried w n cs (some c) wrong h e =
      let few : ltb n 5 ≡ true = ground arith in
      let same : h.last ≡ c = ground arith in
      let bad : is_valid_pin w.digest w.now c ≡ false =
        subst (λ x. is_valid_pin w.digest w.now x ≡ false) same (ground (arith, h.pin)) in
      let key : c.id ≡ k = subst (λ (x : AdminBootstrapCredential). x.id ≡ k) same h.id in
      let moved : update_credential c.id (failed_once w.now) cs
          ≡ old ++ failed_once w.now h.last ∷ [] =
        rw (key, h.table) (update_credential-last k (failed_once w.now) old h.last fresh h.id) in
      rw bad (record {
        last = failed_once w.now h.last;
        table = moved;
        id = h.id;
        account = h.account;
        pin = h.pin;
        ends = h.ends;
        unused = h.unused;
        failures = ground (arith, h.failures);
        valid = ground (arith, h.failures, h.valid);
      })

  try-IsTried :
      (w : Attempt) (n : ℕ) (cs : List AdminBootstrapCredential)
      → (w.digest == digest) ≡ false
      → IsTried a k digest expires n old cs
      → IsTried a k digest expires (suc n) old (left_of (consume_pin a w.digest w.now cs) cs)
  unfolding consume_pin
  try-IsTried w n cs wrong h =
      wrong-IsTried w n cs (newest_live a cs) wrong h (sym (newest_of n cs h))

  try_all-IsTried :
      (ws : List Attempt) (n : ℕ) (cs : List AdminBootstrapCredential)
      → All (λ w. (w.digest == digest) ≡ false) ws
      → IsTried a k digest expires n old cs
      → IsTried a k digest expires (n + length ws) old (try_all a ws cs)
  unfolding try_all
  try_all-IsTried [] n cs wrong h = subst (λ m. IsTried a k digest expires m old cs) (omega arith) h
  try_all-IsTried (w ∷ ws) n cs wrong h =
      subst (λ m. IsTried a k digest expires m old (try_all a (w ∷ ws) cs)) (omega arith)
        (try_all-IsTried ws (suc n) (left_of (consume_pin a w.digest w.now cs) cs) wrong.1
          (try-IsTried w n cs wrong.0 h))

  accepted_of :
      (now n : ℕ) (cs : List AdminBootstrapCredential)
      → (h : IsTried a k digest expires n old cs)
      → is_accepted (consume_pin a digest now cs) ≡ ltb n 5 && ltb now expires
  unfolding consume_pin check_pin
  accepted_of now n cs h = elim (Bool-cases (ltb n 5)) [
    | inl few ↦
        let valid : is_valid_pin digest now h.last ≡ ltb now expires =
          ground (arith, h.pin, h.ends, h.failures) in
        let newest : newest_live a cs ≡ some h.last = rw (newest_of n cs h, few) refl in
        rw (newest, few, valid)
          (elim (Bool-cases (ltb now expires)) [
            | inl early ↦ rw early refl
            | inr late ↦ rw late refl
          ])
    | inr many ↦
        let newest : newest_live a cs ≡ none = rw (newest_of n cs h, many) refl in
        rw (newest, many) refl
  ]

-- The state of the table after an issue and wrong attempts.
pub issued-IsTried :
    (k a digest issued : ℕ) (ws : List Attempt) (db : Db)
    → has_credential k db.credentials ≡ false
    → All (λ w. (w.digest == digest) ≡ false) ws
    → IsTried a k digest
        (issued + bootstrap_lifetime)
        (length ws)
        (invalidate a issued db.credentials)
        (try_all a ws (issue_bootstrap_pin k a digest issued db).credentials)
unfolding issue_bootstrap_pin
issued-IsTried k a digest issued ws db fresh wrong =
    let old = invalidate a issued db.credentials in
    let first = new_credential k a digest issued in
    let dead = any_live-invalidate a issued db.credentials in
    let unused = has_credential-invalidate k a issued db.credentials ∙ fresh in
    let start : IsTried a k digest (issued + bootstrap_lifetime) 0 old (old ++ first ∷ []) =
      record {
        last = first;
        table = refl;
        id = refl;
        account = refl;
        pin = refl;
        ends = refl;
        unused = refl;
        failures = refl;
        valid = refl;
      } in
    subst
      (λ n.
        IsTried a k digest (issued + bootstrap_lifetime) n old (try_all a ws (old ++ first ∷ [])))
      (omega arith)
      (try_all-IsTried a k digest (issued + bootstrap_lifetime) old dead unused ws 0
        (old ++ first ∷ []) wrong start)

-- After a PIN was issued under a new id and any number of wrong ones were tried, at whatever times, the
-- PIN is accepted exactly if fewer than five were tried and it has not expired.
pub issue_bootstrap_pin_attempts :
    (k a digest issued now : ℕ) (ws : List Attempt) (db : Db)
    → has_credential k db.credentials ≡ false
    → All (λ w. (w.digest == digest) ≡ false) ws
    → is_accepted (
        consume_pin a digest now
          (try_all a ws (issue_bootstrap_pin k a digest issued db).credentials))
      ≡ ltb (length ws) pin_attempt_limit && ltb now (issued + bootstrap_lifetime)
issue_bootstrap_pin_attempts k a digest issued now ws db fresh wrong =
    accepted_of a k digest (issued + bootstrap_lifetime) (invalidate a issued db.credentials)
      (any_live-invalidate a issued db.credentials)
      (has_credential-invalidate k a issued db.credentials ∙ fresh) now (length ws)
      (try_all a ws (issue_bootstrap_pin k a digest issued db).credentials)
      (issued-IsTried k a digest issued ws db fresh wrong)
