-- ===== src/Pairing/Consumed.antt =====
-- Pair codes that have been confirmed, over all transactions.
use littleorbit.Prelude.{
  ℕ, ◌≡◌, refl, subst, ◌∙◌, Bool, true, false, not, ◌&&◌, ◌||◌, Option, none, some, List, [], ◌∷◌,
  ◌++◌, ◌==◌, is_some, arith, Bool-cases, inl, inr, length,
}
use littleorbit.Pairing.{
  PairCode, Response, answers, fails, Status, lock_accounts, all_eligible, locked_memberships,
}
use littleorbit.Pairing.Codes.{
  Db, Draw, new_code, is_open, waits_for, create_code, reserve, redeem_locked, find_redeemed,
  confirm_locked, confirm_found, find_confirmed, pair, update_code,
}
use littleorbit.Pairing.Teardown.{end_with, end_active_relationship}
use littleorbit.Pairing.Invariant.{
  World, Step, Reaches, here, next, creates, redeems, confirms, ends, has_code, relationships,
  set_db, set_relationships,
}

-- Every row of the code is consumed.
pub all_consumed : ℕ → List PairCode → Bool
all_consumed k [] = true
all_consumed k (c ∷ cs) = (not (c.id == k) || is_some c.consumed_at) && all_consumed k cs

abbrev pub IsConsumed : ℕ → List PairCode → Type 0
IsConsumed k cs = (has_code k cs ≡ true) × (all_consumed k cs ≡ true)

-- An update that reopens nothing keeps a consumed code so.
update_code-IsConsumed :
    (k j : ℕ) (f : PairCode → PairCode) (cs : List PairCode)
    → ((c : PairCode)
        → ((f c).id ≡ c.id) × (is_some c.consumed_at ≡ true → is_some (f c).consumed_at ≡ true))
    → IsConsumed k cs
    → (all_consumed k (update_code j f cs) ≡ true)
      × (has_code k (update_code j f cs) ≡ has_code k cs)
unfolding all_consumed has_code update_code
update_code-IsConsumed k j f cs keeps h = go cs h.1
  where
    go :
        (ds : List PairCode)
        → all_consumed k ds ≡ true
        → (all_consumed k (update_code j f ds) ≡ true)
          × (has_code k (update_code j f ds) ≡ has_code k ds)
    go [] d = (refl, refl)
    go (c ∷ ds) d = ground (arith, keeps c, go ds)

find_confirmed-consumed :
    (k actor partner now : ℕ) (cs : List PairCode)
    → all_consumed k cs ≡ true
    → find_confirmed k actor partner now cs ≡ none
unfolding all_consumed find_confirmed
find_confirmed-consumed k actor partner now [] h = refl
find_confirmed-consumed k actor partner now (c ∷ cs) h =
    ground (arith, find_confirmed-consumed k actor partner now cs)

append-IsConsumed :
    (k : ℕ) (c : PairCode) (cs : List PairCode)
    → (c.id == k) ≡ false
    → all_consumed k cs ≡ true
    → (all_consumed k (cs ++ c ∷ []) ≡ true) × (has_code k (cs ++ c ∷ []) ≡ has_code k cs)
unfolding all_consumed has_code
append-IsConsumed k c [] n h = ground arith
append-IsConsumed k c (d ∷ ds) n h = ground (arith, append-IsConsumed k c ds n)

consume-IsConsumed :
    (k now : ℕ) (cs : List PairCode)
    → let f : PairCode → PairCode = λ x. record x { consumed_at = some now } in
      (all_consumed k (update_code k f cs) ≡ true)
      × (has_code k (update_code k f cs) ≡ has_code k cs)
unfolding all_consumed has_code update_code
consume-IsConsumed k now [] = (refl, refl)
consume-IsConsumed k now (c ∷ cs) = ground (arith, consume-IsConsumed k now cs)

found-has_code :
    (k actor partner now : ℕ) (cs : List PairCode) (c : PairCode)
    → find_confirmed k actor partner now cs ≡ some c
    → (has_code k cs ≡ true) × (c.id ≡ k)
unfolding find_confirmed has_code
found-has_code k actor partner now [] c h = absurd (ground arith)
found-has_code k actor partner now (d ∷ ds) c h =
    elim (Bool-cases
      (d.id == k && (d.creator_id == actor && (waits_for partner d && is_open now d)))) [
        | inl hit ↦
            let e : d ≡ c = ground arith in
            subst (λ (x : PairCode). (has_code k (d ∷ ds) ≡ true) × (x.id ≡ k)) e (ground arith)
        | inr miss ↦ ground (arith, found-has_code k actor partner now ds c)
      ]

confirm_found-IsConsumed :
    (k actor partner c now : ℕ) (o : Option PairCode) (db : Db)
    → IsConsumed k db.codes
    → IsConsumed k (confirm_found actor partner c now o db).1.codes
unfolding confirm_found pair
confirm_found-IsConsumed k actor partner c now none db h = h
confirm_found-IsConsumed k actor partner c now (some code) db h =
    let accounts = lock_accounts actor partner db.accounts in
    let rows = locked_memberships actor partner db.members in
    let f : PairCode → PairCode = λ x. record x { consumed_at = some now } in
    let (d, e) = update_code-IsConsumed k code.id f db.codes (λ x. (refl, λ p. refl)) h in
    elim (Bool-cases (not (length accounts == 2) || not (all_eligible accounts))) [
      | inl bad ↦ rw bad h
      | inr good ↦ elim (Bool-cases (not (length rows == 0))) [
        | inl taken ↦ rw (good, taken) h
        | inr free ↦ rw (good, free) (e ∙ h.0, d)
      ]
    ]

reserve-IsConsumed :
    (k actor : ℕ) (o : Option PairCode) (db : Db)
    → IsConsumed k db.codes
    → IsConsumed k (reserve actor o db).1.codes
unfolding reserve
reserve-IsConsumed k actor none db h = h
reserve-IsConsumed k actor (some c) db h =
    let f : PairCode → PairCode = λ x. record x { pending_partner_id = some actor } in
    let (d, e) = update_code-IsConsumed k c.id f db.codes (λ x. (refl, λ p. p)) h in
    elim (Bool-cases (is_some c.pending_partner_id)) [
      | inl waits ↦ rw waits h
      | inr free ↦ rw free (e ∙ h.0, d)
    ]

redeem_locked-IsConsumed :
    (k actor digest now : ℕ) (preview : PairCode) (db : Db)
    → IsConsumed k db.codes
    → IsConsumed k (redeem_locked actor preview digest now db).1.codes
unfolding redeem_locked
redeem_locked-IsConsumed k actor digest now preview db h =
    let accounts = lock_accounts actor preview.creator_id db.accounts in
    elim (Bool-cases (
      not (length accounts == 2)
      || not (all_eligible accounts)
      || not (length (locked_memberships actor preview.creator_id db.members) == 0))) [
        | inl bad ↦ rw bad h
        | inr good ↦
            rw good (reserve-IsConsumed k actor (find_redeemed preview.id digest now db.codes) db h)
      ]

create_code-IsConsumed :
    (k actor : ℕ) (d : Draw) (db : Db)
    → has_code d.id db.codes ≡ false
    → IsConsumed k db.codes
    → IsConsumed k (create_code actor d db).1.codes
unfolding create_code
create_code-IsConsumed k actor d db fresh h = elim (Bool-cases (d.id == k)) [
  | inl same ↦
      let e : d.id ≡ k = ground arith in
      absurd (ground (arith, subst (λ x. has_code x db.codes ≡ false) e fresh))
  | inr other ↦ ground (arith, append-IsConsumed k (new_code actor d) db.codes)
]

end_with-codes :
    (r : Response (Option ℕ)) (t : ℕ) (w : World)
    → (set_relationships w (end_with t r (relationships w)).1).db.codes ≡ w.db.codes
end_with-codes r t w = refl

Step-IsConsumed :
    (k : ℕ) {w v : World} → Step w v → IsConsumed k w.db.codes → IsConsumed k v.db.codes
unfolding confirm_locked end_active_relationship
Step-IsConsumed k {w} (creates actor d fresh) h = create_code-IsConsumed k actor d w.db fresh h
Step-IsConsumed k {w} (redeems actor digest now preview) h =
    redeem_locked-IsConsumed k actor digest now preview w.db h
Step-IsConsumed k {w} (confirms j actor partner c now fresh) h =
    confirm_found-IsConsumed k actor partner c now (find_confirmed j actor partner now w.db.codes)
      w.db h
Step-IsConsumed k {w} (ends actor read t) h = h

Reaches-IsConsumed :
    (k : ℕ) {w v : World} → Reaches w v → IsConsumed k w.db.codes → IsConsumed k v.db.codes
Reaches-IsConsumed k here h = h
Reaches-IsConsumed k (next r s) h = Step-IsConsumed k s (Reaches-IsConsumed k r h)

confirms-IsConsumed :
    (k actor partner c now : ℕ) (o : Option PairCode) (db : Db) (x : ℕ) (db' : Db)
    → find_confirmed k actor partner now db.codes ≡ o
    → confirm_found actor partner c now o db ≡ (answers x, db')
    → IsConsumed k db'.codes
unfolding confirm_found pair
confirms-IsConsumed k actor partner c now none db x db' f h = absurd (ground arith)
confirms-IsConsumed k actor partner c now (some code) db x db' f h =
    let (has, e) = found-has_code k actor partner now db.codes code f in
    let (d, i) = consume-IsConsumed k now db.codes in
    let codes : update_code code.id (λ x. record x { consumed_at = some now }) db.codes
        ≡ db'.codes =
      ground arith in
    subst (IsConsumed k) codes (rw e (i ∙ has, d))

-- A pair code serves once: after its confirmation, no transactions lead to a state in which it can be
-- confirmed again, by whomever and for whomever.
pub confirm_locked_once :
    (k actor partner c now x : ℕ) (w v : World) (db' : Db) (actor' partner' c' now' : ℕ)
    → confirm_locked k actor partner c now w.db ≡ (answers x, db')
    → Reaches (set_db w db') v
    → confirm_locked k actor' partner' c' now' v.db ≡ (fails Status.bad_request, v.db)
unfolding confirm_locked confirm_found
confirm_locked_once k actor partner c now x w v db' actor' partner' c' now' h r =
    let now_consumed =
      confirms-IsConsumed k actor partner c now (find_confirmed k actor partner now w.db.codes) w.db
        x db' refl h in
    let later = Reaches-IsConsumed k r now_consumed in
    rw (find_confirmed-consumed k actor' partner' now' v.db.codes later.1) refl
