-- ===== src/Pairing/Invariant.antt =====
-- What all transactions of routes/pairing.py and relationship_service.py keep, over a step relation.
use littleorbit.Prelude.{
  ℕ, ◌≤◌, ◌≡◌, refl, subst, Bool, true, false, not, ◌||◌, Option, none, some, List, [], ◌∷◌, ◌==◌,
  length, arith, Bool-cases, inl, inr,
}
use littleorbit.Pairing.{
  Account, PairCode, Response, answers, fails, locked_memberships, lock_accounts, all_eligible,
}
use littleorbit.Pairing.Codes.{
  Db, Draw, new_member, create_code, reserve, redeem_locked, confirm_locked, confirm_found,
  find_confirmed, pair,
}
use littleorbit.Pairing.Teardown.{
  Ephemeral, Relationships, lock_active_relationship, end_locked, end_with, end_active_relationship,
}
use littleorbit.Pairing.Members.{
  memberships, size_of, accounts_of, memberships-append, size_of-append, memberships-locked,
  memberships-leave, size_of-leave, lock_accounts-two,
}

pub record World : Type 0 where
  pub db : Db
  pub ephemeral : Ephemeral

abbrev pub relationships : World → Relationships
relationships w = record { couples = w.db.couples; members = w.db.members; ephemeral = w.ephemeral }

abbrev pub set_relationships : World → Relationships → World
set_relationships w r = record {
  db = record w.db { couples = r.couples; members = r.members };
  ephemeral = r.ephemeral;
}

abbrev pub set_db : World → Db → World
set_db w db = record w { db = db }

-- The code has a row.
unfoldable pub has_code : ℕ → List PairCode → Bool
has_code k [] = false
has_code k (c ∷ cs) = c.id == k || has_code k cs

-- One transaction under its locks. A new code and the couple of a confirmed pairing have new ids.
pub data Step (w : World) : World → Type 0 where
  creates :
      (actor : ℕ) (d : Draw)
      → has_code d.id w.db.codes ≡ false
      → Step w (set_db w (create_code actor d w.db).1)
  redeems :
      (actor digest now : ℕ) (preview : PairCode)
      → Step w (set_db w (redeem_locked actor preview digest now w.db).1)
  confirms :
      (k actor partner c now : ℕ)
      → size_of c w.db.members ≡ 0
      → Step w (set_db w (confirm_locked k actor partner c now w.db).1)
  ends :
      (actor : ℕ) (read : Option ℕ) (ended_at : ℕ)
      → Step w
          (set_relationships w (end_active_relationship actor read ended_at (relationships w)).1)

pub data Reaches (w : World) : World → Type 0 where
  here : Reaches w w
  next : {v u : World} → Reaches w v → Step v u → Reaches w u

-- No account has two active memberships, a couple has two active members or none, and an id is that of
-- one account at most.
pub record IsPaired (w : World) : Type 0 where
  pub single : (a : ℕ) → memberships a w.db.members ≤ 1
  pub couple : (c : ℕ) → (size_of c w.db.members == 0 || size_of c w.db.members == 2) ≡ true
  pub keyed : (a : ℕ) → accounts_of a w.db.accounts ≤ 1

two_accounts :
    (actor partner : ℕ) (xs : List Account)
    → accounts_of actor xs ≤ 1
    → length (lock_accounts actor partner xs) ≡ 2
    → (actor == partner) ≡ false
two_accounts actor partner xs h two = elim (Bool-cases (actor == partner)) [
  | inl same ↦
      let e : partner ≡ actor = ground arith in
      let both = subst (λ b. length (lock_accounts actor b xs) ≡ 2) e two in
      absurd (ground (arith, lock_accounts-two actor xs))
  | inr other ↦ other
]

pair-IsPaired :
    (actor partner c now : ℕ) (code : PairCode) (w : World)
    → size_of c w.db.members ≡ 0
    → length (lock_accounts actor partner w.db.accounts) ≡ 2
    → length (locked_memberships actor partner w.db.members) ≡ 0
    → IsPaired w
    → IsPaired (set_db w (pair actor partner c now code w.db))
unfolding pair memberships size_of
pair-IsPaired actor partner c now code w fresh two free h =
    let apart = two_accounts actor partner w.db.accounts (h.keyed actor) two in
    let (fa, fp) = memberships-locked actor partner w.db.members free in
    let new = new_member c now actor ∷ new_member c now partner ∷ [] in
    record {
      single = λ a. ground (arith, memberships-append a w.db.members new, h.single a);
      couple = λ d. ground (arith, size_of-append d w.db.members new, h.couple d);
      keyed = h.keyed;
    }

confirm_found-IsPaired :
    (actor partner c now : ℕ) (o : Option PairCode) (w : World)
    → size_of c w.db.members ≡ 0
    → IsPaired w
    → IsPaired (set_db w (confirm_found actor partner c now o w.db).1)
unfolding confirm_found
confirm_found-IsPaired actor partner c now none w fresh h = h
confirm_found-IsPaired actor partner c now (some code) w fresh h =
    let accounts = lock_accounts actor partner w.db.accounts in
    let rows = locked_memberships actor partner w.db.members in
    elim (Bool-cases (not (length accounts == 2) || not (all_eligible accounts))) [
      | inl bad ↦ rw bad h
      | inr good ↦ elim (Bool-cases (not (length rows == 0))) [
        | inl taken ↦ rw (good, taken) h
        | inr free ↦
            rw (good, free)
              (pair-IsPaired actor partner c now code w fresh (ground arith) (ground arith) h)
      ]
    ]

-- The members and accounts are all that the invariant reads.
same-IsPaired :
    (w v : World)
    → v.db.members ≡ w.db.members
    → v.db.accounts ≡ w.db.accounts
    → IsPaired w
    → IsPaired v
same-IsPaired w v m a h = record {
  single = λ x. rw m (h.single x);
  couple = λ x. rw m (h.couple x);
  keyed = λ x. rw a (h.keyed x);
}

create_code-same :
    (actor : ℕ) (d : Draw) (db : Db)
    → ((create_code actor d db).1.members ≡ db.members)
      × ((create_code actor d db).1.accounts ≡ db.accounts)
unfolding create_code
create_code-same actor d db = ground arith

redeem_locked-same :
    (actor digest now : ℕ) (preview : PairCode) (db : Db)
    → ((redeem_locked actor preview digest now db).1.members ≡ db.members)
      × ((redeem_locked actor preview digest now db).1.accounts ≡ db.accounts)
unfolding redeem_locked reserve
redeem_locked-same actor digest now preview db = ground arith

end_with-IsPaired :
    (r : Response (Option ℕ)) (ended_at : ℕ) (w : World)
    → IsPaired w
    → IsPaired (set_relationships w (end_with ended_at r (relationships w)).1)
unfolding end_with end_locked
end_with-IsPaired (fails s) t w h = same-IsPaired w _ refl refl h
end_with-IsPaired (answers none) t w h = same-IsPaired w _ refl refl h
end_with-IsPaired (answers (some c)) t w h = record {
  single = λ a. omega (arith, memberships-leave c t a w.db.members, h.single a);
  couple = λ d. ground (arith, size_of-leave c t d w.db.members, h.couple d);
  keyed = h.keyed;
}

Step-IsPaired : {w v : World} → Step w v → IsPaired w → IsPaired v
unfolding confirm_locked end_active_relationship
Step-IsPaired {w} (creates actor d fresh) h =
    let (m, a) = create_code-same actor d w.db in same-IsPaired w _ m a h
Step-IsPaired {w} (redeems actor digest now preview) h =
    let (m, a) = redeem_locked-same actor digest now preview w.db in same-IsPaired w _ m a h
Step-IsPaired {w} (confirms k actor partner c now fresh) h =
    confirm_found-IsPaired actor partner c now (find_confirmed k actor partner now w.db.codes) w
      fresh h
Step-IsPaired {w} (ends actor read ended_at) h =
    end_with-IsPaired (lock_active_relationship actor read (relationships w)) ended_at w h

-- Whatever codes are created, redeemed and confirmed and whatever relationships end, no account comes
-- to have two active memberships, and every couple has two active members or none.
pub Reaches-IsPaired : {w v : World} → Reaches w v → IsPaired w → IsPaired v
Reaches-IsPaired here h = h
Reaches-IsPaired (next r s) h = Step-IsPaired s (Reaches-IsPaired r h)
