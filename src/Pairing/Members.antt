-- ===== src/Pairing/Members.antt =====
-- How many active memberships an account and a couple have, and how the handlers change them.
use littleorbit.Prelude.{
  ℕ, ◌+◌, ◌≤◌, ◌≡◌, refl, List, [], ◌∷◌, ◌++◌, ◌==◌, if◌then◌else◌, keep, length, arith,
}
use littleorbit.Pairing.{
  Account, CoupleMember, is_active_of, is_active_in, locked_memberships, lock_accounts,
}
use littleorbit.Pairing.Teardown.{leave_members}

-- The active memberships of an account.
unfoldable pub memberships : ℕ → List CoupleMember → ℕ
memberships a [] = 0
memberships a (m ∷ ms) = (if is_active_of a m then 1 else 0) + memberships a ms

-- The active members of a couple.
unfoldable pub size_of : ℕ → List CoupleMember → ℕ
size_of c [] = 0
size_of c (m ∷ ms) = (if is_active_in c m then 1 else 0) + size_of c ms

-- The rows of an id.
unfoldable pub accounts_of : ℕ → List Account → ℕ
accounts_of a [] = 0
accounts_of a (x ∷ xs) = (if x.id == a then 1 else 0) + accounts_of a xs

pub size_of-keep :
    (c : ℕ) (ms : List CoupleMember) → size_of c ms ≡ length (keep (is_active_in c) ms)
unfolding size_of
size_of-keep c [] = refl
size_of-keep c (m ∷ ms) = ground (arith, size_of-keep c ms)

pub memberships-append :
    (a : ℕ) (ms ns : List CoupleMember)
    → memberships a (ms ++ ns) ≡ memberships a ms + memberships a ns
unfolding memberships
memberships-append a [] ns = omega arith
memberships-append a (m ∷ ms) ns = ground (arith, memberships-append a ms ns)

pub size_of-append :
    (c : ℕ) (ms ns : List CoupleMember) → size_of c (ms ++ ns) ≡ size_of c ms + size_of c ns
unfolding size_of
size_of-append c [] ns = omega arith
size_of-append c (m ∷ ms) ns = ground (arith, size_of-append c ms ns)

-- No active membership of either account.
pub memberships-locked :
    (a b : ℕ) (ms : List CoupleMember)
    → length (locked_memberships a b ms) ≡ 0
    → (memberships a ms ≡ 0) × (memberships b ms ≡ 0)
unfolding memberships locked_memberships
memberships-locked a b [] h = (refl, refl)
memberships-locked a b (m ∷ ms) h = ground (arith, memberships-locked a b ms)

pub memberships-leave :
    (c t a : ℕ) (ms : List CoupleMember) → memberships a (leave_members c t ms) ≤ memberships a ms
unfolding memberships leave_members
memberships-leave c t a [] = omega arith
memberships-leave c t a (m ∷ ms) = ground (arith, memberships-leave c t a ms)

pub size_of-leave :
    (c t d : ℕ) (ms : List CoupleMember)
    → size_of d (leave_members c t ms) ≡ (if d == c then 0 else size_of d ms)
unfolding size_of leave_members
size_of-leave c t d [] = ground arith
size_of-leave c t d (m ∷ ms) = ground (arith, size_of-leave c t d ms)

-- Two different accounts are locked.
pub lock_accounts-two :
    (a : ℕ) (xs : List Account) → length (lock_accounts a a xs) ≡ accounts_of a xs
unfolding lock_accounts accounts_of
lock_accounts-two a [] = refl
lock_accounts-two a (x ∷ xs) = ground (arith, lock_accounts-two a xs)
