-- ===== src/Storage/Accounting.antt =====
-- The laws of the accounting of attachment_quota.py.
use littleorbit.Prelude.{ℕ, suc, ◌+◌, ◌≡◌, ◌≤◌, some, List, [], ◌∷◌, arith}
use littleorbit.Storage.{
  pos, negsuc, global_quota_bytes, AttachmentStorageState, returns, reserve_storage, adjust_storage,
  reconcile_storage, Operation, account, after, account_all,
}

abbrev pub IsWithinQuota : AttachmentStorageState → Type 0
IsWithinQuota state = state.reserved_bytes ≤ global_quota_bytes

account-IsWithinQuota :
    (o : Operation) (state : AttachmentStorageState)
    → IsWithinQuota state
    → IsWithinQuota (after (account o state) state)
unfolding account reserve_storage adjust_storage reconcile_storage
account-IsWithinQuota (Operation.reserve now size) state h = ground arith
account-IsWithinQuota (Operation.adjust now (pos d)) state h = ground arith
account-IsWithinQuota (Operation.adjust now (negsuc d)) state h = ground arith
account-IsWithinQuota (Operation.reconcile now as') state h = ground arith

-- From a row within the quota, whatever is reserved, adjusted and reconciled, the reserved bytes
-- never exceed the quota.
pub account_all-IsWithinQuota :
    (os : List Operation) (state : AttachmentStorageState)
    → IsWithinQuota state
    → IsWithinQuota (account_all os state)
unfolding account_all
account_all-IsWithinQuota [] state h = h
account_all-IsWithinQuota (o ∷ os) state h =
    account_all-IsWithinQuota os (after (account o state) state) (account-IsWithinQuota o state h)

-- From a row within the quota, a reservation that fits it succeeds, and giving the same bytes back
-- restores the account.
pub reserve_storage_release :
    (now later n : ℕ) (state : AttachmentStorageState)
    → IsWithinQuota state
    → state.reserved_bytes + suc n ≤ global_quota_bytes
    → (new : AttachmentStorageState) × (reserve_storage now (suc n) (some state) ≡ returns new)
      × (adjust_storage later (negsuc n) (some new) ≡ returns (record state { updated_at = later }))
unfolding reserve_storage adjust_storage
reserve_storage_release now later n state h fits = (
  record { reserved_bytes = state.reserved_bytes + suc n; updated_at = now },
  ground arith,
  ground arith,
)
