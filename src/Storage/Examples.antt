-- ===== src/Storage/Examples.antt =====
-- Concrete accounts of attachment bytes.
use littleorbit.Prelude.{List, [], ◌∷◌, arith}
use littleorbit.Storage.{negsuc, AttachmentStorageState, Operation, account_all}
use littleorbit.Storage.Accounting.{IsWithinQuota, account_all-IsWithinQuota}

abbrev state : AttachmentStorageState
state = record { reserved_bytes = 1000; updated_at = 3 }

abbrev operations : List Operation
operations =
    Operation.reserve 4 500
    ∷ Operation.reserve 5 60_000_000_000
    ∷ Operation.adjust 6 (negsuc 99)
    ∷ []

account_all-IsWithinQuota_example : IsWithinQuota (account_all operations state)
account_all-IsWithinQuota_example = account_all-IsWithinQuota operations state (omega arith)
