-- ===== src/Storage.antt =====
-- services/api/src/little_orbit_api/attachment_quota.py: the accounting of attachment bytes in the one
-- row of attachment_storage_state, which may be missing. Each call holds the row's lock.
pub mod Accounting
mod Examples
use littleorbit.Prelude.{
  ℕ, suc, ◌+◌, ◌-◌, ◌*◌, Bool, true, false, not, ◌&&◌, ◌||◌, Option, none, some, List, [], ◌∷◌, ltb,
  leb, if◌then◌else◌, is_none, Text,
}

-- Python's int: `negsuc n` is -(n + 1)
pub data ℤ : Type 0 where
  pos : ℕ → ℤ
  negsuc : ℕ → ℤ

-- GLOBAL_QUOTA_BYTES
abbrev pub global_quota_bytes : ℕ
global_quota_bytes = 53_687_091_200

pub record AttachmentStorageState : Type 0 where
  pub reserved_bytes : ℕ
  pub updated_at : ℕ

pub data Failure : Type 0 where
  global_quota_exceeded state_unavailable accounting_failed ceiling_exceeded : Failure

-- A call returns with the new row, or raises and leaves the row to the rollback of its transaction.
pub data Accounted : Type 0 where
  returns : AttachmentStorageState → Accounted
  raises : Failure → Accounted

unfoldable pub reserve_storage : ℕ → ℕ → Option AttachmentStorageState → Accounted
reserve_storage now size_bytes none = raises Failure.state_unavailable
reserve_storage now size_bytes (some state) =
    if ltb global_quota_bytes (state.reserved_bytes + size_bytes)
    then raises Failure.global_quota_exceeded
    else returns (record { reserved_bytes = state.reserved_bytes + size_bytes; updated_at = now })

unfoldable pub adjust_storage : ℕ → ℤ → Option AttachmentStorageState → Accounted
adjust_storage now delta none = raises Failure.state_unavailable
adjust_storage now (pos d) (some state) =
    if ltb global_quota_bytes (state.reserved_bytes + d)
    then raises Failure.global_quota_exceeded
    else returns (record { reserved_bytes = state.reserved_bytes + d; updated_at = now })
adjust_storage now (negsuc d) (some state) =
    if ltb (global_quota_bytes + suc d) state.reserved_bytes
    then raises Failure.global_quota_exceeded
    else if ltb state.reserved_bytes (suc d)
    then raises Failure.accounting_failed
    else returns (record { reserved_bytes = state.reserved_bytes - suc d; updated_at = now })

pub data AttachmentStatus : Type 0 where
  uploading pending_scan scanning available rejected deleted : AttachmentStatus

pub record NoteAttachment : Type 0 where
  pub id : ℕ
  pub note_id : ℕ
  pub couple_id : ℕ
  pub uploaded_by : Option ℕ
  pub operation_id : ℕ
  pub file_name : Text
  pub media_type : Text
  pub size_bytes : ℕ
  pub uploaded_bytes : ℕ
  pub sha256 : Text
  pub storage_key : ℕ
  pub status : AttachmentStatus
  pub rejection_reason : Option Text
  pub created_at : ℕ
  pub updated_at : ℕ
  pub scanned_at : Option ℕ
  pub deleted_at : Option ℕ

-- status in {"uploading", "pending_scan", "scanning", "available"}
abbrev pub is_held : AttachmentStatus → Bool
is_held AttachmentStatus.rejected = false
is_held AttachmentStatus.deleted = false
is_held s = true

-- deleted_at.is_(None), status.in_(("uploading", "pending_scan", "scanning", "available"))
abbrev pub counts : NoteAttachment → Bool
counts a = is_none a.deleted_at && is_held a.status

-- coalesce(sum(size_bytes), 0)
unfoldable pub stored_bytes : List NoteAttachment → ℕ
stored_bytes [] = 0
stored_bytes (a ∷ as') = (if counts a then a.size_bytes else 0) + stored_bytes as'

pub reconcile_storage : ℕ → List NoteAttachment → Option AttachmentStorageState → Accounted
unfolding stored_bytes
reconcile_storage now attachments none = raises Failure.state_unavailable
reconcile_storage now attachments (some state) =
    let total = stored_bytes attachments in
    if ltb global_quota_bytes total
    then raises Failure.ceiling_exceeded
    else returns (record { reserved_bytes = total; updated_at = now })

pub data Operation : Type 0 where
  reserve : (now : ℕ) → (size_bytes : ℕ) → Operation
  adjust : (now : ℕ) → (delta : ℤ) → Operation
  reconcile : (now : ℕ) → (attachments : List NoteAttachment) → Operation

pub account : Operation → AttachmentStorageState → Accounted
unfolding reserve_storage adjust_storage reconcile_storage
account (reserve now size) state = reserve_storage now size (some state)
account (adjust now delta) state = adjust_storage now delta (some state)
account (reconcile now attachments) state = reconcile_storage now attachments (some state)

abbrev pub after : Accounted → AttachmentStorageState → AttachmentStorageState
after (returns new) state = new
after (raises f) state = state

-- The row after a list of transactions, those that raise rolled back.
pub account_all : List Operation → AttachmentStorageState → AttachmentStorageState
unfolding account
account_all [] state = state
account_all (o ∷ os) state = account_all os (after (account o state) state)
