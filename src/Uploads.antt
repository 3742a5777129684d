-- ===== src/Uploads.antt =====
-- The life of an attachment: routes/attachments.py and attachment_storage.py of
-- services/api/src/little_orbit_api. A handler is given from its authorisation on, with the couple and
-- note that it has authorised. The bytes on disk are lists; what Python's pathlib, hashlib and shutil
-- say of names, digests and free space are parameters.
pub mod Chunks
pub mod Scan
pub mod Balance
pub mod Steps
pub mod Settling
pub mod Uploading
pub mod Lifecycle
pub mod Doubled
pub mod Late
mod Examples
use littleorbit.Prelude.{
  ℕ, zero, suc, ◌+◌, ◌-◌, ◌*◌, Bool, true, false, not, ◌&&◌, ◌||◌, Option, none, some, List, [],
  ◌∷◌, ◌++◌, ◌==◌, ltb, leb, if◌then◌else◌, is_some, is_none, Text, text_eq, length, take, drop,
}
use littleorbit.Activity.{Event}
use littleorbit.Pairing.{Couple, Response, answers, fails, lock_couple}
use littleorbit.Storage.{
  ℤ, pos, negsuc, AttachmentStorageState, Accounted, Failure, returns, raises, AttachmentStatus,
  NoteAttachment, is_held, counts, stored_bytes, reserve_storage, adjust_storage,
}

abbrev pub max_file_bytes : ℕ
max_file_bytes = 104_857_600

abbrev pub couple_quota_bytes : ℕ
couple_quota_bytes = 2_147_483_648

abbrev pub max_concurrent_uploads_per_couple : ℕ
max_concurrent_uploads_per_couple = 4

abbrev pub max_chunk_bytes : ℕ
max_chunk_bytes = 4_194_304

pub data JobStatus : Type 0 where
  pending leased completed rejected : JobStatus

pub record AttachmentJob : Type 0 where
  pub attachment_id : ℕ
  pub status : JobStatus
  pub attempts : ℕ
  pub next_attempt_at : ℕ
  pub lease_expires_at : Option ℕ
  pub leased_by : Option ℕ
  pub last_error : Option Text
  pub created_at : ℕ
  pub updated_at : ℕ

pub record Db : Type 0 where
  pub couples : List Couple
  pub storage : Option AttachmentStorageState
  pub attachments : List NoteAttachment
  pub jobs : List AttachmentJob
  pub events : List Event

-- Why a handler or a worker stops; a refused transaction is rolled back.
pub data Refusal : Type 0 where
  inactive not_found payload_mismatch too_many_uploads couple_quota storage_full invalid_metadata :
      Refusal
  not_uploading offset_mismatch invalid_chunk stored_offset storage_failure quota_exceeded broken :
      Refusal

pub data Result {ℓ} (A : Type ℓ) : Type ℓ where
  done : A → Result A
  refuses : Refusal → Result A

-- The row of `session.get` and its update.
unfoldable pub find_item : ℕ → List NoteAttachment → Option NoteAttachment
find_item k [] = none
find_item k (a ∷ rows) = if a.id == k then some a else find_item k rows

unfoldable pub update_item :
    ℕ → (NoteAttachment → NoteAttachment) → List NoteAttachment → List NoteAttachment
update_item k f [] = []
update_item k f (a ∷ rows) = (if a.id == k then f a else a) ∷ update_item k f rows

-- `-n` and `m - n`
abbrev pub neg : ℕ → ℤ
neg zero = pos zero
neg (suc n) = negsuc n

abbrev pub minus : ℕ → ℕ → ℤ
minus m n = if leb n m then pos (m - n) else negsuc (n - m - 1)

-- A policy error, or a RuntimeError that no handler expects.
abbrev pub refusal_of : Refusal → Failure → Refusal
refusal_of policy Failure.global_quota_exceeded = policy
refusal_of policy f = Refusal.broken

-- Where `adjust_storage` gives the new row, the rest of the transaction goes on with it.
abbrev pub adjusted {ℓ} : {A : Type ℓ} → Accounted → (AttachmentStorageState → Result A) → Result A
adjusted (returns state) rest = rest state
adjusted (raises f) rest = refuses (refusal_of Refusal.storage_failure f)

pub record AttachmentCreateRequest : Type 0 where
  pub operation_id : ℕ
  pub file_name : Text
  pub media_type : Text
  pub size_bytes : ℕ
  pub sha256 : Text

-- What is said of a request by Python's re and pathlib and by the disk: whether its type is allowed
-- and its digest well formed, its display name, and whether the volume has room for its bytes.
pub record Disk : Type 0 where
  pub is_allowed : Text → Bool
  pub is_digest : Text → Bool
  pub safe_file_name : Text → Option Text
  pub has_upload_capacity : ℕ → Bool

-- validate_metadata
pub validate_metadata : Disk → AttachmentCreateRequest → Bool
validate_metadata disk p =
    disk.is_allowed p.media_type
    && (ltb 0 p.size_bytes && leb p.size_bytes max_file_bytes)
    && disk.is_digest p.sha256

-- _validated_file_name
pub validated_file_name : Disk → AttachmentCreateRequest → Option Text
unfolding validate_metadata
validated_file_name disk p =
    if validate_metadata disk p then disk.safe_file_name p.file_name else none

-- _prior_upload
pub prior_upload : ℕ → ℕ → List NoteAttachment → Option NoteAttachment
prior_upload note operation [] = none
prior_upload note operation (a ∷ rows) =
    if a.note_id == note && a.operation_id == operation
    then some a
    else prior_upload note operation rows

-- _same_upload
pub same_upload : NoteAttachment → AttachmentCreateRequest → Text → Bool
same_upload a p file_name =
    text_eq a.file_name file_name
    && text_eq a.media_type p.media_type
    && a.size_bytes == p.size_bytes
    && text_eq a.sha256 p.sha256

abbrev pub is_uploading : AttachmentStatus → Bool
is_uploading AttachmentStatus.uploading = true
is_uploading s = false

-- The couple's uploads that are under way, and the bytes that it holds.
pub active_uploads : ℕ → List NoteAttachment → ℕ
active_uploads c [] = 0
active_uploads c (a ∷ rows) =
    (if a.couple_id == c && (is_none a.deleted_at && is_uploading a.status) then 1 else 0)
    + active_uploads c rows

unfoldable pub couple_bytes : ℕ → List NoteAttachment → ℕ
couple_bytes c [] = 0
couple_bytes c (a ∷ rows) =
    (if a.couple_id == c && counts a then a.size_bytes else 0) + couple_bytes c rows

-- _reserve_upload_capacity
unfoldable pub reserve_upload_capacity : Disk → ℕ → ℕ → ℕ → Db → Result AttachmentStorageState
unfolding active_uploads couple_bytes reserve_storage
reserve_upload_capacity disk now c size db =
    if leb max_concurrent_uploads_per_couple (active_uploads c db.attachments)
    then refuses Refusal.too_many_uploads
    else if ltb couple_quota_bytes (couple_bytes c db.attachments + size)
    then refuses Refusal.couple_quota
    else if not (disk.has_upload_capacity size)
    then refuses Refusal.storage_full
    else elim (reserve_storage now size db.storage) [
      | returns state ↦ done state
      | raises f ↦ refuses (refusal_of Refusal.storage_full f)
    ]

-- The authorised request with the id and the storage key that it draws.
pub record Upload : Type 0 where
  pub note_id : ℕ
  pub couple_id : ℕ
  pub actor_id : ℕ
  pub id : ℕ
  pub storage_key : ℕ
  pub now : ℕ

-- _new_attachment
unfoldable pub new_attachment : Upload → AttachmentCreateRequest → Text → NoteAttachment
new_attachment u p file_name = record {
  id = u.id;
  note_id = u.note_id;
  couple_id = u.couple_id;
  uploaded_by = some u.actor_id;
  operation_id = p.operation_id;
  file_name = file_name;
  media_type = p.media_type;
  size_bytes = p.size_bytes;
  uploaded_bytes = 0;
  sha256 = p.sha256;
  storage_key = u.storage_key;
  status = AttachmentStatus.uploading;
  rejection_reason = none;
  created_at = u.now;
  updated_at = u.now;
  scanned_at = none;
  deleted_at = none;
}

unfoldable pub add_attachment :
    Upload → AttachmentCreateRequest → Text → Db → Result AttachmentStorageState → Result (ℕ × Db)
unfolding new_attachment
add_attachment u p file_name db (refuses r) = refuses r
add_attachment u p file_name db (done state) = done (
  u.id,
  record db {
    storage = some state;
    attachments = db.attachments ++ new_attachment u p file_name ∷ [];
  },
)

-- From the look at the operation's earlier attachment on.
unfoldable pub create_with :
    Disk → Upload → AttachmentCreateRequest → Text → Option NoteAttachment → Db → Result (ℕ × Db)
unfolding same_upload reserve_upload_capacity add_attachment
create_with disk u p file_name (some a) db =
    if same_upload a p file_name then done (a.id, db) else refuses Refusal.payload_mismatch
create_with disk u p file_name none db =
    add_attachment u p file_name db (reserve_upload_capacity disk u.now u.couple_id p.size_bytes db)

unfoldable pub create_named :
    Disk → Upload → AttachmentCreateRequest → Option Text → Db → Result (ℕ × Db)
unfolding prior_upload create_with
create_named disk u p none db = refuses Refusal.invalid_metadata
create_named disk u p (some file_name) db =
    create_with disk u p file_name (prior_upload u.note_id p.operation_id db.attachments) db

abbrev pub while_active {ℓ} : {A : Type ℓ} → Response Couple → Result A → Result A
while_active (fails s) rest = refuses Refusal.inactive
while_active (answers c) rest = rest

-- create_attachment
unfoldable pub create_attachment : Disk → Upload → AttachmentCreateRequest → Db → Result (ℕ × Db)
unfolding validated_file_name create_named
create_attachment disk u p db =
    while_active (lock_couple u.couple_id db.couples)
      (create_named disk u p (validated_file_name disk p) db)
