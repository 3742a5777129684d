-- ===== src/Note/Examples.antt =====
-- Concrete runs of the note modules.
use littleorbit.Prelude.{◌≡◌, refl, true, false, none, some, [], ◌∷◌, Text, arith, text_eq}
use littleorbit.Note.Edit.{
  Edit, insert, delete, ok, raises, ◌>>=◌, apply_edit, transform, apply_non_empty_edit,
  position_outside, range_outside,
}
use littleorbit.Note.Slices.{put, cut}
use littleorbit.Note.Converge.{Lands, edited, transform_converges, transform-swallows}
use littleorbit.Note.Live.{
  Message, NoteRow, Operation, Db, ack, Call, insert_kind, delete_kind, stored_edit, restore_edit,
  parse_edit, find_operation, commit_edit, apply_locked, apply_to_note, finish_edit,
  transform_since,
}
use littleorbit.Note.Live.History.{Transforms, replay, IsHistory, restore_edit-stored_edit}
use littleorbit.Note.Live.Accepts.{
  Runs, IsConsistent, apply_locked_accepts, apply_locked-IsConsistent, apply_locked_retry,
}

-- "hello"
abbrev hello : Text
hello = b'h' ∷ b'e' ∷ b'l' ∷ b'l' ∷ b'o' ∷ []

abbrev bang : Edit
bang = insert 5 (b'!' ∷ [])

abbrev cut_front : Edit
cut_front = delete 0 2

apply_edit_outside : apply_edit hello (insert 6 (b'!' ∷ [])) ≡ raises position_outside
unfolding apply_edit
apply_edit_outside = refl

apply_edit_range : apply_edit hello (delete 4 2) ≡ raises range_outside
unfolding apply_edit
apply_edit_range = refl

transform_converges_example :
    (apply_non_empty_edit hello bang >>= λ c.
    apply_non_empty_edit c (transform cut_front bang true))
    ≡ (apply_non_empty_edit hello cut_front >>= λ c.
        apply_non_empty_edit c (transform bang cut_front false))
transform_converges_example =
    transform_converges hello bang cut_front true (omega arith, refl) (omega arith) refl refl

transform-swallows_example :
    ((apply_non_empty_edit hello (insert 2 (b'x' ∷ [])) >>= λ c.
    apply_non_empty_edit c (transform (delete 1 3) (insert 2 (b'x' ∷ [])) true))
      ≡ ok (cut 1 3 hello))
    × ((apply_non_empty_edit hello (delete 1 3) >>= λ c.
          apply_non_empty_edit c (transform (insert 2 (b'x' ∷ [])) (delete 1 3) false))
        ≡ ok (put 1 (b'x' ∷ []) (cut 1 3 hello)))
transform-swallows_example =
    transform-swallows hello 1 3 2 (b'x' ∷ []) true (omega arith) (omega arith, refl) refl

restore_edit-stored_edit_example : restore_edit (stored_edit cut_front) ≡ ok cut_front
restore_edit-stored_edit_example = restore_edit-stored_edit cut_front

-- A note that began as "hell", after one insertion of "o" at its end.
abbrev first : Operation
first = record {
  operation_id = 7;
  actor_id = 1;
  base_revision = 0;
  resulting_revision = 1;
  edit = record { kind = insert_kind; position = some 4; text = some (b'o' ∷ []); span = none };
  applied_at = 10;
}

abbrev start : Text
start = b'h' ∷ b'e' ∷ b'l' ∷ b'l' ∷ []

abbrev row : NoteRow
row = record { note_id = 3; title = []; body = hello; revision = 1; updated_at = 10 }

abbrev db : Db
db = record { note = some row; operations = first ∷ []; events = [] }

-- The partner deletes "he", still at revision 0.
abbrev message : Message
message = record {
  operation_id = 9;
  base_revision = 0;
  kind = delete_kind;
  position = 0;
  text = none;
  span = some 2;
}

abbrev call : Call
call = record { account_id = 2; couple_id = 5; now = 20; edit_key = b'k' ∷ []; notified = some 1 }

row-IsHistory : IsHistory start row (first ∷ [])
unfolding replay restore_edit apply_non_empty_edit apply_edit
row-IsHistory = record { numbered = (refl, refl); replayed = refl }

apply_locked_accepts_example :
    (e : Edit) × (apply_locked call message db
      ≡ ok (commit_edit call message db row e (edited hello e)))
    × Lands 5 e
    × Transforms 9 cut_front (first ∷ []) e
unfolding find_operation parse_edit replay
apply_locked_accepts_example =
    apply_locked_accepts call message db row start start cut_front refl row-IsHistory refl
      (omega arith) refl refl (omega arith)

-- The deletion is carried out, and acknowledged as transformed.
message_runs :
    apply_locked call message db
    ≡ ok (commit_edit call message db row cut_front (b'l' ∷ b'l' ∷ b'o' ∷ []))
unfolding apply_locked apply_to_note finish_edit parse_edit transform_since transform restore_edit
    apply_non_empty_edit apply_edit
message_runs = refl

apply_locked-IsConsistent_example :
    IsConsistent start (commit_edit call message db row cut_front (b'l' ∷ b'l' ∷ b'o' ∷ [])).1
apply_locked-IsConsistent_example =
    apply_locked-IsConsistent call message db
      (commit_edit call message db row cut_front (b'l' ∷ b'l' ∷ b'o' ∷ [])).1 start
      (commit_edit call message db row cut_front (b'l' ∷ b'l' ∷ b'o' ∷ [])).0 row-IsHistory
      message_runs

message_acknowledged :
    apply_locked call message db
    ≡ ok (
      ack 9 2 (b'l' ∷ b'l' ∷ b'o' ∷ []) true false (some 1),
      (commit_edit call message db row cut_front (b'l' ∷ b'l' ∷ b'o' ∷ [])).1,
    )
unfolding apply_locked apply_to_note finish_edit parse_edit transform_since transform restore_edit
    apply_non_empty_edit apply_edit commit_edit text_eq
message_acknowledged = refl

abbrev deleted : Db
unfolding commit_edit
deleted = (commit_edit call message db row cut_front (b'l' ∷ b'l' ∷ b'o' ∷ [])).1

-- A later deletion of the two first characters that are left.
abbrev next_message : Message
next_message = record message { operation_id = 11; base_revision = 2 }

abbrev row_after : NoteRow
row_after = record row { body = b'o' ∷ []; revision = 3; updated_at = 20 }

abbrev last : Db
unfolding commit_edit
last =
    (commit_edit call next_message deleted
      (record row { body = b'l' ∷ b'l' ∷ b'o' ∷ []; revision = 2; updated_at = 20 }) cut_front
      (b'o' ∷ [])).1

next_runs :
    apply_locked call next_message deleted ≡ ok (ack 11 3 (b'o' ∷ []) false false (some 1), last)
unfolding apply_locked apply_to_note finish_edit parse_edit transform_since transform restore_edit
    apply_non_empty_edit apply_edit commit_edit text_eq
next_runs = refl

apply_locked_retry_example :
    apply_locked call message last ≡ ok (ack 9 3 (b'o' ∷ []) true true none, last)
unfolding deleted commit_edit
apply_locked_retry_example =
    apply_locked_retry call call message db deleted last 9 2 (b'l' ∷ b'l' ∷ b'o' ∷ []) true (some 1)
      row_after message_acknowledged
      (Runs.next call next_message (ack 11 3 (b'o' ∷ []) false false (some 1)) Runs.here next_runs)
      refl
