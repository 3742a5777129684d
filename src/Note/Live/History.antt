-- ===== src/Note/Live/History.antt =====
-- The stored operations of note_edit_service.py as the history of a note's body.
use littleorbit.Prelude.{
  ℕ, zero, suc, ◌+◌, ◌≤◌, ◌<◌, ◌≡◌, refl, ap, sym, ◌∙◌, inl, inr, true, false, none, some, List, [],
  ◌∷◌, ◌++◌, Text, length, keep, take, drop, take-append-drop, length-drop, subst, ltb, ◌==◌, arith,
  Bool-cases,
}
use littleorbit.Note.Edit.{
  Edit, insert, delete, Applied, ok, raises, ◌>>=◌, >>=-eq-ok, >>=_assoc, transform,
  apply_non_empty_edit,
}
use littleorbit.Note.Converge.{Lands, apply_non_empty_edit_accepts, transform-Lands_after}
use littleorbit.Note.Live.{
  Message, NoteRow, Operation, stored_edit, restore_edit, find_operation, insert_by_revision,
  by_revision, transform_all, transform_since,
}

-- Storing an edit as JSON and restoring it gives the edit back.
pub restore_edit-stored_edit : (e : Edit) → restore_edit (stored_edit e) ≡ ok e
unfolding restore_edit stored_edit
restore_edit-stored_edit (insert p t) = refl
restore_edit-stored_edit (delete p n) = refl

-- The body that a list of stored operations makes of a body.
unfoldable pub replay : Text → List Operation → Applied Text
replay b [] = ok b
replay b (o ∷ os) = restore_edit o.edit >>= λ e. apply_non_empty_edit b e >>= λ c. replay c os

-- The operations carry the revisions after `r` one by one, up to `n`.
abbrev pub Numbered : ℕ → List Operation → ℕ → Type 0
Numbered r [] n = r ≡ n
Numbered r (o ∷ os) n = (o.resulting_revision ≡ suc r) × Numbered (suc r) os n

pub record IsHistory (start : Text) (note : NoteRow) (ops : List Operation) : Type 0 where
  pub numbered : Numbered 0 ops note.revision
  pub replayed : replay start ops ≡ ok note.body

pub replay-append :
    (b : Text) (xs ys : List Operation) → replay b (xs ++ ys) ≡ (replay b xs >>= λ c. replay c ys)
unfolding replay
replay-append b [] ys = refl
replay-append b (o ∷ xs) ys =
    let ih : (c : Text) → replay c (xs ++ ys) ≡ (replay c xs >>= λ d. replay d ys) =
      λ c. replay-append c xs ys in
    simp (>>=_assoc, ih)

pub Numbered-snoc :
    (r n : ℕ) (os : List Operation) (o : Operation)
    → Numbered r os n
    → o.resulting_revision ≡ suc n
    → Numbered r (os ++ o ∷ []) (suc n)
Numbered-snoc r n [] o h e = (e ∙ ap suc (sym h), ap suc h)
Numbered-snoc r n (x ∷ os) o h e = (h.0, Numbered-snoc (suc r) n os o h.1 e)

Numbered-length : (r n : ℕ) (os : List Operation) → Numbered r os n → r + length os ≡ n
Numbered-length r n [] h = omega arith
Numbered-length r n (x ∷ os) h = omega (arith, Numbered-length (suc r) n os h.1)

-- The operations after revision `r + k` are those behind the first `k`.
keep_all :
    (r k n : ℕ) (os : List Operation)
    → k ≤ r
    → Numbered r os n
    → keep (λ o. ltb k o.resulting_revision) os ≡ os
keep_all r k n [] h e = refl
keep_all r k n (o ∷ os) h e = ground (arith, keep_all (suc r) k n os (omega arith) e.1)

keep_later :
    (m r k n : ℕ) (os : List Operation)
    → m ≡ r + k
    → Numbered r os n
    → keep (λ o. ltb m o.resulting_revision) os ≡ drop k os
keep_later m r zero n os s e = keep_all r m n os (omega arith) e
keep_later m r (suc k) n [] s e = refl
keep_later m r (suc k) n (o ∷ os) s e =
    ground (arith, e.0, keep_later m (suc r) k n os (omega arith) e.1)

Numbered-drop :
    (r k n : ℕ) (os : List Operation) → Numbered r os n → r + k ≤ n → Numbered (r + k) (drop k os) n
Numbered-drop r zero n os e h = let s : r + 0 ≡ r = omega arith in rw s e
Numbered-drop r (suc k) n [] e h = absurd (omega arith)
Numbered-drop r (suc k) n (o ∷ os) e h =
    let s : r + suc k ≡ suc r + k = omega arith in
    rw s (Numbered-drop (suc r) k n os e.1 (omega arith))

by_revision-Numbered : (r n : ℕ) (os : List Operation) → Numbered r os n → by_revision os ≡ os
unfolding by_revision
by_revision-Numbered r n [] e = refl
by_revision-Numbered r n (o ∷ os) e = rw (by_revision-Numbered (suc r) n os e.1) (go os e.1)
  where
    go : (xs : List Operation) → Numbered (suc r) xs n → insert_by_revision o xs ≡ o ∷ xs
    go [] h = refl
    go (x ∷ xs) h = ground (arith, e.0)

pub ok_injective : (a b : Text) → ok a ≡ ok b → a ≡ b
ok_injective a b h = cc

-- What the edit with id `k` becomes behind a list of operations: it is transformed against the edit of
-- each in turn, and has priority over those with a larger id.
pub data Transforms (k : ℕ) : Edit → List Operation → Edit → Type 0 where
  unmoved : {e : Edit} → Transforms k e [] e
  earlier :
      {e a e' : Edit} {o : Operation} {os : List Operation}
      → restore_edit o.edit ≡ ok a
      → k < o.operation_id
      → Transforms k (transform e a true) os e'
      → Transforms k e (o ∷ os) e'
  later :
      {e a e' : Edit} {o : Operation} {os : List Operation}
      → restore_edit o.edit ≡ ok a
      → o.operation_id ≤ k
      → Transforms k (transform e a false) os e'
      → Transforms k e (o ∷ os) e'

Transforms-first :
    (k : ℕ) (e a e' : Edit) (o : Operation) (os : List Operation)
    → restore_edit o.edit ≡ ok a
    → Transforms k (transform e a (ltb k o.operation_id)) os e'
    → Transforms k e (o ∷ os) e'
Transforms-first k e a e' o os h t = elim (Bool-cases (ltb k o.operation_id)) [
  | inl less ↦
      Transforms.earlier h (ground arith) (subst (λ x. Transforms k (transform e a x) os e') less t)
  | inr more ↦
      Transforms.later h (ground arith) (subst (λ x. Transforms k (transform e a x) os e') more t)
]

-- An edit that lands on the body from which the operations start lands, transformed, on their result.
pub transform_all-Lands :
    (k : ℕ) (b body : Text) (e : Edit) (os : List Operation)
    → replay b os ≡ ok body
    → Lands (length b) e
    → (e' : Edit) × (transform_all k e os ≡ ok e') × Lands (length body) e' × Transforms k e os e'
unfolding replay transform_all
transform_all-Lands k b body e [] h l =
    (e, refl, subst (λ x. Lands (length x) e) (ok_injective b body h) l, Transforms.unmoved)
transform_all-Lands k b body e (o ∷ os) h l =
    let (a, ha, h1) =
      >>=-eq-ok (restore_edit o.edit) (λ e. apply_non_empty_edit b e >>= λ c. replay c os) h in
    let (c, hc, h2) = >>=-eq-ok (apply_non_empty_edit b a) (λ c. replay c os) h1 in
    let took = apply_non_empty_edit_accepts b c a hc in
    let next = transform-Lands_after (length b) e a (ltb k o.operation_id) l took.0 in
    let (e', te, le, te') =
      transform_all-Lands k c body (transform e a (ltb k o.operation_id)) os h2 (rw took.1 next) in
    (e', rw ha te, le, Transforms-first k e a e' o os ha te')

drop_all : (k : ℕ) (os : List Operation) → length os ≤ k → drop k os ≡ []
drop_all zero [] h = refl
drop_all zero (o ∷ os) h = absurd (omega arith)
drop_all (suc k) [] h = refl
drop_all (suc k) (o ∷ os) h = drop_all k os (omega arith)

-- With a history, `_transform_since` never reports a conflict: it transforms against the operations
-- behind the base revision.
pub transform_since_lem :
    (note : NoteRow) (ops : List Operation) (m : Message) (e : Edit)
    → Numbered 0 ops note.revision
    → m.base_revision ≤ note.revision
    → transform_since note ops m e
      ≡ (transform_all m.operation_id e (drop m.base_revision ops) >>= λ x. ok (some x))
unfolding transform_since transform_all
transform_since_lem note ops m e h le =
    let k = m.base_revision in
    let later = keep_later k 0 k note.revision ops (omega arith) h in
    let sorted =
      by_revision-Numbered (0 + k) note.revision (drop k ops)
        (Numbered-drop 0 k note.revision ops h (omega arith)) in
    let size = Numbered-length 0 note.revision ops h in
    elim (Bool-cases (k == note.revision)) [
      | inl same ↦ rw (drop_all k ops (ground arith)) (ground arith)
      | inr less ↦
          let fits : (length (drop k ops) + k == note.revision) ≡ true =
            ground (arith, length-drop k ops) in
          ground (arith, later, sorted)
    ]

pub replay-drop :
    (start base body : Text) (k : ℕ) (ops : List Operation)
    → replay start ops ≡ ok body
    → replay start (take k ops) ≡ ok base
    → replay base (drop k ops) ≡ ok body
replay-drop start base body k ops h hb =
    let whole : replay start (take k ops ++ drop k ops) ≡ ok body = rw take-append-drop h in
    let split = sym (replay-append start (take k ops) (drop k ops)) ∙ whole in rw hb at split

replay-stored :
    (b : Text) (o : Operation) (e : Edit)
    → o.edit ≡ stored_edit e
    → replay b (o ∷ []) ≡ apply_non_empty_edit b e
unfolding replay
replay-stored b o e h = rw (h, restore_edit-stored_edit e) (bind_ok (apply_non_empty_edit b e))
  where
    bind_ok : (m : Applied Text) → (m >>= λ c. ok c) ≡ m
    bind_ok (ok c) = refl
    bind_ok (raises x) = refl

-- An applied edit extends the history by its operation.
pub IsHistory-snoc :
    (start : Text) (note note' : NoteRow) (ops : List Operation) (o : Operation) (e : Edit)
    → IsHistory start note ops
    → apply_non_empty_edit note.body e ≡ ok note'.body
    → note'.revision ≡ suc note.revision
    → o.resulting_revision ≡ suc note.revision
    → o.edit ≡ stored_edit e
    → IsHistory start note' (ops ++ o ∷ [])
IsHistory-snoc start note note' ops o e h a hr ho he = record {
  numbered = rw hr (Numbered-snoc 0 note.revision ops o h.numbered ho);
  replayed = rw (replay-append start ops (o ∷ []), h.replayed) (replay-stored note.body o e he ∙ a);
}

pub find_operation-snoc :
    (k : ℕ) (o : Operation) (os : List Operation)
    → find_operation k os ≡ none
    → o.operation_id ≡ k
    → find_operation k (os ++ o ∷ []) ≡ some o
unfolding find_operation
find_operation-snoc k o [] h e = ground arith
find_operation-snoc k o (x ∷ os) h e = ground (arith, find_operation-snoc k o os)

-- An id that finds an operation finds it whatever is appended.
pub find_operation-append :
    (k : ℕ) (o : Operation) (os more : List Operation)
    → find_operation k os ≡ some o
    → find_operation k (os ++ more) ≡ some o
unfolding find_operation
find_operation-append k o [] more h = absurd (ground arith)
find_operation-append k o (x ∷ os) more h = ground (arith, find_operation-append k o os more)
