-- ===== src/Note/Edit.antt =====
-- services/api/src/little_orbit_api/domain/notes.py. A text is the list of its code points.
-- Positions and lengths are ℕ: the service's message schema requires `position >= 0` and
-- `length >= 1` (services/api/src/little_orbit_api/note_edit_service.py), so the test
-- `edit.position < 0` of `apply_edit` cannot fire, and each subtraction below that Python clips by
-- `max(0, ...)` is the truncated one.
use littleorbit.Prelude.{
  ◌≡◌, refl, Text, is_empty, ℕ, ◌+◌, ◌-◌, min, max, Bool, not, ◌&&◌, ◌||◌, ◌++◌, length, take, drop,
  ltb, leb, ◌==◌, if◌then◌else◌,
}

-- Edit = Insert | Delete
pub data Edit : Type 0 where
  insert : (position : ℕ) → (text : Text) → Edit
  delete : (position : ℕ) → (span : ℕ) → Edit

-- The three messages with which `apply_edit` raises InvalidEdit, and the two that
-- note_edit_service.py adds.
pub data InvalidEdit : Type 0 where
  position_outside empty_text range_outside fields_mismatch stored_shape : InvalidEdit

pub data Applied {ℓ} (A : Type ℓ) : Type ℓ where
  ok : A → Applied A
  raises : InvalidEdit → Applied A

infixl 5 ◌>>=◌
-- An exception ends the run; a body goes on to the rest of it.
abbrev pub ◌>>=◌ {κ μ} :
    {Now : Type κ} {Then : Type μ} → Applied Now → (Now → Applied Then) → Applied Then
raises failure >>= rest = raises failure
ok body >>= rest = rest body

pub >>=-eq-ok {κ μ} :
    {Now : Type κ} {Then : Type μ} (before : Applied Now) (rest : Now → Applied Then)
    {result : Then}
    → (before >>= rest) ≡ ok result
    → (now : Now) × (before ≡ ok now) × (rest now ≡ ok result)
>>=-eq-ok (raises failure) rest h = cc
>>=-eq-ok (ok now) rest h = (now, refl, h)

pub >>=_assoc {ℓ κ μ} :
    {A : Type ℓ} {B : Type κ} {C : Type μ} (m : Applied A) (f : A → Applied B) (g : B → Applied C)
    → ((m >>= f) >>= g) ≡ (m >>= λ a. f a >>= g)
>>=_assoc (ok a) f g = refl
>>=_assoc (raises e) f g = refl

unfoldable pub apply_edit : Text → Edit → Applied Text
apply_edit body (insert p t) =
    if ltb (length body) p
    then raises position_outside
    else if is_empty t
    then raises empty_text
    else ok (take p body ++ (t ++ drop p body))
apply_edit body (delete p n) =
    if ltb (length body) p
    then raises position_outside
    else if leb n 0 || ltb (length body) (p + n)
    then raises range_outside
    else ok (take p body ++ drop (p + n) body)

-- _against_insert
unfoldable pub against_insert : Edit → ℕ → Text → Bool → Edit
against_insert (insert p t) q u wins =
    let should_shift = ltb q p || (p == q && not wins) in
    insert (if should_shift then p + length u else p) t
against_insert (delete p n) q u wins =
    if leb q p
    then delete (p + length u) n
    else if leb (p + n) q
    then delete p n
    else delete p (n + length u)

-- _against_delete
unfoldable pub against_delete : Edit → ℕ → ℕ → Edit
against_delete (insert p t) start m =
    if leb p start then insert p t else insert (max start (p - m)) t
against_delete (delete p n) start m =
    let new_start = p - min m (p - start) in
    let overlap = min (p + n) (start + m) - max p start in delete new_start (n - overlap)

-- `transform(incoming, applied, incoming_wins_tie)`
unfoldable pub transform : Edit → Edit → Bool → Edit
unfolding against_insert against_delete
transform incoming (insert q u) wins = against_insert incoming q u wins
transform incoming (delete start m) wins = against_delete incoming start m

-- `_apply_non_empty_edit` of note_edit_service.py: a deletion that shrank to nothing changes nothing.
unfoldable pub apply_non_empty_edit : Text → Edit → Applied Text
apply_non_empty_edit body (insert p t) = apply_edit body (insert p t)
apply_non_empty_edit body (delete p n) = if n == 0 then ok body else apply_edit body (delete p n)
