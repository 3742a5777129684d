-- ===== src/Note/Converge.antt =====
-- The laws of `transform` of domain/notes.py on concurrent edits.
use littleorbit.Prelude.{
  Text, is_empty, ◌∙◌, subst, ℕ, ◌+◌, ◌-◌, ◌≤◌, ◌<◌, ◌≡◌, ap, sym, ◌↔◌, inl, inr, Bool, true, false,
  not, length, arith, Bool-cases, ltb, leb, leb→le, ◌&&◌, min,
}
use littleorbit.Note.Slices.{
  put, cut, put_lem, cut_lem, length-put, length-cut, put-put, cut-put_right, cut-put_left,
  cut-cut_apart, cut-cut_inside, cut-put_inside, cut-zero,
}
use littleorbit.Note.Edit.{
  Edit, insert, delete, ok, apply_edit, transform, ◌>>=◌, apply_non_empty_edit,
}

-- The edits that `apply_edit` accepts on a body of length `n`.
abbrev pub Fits : ℕ → Edit → Type 0
Fits n (insert p t) = (p ≤ n) × (is_empty t ≡ false)
Fits n (delete p k) = (0 < k) × (p + k ≤ n)

-- The edits that the service applies: a deletion may have shrunk to nothing.
abbrev pub Lands : ℕ → Edit → Type 0
Lands n (insert p t) = (p ≤ n) × (is_empty t ≡ false)
Lands n (delete p k) = p + k ≤ n

-- The text that an edit leaves where it lands, and its length.
abbrev pub edited : Text → Edit → Text
edited b (insert p t) = put p t b
edited b (delete p k) = cut p k b

abbrev pub resized : ℕ → Edit → ℕ
resized n (insert p t) = n + length t
resized n (delete p k) = n - k

-- The deletion's range holds the insertion's position strictly inside.
abbrev pub swallows : Edit → Edit → Bool
swallows (delete q m) (insert p t) = ltb q p && ltb p (q + m)
swallows (delete q m) (delete p k) = false
swallows (insert q u) y = false

-- `apply_edit` succeeds exactly on the edits that fit the body, and then leaves the edited text.
pub apply_edit_accepts :
    (b c : Text) (e : Edit) → (apply_edit b e ≡ ok c) ↔ (Fits (length b) e × (c ≡ edited b e))
unfolding apply_edit
apply_edit_accepts b c (insert p t) =
    (λ h. ground (arith, put_lem p t b), λ h. ground (arith, put_lem p t b))
apply_edit_accepts b c (delete p k) =
    (λ h. ground (arith, cut_lem p k b), λ h. ground (arith, cut_lem p k b))

pub apply_non_empty_edit-Lands :
    (b : Text) (e : Edit) → Lands (length b) e → apply_non_empty_edit b e ≡ ok (edited b e)
unfolding apply_non_empty_edit apply_edit
apply_non_empty_edit-Lands b (insert p t) h = ground (arith, put_lem p t b)
apply_non_empty_edit-Lands b (delete p k) h = ground (arith, cut_lem p k b, cut-zero p b)

-- What is known of an edit that was applied: a deletion of nothing may stand anywhere.
abbrev pub Took : ℕ → Edit → Type 0
Took n (insert p t) = (p ≤ n) × (is_empty t ≡ false)
Took n (delete p k) = 0 < k → p + k ≤ n

pub apply_non_empty_edit_accepts :
    (b c : Text) (e : Edit)
    → apply_non_empty_edit b e ≡ ok c
    → Took (length b) e × (length c ≡ resized (length b) e)
unfolding apply_non_empty_edit apply_edit
apply_non_empty_edit_accepts b c (insert p t) h = ground (arith, put_lem p t b, length-put p t b)
apply_non_empty_edit_accepts b c (delete p k) h =
    (λ pos. ground arith, ground (arith, cut_lem p k b, length-cut p k b))

-- An edit that lands before a concurrent one was applied lands after it, once transformed.
pub transform-Lands_after :
    (n : ℕ) (x y : Edit) (wins : Bool)
    → Lands n x
    → Took n y
    → Lands (resized n y) (transform x y wins)
unfolding transform
transform-Lands_after n (insert p t) (insert q u) wins h k = ground arith
transform-Lands_after n (delete p j) (insert q u) wins h k = ground arith
transform-Lands_after n (insert p t) (delete q m) wins h k = ground arith
transform-Lands_after n (delete p j) (delete q m) wins h k = ground arith

pub length-edited :
    (b : Text) (e : Edit) → Lands (length b) e → length (edited b e) ≡ resized (length b) e
length-edited b (insert p t) h = length-put p t b
length-edited b (delete p k) h = omega (arith, length-cut p k b h)

-- An edit that lands before a concurrent one still lands after it, once transformed.
pub transform-Lands :
    (n : ℕ) (x y : Edit) (wins : Bool)
    → Lands n x
    → Lands n y
    → Lands (resized n y) (transform x y wins)
unfolding transform
transform-Lands n (insert p t) (insert q u) wins h k = ground arith
transform-Lands n (delete p j) (insert q u) wins h k = ground arith
transform-Lands n (insert p t) (delete q m) wins h k = ground arith
transform-Lands n (delete p j) (delete q m) wins h k = ground arith

module _ (b : Text) where
  insert_insert :
      (p q : ℕ) (t u : Text) (wins : Bool)
      → p ≤ length b
      → q ≤ length b
      → edited (put p t b) (transform (insert q u) (insert p t) wins)
        ≡ edited (put q u b) (transform (insert p t) (insert q u) (not wins))
  unfolding transform
  insert_insert p q t u wins hp hq = ground (arith, put-put p q t u b, put-put q p u t b)

  insert_delete :
      (p q m : ℕ) (t : Text) (v w : Bool)
      → p ≤ length b
      → q + m ≤ length b
      → (ltb q p && ltb p (q + m)) ≡ false
      → edited (put p t b) (transform (delete q m) (insert p t) v)
        ≡ edited (cut q m b) (transform (insert p t) (delete q m) w)
  unfolding transform
  insert_delete p q m t v w hp hq apart =
      ground (arith, cut-put_right p q m t b, cut-put_left q m (p - (q + m)) t b)

  delete_delete_le :
      (p j q m : ℕ) (v w : Bool)
      → p ≤ q
      → p + j ≤ length b
      → q + m ≤ length b
      → edited (cut p j b) (transform (delete q m) (delete p j) v)
        ≡ edited (cut q m b) (transform (delete p j) (delete q m) w)
  unfolding transform
  delete_delete_le p j q m v w h hp hq = elim (Bool-cases (leb (p + j) q)) [
    | inl apart ↦ ground (arith, cut-cut_apart p j (q - (p + j)) m b)
    | inr meet ↦
        let o = min (p + j) (q + m) - q in
        ground (arith, cut-cut_inside p 0 (m - o) j b, cut-cut_inside p (q - p) (j - o) m b)
  ]

  delete_delete :
      (p j q m : ℕ) (v w : Bool)
      → p + j ≤ length b
      → q + m ≤ length b
      → edited (cut p j b) (transform (delete q m) (delete p j) v)
        ≡ edited (cut q m b) (transform (delete p j) (delete q m) w)
  delete_delete p j q m v w hp hq = elim (Bool-cases (leb p q)) [
    | inl le ↦ delete_delete_le p j q m v w (leb→le p q le) hp hq
    | inr gt ↦ sym (delete_delete_le q m p j w v (ground arith) hq hp)
  ]

  edited_either_order :
      (x y : Edit) (wins : Bool)
      → Lands (length b) x
      → Lands (length b) y
      → swallows x y ≡ false
      → swallows y x ≡ false
      → edited (edited b x) (transform y x wins) ≡ edited (edited b y) (transform x y (not wins))
  edited_either_order (insert p t) (insert q u) w hx hy s r = insert_insert p q t u w hx.0 hy.0
  edited_either_order (insert p t) (delete q m) w hx hy s r =
      insert_delete p q m t w (not w) hx.0 hy r
  edited_either_order (delete p j) (insert q u) w hx hy s r =
      sym (insert_delete q p j u (not w) w hy.0 hx s)
  edited_either_order (delete p j) (delete q m) w hx hy s r = delete_delete p j q m w (not w) hx hy

-- Two edits that fit one body, where neither deletes around the other's insertion, give the same text
-- whichever is applied first, the second transformed against it and the tie-break opposite.
pub transform_converges :
    (b : Text) (x y : Edit) (wins : Bool)
    → Lands (length b) x
    → Lands (length b) y
    → swallows x y ≡ false
    → swallows y x ≡ false
    → (apply_non_empty_edit b x >>= λ c. apply_non_empty_edit c (transform y x wins))
      ≡ (apply_non_empty_edit b y >>= λ c. apply_non_empty_edit c (transform x y (not wins)))
transform_converges b x y w hx hy s r =
    simp (apply_non_empty_edit-Lands b x hx, apply_non_empty_edit-Lands b y hy)
      (cc (
        apply_non_empty_edit-Lands (edited b x) (transform y x w)
            (rw (length-edited b x hx) (transform-Lands (length b) y x w hy hx)),
        apply_non_empty_edit-Lands (edited b y) (transform x y (not w))
            (rw (length-edited b y hy) (transform-Lands (length b) x y (not w) hx hy)),
        edited_either_order b x y w hx hy s r,
      ))

module _ (q m p : ℕ) (t : Text) (w : Bool)
    (inside : swallows (delete q m) (insert p t) ≡ true) where
  swallow_delete : transform (delete q m) (insert p t) w ≡ delete q (m + length t)
  unfolding transform
  swallow_delete = ground arith

  swallow_insert : transform (insert p t) (delete q m) w ≡ insert q t
  unfolding transform
  swallow_insert = ground arith

swallow_text :
    (b : Text) (q m p : ℕ) (t : Text)
    → swallows (delete q m) (insert p t) ≡ true
    → p ≤ length b
    → cut q (m + length t) (put p t b) ≡ cut q m b
swallow_text b q m p t s h =
    let e : p ≡ q + (p - q) = ground arith in
    subst (λ k. cut q (m + length t) (put k t b) ≡ cut q m b) (sym e)
      (cut-put_inside q (p - q) m t b (ground arith) (ground arith))

-- Where a deletion's range holds a concurrent insertion's position strictly inside, the order
-- decides: applied after the insertion, the deletion removes the inserted text too; applied
-- before it, the inserted text survives.
pub transform-swallows :
    (b : Text) (q m p : ℕ) (t : Text) (wins : Bool)
    → Lands (length b) (delete q m)
    → Lands (length b) (insert p t)
    → swallows (delete q m) (insert p t) ≡ true
    → ((apply_non_empty_edit b (insert p t) >>= λ c.
          apply_non_empty_edit c (transform (delete q m) (insert p t) wins))
        ≡ ok (cut q m b))
      × ((apply_non_empty_edit b (delete q m) >>= λ c.
            apply_non_empty_edit c (transform (insert p t) (delete q m) (not wins)))
          ≡ ok (put q t (cut q m b)))
transform-swallows b q m p t w hd hi s = (
  simp (apply_non_empty_edit-Lands b (insert p t) hi, swallow_delete q m p t w s)
      (apply_non_empty_edit-Lands (put p t b) (delete q (m + length t))
          (omega (arith, length-put p t b))
        ∙ ap ok (swallow_text b q m p t s hi.0)),
  simp (apply_non_empty_edit-Lands b (delete q m) hd, swallow_insert q m p t (not w) s)
      (apply_non_empty_edit-Lands (cut q m b) (insert q t)
        (omega (arith, length-cut q m b hd), hi.1)),
)
