-- ===== src/Note/Slices.antt =====
-- Insertion and deletion by position, and how they commute. (For the slices of domain/notes.py.)
use littleorbit.Prelude.{
  ℕ, zero, suc, ◌+◌, ◌≤◌, ◌≡◌, refl, ap, List, [], ◌∷◌, ◌++◌, length, take, drop, arith,
  length-append, length-drop,
}

-- The sums below are stuck at a successor: these turn them into one.
pub suc-add : (p n : ℕ) → suc p + n ≡ suc (p + n)
suc-add p n = omega arith

pub add-suc' : (p n : ℕ) → p + suc n ≡ suc (p + n)
add-suc' p n = omega arith

zero-add' : (n : ℕ) → 0 + n ≡ n
zero-add' n = omega arith

module _ {ℓ} {A : Type ℓ} where
  -- body[:p] + t + body[p:]
  pub put : ℕ → List A → List A → List A
  put zero t b = t ++ b
  put (suc p) t [] = t
  put (suc p) t (x ∷ b) = x ∷ put p t b

  -- body[:p] + body[p+n:]
  pub cut : ℕ → ℕ → List A → List A
  cut zero n b = drop n b
  cut (suc p) n [] = []
  cut (suc p) n (x ∷ b) = x ∷ cut p n b

module _ {ℓ} {A : Type ℓ} where
  append-nil' : (t : List A) → t ++ [] ≡ t
  append-nil' [] = refl
  append-nil' (x ∷ t) = ap (◌∷◌ x) (append-nil' t)

  pub put_lem : (p : ℕ) (t b : List A) → take p b ++ (t ++ drop p b) ≡ put p t b
  unfolding put
  put_lem zero t b = refl
  put_lem (suc p) t [] = append-nil' t
  put_lem (suc p) t (x ∷ b) = ap (◌∷◌ x) (put_lem p t b)

  pub cut_lem : (p n : ℕ) (b : List A) → take p b ++ drop (p + n) b ≡ cut p n b
  unfolding cut
  cut_lem zero n b = rw zero-add'
  cut_lem (suc p) n [] = rw suc-add
  cut_lem (suc p) n (x ∷ b) = rw suc-add (ap (◌∷◌ x) (cut_lem p n b))

  pub length-put : (p : ℕ) (t b : List A) → length (put p t b) ≡ length b + length t
  unfolding put
  length-put zero t b = omega (arith, length-append {ℓ} t b)
  length-put (suc p) t [] = omega arith
  length-put (suc p) t (x ∷ b) = omega (arith, length-put p t b)

  pub length-cut : (p n : ℕ) (b : List A) → p + n ≤ length b → length (cut p n b) + n ≡ length b
  unfolding cut
  length-cut zero n b h = omega (arith, length-drop {ℓ} n b)
  length-cut (suc p) n [] h = absurd (omega arith)
  length-cut (suc p) n (x ∷ b) h = omega (arith, length-cut p n b)

module _ {ℓ} {A : Type ℓ} where
  put-append : (q : ℕ) (t u b : List A) → put (q + length t) u (t ++ b) ≡ t ++ put q u b
  unfolding put
  put-append q [] u b = let e : q + 0 ≡ q = omega arith in rw e
  put-append q (x ∷ t) u b = rw add-suc' (ap (◌∷◌ x) (put-append q t u b))

  -- Two insertions, the second further right, commute with a shift.
  pub put-put :
      (p q : ℕ) (t u b : List A)
      → p ≤ q
      → q ≤ length b
      → put (q + length t) u (put p t b) ≡ put p t (put q u b)
  unfolding put
  put-put zero q t u b h k = put-append q t u b
  put-put (suc p) zero t u b h k = absurd (omega arith)
  put-put (suc p) (suc q) t u [] h k = absurd (omega arith)
  put-put (suc p) (suc q) t u (x ∷ b) h k =
      rw suc-add (ap (◌∷◌ x) (put-put p q t u b (omega arith) (omega arith)))

  cut-append : (q n : ℕ) (t b : List A) → cut (q + length t) n (t ++ b) ≡ t ++ cut q n b
  unfolding cut
  cut-append q n [] b = let e : q + 0 ≡ q = omega arith in rw e
  cut-append q n (x ∷ t) b = rw add-suc' (ap (◌∷◌ x) (cut-append q n t b))

  -- A deletion at or right of an insertion moves by what was inserted.
  pub cut-put_right :
      (p q n : ℕ) (t b : List A)
      → p ≤ q
      → q ≤ length b
      → cut (q + length t) n (put p t b) ≡ put p t (cut q n b)
  unfolding put cut
  cut-put_right zero q n t b h k = cut-append q n t b
  cut-put_right (suc p) zero n t b h k = absurd (omega arith)
  cut-put_right (suc p) (suc q) n t [] h k = absurd (omega arith)
  cut-put_right (suc p) (suc q) n t (x ∷ b) h k =
      rw suc-add (ap (◌∷◌ x) (cut-put_right p q n t b (omega arith) (omega arith)))

  drop-put :
      (n d : ℕ) (t b : List A) → n + d ≤ length b → drop n (put (n + d) t b) ≡ put d t (drop n b)
  unfolding put
  drop-put zero d t b h = rw zero-add'
  drop-put (suc n) d t [] h = absurd (omega arith)
  drop-put (suc n) d t (x ∷ b) h = rw suc-add (drop-put n d t b (omega arith))

  -- A deletion that ends at or before an insertion moves the insertion back.
  pub cut-put_left :
      (q n d : ℕ) (t b : List A)
      → q + n + d ≤ length b
      → cut q n (put (q + n + d) t b) ≡ put (q + d) t (cut q n b)
  unfolding put cut
  cut-put_left zero n d t b h = simp zero-add' (drop-put n d t b (omega arith))
  cut-put_left (suc q) n d t [] h = absurd (omega arith)
  cut-put_left (suc q) n d t (x ∷ b) h =
      simp suc-add (ap (◌∷◌ x) (cut-put_left q n d t b (omega arith)))

  drop-cut :
      (m d n : ℕ) (b : List A) → m + d ≤ length b → drop m (cut (m + d) n b) ≡ cut d n (drop m b)
  unfolding cut
  drop-cut zero d n b h = rw zero-add'
  drop-cut (suc m) d n [] h = absurd (omega arith)
  drop-cut (suc m) d n (x ∷ b) h = rw suc-add (drop-cut m d n b (omega arith))

  -- Two disjoint deletions commute with a shift.
  pub cut-cut_apart :
      (q m d n : ℕ) (b : List A)
      → q + m + d ≤ length b
      → cut q m (cut (q + m + d) n b) ≡ cut (q + d) n (cut q m b)
  unfolding cut
  cut-cut_apart zero m d n b h = simp zero-add' (drop-cut m d n b (omega arith))
  cut-cut_apart (suc q) m d n [] h = absurd (omega arith)
  cut-cut_apart (suc q) m d n (x ∷ b) h =
      simp suc-add (ap (◌∷◌ x) (cut-cut_apart q m d n b (omega arith)))

  drop-drop : (k m : ℕ) (b : List A) → drop k (drop m b) ≡ drop (k + m) b
  drop-drop k zero b = let e : k + 0 ≡ k = omega arith in rw e
  drop-drop zero (suc m) [] = rw zero-add'
  drop-drop (suc k) (suc m) [] = rw suc-add
  drop-drop k (suc m) (x ∷ b) = rw add-suc' (drop-drop k m b)

  drop-cut_inside : (d k m : ℕ) (b : List A) → d ≤ k → drop k (cut d m b) ≡ drop (k + m) b
  unfolding cut
  drop-cut_inside zero k m b h = drop-drop k m b
  drop-cut_inside (suc d) zero m b h = absurd (omega arith)
  drop-cut_inside (suc d) (suc k) m [] h = rw suc-add
  drop-cut_inside (suc d) (suc k) m (x ∷ b) h = rw suc-add (drop-cut_inside d k m b (omega arith))

  -- Deleting around an earlier deletion deletes both ranges.
  pub cut-cut_inside :
      (p d k m : ℕ) (b : List A) → d ≤ k → cut p k (cut (p + d) m b) ≡ cut p (k + m) b
  unfolding cut
  cut-cut_inside zero d k m b h = simp zero-add' (drop-cut_inside d k m b h)
  cut-cut_inside (suc p) d k m [] h = rw suc-add
  cut-cut_inside (suc p) d k m (x ∷ b) h = simp suc-add (ap (◌∷◌ x) (cut-cut_inside p d k m b h))

  drop-append : (k : ℕ) (t b : List A) → drop (k + length t) (t ++ b) ≡ drop k b
  drop-append k [] b = let e : k + 0 ≡ k = omega arith in rw e
  drop-append k (x ∷ t) b = rw add-suc' (drop-append k t b)

  -- Deleting around an insertion deletes the inserted text with it.
  drop-put_inside :
      (d k : ℕ) (t b : List A) → d ≤ k → d ≤ length b → drop (k + length t) (put d t b) ≡ drop k b
  unfolding put
  drop-put_inside zero k t b h l = drop-append k t b
  drop-put_inside (suc d) zero t b h l = absurd (omega arith)
  drop-put_inside (suc d) (suc k) t [] h l = absurd (omega arith)
  drop-put_inside (suc d) (suc k) t (x ∷ b) h l =
      rw suc-add (drop-put_inside d k t b (omega arith) (omega arith))

  pub cut-put_inside :
      (p d k : ℕ) (t b : List A)
      → d ≤ k
      → p + d ≤ length b
      → cut p (k + length t) (put (p + d) t b) ≡ cut p k b
  unfolding put cut
  cut-put_inside zero d k t b h l = simp zero-add' (drop-put_inside d k t b h (omega arith))
  cut-put_inside (suc p) d k t [] h l = absurd (omega arith)
  cut-put_inside (suc p) d k t (x ∷ b) h l =
      simp suc-add (ap (◌∷◌ x) (cut-put_inside p d k t b h (omega arith)))

  pub cut-zero : (p : ℕ) (b : List A) → cut p 0 b ≡ b
  unfolding cut
  cut-zero zero b = refl
  cut-zero (suc p) [] = refl
  cut-zero (suc p) (x ∷ b) = ap (◌∷◌ x) (cut-zero p b)
