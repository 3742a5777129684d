-- ===== src/Queue/Tombstones.antt =====
-- Completed rows of ai_work_queue.py under a step relation of all transactions on the table.
pub mod Final
use littleorbit.Prelude.{
  ℕ, ◌≡◌, ◌≢◌, refl, ap, ◌∙◌, subst, Bool, true, false, not, ◌&&◌, ◌||◌, none, some, List, [], ◌∷◌,
  ◌++◌, ◌==◌, is_some, is_none, arith, Bool-cases, Option-cases, inl, inr,
}
use littleorbit.Queue.{
  AiWorkItem, AiWorkLease, Claim, is_waiting, oldest, earlier, latest_activity, is_within,
  is_leased, comes_before, is_due, update_row, claimed, claim_row, claim_due_work, defer_row,
  defer_due_work, update_held, fenced_update, heartbeat_work, complete_work, retry_work, is_taken,
  insert_new,
}
use littleorbit.Queue.Claims.{claim_due_work-Takes}

-- One transaction on the table.
pub data Step : List AiWorkItem → List AiWorkItem → Type 0 where
  claim : (c : Claim) (items : List AiWorkItem) → Step items (claim_due_work c items).1
  defer :
      (locked : ℕ → Bool) (now retry_after : ℕ) (items : List AiWorkItem)
      → Step items (defer_due_work locked now retry_after items).1
  heartbeat :
      (lease : AiWorkLease) (now : ℕ) (items : List AiWorkItem)
      → Step items (heartbeat_work lease now items).1
  complete :
      (lease : AiWorkLease) (now : ℕ) (items : List AiWorkItem)
      → Step items (complete_work lease now items).1
  retry :
      (lease : AiWorkLease) (now retry_after : ℕ) (items : List AiWorkItem)
      → Step items (retry_work lease now retry_after items).1
  enqueue : (a : AiWorkItem) (items : List AiWorkItem) → Step items (insert_new a items)

pub data Steps : List AiWorkItem → List AiWorkItem → Type 0 where
  done : (items : List AiWorkItem) → Steps items items
  next : (a b c : List AiWorkItem) → Step a b → Steps b c → Steps a c

-- The table has a row of this id, and each is done.
abbrev pub is_done : ℕ → AiWorkItem → Bool
is_done k r = not (r.id == k) || is_none r.next_attempt_at && is_none r.lease_token

pub all_done : ℕ → List AiWorkItem → Bool
all_done k [] = true
all_done k (r ∷ rs) = is_done k r && all_done k rs

unfoldable pub has_id : ℕ → List AiWorkItem → Bool
has_id k [] = false
has_id k (r ∷ rs) = r.id == k || has_id k rs

abbrev pub IsTombstone : ℕ → List AiWorkItem → Type 0
IsTombstone k items = (has_id k items ≡ true) × (all_done k items ≡ true)

-- No two rows have one id.
abbrev pub IsKeyed : List AiWorkItem → Type 0
IsKeyed [] = Unit {0}
IsKeyed (r ∷ rs) = (has_id r.id rs ≡ false) × IsKeyed rs

module _ (k : ℕ) where
  head_or_tail :
      (locked : ℕ → Bool) (q r s : AiWorkItem)
      → is_done k q ≡ true
      → is_waiting locked q ≡ true
      → (s.id == k) ≡ false
      → earlier q (some s) ≡ some r
      → (r.id == k) ≡ false
  head_or_tail locked q r s d w e h = elim (Bool-cases (comes_before s q)) [
    | inl first ↦ let i : s ≡ r = ground arith in subst (λ x. (x.id == k) ≡ false) i e
    | inr after ↦ let i : q ≡ r = ground arith in subst (λ x. (x.id == k) ≡ false) i (ground arith)
  ]

  pub all_done-oldest :
      (locked : ℕ → Bool) (items : List AiWorkItem) (r : AiWorkItem)
      → all_done k items ≡ true
      → oldest locked items ≡ some r
      → (r.id == k) ≡ false
  unfolding all_done oldest
  all_done-oldest locked [] r d o = absurd (ground arith)
  all_done-oldest locked (q ∷ qs) r d o = elim (Option-cases (oldest locked qs)) [
    | inl nothing ↦ ground arith
    | inr (s, os) ↦
        let rest = all_done-oldest locked qs s (ground arith) os in
        elim (Bool-cases (is_waiting locked q)) [
          | inl w ↦ head_or_tail locked q r s (ground arith) w rest (ground arith)
          | inr n ↦ let e : s ≡ r = ground arith in subst (λ x. (x.id == k) ≡ false) e rest
        ]
  ]

  all_done-update_row :
      (j : ℕ) (f : AiWorkItem → AiWorkItem) (items : List AiWorkItem)
      → ((r : AiWorkItem) → (f r).id ≡ r.id)
      → (j == k) ≡ false
      → all_done k items ≡ true
      → (all_done k (update_row j f items) ≡ true)
        × (has_id k (update_row j f items) ≡ has_id k items)
  unfolding all_done has_id update_row
  all_done-update_row j f [] fid ne d = (refl, refl)
  all_done-update_row j f (q ∷ qs) fid ne d = ground (arith, fid q, all_done-update_row j f qs fid)

  all_done-update_held :
      (lease : AiWorkLease) (f : AiWorkItem → AiWorkItem) (items : List AiWorkItem)
      → ((r : AiWorkItem) → (f r).id ≡ r.id)
      → (all_done k items ≡ true)
      → (all_done k (update_held lease f items).1 ≡ true)
        × (has_id k (update_held lease f items).1 ≡ has_id k items)
  unfolding all_done has_id update_held
  all_done-update_held lease f [] fid d = (refl, refl)
  all_done-update_held lease f (q ∷ qs) fid d =
      ground (arith, fid q, all_done-update_held lease f qs fid)

  held-IsTombstone :
      (lease : AiWorkLease) (f : AiWorkItem → AiWorkItem) (items : List AiWorkItem)
      → ((r : AiWorkItem) → (f r).id ≡ r.id)
      → IsTombstone k items
      → IsTombstone k (update_held lease f items).1
  held-IsTombstone lease f items fid h =
      let (d, e) = all_done-update_held lease f items fid h.1 in (e ∙ h.0, d)

  has_id-is_taken :
      (a : AiWorkItem) (items : List AiWorkItem)
      → (a.id == k) ≡ true
      → has_id k items ≡ true
      → is_taken a items ≡ true
  unfolding has_id is_taken
  has_id-is_taken a [] e h = absurd (ground arith)
  has_id-is_taken a (q ∷ qs) e h = ground (arith, has_id-is_taken a qs e)

  all_done-snoc :
      (a : AiWorkItem) (items : List AiWorkItem)
      → (a.id == k) ≡ false
      → all_done k items ≡ true
      → (all_done k (items ++ a ∷ []) ≡ true) × (has_id k (items ++ a ∷ []) ≡ has_id k items)
  unfolding has_id all_done
  all_done-snoc a [] e d = ground arith
  all_done-snoc a (q ∷ qs) e d = ground (arith, all_done-snoc a qs e)

  row-IsTombstone :
      (locked : ℕ → Bool) (r : AiWorkItem) (f : AiWorkItem → AiWorkItem) (items : List AiWorkItem)
      → ((q : AiWorkItem) → (f q).id ≡ q.id)
      → oldest locked items ≡ some r
      → IsTombstone k items
      → IsTombstone k (update_row r.id f items)
  row-IsTombstone locked r f items fid o h =
      let (d, e) =
        all_done-update_row r.id f items fid (all_done-oldest locked items r h.1 o) h.1 in
      (e ∙ h.0, d)

  claim-IsTombstone :
      (c : Claim) (items : List AiWorkItem)
      → IsTombstone k items
      → IsTombstone k (claim_due_work c items).1
  unfolding claim_due_work claim_row
  claim-IsTombstone c items h =
      elim (Bool-cases (is_within c.now c.minimum_gap (latest_activity items))) [
        | inl busy ↦ rw busy h
        | inr free ↦ rw free (elim (Option-cases (oldest c.locked items)) [
          | inl nothing ↦ rw nothing h
          | inr (r, o) ↦
              rw o (elim (Bool-cases (not (is_due c.now r) || is_leased c.now c.stale_after r)) [
                | inl kept ↦ rw kept h
                | inr taken ↦
                    rw taken
                      (row-IsTombstone c.locked r (claimed c.now c.token) items (λ q. refl) o h)
              ])
        ])
      ]

  defer-IsTombstone :
      (locked : ℕ → Bool) (now retry_after : ℕ) (items : List AiWorkItem)
      → IsTombstone k items
      → IsTombstone k (defer_due_work locked now retry_after items).1
  unfolding defer_due_work defer_row
  defer-IsTombstone locked now retry_after items h = elim (Option-cases (oldest locked items)) [
    | inl nothing ↦ rw nothing h
    | inr (r, o) ↦ rw o (elim (Bool-cases (not (is_due now r) || is_some r.lease_token)) [
      | inl kept ↦ rw kept h
      | inr taken ↦ rw taken (row-IsTombstone locked r _ items (λ q. refl) o h)
    ])
  ]

  enqueue-IsTombstone :
      (a : AiWorkItem) (items : List AiWorkItem)
      → IsTombstone k items
      → IsTombstone k (insert_new a items)
  unfolding insert_new
  enqueue-IsTombstone a items h = elim (Bool-cases (a.id == k)) [
    | inl same ↦ rw (has_id-is_taken a items same h.0) h
    | inr other ↦ elim (Bool-cases (is_taken a items)) [
      | inl taken ↦ rw taken h
      | inr free ↦ rw free (let (d, e) = all_done-snoc a items other h.1 in (e ∙ h.0, d))
    ]
  ]

  Step-IsTombstone : (a b : List AiWorkItem) → Step a b → IsTombstone k a → IsTombstone k b
  unfolding heartbeat_work complete_work retry_work fenced_update
  Step-IsTombstone _ _ (claim c items) h = claim-IsTombstone c items h
  Step-IsTombstone _ _ (defer locked now retry_after items) h =
      defer-IsTombstone locked now retry_after items h
  Step-IsTombstone _ _ (heartbeat lease now items) h = held-IsTombstone lease _ items (λ r. refl) h
  Step-IsTombstone _ _ (complete lease now items) h = held-IsTombstone lease _ items (λ r. refl) h
  Step-IsTombstone _ _ (retry lease now retry_after items) h =
      held-IsTombstone lease _ items (λ r. refl) h
  Step-IsTombstone _ _ (enqueue a items) h = enqueue-IsTombstone a items h

  pub Steps-IsTombstone : (a b : List AiWorkItem) → Steps a b → IsTombstone k a → IsTombstone k b
  Steps-IsTombstone _ _ (done items) h = h
  Steps-IsTombstone _ _ (next a b c s ss) h = Steps-IsTombstone b c ss (Step-IsTombstone a b s h)
