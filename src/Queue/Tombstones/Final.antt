-- ===== src/Queue/Tombstones/Final.antt =====
-- What complete_work of ai_work_queue.py settles for good.
use littleorbit.Prelude.{
  ℕ, ◌≡◌, ◌≢◌, refl, ap, subst, Bool, true, false, none, some, List, [], ◌∷◌, ◌==◌, arith,
  Bool-cases, inl, inr,
}
use littleorbit.Queue.{
  AiWorkItem, AiWorkLease, Claim, claim_due_work, update_held, fenced_update, complete_work,
}
use littleorbit.Queue.Tombstones.{
  Steps, is_done, all_done, has_id, IsTombstone, IsKeyed, all_done-oldest, Steps-IsTombstone,
}
use littleorbit.Queue.Claims.{claim_due_work-Takes}

-- A completed row is done; the rows of other ids are as they were.
complete-none :
    (lease : AiWorkLease) (f : AiWorkItem → AiWorkItem) (items : List AiWorkItem)
    → has_id lease.id items ≡ false
    → (update_held lease f items ≡ (0, items)) × (all_done lease.id items ≡ true)
unfolding has_id all_done update_held
complete-none lease f [] h = (refl, refl)
complete-none lease f (q ∷ qs) h = ground (arith, complete-none lease f qs)

completes :
    (lease : AiWorkLease) (f : AiWorkItem → AiWorkItem) (items : List AiWorkItem)
    → ((r : AiWorkItem) → ((f r).id ≡ r.id) × (is_done lease.id (f r) ≡ true))
    → IsKeyed items
    → (update_held lease f items).0 ≡ 1
    → IsTombstone lease.id (update_held lease f items).1
unfolding update_held has_id all_done
completes lease f [] fd keyed one = absurd (ground arith)
completes lease f (q ∷ qs) fd keyed one = elim (Bool-cases (q.id == lease.id)) [
  | inl same ↦
      let e : q.id ≡ lease.id = ground arith in
      let (n, d) = complete-none lease f qs (subst (λ i. has_id i qs ≡ false) e keyed.0) in
      ground (arith, fd q)
  | inr other ↦ ground (arith, completes lease f qs fd keyed.1)
]

-- Where no two rows have one id: once a row is completed, no sequence of transactions, enqueueing it again included, leads to a
-- claim of it.
pub complete_work_final :
    (lease again : AiWorkLease) (now : ℕ) (c : Claim) (items items' later last : List AiWorkItem)
    → IsKeyed items
    → complete_work lease now items ≡ (true, items')
    → Steps items' later
    → claim_due_work c later ≡ (some again, last)
    → again.id ≢ lease.id
unfolding complete_work fenced_update
complete_work_final lease again now c items items' later last keyed run steps claims same =
    let e : (update_held lease
          (λ r. record r { next_attempt_at = none; lease_token = none; heartbeat_at = some now })
          items).1
        ≡ items' =
      ap (λ (x : Bool × List AiWorkItem). x.1) run in
    let one : (update_held lease
          (λ r. record r { next_attempt_at = none; lease_token = none; heartbeat_at = some now })
          items).0
        ≡ 1 =
      ground (arith, ap (λ (x : Bool × List AiWorkItem). x.0) run) in
    let t = completes lease _ items (λ r. (refl, ground arith)) keyed one in
    let t' = subst (IsTombstone lease.id) e t in
    let (r, o, (due, free, l, u)) = claim_due_work-Takes c later last again claims in
    let d =
      all_done-oldest lease.id c.locked later r (Steps-IsTombstone lease.id _ _ steps t').1 o in
    absurd (ground arith)
