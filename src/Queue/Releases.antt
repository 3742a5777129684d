-- ===== src/Queue/Releases.antt =====
-- What complete_work and retry_work of ai_work_queue.py leave of a lease.
use littleorbit.Prelude.{
  ℕ, ◌≡◌, refl, Bool, false, ◌||◌, List, [], ◌∷◌, arith, Bool-cases, inl, inr,
}
use littleorbit.Queue.{
  AiWorkItem, AiWorkLease, holds, update_held, fenced_update, complete_work, retry_work,
}

-- Some row is leased under the lease's token.
unfoldable pub any_holds : AiWorkLease → List AiWorkItem → Bool
any_holds lease [] = false
any_holds lease (r ∷ rs) = holds lease r || any_holds lease rs

update_held-releases :
    (lease : AiWorkLease) (f : AiWorkItem → AiWorkItem) (items : List AiWorkItem)
    → ((r : AiWorkItem) → holds lease (f r) ≡ false)
    → any_holds lease (update_held lease f items).1 ≡ false
unfolding any_holds update_held
update_held-releases lease f [] h = refl
update_held-releases lease f (r ∷ rs) h = elim (Bool-cases (holds lease r)) [
  | inl held ↦ rw (held, h r) (update_held-releases lease f rs h)
  | inr free ↦ rw (free, free) (update_held-releases lease f rs h)
]

pub any_holds-retry_work :
    (lease : AiWorkLease) (now retry_after : ℕ) (items : List AiWorkItem)
    → any_holds lease (retry_work lease now retry_after items).1 ≡ false
unfolding retry_work fenced_update
any_holds-retry_work lease now retry_after items =
    update_held-releases lease _ items (λ r. ground arith)

pub any_holds-complete_work :
    (lease : AiWorkLease) (now : ℕ) (items : List AiWorkItem)
    → any_holds lease (complete_work lease now items).1 ≡ false
unfolding complete_work fenced_update
any_holds-complete_work lease now items = update_held-releases lease _ items (λ r. ground arith)

update_held-free :
    (lease : AiWorkLease) (f : AiWorkItem → AiWorkItem) (items : List AiWorkItem)
    → any_holds lease items ≡ false
    → (update_held lease f items).1 ≡ items
unfolding any_holds update_held
update_held-free lease f [] h = refl
update_held-free lease f (r ∷ rs) h = ground (arith, update_held-free lease f rs)

-- Without a row under the lease there is nothing to put back.
pub retry_work-free :
    (lease : AiWorkLease) (now retry_after : ℕ) (items : List AiWorkItem)
    → any_holds lease items ≡ false
    → (retry_work lease now retry_after items).1 ≡ items
unfolding retry_work fenced_update
retry_work-free lease now retry_after items h = update_held-free lease _ items h
