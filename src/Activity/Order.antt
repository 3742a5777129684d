-- ===== src/Activity/Order.antt =====
-- The order of the events that record_activity of activity_service.py writes, and its retries.
use littleorbit.Prelude.{
  ℕ, max, ◌≡◌, Bool, true, false, ◌&&◌, List, [], ◌∷◌, ◌++◌, ◌==◌, ◌<◌, arith, if◌then◌else◌, inl,
  inr, Bool-cases, text_eq, text_eq_refl, All, keep, All-keep, Text,
}
use littleorbit.Activity.{
  Event, Entry, Timeline, is_recorded, last_sequence, new_event, record_activity, purge_activity,
}

pub is_recorded-append :
    (c : ℕ) (k : Text) (e : Event) (es : List Event)
    → is_recorded c k (es ++ e ∷ [])
      ≡ (if is_recorded c k es then true else e.couple_id == c && text_eq e.dedupe_key k)
unfolding is_recorded
is_recorded-append c k e [] = ground arith
is_recorded-append c k e (x ∷ es) = ground (arith, is_recorded-append c k e es)

pub last_sequence-append :
    (c : ℕ) (e : Event) (es : List Event)
    → last_sequence c (es ++ e ∷ [])
      ≡ max (last_sequence c es) (if e.couple_id == c then e.sequence else 0)
unfolding last_sequence
last_sequence-append c e [] = ground arith
last_sequence-append c e (x ∷ es) = ground (arith, last_sequence-append c e es)

-- Every later event of the same couple has a larger sequence number.
abbrev pub Precedes : Event → Event → Type 0
Precedes e f = e.couple_id ≡ f.couple_id → e.sequence < f.sequence

abbrev pub Ascends : List Event → Type 0
Ascends [] = Unit {0}
Ascends (e ∷ es) = All (Precedes e) es × Ascends es

Precedes-snoc :
    (x e : Event) (es : List Event)
    → Precedes x e
    → All (Precedes x) es
    → All (Precedes x) (es ++ e ∷ [])
Precedes-snoc x e [] p h = (p, tt)
Precedes-snoc x e (y ∷ es) p h = (h.0, Precedes-snoc x e es p h.1)

Ascends-snoc :
    (e : Event) (es : List Event)
    → last_sequence e.couple_id es < e.sequence
    → Ascends es
    → Ascends (es ++ e ∷ [])
unfolding last_sequence
Ascends-snoc e [] h a = (tt, tt)
Ascends-snoc e (x ∷ es) h a =
    (Precedes-snoc x e es (λ c. ground arith) a.0, Ascends-snoc e es (ground arith) a.1)

Ascends-keep : (p : Event → Bool) (es : List Event) → Ascends es → Ascends (keep p es)
Ascends-keep p [] h = h
Ascends-keep p (x ∷ es) h = go (p x) (All-keep (Precedes x) p es h.0) (Ascends-keep p es h.1)
  where
    go :
        (b : Bool)
        → All (Precedes x) (keep p es)
        → Ascends (keep p es)
        → Ascends (if b then x ∷ keep p es else keep p es)
    go true a r = (a, r)
    go false a r = r

-- `record_activity` keeps the sequence numbers of every couple strictly growing along the table.
pub record_activity-Ascends :
    (a : Entry) (es : List Event) → Ascends es → Ascends (record_activity a es)
unfolding record_activity
record_activity-Ascends a es h = elim (Bool-cases (is_recorded a.couple_id a.dedupe_key es)) [
  | inl old ↦ rw old h
  | inr new ↦ rw new (Ascends-snoc (new_event a es) es (omega arith) h)
]

-- The purge keeps them so too.
pub purge_activity-Ascends :
    (now : ℕ) (t : Timeline) → Ascends t.events → Ascends (purge_activity now t).events
unfolding purge_activity
purge_activity-Ascends now t h = Ascends-keep _ t.events h

-- Recording twice under one key is recording once, whatever the second call's other arguments.
pub record_activity_idem :
    (a b : Entry) (es : List Event)
    → a.couple_id ≡ b.couple_id
    → a.dedupe_key ≡ b.dedupe_key
    → record_activity b (record_activity a es) ≡ record_activity a es
unfolding record_activity
record_activity_idem a b es hc hk = ground (
  arith,
  is_recorded-append a.couple_id a.dedupe_key (new_event a es) es,
  text_eq_refl a.dedupe_key,
)
