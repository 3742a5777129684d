-- ===== src/Throttle/Limits.antt =====
-- The laws of _consume_rule and _consume_rules of rate_limit.py.
use littleorbit.Prelude.{
  ℕ, ◌+◌, ◌-◌, min, ◌≡◌, ◌<◌, refl, true, false, Option, none, some, List, [], ◌∷◌, if◌then◌else◌,
  Text, text_eq, text_eq_refl, text_eq_sound, keep, arith, All, length, Bool-cases, inl, inr, ap,
  sym, ◌∙◌, subst,
}
use littleorbit.Throttle.{
  RateLimitRule, RateLimitDecision, RateLimitBucket, is_expired, purge_scope, is_key, counted,
  new_bucket, upsert, consume_rule, consume_rules, request_rules,
}

unfoldable pub find_bucket : Text → ℕ → List RateLimitBucket → Option RateLimitBucket
find_bucket s h [] = none
find_bucket s h (b ∷ bs) = if is_key s h b then some b else find_bucket s h bs

find_bucket-purge_scope :
    (rule : RateLimitRule) (h now : ℕ) (b : RateLimitBucket) (bs : List RateLimitBucket)
    → find_bucket rule.scope h bs ≡ some b
    → now < b.window_started_at + rule.window
    → find_bucket rule.scope h (purge_scope rule now bs) ≡ some b
unfolding find_bucket purge_scope
find_bucket-purge_scope rule h now b [] f l = absurd (ground arith)
find_bucket-purge_scope rule h now b (c ∷ cs) f l = elim (Bool-cases (is_key rule.scope h c)) [
  | inl k ↦
      let e : c ≡ b = ground arith in
      let live : is_expired rule now c ≡ false =
        ground (arith, ap (λ (x : RateLimitBucket). x.window_started_at) e) in
      rw live (rw k (ap some e))
  | inr k ↦ elim (Bool-cases (is_expired rule now c)) [
    | inl gone ↦ rw gone (find_bucket-purge_scope rule h now b cs (ground arith) l)
    | inr live ↦ rw live (rw k (find_bucket-purge_scope rule h now b cs (ground arith) l))
  ]
]

find_bucket-purged :
    (rule : RateLimitRule) (h now : ℕ) (bs : List RateLimitBucket)
    → find_bucket rule.scope h bs ≡ none
    → find_bucket rule.scope h (purge_scope rule now bs) ≡ none
unfolding find_bucket purge_scope
find_bucket-purged rule h now [] f = refl
find_bucket-purged rule h now (c ∷ cs) f = ground (arith, find_bucket-purged rule h now cs)

upsert-found :
    (rule : RateLimitRule) (h now : ℕ) (b : RateLimitBucket) (bs : List RateLimitBucket)
    → find_bucket rule.scope h bs ≡ some b
    → ((upsert rule h now bs).0 ≡ min (b.count + 1) (rule.limit + 1))
      × (find_bucket rule.scope h (upsert rule h now bs).1 ≡ some (counted rule now b))
unfolding find_bucket upsert
upsert-found rule h now b [] f = absurd (ground arith)
upsert-found rule h now b (c ∷ cs) f = elim (Bool-cases (is_key rule.scope h c)) [
  | inl k ↦
      let e : c ≡ b = ground arith in
      rw k (
        ap (λ (x : RateLimitBucket). min (x.count + 1) (rule.limit + 1)) e,
        rw k (ap (λ x. some (counted rule now x)) e),
      )
  | inr k ↦ ground (arith, upsert-found rule h now b cs)
]

upsert-missing :
    (rule : RateLimitRule) (h now : ℕ) (bs : List RateLimitBucket)
    → find_bucket rule.scope h bs ≡ none
    → ((upsert rule h now bs).0 ≡ 1)
      × (find_bucket rule.scope h (upsert rule h now bs).1 ≡ some (new_bucket rule h now))
unfolding find_bucket upsert
upsert-missing rule h now [] f = ground (arith, text_eq_refl rule.scope)
upsert-missing rule h now (c ∷ cs) f = ground (arith, upsert-missing rule h now cs)

module _ (hash_token : Text → Text → ℕ) where
  -- How many of the requests at the times `ts` the rule allows, one after another.
  abbrev pub granted : RateLimitRule → List ℕ → List RateLimitBucket → ℕ
  granted rule [] bs = 0
  granted rule (t ∷ ts) bs =
      let x = consume_rule hash_token rule t bs in (if x.0 then 1 else 0) + granted rule ts x.1

  -- After `b.count` requests of the window, what is left of the limit is granted.
  granted-left :
      (rule : RateLimitRule) (ts : List ℕ) (b : RateLimitBucket) (bs : List RateLimitBucket)
      → find_bucket rule.scope (hash_token rule.scope rule.subject) bs ≡ some b
      → All (λ t. t < b.window_started_at + rule.window) ts
      → granted rule ts bs ≡ min (length ts) (rule.limit - b.count)
  unfolding consume_rule
  granted-left rule [] b bs f l = omega arith
  granted-left rule (t ∷ ts) b bs f l =
      let h = hash_token rule.scope rule.subject in
      let p = find_bucket-purge_scope rule h t b bs f l.0 in
      let (n, f') = upsert-found rule h t b (purge_scope rule t bs) p in
      let rest =
        granted-left rule ts (counted rule t b) (upsert rule h t (purge_scope rule t bs)).1 f'
          l.1 in
      rw n (ground (arith, rest))

  -- Of any number of requests of one subject within a window, whose first opens it, the rule grants
  -- exactly as many as its limit, or all if they are fewer.
  pub consume_rule_limit :
      (rule : RateLimitRule) (t : ℕ) (ts : List ℕ) (bs : List RateLimitBucket)
      → find_bucket rule.scope (hash_token rule.scope rule.subject) bs ≡ none
      → All (λ u. u < t + rule.window) ts
      → granted rule (t ∷ ts) bs ≡ min (length (t ∷ ts)) rule.limit
  unfolding consume_rule
  consume_rule_limit rule t ts bs f l =
      let h = hash_token rule.scope rule.subject in
      let p = find_bucket-purged rule h t bs f in
      let (n, f') = upsert-missing rule h t (purge_scope rule t bs) p in
      let rest =
        granted-left rule ts (new_bucket rule h t) (upsert rule h t (purge_scope rule t bs)).1 f'
          l in
      rw n (ground (arith, rest))

apart : (a s r : Text) → text_eq a s ≡ true → text_eq r s ≡ false → text_eq a r ≡ false
apart a s r e ne = elim (Bool-cases (text_eq a r)) [
  | inl same ↦
      let i : s ≡ r = sym (text_eq_sound a s e) ∙ text_eq_sound a r same in
      absurd (ground (arith, subst (λ x. text_eq r x ≡ true) (sym i) (text_eq_refl r)))
  | inr other ↦ other
]

-- The rows of one scope.
abbrev pub of_scope : Text → List RateLimitBucket → List RateLimitBucket
of_scope s bs = keep (λ b. text_eq b.scope s) bs

of_scope-purge_scope :
    (rule : RateLimitRule) (s : Text) (now : ℕ) (bs : List RateLimitBucket)
    → text_eq rule.scope s ≡ false
    → of_scope s (purge_scope rule now bs) ≡ of_scope s bs
unfolding purge_scope
of_scope-purge_scope rule s now [] ne = refl
of_scope-purge_scope rule s now (b ∷ bs) ne = elim (Bool-cases (text_eq b.scope s)) [
  | inl e ↦
      let other : text_eq b.scope rule.scope ≡ false = apart b.scope s rule.scope e ne in
      rw (other, e) (ap (◌∷◌ b) (of_scope-purge_scope rule s now bs ne))
  | inr n ↦ elim (Bool-cases (is_expired rule now b)) [
    | inl gone ↦ rw (gone, n) (of_scope-purge_scope rule s now bs ne)
    | inr live ↦ rw (live, n) (of_scope-purge_scope rule s now bs ne)
  ]
]

of_scope-upsert :
    (rule : RateLimitRule) (h : ℕ) (s : Text) (now : ℕ) (bs : List RateLimitBucket)
    → text_eq rule.scope s ≡ false
    → of_scope s (upsert rule h now bs).1 ≡ of_scope s bs
unfolding upsert
of_scope-upsert rule h s now [] ne = rw ne refl
of_scope-upsert rule h s now (b ∷ bs) ne = elim (Bool-cases (is_key rule.scope h b)) [
  | inl k ↦
      let e : b.scope ≡ rule.scope = text_eq_sound b.scope rule.scope (ground arith) in
      let n : text_eq b.scope s ≡ false = subst (λ x. text_eq x s ≡ false) (sym e) ne in
      rw (k, n) refl
  | inr k ↦ elim (Bool-cases (text_eq b.scope s)) [
    | inl e ↦ rw (k, e) (ap (◌∷◌ b) (of_scope-upsert rule h s now bs ne))
    | inr n ↦ rw (k, n) (of_scope-upsert rule h s now bs ne)
  ]
]

of_scope-consume_rule :
    (hash_token : Text → Text → ℕ) (rule : RateLimitRule) (s : Text) (now : ℕ)
    (bs : List RateLimitBucket)
    → text_eq rule.scope s ≡ false
    → of_scope s (consume_rule hash_token rule now bs).1 ≡ of_scope s bs
unfolding consume_rule
of_scope-consume_rule hash_token rule s now bs ne =
    of_scope-upsert rule (hash_token rule.scope rule.subject) s now (purge_scope rule now bs) ne
    ∙ of_scope-purge_scope rule s now bs ne

-- Where the first of two rules on different scopes blocks a request, the counters of the second's
-- scope stay as they were.
first_blocks :
    (hash_token : Text → Text → ℕ) (a b : RateLimitRule) (now : ℕ) (bs : List RateLimitBucket)
    → text_eq a.scope b.scope ≡ false
    → (consume_rules hash_token (a ∷ b ∷ []) now bs).0 ≡ RateLimitDecision.blocked a.scope
    → of_scope b.scope (consume_rules hash_token (a ∷ b ∷ []) now bs).1 ≡ of_scope b.scope bs
unfolding consume_rules
first_blocks hash_token a b now bs ne h = elim (Bool-cases (consume_rule hash_token a now bs).0) [
  | inl granted_first ↦
      let same : b.scope ≡ a.scope = ground arith in
      let e : text_eq a.scope a.scope ≡ false = subst (λ x. text_eq a.scope x ≡ false) same ne in
      absurd (ground (arith, text_eq_refl a.scope))
  | inr stopped ↦ rw stopped (of_scope-consume_rule hash_token a b.scope now bs ne)
]

-- A request that the rule of the client's address blocks leaves the counters of the subjects' scope
-- alone, so that a blocked host cannot add to them.
pub consume_rules_blocked :
    (hash_token : Text → Text → ℕ) (ip_scope subject_scope client_ip subject : Text)
    (ip_limit subject_limit window now : ℕ) (bs : List RateLimitBucket)
    → text_eq ip_scope subject_scope ≡ false
    → let rules =
        request_rules ip_scope subject_scope client_ip subject ip_limit subject_limit window in
      (consume_rules hash_token rules now bs).0 ≡ RateLimitDecision.blocked ip_scope
      → of_scope subject_scope (consume_rules hash_token rules now bs).1 ≡ of_scope subject_scope bs
unfolding request_rules
consume_rules_blocked hash_token i s ip sub il sl w now bs ne h =
    first_blocks hash_token _ _ now bs ne h
