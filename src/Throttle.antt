-- ===== src/Throttle.antt =====
-- services/api/src/little_orbit_api/rate_limit.py: fixed-window counters in the table of buckets, the
-- list of its rows, whose primary key is scope and digest. The digest of a subject (hash_token of
-- security.py) is a parameter.
pub mod Limits
mod Examples
use littleorbit.Prelude.{
  ℕ, ◌+◌, min, Bool, true, false, not, ◌&&◌, Option, none, some, List, [], ◌∷◌, ◌++◌, ◌==◌, leb,
  ltb, if◌then◌else◌, Text, text_eq, keep,
}

pub record RateLimitRule : Type 0 where
  pub scope : Text
  pub subject : Text
  pub limit : ℕ
  pub window : ℕ

-- Allowed, or blocked in a scope.
pub data RateLimitDecision : Type 0 where
  allowed : RateLimitDecision
  blocked : (scope : Text) → RateLimitDecision

pub record RateLimitBucket : Type 0 where
  pub scope : Text
  pub subject_hash : ℕ
  pub window_started_at : ℕ
  pub count : ℕ
  pub updated_at : ℕ

-- delete(RateLimitBucket).where(updated_at <= now - timedelta(hours=24))
abbrev pub day : ℕ
day = 86_400_000_000

pub purge_rate_limit_state : ℕ → List RateLimitBucket → List RateLimitBucket
purge_rate_limit_state now bs = keep (λ b. ltb now (b.updated_at + day)) bs

-- delete(RateLimitBucket).where(scope == rule.scope, window_started_at <= now - rule.window)
abbrev pub is_expired : RateLimitRule → ℕ → RateLimitBucket → Bool
is_expired rule now b = text_eq b.scope rule.scope && leb (b.window_started_at + rule.window) now

pub purge_scope : RateLimitRule → ℕ → List RateLimitBucket → List RateLimitBucket
unfolding text_eq
purge_scope rule now bs = keep (λ b. not (is_expired rule now b)) bs

abbrev pub is_key : Text → ℕ → RateLimitBucket → Bool
is_key scope digest b = text_eq b.scope scope && b.subject_hash == digest

abbrev pub counted : RateLimitRule → ℕ → RateLimitBucket → RateLimitBucket
counted rule now b = record b { count = min (b.count + 1) (rule.limit + 1); updated_at = now }

abbrev pub new_bucket : RateLimitRule → ℕ → ℕ → RateLimitBucket
new_bucket rule digest now = record {
  scope = rule.scope;
  subject_hash = digest;
  window_started_at = now;
  count = 1;
  updated_at = now;
}

-- insert(...).on_conflict_do_update(...).returning(count)
pub upsert : RateLimitRule → ℕ → ℕ → List RateLimitBucket → ℕ × List RateLimitBucket
unfolding text_eq
upsert rule digest now [] = (1, new_bucket rule digest now ∷ [])
upsert rule digest now (b ∷ bs) =
    let rest = upsert rule digest now bs in
    if is_key rule.scope digest b
    then (min (b.count + 1) (rule.limit + 1), counted rule now b ∷ bs)
    else (rest.0, b ∷ rest.1)

module _ (hash_token : Text → Text → ℕ) where
  pub consume_rule : RateLimitRule → ℕ → List RateLimitBucket → Bool × List RateLimitBucket
  unfolding purge_scope upsert
  consume_rule rule now bs =
      let x = upsert rule (hash_token rule.scope rule.subject) now (purge_scope rule now bs) in
      (leb x.0 rule.limit, x.1)

  -- _consume_rules, which consume_rate_limits commits
  pub consume_rules :
      List RateLimitRule → ℕ → List RateLimitBucket → RateLimitDecision × List RateLimitBucket
  unfolding consume_rule
  consume_rules [] now bs = (RateLimitDecision.allowed, bs)
  consume_rules (rule ∷ rules) now bs =
      let x = consume_rule rule now bs in
      let rest = consume_rules rules now x.1 in
      if x.0 then rest else (RateLimitDecision.blocked rule.scope, x.1)

-- request_rules, on the two scopes that the action's name makes
pub request_rules : Text → Text → Text → Text → ℕ → ℕ → ℕ → List RateLimitRule
request_rules ip_scope subject_scope client_ip subject ip_limit subject_limit window =
    record { scope = ip_scope; subject = client_ip; limit = ip_limit; window = window }
    ∷ record { scope = subject_scope; subject = subject; limit = subject_limit; window = window }
    ∷ []
