-- ===== src/Quota/Buckets.antt =====
-- The integer clock, the limits, the retry policy and the token bucket of provider_quota.py.
use finite_agent_physics.Prelude.{
  ℕ, ◌+◌, ◌-◌, ◌*◌, ◌/◌, ◌^◌, min, ◌||◌, ltb, ◌==◌, if◌then◌else◌, Action, Result, ok, err, pure,
  gets, modify, raise_if, ◌>>=◌, ◌>>◌, List, [], ◌∷◌,
}

pub data QuotaError : Type 0 where
  value_error configuration_error assertion_error settlement_error key_error : QuotaError

-- `FakeIntegerClock`, whose state is the time.
abbrev pub Clock : Type 0 → Type 0
Clock A = Action ℕ QuotaError A

unfoldable pub advance : ℕ → Clock ℕ
advance delta_ms = modify (λ now. now + delta_ms) >> gets (λ now. now)

unfoldable pub advance_to : ℕ → Clock ℕ
advance_to target_ms = do
  now ← gets (λ now. now)
  raise_if (ltb target_ms now) value_error
  modify (λ now. target_ms)
  gets (λ now. now)

pub record QuotaLimits : Type 0 where
  pub rpm : ℕ
  pub tpm : ℕ
  pub concurrency : ℕ
  pub window_ms : ℕ

-- `__post_init__`
unfoldable pub new_limits : QuotaLimits → Result QuotaError QuotaLimits
new_limits l =
    if l.rpm == 0 || l.tpm == 0 || l.concurrency == 0 || l.window_ms == 0
    then err configuration_error
    else ok l

pub record RetryPolicy : Type 0 where
  pub max_attempts : ℕ
  pub base_backoff_ms : ℕ
  pub max_backoff_ms : ℕ

unfoldable pub new_policy : RetryPolicy → Result QuotaError RetryPolicy
new_policy r =
    if r.max_attempts == 0 || ltb r.max_backoff_ms r.base_backoff_ms
    then err configuration_error
    else ok r

unfoldable pub backoff_for : RetryPolicy → ℕ → Result QuotaError ℕ
backoff_for r retry_attempt =
    if retry_attempt == 0
    then err value_error
    else if r.base_backoff_ms == 0
    then ok 0
    else ok (min (r.base_backoff_ms * 2 ^ min (retry_attempt - 1) 62) r.max_backoff_ms)

-- `_FixedTimeTokenBucket`
pub record TokenBucket : Type 0 where
  pub capacity : ℕ
  pub refill_every_ms : ℕ
  pub epoch_ms : ℕ
  pub remaining : ℕ
  pub last_refill_ms : ℕ

unfoldable pub new_bucket : ℕ → ℕ → ℕ → TokenBucket
new_bucket capacity refill_every_ms epoch_ms = record {
  capacity = capacity;
  refill_every_ms = refill_every_ms;
  epoch_ms = epoch_ms;
  remaining = capacity;
  last_refill_ms = epoch_ms;
}

abbrev pub Bucket : Type 0 → Type 0
Bucket A = Action TokenBucket QuotaError A

-- For a time before the last refill Python's quotient is negative, and here it is zero: no refill.
unfoldable pub refreshed : ℕ → TokenBucket → TokenBucket
refreshed now_ms t =
    let periods = (now_ms - t.last_refill_ms) / t.refill_every_ms in
    if ltb 0 periods
    then record t {
      remaining = min t.capacity (t.remaining + periods * t.capacity);
      last_refill_ms = t.last_refill_ms + periods * t.refill_every_ms;
    }
    else t

unfoldable pub refresh : ℕ → Bucket (Unit {0})
unfolding refreshed
refresh now_ms = modify (refreshed now_ms)

unfoldable pub consume_units : ℕ → Bucket (Unit {0})
consume_units units = do
  t ← gets (λ t. t)
  raise_if (ltb t.remaining units) assertion_error
  modify (λ t. record t { remaining = t.remaining - units })

-- What a settlement gives back: nothing once its window is over.
unfoldable pub credit : ℕ → ℕ → TokenBucket → ℕ
credit units reserved_window_start_ms t =
    if t.last_refill_ms == reserved_window_start_ms then min units (t.capacity - t.remaining) else 0

unfoldable pub refund_if_current : ℕ → ℕ → Bucket ℕ
unfolding credit
refund_if_current units reserved_window_start_ms = do
  credited ← gets (credit units reserved_window_start_ms)
  modify (λ t. record t { remaining = t.remaining + credited })
  pure credited

-- One call of the bucket, and sequences of them; a raise is caught between two calls.
pub data BucketCall : Type 0 where
  refreshes : (now_ms : ℕ) → BucketCall
  consumes : (units : ℕ) → BucketCall
  refunds : (units reserved_window_start_ms : ℕ) → BucketCall

unfoldable pub after_call : BucketCall → TokenBucket → TokenBucket
unfolding refresh consume_units refund_if_current
after_call (BucketCall.refreshes now) t = (refresh now t).1
after_call (BucketCall.consumes units) t = (consume_units units t).1
after_call (BucketCall.refunds units start) t = (refund_if_current units start t).1

unfoldable pub run_bucket : List BucketCall → TokenBucket → TokenBucket
unfolding after_call
run_bucket [] t = t
run_bucket (c ∷ cs) t = run_bucket cs (after_call c t)
