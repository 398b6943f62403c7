-- ===== src/Gateway/Limits.antt =====
-- server/src/ws.rs: the rate that a token bucket allows, and the bound of the marks in memory.
use vurn_server.Prelude.{
  ℕ, Bool-cases, inl, inr, suc, ◌+◌, ◌-◌, ◌*◌, ◌≤◌, ◌≡◌, ap, Bool, List, [], ◌∷◌, arith,
  if◌then◌else◌,
}
use vurn_server.Gateway.{TokenBucket, nano, new_bucket, refill, try_consume}

-- Requests of one token each, by the times at which the clock is read and refilled: how many are
-- allowed, and the bucket that is left.
unfoldable pub consume_all : List (ℕ × ℕ) → TokenBucket → ℕ × TokenBucket
consume_all [] b = (0, b)
consume_all ((read, stamp) ∷ times) b =
    let (allowed, c) = try_consume read stamp 1 b in
    let (count, d) = consume_all times c in (if allowed then suc count else count, d)

-- The clock does not go back.
abbrev pub IsSteady : ℕ → List (ℕ × ℕ) → Type 0
IsSteady last [] = Unit
IsSteady last ((read, stamp) ∷ times) = (last ≤ read) × (read ≤ stamp) × IsSteady stamp times

module _ (read stamp : ℕ) (b : TokenBucket) where
  -- What one request does to a bucket.
  consumed :
      let (allowed, c) = try_consume read stamp 1 b in
      (c.last_refill ≡ stamp)
      × (c.rate ≡ b.rate)
      × (c.capacity ≡ b.capacity)
      × (c.tokens ≤ b.capacity)
      × ((if allowed then nano else 0) + c.tokens ≤ b.tokens + (read - b.last_refill) * b.rate)
  unfolding try_consume refill
  consumed = ground arith

later :
    (times : List (ℕ × ℕ)) (b : TokenBucket)
    → IsSteady b.last_refill times
    → b.last_refill ≤ (consume_all times b).1.last_refill
unfolding consume_all
later [] b s = omega arith
later ((read, stamp) ∷ times) b (low, high, s) =
    let c = (try_consume read stamp 1 b).1 in
    let at_stamp = (consumed read stamp b).0 in
    let rest = later times c (rw at_stamp s) in omega (arith, at_stamp, rest)

-- Time that has passed twice.
two_spans :
    (last read stamp end rate : ℕ)
    → last ≤ read
    → read ≤ stamp
    → stamp ≤ end
    → (read - last) * rate + (end - stamp) * rate ≤ (end - last) * rate
two_spans last read stamp end rate a b c =
    let split : end - last ≡ (read - last) + ((end - stamp) + (stamp - read)) = omega arith in
    omega (arith, ap (λ (t : ℕ). t * rate) split)

combine :
    (allowed : Bool) (count spare left tokens last read stamp end rate start rate' : ℕ)
    → last ≤ read
    → read ≤ stamp
    → start ≤ end
    → start ≡ stamp
    → rate' ≡ rate
    → (if allowed then nano else 0) + spare ≤ tokens + (read - last) * rate
    → count * nano + left ≤ spare + (end - start) * rate'
    → (if allowed then suc count else count) * nano + left ≤ tokens + (end - last) * rate
combine allowed count spare left tokens last read stamp end rate start rate' a b c s r first
      others =
    let spans = two_spans last read stamp end rate a b (rw s at c) in
    let rest = rw (s, r) at others in
    elim (Bool-cases allowed) [
      | inl e ↦ rw e (let one = rw e at first in omega (arith, spans, one, rest))
      | inr e ↦ rw e (let one = rw e at first in omega (arith, spans, one, rest))
    ]

-- What is consumed
pub consume_all_bound :
    (times : List (ℕ × ℕ)) (b : TokenBucket)
    → IsSteady b.last_refill times
    → let (count, c) = consume_all times b in
      count * nano + c.tokens ≤ b.tokens + (c.last_refill - b.last_refill) * b.rate
unfolding consume_all
consume_all_bound [] b s = omega arith
consume_all_bound ((read, stamp) ∷ times) b (low, high, s) =
    let (allowed, c) = try_consume read stamp 1 b in
    let (at_stamp, same_rate, _, _, first) = consumed read stamp b in
    let steady : IsSteady c.last_refill times = rw at_stamp s in
    let end = (consume_all times c).1.last_refill in
    let ordered = later times c steady in
    let others = consume_all_bound times c steady in
    combine allowed (consume_all times c).0 c.tokens (consume_all times c).1.tokens b.tokens
      b.last_refill read stamp end b.rate c.last_refill c.rate low high ordered at_stamp same_rate
      first others

-- Of requests of one token each to a new limiter, at times at which the clock does not go back,
-- at most the capacity and the rate times the time up to the last refill are allowed.
pub new_bucket_bound :
    (now rate capacity : ℕ) (times : List (ℕ × ℕ))
    → IsSteady now times
    → let (count, b) = consume_all times (new_bucket now rate capacity) in
      count * nano ≤ capacity * nano + (b.last_refill - now) * rate
unfolding new_bucket
new_bucket_bound now rate capacity times s =
    omega (arith, consume_all_bound times (new_bucket now rate capacity) s)
