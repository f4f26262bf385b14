-- ===== src/Serverless/Scheduler/Limits.antt =====
-- The bounds that the scheduler keeps, and what it does with a peer that it knows.
use lanet.Base.{
  ℕ, zero, suc, ◌+◌, ◌*◌, ◌≤◌, ◌≡◌, inl, inr, Bool, false, List, [], ◌∷◌, some, arith, length,
  length-append, filter, Text, Dict, lookup, insert, lookup-insert_self, Option-cases, Time, ltb_ℤ,
}
use lanet.Serverless.Scheduler.{
  DiscoveryCall, DiscoveryRetry, DiscoveryScheduler, queued, joined, discovery_queue_size,
  discovery_state_limit, submit_mode, close, take_call, finish_call, store_retry, still_waiting,
  next_failures, delay_for, second,
}

length-filter : {A : Type 0} (p : A → Bool) (xs : List A) → length (filter p xs) ≤ length xs
length-filter p [] = omega arith
length-filter p (x ∷ xs) = ground (arith, length-filter p xs)

length-insert :
    {V : Type 0} (k : Text) (v : V) (m : Dict V) → length (insert k v m) ≤ suc (length m)
unfolding insert
length-insert k v [] = omega arith
length-insert k v ((j, w) ∷ m) = ground (arith, length-insert k v m)

length-insert_known :
    {V : Type 0} (k : Text) (v w : V) (m : Dict V)
    → lookup k m ≡ some w
    → length (insert k v m) ≡ length m
unfolding insert lookup
length-insert_known k v w [] h = absurd cc
length-insert_known k v w ((j, u) ∷ m) h = ground (arith, length-insert_known k v w m)

store_retry-length :
    (retry : Dict DiscoveryRetry) (now : Time) (id : Text) (r : DiscoveryRetry)
    → length retry ≤ discovery_state_limit
    → length (store_retry retry now id r) ≤ discovery_state_limit
unfolding store_retry
store_retry-length retry now id r h = elim (Option-cases (lookup id retry)) [
  | inr (old, e) ↦ ground (arith, length-insert_known id r old retry e)
  | inl e ↦ ground (
    arith,
    length-insert id r retry,
    length-insert id r (still_waiting now retry),
    length-filter (λ entry. ltb_ℤ now entry.1.next) retry,
  )
]

-- The queue and the retry table are within their limits.
abbrev pub IsBounded : DiscoveryScheduler → Type 0
IsBounded s = (length s.queue ≤ discovery_queue_size) × (length s.retry ≤ discovery_state_limit)

-- Each step of the scheduler, a submission, a worker that takes a call, the end of a call and the
-- closing, keeps the queue and the retry table within their limits.
pub steps-IsBounded :
    (s : DiscoveryScheduler) (now : Time) (id : Text) (explicit connect failed : Bool)
    (call : DiscoveryCall) (jitter : ℕ → ℕ) (cooldown : ℕ)
    → IsBounded s
    → IsBounded (submit_mode s now id explicit connect).0
      × IsBounded (take_call s).0
      × IsBounded (finish_call jitter cooldown s now call failed)
      × IsBounded (close s)
unfolding submit_mode take_call finish_call close
steps-IsBounded s now id explicit connect failed call jitter cooldown (queue, retry) = (
  ground (arith, length-append s.queue (record { id = id; connect_request = connect } ∷ [])),
  ground arith,
  (queue, store_retry-length s.retry now call.id _ retry),
  (omega arith, retry),
)

next_failures-many : (n : ℕ) → 5 ≤ n → next_failures n ≡ 5
unfolding next_failures
next_failures-many n h = ground arith

-- A failure after any number of failures brings a delay of 30 seconds to 5 minutes, and one more
-- failure never a shorter one.
pub delay_for-bounds :
    (failures : ℕ)
    → (30 * second ≤ delay_for (next_failures failures))
      × (delay_for (next_failures failures) ≤ 300 * second)
      × (delay_for (next_failures failures) ≤ delay_for (next_failures (failures + 1)))
unfolding delay_for next_failures
delay_for-bounds zero = omega arith
delay_for-bounds (suc zero) = omega arith
delay_for-bounds (suc (suc zero)) = omega arith
delay_for-bounds (suc (suc (suc zero))) = omega arith
delay_for-bounds (suc (suc (suc (suc zero)))) = omega arith
delay_for-bounds (suc (suc (suc (suc (suc n))))) =
    let here = next_failures-many (suc (suc (suc (suc (suc n))))) (omega arith) in
    let there = next_failures-many (suc (suc (suc (suc (suc n)))) + 1) (omega arith) in
    rw (here, there) (omega arith)

-- What a submission that queues a call leaves.
queued-calls :
    (s s' : DiscoveryScheduler) (now : Time) (id : Text) (explicit connect : Bool)
    (c : DiscoveryCall)
    → submit_mode s now id explicit connect ≡ (s', queued c)
    → (s'.cancelled ≡ false) × (lookup id s'.calls ≡ some c)
unfolding submit_mode
queued-calls s s' now id explicit connect c h =
    ground (arith, lookup-insert_self id (record { id = id; connect_request = connect }) s.calls)

-- Right after a submission that queues a call, any submission for that peer, at any time and of
-- any kind, joins that call and changes nothing.
pub submit_mode-once :
    (s s' : DiscoveryScheduler) (now later : Time) (id : Text)
    (explicit connect explicit' connect' : Bool) (c : DiscoveryCall)
    → submit_mode s now id explicit connect ≡ (s', queued c)
    → submit_mode s' later id explicit' connect' ≡ (s', joined c)
unfolding submit_mode
submit_mode-once s s' now later id explicit connect explicit' connect' c h =
    let (running, known) = queued-calls s s' now id explicit connect c h in ground arith
