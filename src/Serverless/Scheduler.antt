-- ===== src/Serverless/Scheduler.antt =====
-- pkg/serverless/scheduler.go: the queue of discovery calls and the retry table. The lock makes a
-- submission and the end of a call one step each; the workers are the steps `take_call` and
-- `finish_call`, with the result of the dial as an argument. The clock and the jitter are arguments.
pub mod Limits
use lanet.Base.{
  ℕ, ◌+◌, ◌-◌, ◌*◌, ◌^◌, Bool, true, false, ◌&&◌, ◌||◌, not, List, [], ◌∷◌, ◌++◌, Option, none,
  some, ltb, leb, if◌then◌else◌, length, filter, Text, Dict, lookup, insert, delete, Time, ℤ, pos,
  ◌+ℤ◌, ltb_ℤ,
}

-- `discoveryQueueSize` and `discoveryStateLimit`.
abbrev pub discovery_queue_size : ℕ
discovery_queue_size = 128

abbrev pub discovery_state_limit : ℕ
discovery_state_limit = 4096

pub record DiscoveryCall : Type 0 where
  pub id : Text
  pub connect_request : Bool

pub record DiscoveryRetry : Type 0 where
  pub failures : ℕ
  pub next : Time

pub record DiscoveryScheduler : Type 0 where
  pub cancelled : Bool
  pub queue : List DiscoveryCall
  pub calls : Dict DiscoveryCall
  pub retry : Dict DiscoveryRetry

-- What `submitMode` returns: an error, the call for this peer, old or new, or nothing yet.
pub data Submission : Type 0 where
  was_cancelled queue_full : Submission
  joined : DiscoveryCall → Submission
  too_early : Submission
  queued : DiscoveryCall → Submission

-- A peer without an entry has the zero time, which no time is before.
unfoldable pub must_wait : DiscoveryScheduler → Time → Text → Bool
must_wait s now id = elim (lookup id s.retry) [ none ↦ false | some r ↦ ltb_ℤ now r.next ]

-- `submitMode`.
unfoldable pub submit_mode :
    DiscoveryScheduler → Time → Text → Bool → Bool → DiscoveryScheduler × Submission
submit_mode s now id explicit connect_request =
    let call : DiscoveryCall = record { id = id; connect_request = connect_request } in
    if s.cancelled then (s, was_cancelled) else elim (lookup id s.calls) [
      | some running ↦ (s, joined running)
      | none ↦
          if not explicit && must_wait s now id
          then (s, too_early)
          else if leb discovery_queue_size (length s.queue)
          then (s, queue_full)
          else (
            record s { queue = s.queue ++ call ∷ []; calls = insert id call s.calls },
            queued call,
          )
    ]

-- `submit`.
abbrev pub submit : DiscoveryScheduler → Time → Text → Bool → DiscoveryScheduler × Submission
submit s now id explicit = submit_mode s now id explicit false

-- `close`: every call still in the queue ends.
abbrev pub drop_calls : List DiscoveryCall → Dict DiscoveryCall → Dict DiscoveryCall
drop_calls [] calls = calls
drop_calls (c ∷ queue) calls = drop_calls queue (delete c.id calls)

unfoldable pub close : DiscoveryScheduler → DiscoveryScheduler
close s = record s { cancelled = true; queue = []; calls = drop_calls s.queue s.calls }

-- A worker takes the oldest call.
unfoldable pub take_call : DiscoveryScheduler → DiscoveryScheduler × Option DiscoveryCall
take_call s = elim s.queue [ [] ↦ (s, none) | c ∷ queue ↦ (record s { queue = queue }, some c) ]

abbrev pub second : ℕ
second = 10 ^ 9

-- The failures after one more, five at most, and the delay that they bring.
unfoldable pub next_failures : ℕ → ℕ
next_failures failures = if ltb 5 (failures + 1) then 5 else failures + 1

unfoldable pub delay_for : ℕ → ℕ
delay_for failures =
    let delay = 30 * second * 2 ^ (failures - 1) in
    if ltb (300 * second) delay then 300 * second else delay

abbrev pub failures_of : Option DiscoveryRetry → ℕ
failures_of none = 0
failures_of (some r) = r.failures

-- The entry of a peer after a call.
unfoldable pub next_retry : (ℕ → ℕ) → ℕ → Option DiscoveryRetry → Bool → Time → DiscoveryRetry
next_retry jitter cooldown old failed now =
    let failures = next_failures (failures_of old) in
    if failed
    then record { failures = failures; next = now +ℤ pos (jitter (delay_for failures)) }
    else record { failures = 0; next = now +ℤ pos cooldown }

-- The entries that still make their peers wait.
abbrev pub still_waiting : Time → Dict DiscoveryRetry → Dict DiscoveryRetry
still_waiting now retry = filter (λ entry. ltb_ℤ now entry.1.next) retry

-- The retry table with a new entry, if there is room for it.
unfoldable pub store_retry :
    Dict DiscoveryRetry → Time → Text → DiscoveryRetry → Dict DiscoveryRetry
store_retry retry now id r =
    let kept = still_waiting now retry in
    elim (lookup id retry) [
      | some old ↦ insert id r retry
      | none ↦
          if ltb (length retry) discovery_state_limit
          then insert id r retry
          else if ltb (length kept) discovery_state_limit
          then insert id r kept
          else kept
    ]

-- The part of `worker` behind the dial.
unfoldable pub finish_call :
    (ℕ → ℕ) → ℕ → DiscoveryScheduler → Time → DiscoveryCall → Bool → DiscoveryScheduler
finish_call jitter cooldown s now call failed =
    let r = next_retry jitter cooldown (lookup call.id s.retry) failed now in
    record s { calls = delete call.id s.calls; retry = store_retry s.retry now call.id r }
