-- ===== src/Tests/SchedulerTheorems.antt =====
-- The theorem on the scheduler at an empty queue.
use lanet.Base.{ℕ, ◌+◌, true, false, [], arith, Text, codes, pos}
use lanet.Serverless.Scheduler.{
  DiscoveryCall, DiscoveryScheduler, submit_mode, take_call, finish_call, close,
}
use lanet.Serverless.Scheduler.Limits.{IsBounded, steps-IsBounded}

abbrev idle : DiscoveryScheduler
idle = record { cancelled = false; queue = []; calls = []; retry = [] }

abbrev peer : Text
peer = codes "p"

abbrev call : DiscoveryCall
call = record { id = peer; connect_request = false }

abbrev twice : ℕ → ℕ
twice n = n + n

steps-IsBounded_example :
    IsBounded (submit_mode idle (pos 1) peer true false).0
    × IsBounded (take_call idle).0
    × IsBounded (finish_call twice 5 idle (pos 1) call true)
    × IsBounded (close idle)
steps-IsBounded_example =
    steps-IsBounded idle (pos 1) peer true false true call twice 5 (omega arith, omega arith)
