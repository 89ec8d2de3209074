-- ===== src/Scheduler.antt =====
-- The scheduler, libs/cap-core/src/engine/cap-scheduler.ts: two timers that run the outbox dispatch and the
-- inbox retry, and calls that run them at once. What the engine's runs do is modelled in Engine; here a run is
-- begun, is in flight, and settles (with its number, or with 0 after an error). The state has, next to the
-- class's fields, the intervals of each kind that the runtime has active and the runs that the engine has in
-- flight, counted where they begin and end. Log lines are left out.
pub mod Invariant
use cap_nodejs.Prelude.{
  ℕ, zero, suc, ◌+◌, ◌-◌, Bool, true, false, List, [], ◌∷◌, if◌then◌else◌, ltb,
}

-- One of the two jobs: a timer, the promise of its run, and what it has set going outside
pub record Job : Type 0 where
  pub timer : Bool
  pub running : Bool
  pub intervals : ℕ
  pub in_flight : ℕ
  pub begun : ℕ

pub record Scheduler : Type 0 where
  pub disabled : Bool
  pub outbox : Job
  pub inbox : Job

abbrev pub idle_job : Job
idle_job = record { timer = false; running = false; intervals = 0; in_flight = 0; begun = 0 }

abbrev pub new_scheduler : Bool → Scheduler
new_scheduler disabled = record { disabled = disabled; outbox = idle_job; inbox = idle_job }

-- `timer ??= setInterval(...)`
unfoldable pub set_timer : Job → Job
set_timer j = if j.timer then j else record j { timer = true; intervals = j.intervals + 1 }

-- `if (timer) { clearInterval(timer); timer = undefined; }`
unfoldable pub clear_timer : Job → Job
clear_timer j = if j.timer then record j { timer = false; intervals = j.intervals - 1 } else j

-- `start`
unfoldable pub start : Scheduler → Scheduler
unfolding set_timer
start s =
    if s.disabled then s else record s { outbox = set_timer s.outbox; inbox = set_timer s.inbox }

-- `stop` up to its wait for the runs in flight
unfoldable pub stop : Scheduler → Scheduler
unfolding clear_timer
stop s = record s { outbox = clear_timer s.outbox; inbox = clear_timer s.inbox }

-- A call of the engine, unless the promise of one is kept
unfoldable pub run_job : Job → Job
run_job j =
    if j.running
    then j
    else record j { running = true; in_flight = j.in_flight + 1; begun = j.begun + 1 }

-- `runOutboxOnce`
unfoldable pub run_outbox_once : Scheduler → Scheduler
unfolding run_job
run_outbox_once s = if s.disabled then s else record s { outbox = run_job s.outbox }

-- `runInboxRetryOnce`
unfoldable pub run_inbox_retry_once : Scheduler → Scheduler
unfolding run_job
run_inbox_retry_once s = if s.disabled then s else record s { inbox = run_job s.inbox }

-- The engine's run has settled, and then the `finally` runs; without a run nothing settles.
unfoldable pub settle_job : Job → Job
settle_job j =
    if ltb 0 j.in_flight then record j { running = false; in_flight = j.in_flight - 1 } else j

-- An interval fires only while it is active.
pub data Event : Type 0 where
  starts stops outbox_called inbox_called outbox_fires inbox_fires outbox_settles inbox_settles :
      Event

unfoldable pub step : Event → Scheduler → Scheduler
unfolding start stop run_outbox_once run_inbox_retry_once settle_job
step Event.starts s = start s
step Event.stops s = stop s
step Event.outbox_called s = run_outbox_once s
step Event.inbox_called s = run_inbox_retry_once s
step Event.outbox_fires s = if ltb 0 s.outbox.intervals then run_outbox_once s else s
step Event.inbox_fires s = if ltb 0 s.inbox.intervals then run_inbox_retry_once s else s
step Event.outbox_settles s = record s { outbox = settle_job s.outbox }
step Event.inbox_settles s = record s { inbox = settle_job s.inbox }

unfoldable pub run : List Event → Scheduler → Scheduler
unfolding step
run [] s = s
run (e ∷ es) s = run es (step e s)
