-- ===== src/Scheduler/Invariant.antt =====
-- What the scheduler of engine/cap-scheduler.ts keeps: single runs, single intervals, and a stop that lasts.
use cap_nodejs.Prelude.{ℕ, Bool, true, false, List, [], ◌∷◌, ◌≡◌, refl, arith, ◌∙◌, every}
use cap_nodejs.Scheduler.{
  Job, Scheduler, Event, set_timer, clear_timer, run_job, settle_job, start, stop, run_outbox_once,
  run_inbox_retry_once, step, run,
}

abbrev pub one_if : Bool → ℕ
one_if true = 1
one_if false = 0

-- The job's promise is kept exactly while a run is in flight, its timer exactly while an interval is active, and
-- there is no second of either.
pub record IsSingle (j : Job) : Type 0 where
  pub one_run : j.in_flight ≡ one_if j.running
  pub one_interval : j.intervals ≡ one_if j.timer

pub record IsSound (s : Scheduler) : Type 0 where
  pub outbox_single : IsSingle s.outbox
  pub inbox_single : IsSingle s.inbox

set_timer-IsSingle : (j : Job) → IsSingle j → IsSingle (set_timer j)
unfolding set_timer
set_timer-IsSingle j h = ground arith

clear_timer-IsSingle : (j : Job) → IsSingle j → IsSingle (clear_timer j)
unfolding clear_timer
clear_timer-IsSingle j h = ground arith

run_job-IsSingle : (j : Job) → IsSingle j → IsSingle (run_job j)
unfolding run_job
run_job-IsSingle j h = ground arith

settle_job-IsSingle : (j : Job) → IsSingle j → IsSingle (settle_job j)
unfolding settle_job
settle_job-IsSingle j h = ground arith

step-IsSound : (e : Event) (s : Scheduler) → IsSound s → IsSound (step e s)
unfolding step start stop run_outbox_once run_inbox_retry_once
step-IsSound e s h = grind (
  arith,
  set_timer-IsSingle s.outbox h.outbox_single,
  set_timer-IsSingle s.inbox h.inbox_single,
  clear_timer-IsSingle s.outbox h.outbox_single,
  clear_timer-IsSingle s.inbox h.inbox_single,
  run_job-IsSingle s.outbox h.outbox_single,
  run_job-IsSingle s.inbox h.inbox_single,
  settle_job-IsSingle s.outbox h.outbox_single,
  settle_job-IsSingle s.inbox h.inbox_single,
)

-- From a scheduler with at most one run and one interval of each kind, kept track of by its fields, any calls,
-- intervals that fire and runs that settle, in any order, lead to one such: runs of a kind never overlap, and a
-- repeated start adds no interval.
pub run-IsSound : (es : List Event) (s : Scheduler) → IsSound s → IsSound (run es s)
unfolding run
run-IsSound [] s h = h
run-IsSound (e ∷ es) s h = run-IsSound es (step e s) (step-IsSound e s h)

-- Neither a start nor a call of a run
abbrev pub is_passive : Event → Bool
is_passive Event.starts = false
is_passive Event.outbox_called = false
is_passive Event.inbox_called = false
is_passive _ = true

-- No interval is active.
pub record IsSilent (s : Scheduler) : Type 0 where
  pub no_outbox : s.outbox.intervals ≡ 0
  pub no_inbox : s.inbox.intervals ≡ 0

stop-IsSilent : (s : Scheduler) → IsSound s → IsSilent (stop s)
unfolding stop clear_timer
stop-IsSilent s h = ground (arith, h.outbox_single.one_interval, h.inbox_single.one_interval)

step-IsSilent : (e : Event) (s : Scheduler) → is_passive e ≡ true → IsSilent s → IsSilent (step e s)
unfolding step stop clear_timer settle_job
step-IsSilent e s p h = ground (arith, h.no_outbox, h.no_inbox)

step_begins_none :
    (e : Event) (s : Scheduler)
    → is_passive e ≡ true
    → IsSilent s
    → ((step e s).outbox.begun ≡ s.outbox.begun) × ((step e s).inbox.begun ≡ s.inbox.begun)
unfolding step stop clear_timer settle_job
step_begins_none e s p h = ground (arith, h.no_outbox, h.no_inbox)

run_begins_none :
    (es : List Event) (s : Scheduler)
    → every is_passive es ≡ true
    → IsSilent s
    → ((run es s).outbox.begun ≡ s.outbox.begun) × ((run es s).inbox.begun ≡ s.inbox.begun)
unfolding run
run_begins_none [] s p h = (refl, refl)
run_begins_none (e ∷ es) s p h =
    let (a, b) = step_begins_none e s (ground arith) h in
    let (c, d) =
      run_begins_none es (step e s) (ground arith) (step-IsSilent e s (ground arith) h) in
    (c ∙ a, d ∙ b)

stop_keeps_begun :
    (s : Scheduler)
    → ((stop s).outbox.begun ≡ s.outbox.begun) × ((stop s).inbox.begun ≡ s.inbox.begun)
unfolding stop clear_timer
stop_keeps_begun s = (ground arith, ground arith)

-- After a stop of a scheduler with at most one run and one interval of each kind, no run begins through further
-- stops, intervals that fire and runs that settle, in any order: only a start or a call of a run begins one.
pub stop_begins_none :
    (es : List Event) (s : Scheduler)
    → IsSound s
    → every is_passive es ≡ true
    → let t = run es (stop s) in (t.outbox.begun ≡ s.outbox.begun) × (t.inbox.begun ≡ s.inbox.begun)
stop_begins_none es s h p =
    let (a, b) = run_begins_none es (stop s) p (stop-IsSilent s h) in
    let (c, d) = stop_keeps_begun s in (a ∙ c, b ∙ d)
