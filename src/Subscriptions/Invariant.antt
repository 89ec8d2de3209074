-- ===== src/Subscriptions/Invariant.antt =====
-- What holds of the lifecycle after any interleaving of calls and settled promises.
use cap_nodejs.Prelude.{
  ℕ, ◌<◌, Bool, true, false, Option, some, List, [], ◌∷◌, ◌≡◌, ◌⊎◌, arith, is_some,
}
use cap_nodejs.Subscriptions.{
  Engine, Lifecycle, StartTask, StopTask, new_engine, attaching, awaiting_start, closing,
}
use cap_nodejs.Subscriptions.Events.{Event, step, run}

abbrev pub is_attaching : Option StartTask → Bool
is_attaching (some (attaching k ks)) = true
is_attaching _ = false

abbrev pub is_awaiting : Option StopTask → Bool
is_awaiting (some (awaiting_start n)) = true
is_awaiting _ = false

-- A stop waits for a startup that has settled, or that is in flight.
abbrev pub WaitEnds : Option StopTask → ℕ → Option StartTask → Type 0
WaitEnds (some (awaiting_start n)) settled start =
    (n < settled) ⊎ ((n ≡ settled) × (is_some start ≡ true))
WaitEnds _ settled start = Unit {0}

-- The state `stopping` means that a close is in flight; `starting` that an attachment is in flight, or a
-- stop that waits for the startup; a stop request that a stop is in flight, which during an attachment
-- waits for it; and no stop waits for a startup that is not there.
pub record IsLive (s : Engine) : Type 0 where
  pub stopping_closes : s.lifecycle ≡ Lifecycle.stopping → s.stop ≡ some closing
  pub starting_runs :
      s.lifecycle ≡ Lifecycle.starting → (is_attaching s.start ≡ true) ⊎ (is_awaiting s.stop ≡ true)
  pub request_runs : s.stop_requested ≡ true → is_some s.stop ≡ true
  pub request_waits :
      s.stop_requested ≡ true
      → is_attaching s.start ≡ true
      → s.stop ≡ some (awaiting_start s.starts_settled)
  pub wait_ends : WaitEnds s.stop s.starts_settled s.start

pub new_engine-IsLive : IsLive new_engine
new_engine-IsLive = ground arith

step-IsLive : (has_close : Bool) (e : Event) (s : Engine) → IsLive s → IsLive (step has_close e s)
unfolding step
step-IsLive has_close (Event.registers topic group) s h = ground arith
step-IsLive has_close (Event.subscribes topic group) s h = ground arith
step-IsLive has_close _ s h = ground arith

-- An engine that is live stays so through any events in any order: it is `stopping` only while a close is in
-- flight, `starting` only while an attachment is in flight or a stop waits for the startup, a stop is asked for only
-- while one is in flight, and no stop waits for a startup that is not there.
pub run-IsLive :
    (has_close : Bool) (es : List Event) (s : Engine) → IsLive s → IsLive (run has_close es s)
unfolding run
run-IsLive has_close [] s h = h
run-IsLive has_close (e ∷ es) s h =
    run-IsLive has_close es (step has_close e s) (step-IsLive has_close e s h)
