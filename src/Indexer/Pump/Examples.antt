-- ===== src/Indexer/Pump/Examples.antt =====
-- The theorems on the pump applied to concrete scripts.
use pgcqrs.Base.{pos, ◌≡◌, refl, true, false, none, List, [], ◌∷◌}
use pgcqrs.Indexer.Pump.{
  beat_ok, plain, context_error, Tick, event, deadline_exceeded, tick_failed, handler_error,
  wait_failed, wait_granted, watch_ticks, Cycle, run_with_domain_stream, new_pump, running,
  is_recoverable, handler_answer,
}
use pgcqrs.Indexer.Pump.Lifecycle.{run_retries}

-- Two events, the first of which another holder has already gone past, and a tick without an event.
abbrev ticks : List Tick
ticks =
    event (pos 4) (λ sent. beat_ok)
    ∷ event (pos 6) (λ sent. beat_ok)
    ∷ deadline_exceeded (λ sent. beat_ok)
    ∷ []

-- A lock that is refused at first, then a handler that fails in a way to recover from, then a watch.
abbrev cycles : List Cycle
cycles =
    record {
      ended_before = false;
      wait = wait_failed (plain "busy");
      watch = λ after. watch_ticks [];
      release = none;
      ended_behind = false;
      closes = λ moment. false;
    }
    ∷ record {
      ended_before = false;
      wait = wait_granted (pos 3);
      watch = λ after. watch_ticks (tick_failed (handler_error true) ∷ []);
      release = none;
      ended_behind = false;
      closes = λ moment. false;
    }
    ∷ record {
      ended_before = false;
      wait = wait_granted (pos 3);
      watch = λ after. watch_ticks ticks;
      release = none;
      ended_behind = false;
      closes = λ moment. false;
    }
    ∷ []

-- The last of them, while which the context ends: Closed is reported before the pump watches.
abbrev closing : Cycle
closing = record {
  ended_before = false;
  wait = wait_granted (pos 3);
  watch = λ after. watch_ticks (tick_failed context_error ∷ []);
  release = none;
  ended_behind = true;
  closes = λ moment. true;
}

recovers : is_recoverable (handler_error true) ≡ true
unfolding is_recoverable handler_answer
recovers = refl

run_retries_example : (run_with_domain_stream cycles new_pump).0 ≡ running
run_retries_example = run_retries cycles new_pump (
  (refl, refl, λ moment. refl, λ after. tt),
  (
    (refl, refl, λ moment. refl, λ after. (recovers, tt)),
    ((refl, refl, λ moment. refl, λ after. (tt, (tt, (tt, tt)))), tt),
  ),
)
