-- ===== src/Reconciler/RunLoop.antt =====
-- `Manager.runLoop`, internal/reconciler/manager.go: a job at once, and then at each tick that the
-- `select` takes, until it takes the cancellation of the context.
pub mod Rounds
use hydra_operator.Base.{Bool, true, false, List, [], ◌∷◌, if◌then◌else◌}
use hydra_operator.Base.Int.{ℤ, positive}
use hydra_operator.Kube.Env.{Action, pure, ◌>>◌}

-- What is ready at one `select`: the context's `Done`, a tick, or both, of which Go takes one at
-- random (the Boolean says whether it is the tick).
pub data Select : Type 0 where
  done_ready : Select
  tick_ready : Select
  both_ready : Bool → Select

-- How far the loop comes: it has returned, `time.NewTicker` has panicked, or it waits at a `select`.
pub data LoopEnd : Type 0 where
  returned : LoopEnd
  panicked : LoopEnd
  waiting : LoopEnd

-- Whether the `select` takes the tick.
abbrev pub takes_tick : Select → Bool
takes_tick done_ready = false
takes_tick tick_ready = true
takes_tick (both_ready tick_taken) = tick_taken

module _ {W : Type 0} where
  -- The `for` loop, over what is ready at each `select`; at the end of the list it waits.
  unfoldable pub wait_loop : Action W (Unit {0}) → List Select → Action W LoopEnd
  wait_loop tick [] = pure waiting
  wait_loop tick (now ∷ later) =
      let rest = wait_loop tick later in if takes_tick now then (do tick; rest) else pure returned

  -- `time.NewTicker` panics if the interval is not positive.
  unfoldable pub run_loop : ℤ → Action W (Unit {0}) → List Select → Action W LoopEnd
  run_loop interval tick selects = do
    tick
    if positive interval then wait_loop tick selects else pure panicked
