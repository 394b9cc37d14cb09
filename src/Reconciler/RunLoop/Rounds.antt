-- ===== src/Reconciler/RunLoop/Rounds.antt =====
-- How often a loop of the manager runs its job.
use hydra_operator.Base.{ℕ, zero, suc, true, false, List, [], ◌∷◌, ◌++◌, ◌≡◌, refl, All, length}
use hydra_operator.Base.Int.{ℤ, positive}
use hydra_operator.Kube.Env.{Session, Action, pure, ◌>>=◌}
use hydra_operator.Reconciler.RunLoop.{Select, returned, takes_tick, wait_loop, run_loop}

module _ {W : Type 0} (tick : Action W (Unit {0})) where
  abbrev pub times : ℕ → Session W → Session W
  times zero s = s
  times (suc n) s = times n (tick s).1

  module _ (stop : Select) (stops : takes_tick stop ≡ false) (later : List Select) where
    wait_loop-times :
        (ticks : List Select) (s : Session W)
        → All (λ now. takes_tick now ≡ true) ticks
        → wait_loop tick (ticks ++ stop ∷ later) s ≡ (returned, times (length ticks) s)
    unfolding wait_loop ◌>>=◌ pure
    wait_loop-times [] s taken = rw stops refl
    wait_loop-times (now ∷ ticks) s (one, taken) = rw one (wait_loop-times ticks (tick s).1 taken)

    -- A loop with a positive interval, whose `select` takes a tick any number of times and then the
    -- cancellation, runs its job at once and once for each of those ticks, and returns, whatever
    -- would come later. A tick that is taken after the context is cancelled counts too.
    pub run_loop-times :
        (interval : ℤ) (ticks : List Select) (s : Session W)
        → positive interval ≡ true
        → All (λ now. takes_tick now ≡ true) ticks
        → run_loop interval tick (ticks ++ stop ∷ later) s
          ≡ (returned, times (suc (length ticks)) s)
    unfolding run_loop ◌>>=◌
    run_loop-times interval ticks s lasting taken =
        rw lasting (wait_loop-times ticks (tick s).1 taken)
