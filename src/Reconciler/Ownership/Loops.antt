-- ===== src/Reconciler/Ownership/Loops.antt =====
-- However long the two loops of the manager run, they make only owned calls.
use hydra_operator.Base.{List, [], ◌∷◌}
use hydra_operator.Base.Int.{ℤ}
use hydra_operator.Kube.Calls.{Call}
use hydra_operator.Kube.Env.{Env, Session, Action}
use hydra_operator.Kube.Keeps.{Keeps, Keeps-pure, Keeps-bind, Keeps-if}
use hydra_operator.Reconciler.Manager.{ManagerConfig}
use hydra_operator.Reconciler.RunLoop.{Select, wait_loop, run_loop}
use hydra_operator.Reconciler.Run.{sync_loop, heartbeat_loop}
use hydra_operator.Reconciler.Ownership.Defs.{AllOwned}
use hydra_operator.Reconciler.Ownership.Sync.{sync_once-Keeps, heartbeat_once-Keeps}

module _ {W : Type 0} {P : List Call → Type 0} (tick : Action W (Unit {0}))
    (keep : Keeps P tick) where
  wait_loop-Keeps : (selects : List Select) → Keeps P (wait_loop tick selects)
  unfolding wait_loop
  wait_loop-Keeps [] = Keeps-pure _
  wait_loop-Keeps (now ∷ later) =
      Keeps-if _ _ _ (Keeps-bind _ _ keep (λ _. wait_loop-Keeps later)) (Keeps-pure _)

  run_loop-Keeps : (interval : ℤ) (selects : List Select) → Keeps P (run_loop interval tick selects)
  unfolding run_loop
  run_loop-Keeps interval selects =
      Keeps-bind _ _ keep (λ _. Keeps-if _ _ _ (wait_loop-Keeps selects) (Keeps-pure _))

module _ (env : Env) (cfg : ManagerConfig) where
  -- Whatever is answered, whatever the intervals are and however many ticks there are before the
  -- cancellation is taken, the loop of the sync rounds and the loop of the heartbeats that
  -- `Manager.Run` starts, each after owned calls, make only owned calls.
  pub run_loop-IsOwned :
      (selects : List Select) (s : Session env.World)
      → AllOwned env.lower_wide cfg.hydra s.log
      → AllOwned env.lower_wide cfg.hydra (sync_loop env cfg selects s).1.log
        × AllOwned env.lower_wide cfg.hydra (heartbeat_loop env cfg selects s).1.log
  unfolding sync_loop heartbeat_loop
  run_loop-IsOwned selects s so_far = (
    (run_loop-Keeps _ (sync_once-Keeps env cfg) cfg.sync_interval selects).holds_after s so_far,
    (run_loop-Keeps _ (heartbeat_once-Keeps env cfg) cfg.heartbeat_interval selects).holds_after s
        so_far,
  )
