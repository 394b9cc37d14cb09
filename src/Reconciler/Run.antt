-- ===== src/Reconciler/Run.antt =====
-- `Manager.Run`, internal/reconciler/manager.go: the two loops, each with its job and its interval.
-- The first runs in a goroutine beside the second. The two share no state but the world outside, so
-- each is an action of its own: what the other does to the world is in the environment's answers.
use hydra_operator.Base.{List}
use hydra_operator.Kube.Env.{Env, Action}
use hydra_operator.Reconciler.Manager.{ManagerConfig, heartbeat_once, sync_once}
use hydra_operator.Reconciler.RunLoop.{Select, LoopEnd, run_loop}

module _ (env : Env) (cfg : ManagerConfig) where
  unfoldable pub heartbeat_loop : List Select → Action env.World LoopEnd
  heartbeat_loop = run_loop cfg.heartbeat_interval (heartbeat_once env cfg)

  unfoldable pub sync_loop : List Select → Action env.World LoopEnd
  sync_loop = run_loop cfg.sync_interval (sync_once env cfg)
