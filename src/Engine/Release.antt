-- ===== src/Engine/Release.antt =====
-- `release_for_identity`: the engine is given up before another worker takes the GPU.
pub mod Facts
pub mod Verified
pub mod Going
pub mod Harmless
use mllm_windows_ai_workbenc.Prelude.{
  ℕ, String, Bool, true, false, not, ◌&&◌, Option, none, some, List, [], ◌∷◌, ◌==◌, str_eq,
  if◌then◌else◌,
}
use mllm_windows_ai_workbenc.Errors.{Exn, Result, ok, raise, guard, os_error, engine_unavailable}
use mllm_windows_ai_workbenc.Actions.{Action, next, ◌>>=◌, ◌>>◌, pure, lift}
use mllm_windows_ai_workbenc.Engine.Model.{
  Capabilities, Snapshot, Reply, finished, timed_out, failed_reply, Config, Outside, terminate,
  kill, await, unlink_state, Client, Run, ask, control, set_process, set_flash,
}
use mllm_windows_ai_workbenc.Engine.Identity.{
  release_snapshot, state_unchanged, release_endpoint, adopt_for_release, as_unavailable,
}

-- An effect that has to succeed; the wait that may time out comes apart.
abbrev pub done : Reply → Result (Unit {0})
done failed_reply = raise os_error
done _ = ok tt

unfoldable pub stop_waiting : Outside → ℕ → Reply → Run (Unit {0})
stop_waiting env pid finished = pure tt
stop_waiting env pid failed_reply = lift (raise os_error)
stop_waiting env pid timed_out = control env (kill pid) >>= λ r.
    lift (done r) >>= λ _. control env (await pid) >>= λ q. lift (done q)

-- wait(timeout=5), and where that is not enough kill() and wait()
unfoldable pub wait_or_kill : Outside → ℕ → Run (Unit {0})
wait_or_kill env pid = control env (await pid) >>= λ r. stop_waiting env pid r

unfoldable pub terminate_process : Outside → ℕ → Run (Unit {0})
terminate_process env pid = control env (terminate pid) >>= λ r. lift (done r)

abbrev pub is_about : Config → ℕ → Option Snapshot → Bool
is_about cfg pid none = true
is_about cfg pid (some v) =
    (elim v.pid [ none ↦ false | some p ↦ p == pid ])
    && (elim v.base_url [ none ↦ false | some url ↦ str_eq url cfg.base_url ])

unfoldable pub terminate_alive : Outside → ℕ → Bool → Run (Unit {0})
terminate_alive env pid true = terminate_process env pid
terminate_alive env pid false = pure tt

-- The child of this service.
unfoldable pub release_child : Outside → ℕ → Run (Unit {0})
release_child env pid s = as_unavailable (
    (ask (λ n. env.alive n pid) >>= λ alive.
    terminate_alive env pid alive >>= λ _. wait_or_kill env pid)
      s)

-- The engine that an earlier service has left, once it is verified.
unfoldable pub release_adopted : Outside → Option ℕ → Run (Unit {0})
release_adopted env none s = (ok tt, s)
release_adopted env (some pid) s =
    as_unavailable ((terminate_process env pid >>= λ _. wait_or_kill env pid) s)

unfoldable pub release_engine : Outside → Config → Option Snapshot → Option ℕ → Run (Unit {0})
release_engine env cfg v (some pid) = lift (guard (is_about cfg pid v) engine_unavailable) >>= λ _.
    release_child env pid >>= λ _. set_process none
release_engine env cfg (some v) none = adopt_for_release env cfg v >>= λ p. release_adopted env p
release_engine env cfg none none = pure tt

-- `_clear_release_state`
unfoldable pub clear_state : Outside → Option Snapshot → Run (Unit {0})
clear_state env none = pure tt
clear_state env (some v) =
    state_unchanged env v >>= λ _. control env unlink_state >>= λ r. lift (done r)

abbrev pub no_listener : Option Capabilities → Result (Unit {0})
no_listener none = ok tt
no_listener (some c) = raise engine_unavailable

unfoldable pub finish_release : Outside → Option Snapshot → Run (Unit {0})
finish_release env v = release_endpoint env >>= λ c.
    lift (no_listener c) >>= λ _. clear_state env v >>= λ _. set_flash false

-- `release_for_identity`
unfoldable pub release_for_identity : Outside → Config → Run (Unit {0})
release_for_identity env cfg s =
    next (release_snapshot env s)
      λ v t. next (release_engine env cfg v t.process t) λ _ u. finish_release env v u
