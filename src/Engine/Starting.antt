-- ===== src/Engine/Starting.antt =====
-- `ensure_ready`: the engine is there with the model, or it is started.
pub mod Steps
pub mod Ready
use Prim.Native.String
use mllm_windows_ai_workbenc.Prelude.{
  ℕ, zero, suc, ◌+◌, String, Bool, true, false, not, ◌&&◌, Option, none, some, List, [], ◌∷◌, ltb,
  str_eq, elem, if◌then◌else◌,
}
use mllm_windows_ai_workbenc.Errors.{
  Exn, Result, ok, raise, guard, os_error, value_error, attribute_error, engine_unavailable,
}
use mllm_windows_ai_workbenc.Actions.{next, ◌>>=◌, ◌>>◌, pure, lift}
use mllm_windows_ai_workbenc.Engine.Model.{
  Capabilities, Endpoint, refused, silent, answers, Snapshot, Reading, absent, unreadable,
  undecodable, no_json, no_object, object, Facts, Config, Outside, terminate, write_state, Client,
  Run, ask, counted, control, set_process, set_flash, sleep, time_of, same_path,
}
use mllm_windows_ai_workbenc.Engine.Identity.{verify_capabilities, loopback, known_facts}
use mllm_windows_ai_workbenc.Engine.Release.{done, terminate_alive}

abbrev pub or_empty : Option String → String
or_empty none = ""
or_empty (some p) = p

abbrev pub is_for : Outside → Config → String → Snapshot → Bool
is_for env cfg model_path v =
    (elim v.base_url [ none ↦ false | some url ↦ str_eq url cfg.base_url ])
    && same_path env (or_empty v.model_path) model_path

-- `_restore_verified_state`
unfoldable pub restore : Outside → Config → String → Reading → Run (Unit {0})
restore env cfg model_path undecodable s = (raise value_error, s)
restore env cfg model_path no_object s = (raise attribute_error, s)
restore env cfg model_path (object v) s =
    if is_for env cfg model_path v then set_flash v.flash_attention s else (ok tt, s)
restore env cfg model_path absent s = (ok tt, s)
restore env cfg model_path unreadable s = (ok tt, s)
restore env cfg model_path no_json s = (ok tt, s)

unfoldable pub probe_answer : Outside → Config → String → Endpoint → Run Bool
probe_answer env cfg model_path refused = pure false
probe_answer env cfg model_path silent = pure false
probe_answer env cfg model_path (answers c) = lift (verify_capabilities env model_path c) >>= λ _.
    ask env.read >>= λ r. restore env cfg model_path r >>= λ _. pure true

-- `_probe`
unfoldable pub probe : Outside → Config → String → Run Bool
probe env cfg model_path = ask env.endpoint >>= λ e. probe_answer env cfg model_path e

abbrev pub child_of : Option ℕ → Result ℕ
child_of none = raise engine_unavailable
child_of (some pid) = ok pid

-- `_persist_state`
unfoldable pub persist_state : Outside → Config → Run (Unit {0})
persist_state env cfg s =
    next (guard env.has_psutil engine_unavailable, s)
      λ _ s.
        next (child_of s.process, s)
          λ pid s. next (ask (λ n. env.facts n pid) s) λ known s.
            next (known_facts known, s)
              λ f s. next (ask (λ n. env.alive n pid) s) λ alive s.
                next (guard (alive && same_path env f.exe cfg.executable) engine_unavailable, s)
                  λ _ s. next (control env write_state s) λ r s. (done r, s)

abbrev pub has_address : Config → Bool
has_address cfg =
    (elim cfg.url.host [ none ↦ false | some host ↦ elem host loopback ])
    && (elim cfg.url.port [ none ↦ false | some port ↦ true ])

-- What is checked before the process is started, where the engine is not there: then false.
unfoldable pub check_start : Outside → Config → Bool → Run Bool
check_start env cfg true = pure true
check_start env cfg false = lift (guard (not cfg.is_injected) engine_unavailable) >>= λ _.
    ask env.is_file >>= λ there. lift (guard (there && has_address cfg) engine_unavailable) >>= λ _.
    ask env.make_logs >>= λ made. lift (guard made os_error) >>= λ _. pure false

abbrev pub spawned : Option ℕ → Result ℕ
spawned none = raise engine_unavailable
spawned (some pid) = ok pid

-- `Popen`: the child of the client is replaced where it succeeds.
unfoldable pub start_process : Outside → Run ℕ
start_process env =
    ask env.spawn >>= λ p. lift (spawned p) >>= λ pid. set_process (some pid) >>= λ _. pure pid

unfoldable pub record_ready : Outside → Config → Bool → Run Bool
record_ready env cfg true = set_flash true >>= λ _. persist_state env cfg >>= λ _. pure true
record_ready env cfg false = pure false

-- The inside of the `try` of the loop: whether the engine has become ready.
unfoldable pub try_ready : Outside → Config → String → Run Bool
try_ready env cfg model_path = probe env cfg model_path >>= λ ready. record_ready env cfg ready

-- After the loop.
unfoldable pub give_up : Outside → ℕ → Run (Unit {0})
give_up env pid = ask (λ n. env.alive n pid) >>= λ alive.
    terminate_alive env pid alive >>= λ _. lift (raise engine_unavailable)

abbrev pub Ends : Type 0 → Type 0
Ends A = Option (Result A × Client)

-- The loop's body after the `try`: it returns, it goes on after a sleep, or it leaves the loop.
unfoldable pub after_try :
    Outside → ℕ → (Client → Ends (Unit {0})) → Result Bool × Client → Ends (Unit {0})
after_try env pid again (ok true, s) = some (ok tt, s)
after_try env pid again (ok false, s) = again (sleep 250 s).1
after_try env pid again (raise engine_unavailable, s) =
    if env.alive s.calls pid
    then again (sleep 250 ((ask (λ n. env.alive n pid) s).1)).1
    else some (give_up env pid ((ask (λ n. env.alive n pid) s).1))
after_try env pid again (raise e, s) = some (raise e, s)

abbrev pub poll_first :
    Outside → Config → ℕ → String → (Client → Ends (Unit {0})) → Bool → Client → Ends (Unit {0})
poll_first env cfg pid model_path again true s =
    after_try env pid again (try_ready env cfg model_path s)
poll_first env cfg pid model_path again false s = some (raise engine_unavailable, s)

abbrev pub in_time :
    Outside → Config → ℕ → String → (Client → Ends (Unit {0})) → Bool → Client → Ends (Unit {0})
in_time env cfg pid model_path again true s =
    poll_first env cfg pid model_path again (env.alive s.calls pid)
      ((ask (λ n. env.alive n pid) s).1)
in_time env cfg pid model_path again false s = some (give_up env pid s)

-- The loop of the start, on fuel; none says that the fuel was not enough.
unfoldable pub await_ready : Outside → Config → ℕ → String → ℕ → ℕ → Client → Ends (Unit {0})
await_ready env cfg pid model_path deadline zero s = none
await_ready env cfg pid model_path deadline (suc fuel) s =
    in_time env cfg pid model_path (await_ready env cfg pid model_path deadline fuel)
      (ltb (time_of env s) deadline) (counted s)

abbrev pub launched : Outside → Config → String → ℕ → Result ℕ × Client → Ends (Unit {0})
launched env cfg model_path fuel (raise e, s) = some (raise e, s)
launched env cfg model_path fuel (ok pid, s) =
    await_ready env cfg pid model_path (time_of env s + env.start_timeout) fuel (counted s)

abbrev pub checked : Outside → Config → String → ℕ → Result Bool × Client → Ends (Unit {0})
checked env cfg model_path fuel (raise e, s) = some (raise e, s)
checked env cfg model_path fuel (ok true, s) = some (ok tt, s)
checked env cfg model_path fuel (ok false, s) =
    launched env cfg model_path fuel (start_process env s)

-- `ensure_ready`
unfoldable pub ensure_ready : Outside → Config → String → ℕ → Client → Ends (Unit {0})
ensure_ready env cfg model_path fuel s =
    checked env cfg model_path fuel
      (next (probe env cfg model_path s) (λ ready. check_start env cfg ready))
