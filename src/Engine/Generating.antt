-- ===== src/Engine/Generating.antt =====
-- `generate` and `cancel`: one image by the resident engine.
pub mod Accepting
use mllm_windows_ai_workbenc.Prelude.{
  ℕ, zero, suc, ◌+◌, ◌-◌, String, Bool, true, false, ◌&&◌, ◌||◌, Option, none, some, List, [], ◌∷◌,
  ◌==◌, ltb, str_eq, if◌then◌else◌,
}
use mllm_windows_ai_workbenc.Errors.{
  Exn, Result, ok, raise, engine_unavailable, engine_failed, generation_cancelled,
}
use mllm_windows_ai_workbenc.Engine.Model.{
  Submission, rejected, accepted, Payload, no_payload, no_base64, decodes, Status, Config, Outside,
  posted, submitted, cancel_native, Client, ask, counted, control, sleep, time_of, perform,
}
use mllm_windows_ai_workbenc.Engine.Starting.{Ends, ensure_ready}

-- `PersistentGenerationResult`
pub record Generation : Type 0 where
  pub native_job_id : String
  pub image_bytes : List ℕ
  pub engine_wall_time_ms : ℕ
  pub postprocess_time_ms : ℕ
  pub flash_attention : Option Bool

unfoldable pub starts_with : List ℕ → List ℕ → Bool
starts_with [] bytes = true
starts_with (b ∷ bs) [] = false
starts_with (b ∷ bs) (c ∷ cs) = (b == c) && starts_with bs cs

-- b"\x89PNG\r\n\x1a\n"
abbrev pub png_signature : List ℕ
png_signature = 137 ∷ 80 ∷ 78 ∷ 71 ∷ 13 ∷ 10 ∷ 26 ∷ 10 ∷ []

-- `cancel`: a failure of the transport is swallowed.
unfoldable pub cancel : Outside → String → Client → Client
cancel env id s = (control env (cancel_native id) s).1

abbrev pub verified : Bool → Option Bool
verified true = some true
verified false = none

-- The image of a completed job; the times only grow, so no difference is cut off at 0. The time is read before and after the decoding.
unfoldable pub image_of : Outside → String → ℕ → Payload → Client → Result Generation × Client
image_of env id wall no_payload s = (raise engine_failed, s)
image_of env id wall no_base64 s = (raise engine_failed, counted s)
image_of env id wall (decodes bytes) s =
    if starts_with png_signature bytes
    then (
      ok record {
        native_job_id = id;
        image_bytes = bytes;
        engine_wall_time_ms = wall;
        postprocess_time_ms = time_of env (counted s) - time_of env s;
        flash_attention = verified s.flash_verified;
      },
      counted (counted s),
    )
    else (raise engine_failed, counted (counted s))

abbrev pub failure_of : String → Exn
failure_of status = if str_eq status "cancelled" then generation_cancelled else engine_failed

-- The body of the loop after the answer about the native job: it ends, or it goes on after a sleep.
unfoldable pub after_poll :
    Outside → String → ℕ → (Client → Ends Generation) → Option Status → Client → Ends Generation
after_poll env id started again none s = some (raise engine_failed, s)
after_poll env id started again (some v) s =
    if str_eq v.status "completed"
    then some (image_of env id (time_of env s - started) v.image (counted s))
    else if str_eq v.status "failed" || str_eq v.status "cancelled"
    then some (raise (failure_of v.status), s)
    else again (sleep 100 s).1

-- A cancellation of the job is seen before the engine is asked.
unfoldable pub watch :
    Outside → String → ℕ → (Client → Ends Generation) → Bool → Client → Ends Generation
watch env id started again true s = some (raise generation_cancelled, cancel env id s)
watch env id started again false s = after_poll env id started again (env.poll s.calls) (counted s)

unfoldable pub in_deadline :
    Outside → String → ℕ → (Client → Ends Generation) → Bool → Client → Ends Generation
in_deadline env id started again true s =
    watch env id started again (env.is_cancelled s.calls) (counted s)
in_deadline env id started again false s = some (raise engine_failed, s)

-- The loop over the native job, on fuel; none says that the fuel was not enough.
unfoldable pub await_image : Outside → String → ℕ → ℕ → ℕ → Client → Ends Generation
await_image env id started deadline zero s = none
await_image env id started deadline (suc fuel) s =
    in_deadline env id started (await_image env id started deadline fuel)
      (ltb (time_of env s) deadline) (counted s)

-- The answer has brought an id: `on_submitted` is told, and the deadline is set.
unfoldable pub accept : Outside → ℕ → ℕ → String → Client → Ends Generation
accept env fuel started id s =
    await_image env id started (time_of env s + env.generation_timeout) fuel
      (counted (perform (submitted id) s).1)

-- `POST /sdcpp/v1/img_gen`
unfoldable pub post : Outside → Client → Submission × Client
post env s = (env.submit s.calls, record (counted s) { acts = posted s.calls ∷ s.acts })

-- What the answer to the request says; where it brings no id, the engine may or may not have taken
-- the job.
unfoldable pub submit : Outside → ℕ → ℕ → Submission → Client → Ends Generation
submit env fuel started rejected s = some (raise engine_unavailable, s)
submit env fuel started (accepted none) s = some (raise engine_unavailable, s)
submit env fuel started (accepted (some id)) s =
    if str_eq id "" then some (raise engine_unavailable, s) else accept env fuel started id s

unfoldable pub when_ready : Outside → ℕ → Ends (Unit {0}) → Ends Generation
when_ready env fuel none = none
when_ready env fuel (some (raise e, s)) = some (raise e, s)
when_ready env fuel (some (ok u, s)) =
    let (p, t) = post env (counted s) in submit env fuel (time_of env s) p t

-- `generate`, with the fuel of the start and of the job.
unfoldable pub generate : Outside → Config → String → ℕ → ℕ → Client → Ends Generation
generate env cfg model_path fuel rounds s =
    when_ready env rounds (ensure_ready env cfg model_path fuel s)
