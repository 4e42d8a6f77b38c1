-- ===== src/Jobs/Execution/Native.antt =====
-- The native paths of an execution: a command runner, or a process.
use mllm_windows_ai_workbenc.Prelude.{
  String, ◌≡◌, refl, inl, inr, Bool, true, false, not, ◌&&◌, Option, none, some, &&-eq-true,
}
use mllm_windows_ai_workbenc.Jobs.Runner.{GenerateRequest}
use mllm_windows_ai_workbenc.Jobs.Execution.{
  World, Outside, Command, os_failure, breaks, returns, NativeRunResult, Exit, X, ◌>>=◌, ◌>>◌, pure,
  throw, branch, check_cancelled, command_result, run_command_runner, process_result, run_process,
  run_native,
}
use mllm_windows_ai_workbenc.Jobs.Execution.Outcomes.{
  Dead, Mid, Post, Answered, Post-bind, Post-then, check_cancelled-Post, Answered-Mid,
}
use mllm_windows_ai_workbenc.Jobs.Execution.Steps.{
  Delivered, Flaw, command_broke, runner_failed, no_logs, Run, process-Run, invocation-Run,
  time-Run, need-Run,
}

module _ (id : String) (request : GenerateRequest) (ext : Outside) where
  -- A result, or none where the job is cancelled.
  abbrev pub Gave : Option NativeRunResult → World → Type 0
  Gave none w = Dead id w
  Gave (some x) w = Mid id w

  abbrev pub Gives : Exit (Option NativeRunResult) → Type 0
  Gives o = Post id (Delivered ext) (Flaw ext) Gave o

  pub result-Gives : (x : NativeRunResult) (w : World) → Mid id w → Gives (pure (some x) w)
  unfolding pure
  result-Gives x w h = record { at = h }

  pub none-Gives : (w : World) → Dead id w → Gives (pure none w)
  unfolding pure
  none-Gives w h = record { at = h }

  pub throw-Gives : (w : World) → Flaw ext → Gives (throw w)
  unfolding throw
  throw-Gives w f = record { at = inl f }

  abbrev pub then-Gives :
      (w : World) (m : X (Unit {0})) (k : X (Option NativeRunResult))
      → Run id request ext (m w)
      → ((v : World) → Mid id v → Gives (k v))
      → Gives ((m >> k) w)
  then-Gives w m k h next = Post-then id (Delivered ext) (Flaw ext) w m k h next

  pub command_result-Gives :
      (c : Command) (w : World)
      → ext.run ≡ c
      → ext.command_runner ≡ true
      → Mid id w
      → Gives (command_result id c w)
  unfolding command_result
  command_result-Gives (os_failure text) w e r h =
      then-Gives w _ _ (invocation-Run id request ext false w h)
        λ v q. throw-Gives v (runner_failed text r e)
  command_result-Gives breaks w e r h =
      then-Gives w _ _ (invocation-Run id request ext false w h)
        λ v q. throw-Gives v (command_broke e)
  command_result-Gives (returns x) w e r h =
      then-Gives w _ _ (invocation-Run id request ext false w h) λ v q. result-Gives _ v q

  pub process_result-Gives :
      (c : Command) (w : World) → ext.run ≡ c → Mid id w → Gives (process_result id c w)
  unfolding process_result
  process_result-Gives (os_failure text) w e h =
      then-Gives w _ _ (process-Run id request ext none w h) λ v q. result-Gives _ v q
  process_result-Gives breaks w e h =
      then-Gives w _ _ (process-Run id request ext none w h) λ v q. throw-Gives v (command_broke e)
  process_result-Gives (returns x) w e h =
      then-Gives w _ _ (process-Run id request ext none w h) λ v q. result-Gives _ v q

  pub branch-Gives :
      (b : Bool) (m k : X (Option NativeRunResult)) (w : World)
      → (b ≡ true → Gives (m w))
      → (b ≡ false → Gives (k w))
      → Gives (branch b m k w)
  unfolding branch
  branch-Gives true m k w h g = h refl
  branch-Gives false m k w h g = g refl

  abbrev pub AnsweredNot : Bool → World → Type 0
  AnsweredNot b v = Answered id (Delivered ext) (Flaw ext) (not b) v

  pub Dead-of : (b : Bool) (v : World) → b ≡ true → AnsweredNot b v → Dead id v
  Dead-of b v e (inl h) = absurd (cc (h.0, e))
  Dead-of b v e (inr h) = h.1

  pub Mid-of : (b : Bool) (v : World) → AnsweredNot b v → Mid id v
  Mid-of b v h = Answered-Mid id (Delivered ext) (Flaw ext) (not b) v h

  abbrev pub asked-Gives :
      (w : World) (k : Bool → X (Option NativeRunResult))
      → Mid id w
      → ((b : Bool) (v : World) → AnsweredNot b v → Gives (k b v))
      → Gives ((check_cancelled id >>= k) w)
  asked-Gives w k h next =
      Post-bind id (Delivered ext) (Flaw ext) w (check_cancelled id) k
        (check_cancelled-Post id (Delivered ext) (Flaw ext) w h) next

  pub command_runner-Gives :
      (w : World) → ext.command_runner ≡ true → Mid id w → Gives (run_command_runner id ext.run w)
  unfolding run_command_runner
  command_runner-Gives w r h = asked-Gives w _ h λ b v q.
      branch-Gives b _ _ v (λ e. none-Gives v (Dead-of b v e q))
        λ e. then-Gives v _ _ (invocation-Run id request ext true v (Mid-of b v q)) λ u s.
          then-Gives u _ _ (time-Run id request ext u s)
            λ t k. command_result-Gives ext.run t refl r k

  pub run_process-Gives : (w : World) → Mid id w → Gives (run_process id ext.logs_ready ext.run w)
  unfolding run_process
  run_process-Gives w h =
      then-Gives w _ _ (need-Run id request ext ext.logs_ready w no_logs h) λ w₁ h₁.
        asked-Gives w₁ _ h₁ λ b v q.
          branch-Gives b _ _ v (λ e. none-Gives v (Dead-of b v e q))
            λ e. then-Gives v _ _ (process-Run id request ext (some true) v (Mid-of b v q)) λ u s.
              then-Gives u _ _ (time-Run id request ext u s)
                λ t k. process_result-Gives ext.run t refl k

  pub run_native-Gives :
      (o : Option NativeRunResult) (w : World) → Mid id w → Gives (run_native id ext o w)
  unfolding run_native
  run_native-Gives (some x) w h = result-Gives x w h
  run_native-Gives none w h = asked-Gives w _ h λ b v q.
      branch-Gives (not b && ext.command_runner) _ _ v
        (λ e. command_runner-Gives v (&&-eq-true (not b) ext.command_runner e).1 (Mid-of b v q))
        λ e. asked-Gives v _ (Mid-of b v q) λ c u s.
          branch-Gives c _ _ u (λ e. none-Gives u (Dead-of c u e s))
            λ e. run_process-Gives u (Mid-of c u s)
