-- ===== src/Jobs/Execution/Endings.antt =====
-- How an execution of job_runner.py ends, over all its parts.
use mllm_windows_ai_workbenc.Prelude.{
  String, ◌≡◌, refl, ◌⊎◌, inl, inr, Bool, true, false, not, ◌&&◌, ◌||◌, Option, none, some, ◌==◌,
  all_of, Bool-cases, &&-eq-true, ||-eq-false,
}
use mllm_windows_ai_workbenc.Jobs.Runner.{GenerateRequest}
use mllm_windows_ai_workbenc.Jobs.Execution.{
  World, Outside, Metadata, unreadable, undecodable, value, NativeRunResult, Exit, go, stop, thrown,
  X, ◌>>◌, throw, need, finish, branch, is_off, stop_unless, complete_job, inspect_output, judge,
  pass_barriers, uses_persistent, execute,
}
use mllm_windows_ai_workbenc.Jobs.Execution.Outcomes.{
  Mid, Terminal, Post, Post-bind, Post-then, proceed-Post, conclude-Post, check_cancelled-Post,
}
use mllm_windows_ai_workbenc.Jobs.Execution.Steps.{
  Delivered, Flaw, no_folders, metadata_broke, trace_failed, Run, pure-Run, live, branch-Run,
  need-Run, run_persistent-Run,
}
use mllm_windows_ai_workbenc.Jobs.Execution.Native.{Gave, AnsweredNot, run_native-Gives}

module _ (id : String) (request : GenerateRequest) (ext : Outside) where
  -- No way to go on: the run of the job is over.
  abbrev Closes : Exit (Unit {0}) → Type 0
  Closes o = Post id (Delivered ext) (Flaw ext) {A = Unit {0}} (λ a w. ⊥) o

  throw-Closes : (w : World) → Flaw ext → Closes (throw w)
  unfolding throw
  throw-Closes w f = record { at = inl f }

  abbrev then-Closes :
      (w : World) (m k : X (Unit {0}))
      → Run id request ext (m w)
      → ((v : World) → Mid id v → Closes (k v))
      → Closes ((m >> k) w)
  then-Closes w m k h next = Post-then id (Delivered ext) (Flaw ext) w m k h next

  branch-Closes :
      (b : Bool) (m k : X (Unit {0})) (w : World)
      → (b ≡ true → Closes (m w))
      → (b ≡ false → Closes (k w))
      → Closes (branch b m k w)
  unfolding branch
  branch-Closes true m k w h g = h refl
  branch-Closes false m k w h g = g refl

  complete_job-Closes :
      (m : Metadata) (w : World)
      → ext.metadata ≡ m
      → ext.output_exists ≡ true
      → ext.metadata_exists ≡ true
      → Mid id w
      → Closes (complete_job id ext request m w)
  unfolding complete_job
  complete_job-Closes (unreadable text) w e o x h =
      conclude-Post id (Delivered ext) (Flaw ext) _ w refl (λ p. cc) h
  complete_job-Closes undecodable w e o x h = throw-Closes w (metadata_broke e)
  complete_job-Closes (value text) w e o x h =
      then-Closes w _ _ (traced w (Bool-cases (is_off request.trace_level || ext.trace_written)) h)
        λ v q.
          conclude-Post id (Delivered ext) (Flaw ext) _ v refl
            (λ p. record { output = o; metadata_file = x; text = text; metadata = e }) q
    where
      traced :
          (w : World)
          → ((is_off request.trace_level || ext.trace_written) ≡ true)
            ⊎ ((is_off request.trace_level || ext.trace_written) ≡ false)
          → Mid id w
          → Run id request ext (need (is_off request.trace_level || ext.trace_written) w)
      traced w (inl t) h = unfold need in rw t (record { at = h })
      traced w (inr t) h =
          unfold need in
          rw t (record {
            at =
                inl (trace_failed (||-eq-false (is_off request.trace_level) ext.trace_written t).1);
          })

  inspect_output-Closes : (w : World) → Mid id w → Closes (inspect_output id ext request w)
  unfolding inspect_output
  inspect_output-Closes w h =
      then-Closes w _ _
        (live id request ext (proceed-Post id (Delivered ext) (Flaw ext) _ w refl refl h))
        λ v q.
          branch-Closes (ext.output_exists && ext.metadata_exists) _ _ v
            (λ e.
              let (o, x) = &&-eq-true ext.output_exists ext.metadata_exists e in
              complete_job-Closes ext.metadata v refl o x q)
            λ e. conclude-Post id (Delivered ext) (Flaw ext) _ v refl (λ p. cc) q

  stop_unless-Run :
      (b : Bool) (w : World)
      → AnsweredNot id request ext b w
      → Run id request ext (stop_unless (not b) w)
  unfolding stop_unless
  stop_unless-Run b w (inl h) = rw h.0 (record { at = inl h.1 })
  stop_unless-Run b w (inr h) = rw h.0 (record { at = inr h.1 })

  judge-Closes :
      (o : Option NativeRunResult) (w : World)
      → Gave id request ext o w
      → Closes (judge id ext request o w)
  unfolding judge finish
  judge-Closes none w h = record { at = inr h }
  judge-Closes (some x) w h =
      Post-bind id (Delivered ext) (Flaw ext) w _ _
        (check_cancelled-Post id (Delivered ext) (Flaw ext) w h)
        λ b v q. then-Closes v _ _ (stop_unless-Run b v q) λ u s.
          branch-Closes (x.returncode == 0) _ _ u (λ e. inspect_output-Closes u s)
            λ e. conclude-Post id (Delivered ext) (Flaw ext) _ u refl (λ p. cc) s

  barriers-Run : (w : World) → Mid id w → Run id request ext (pass_barriers id ext w)
  unfolding pass_barriers
  barriers-Run w h =
      branch-Run id request ext (all_of (λ b. b) ext.barriers) _ _ w
        (λ e. pure-Run id request ext tt w h)
        λ e. conclude-Post id (Delivered ext) (Flaw ext) _ w refl (λ p. cc) h

  execute-Closes : (w : World) → Mid id w → Closes (execute id request ext w)
  unfolding execute
  execute-Closes w h =
      then-Closes w _ _
        (live id request ext (proceed-Post id (Delivered ext) (Flaw ext) _ w refl refl h))
        λ v q. then-Closes v _ _ (barriers-Run v q) λ u s.
          then-Closes u _ _ (need-Run id request ext ext.folders_ready u no_folders s) λ t k.
            then-Closes t _ _
              (live id request ext (proceed-Post id (Delivered ext) (Flaw ext) _ t refl refl k))
              λ w₁ h₁.
                Post-bind id (Delivered ext) (Flaw ext) w₁ _ _
                  (check_cancelled-Post id (Delivered ext) (Flaw ext) w₁ h₁)
                  λ b w₂ h₂. then-Closes w₂ _ _ (stop_unless-Run b w₂ h₂) λ w₃ h₃.
                    Post-bind id (Delivered ext) (Flaw ext) w₃ _ _
                      (branch-Run id request ext (uses_persistent ext request) _ _ w₃
                        (λ e. run_persistent-Run id request ext ext.persistent w₃ refl h₃)
                        (λ e. pure-Run id request ext none w₃ h₃))
                      λ o w₄ h₄.
                        Post-bind id (Delivered ext) (Flaw ext) w₄ _ _
                          (run_native-Gives id request ext o w₄ h₄) λ p w₅ h₅. judge-Closes p w₅ h₅

-- Where the outside raises nothing that `_execute` leaves unhandled and the job's record is written,
-- an execution of an unfinished
-- job in memory returns; then the job is cancelled, or it is complete or failed and was never marked for
-- cancellation, and complete only if both output files exist and the metadata was read. It ends by an
-- exception only for one of the listed flaws, or where the last write of the job's record has
-- failed. Clients may cancel before any locked section, and any write may fail.
pub execute_ends :
    (id : String) (request : GenerateRequest) (ext : Outside) (w : World)
    → Mid id w
    → ((v : World) × (execute id request ext w ≡ stop v) × Terminal id (Delivered ext) (Flaw ext) v)
      ⊎ ((v : World) × (execute id request ext w ≡ thrown v)
          × (Flaw ext ⊎ (v.runner.unsaved id ≡ true)))
execute_ends id request ext w h =
    read (execute id request ext w) refl (execute-Closes id request ext w h)
  where
    read :
        (o : Exit (Unit {0}))
        → execute id request ext w ≡ o
        → Closes id request ext o
        → ((v : World) × (execute id request ext w ≡ stop v)
            × Terminal id (Delivered ext) (Flaw ext) v)
          ⊎ ((v : World) × (execute id request ext w ≡ thrown v)
              × (Flaw ext ⊎ (v.runner.unsaved id ≡ true)))
    read (go a v) e c = absurd c.at
    read (stop v) e c = inl (v, e, c.at)
    read (thrown v) e c = inr (v, e, c.at)
