-- ===== src/Jobs/Execution/Steps.antt =====
-- The small steps of an execution, and the attempt at the persistent engine.
use mllm_windows_ai_workbenc.Prelude.{
  String, ◌≡◌, refl, inl, inr, Bool, true, false, not, Option, none, some, put,
}
use mllm_windows_ai_workbenc.Jobs.Runner.{GenerateRequest}
use mllm_windows_ai_workbenc.Jobs.Execution.{
  World, Outside, Persistent, unavailable, engine_cancelled, broken, engine_error, generated,
  os_failure, breaks, undecodable, value, Exit, go, stop, thrown, X, ◌>>=◌, ◌>>◌, pure, throw, need,
  branch, pass_time, check_cancelled, set_native, set_invocation, set_process, keep_image,
  run_persistent,
}
use mllm_windows_ai_workbenc.Jobs.Execution.Outcomes.{
  Live, Mid, acquire-Mid, Post, Post-bind, Post-then, check_cancelled-Post, Answered-Mid,
}

-- What has to be there for a job to be complete.
pub record Delivered (ext : Outside) : Type 0 where
  pub output : ext.output_exists ≡ true
  pub metadata_file : ext.metadata_exists ≡ true
  pub text : String
  pub metadata : ext.metadata ≡ value text

-- The exceptions that `_execute` does not handle.
pub data Flaw (ext : Outside) : Type 0 where
  no_folders : ext.folders_ready ≡ false → Flaw ext
  engine_broke : ext.persistent ≡ broken → Flaw ext
  command_broke : ext.run ≡ breaks → Flaw ext
  runner_failed : (text : String) → ext.command_runner ≡ true → ext.run ≡ os_failure text → Flaw ext
  image_unwritten : ext.image_written ≡ false → Flaw ext
  no_logs : ext.logs_ready ≡ false → Flaw ext
  metadata_broke : ext.metadata ≡ undecodable → Flaw ext
  trace_failed : ext.trace_written ≡ false → Flaw ext

module _ (id : String) (request : GenerateRequest) (ext : Outside) where
  abbrev pub Run : {A : Type 0} → Exit A → Type 0
  Run {A} o = Post id (Delivered ext) (Flaw ext) {A = A} (λ a w. Mid id w) o

  pub Mid-native :
      (p : Option String) (w : World)
      → Mid id w
      → Mid id
          (record w { runner = record w.runner { native_jobs = put id p w.runner.native_jobs } })
  Mid-native p w (inl l) = inl (record {
    job = l.job;
    there = l.there;
    unfinished = l.unfinished;
    uncancelled = l.uncancelled;
    unmarked = l.unmarked;
  })
  Mid-native p w (inr d) =
      inr (record { job = d.job; there = d.there; was_cancelled = d.was_cancelled })

  pub Mid-process :
      (p : Option Bool) (w : World)
      → Mid id w
      → Mid id (record w { runner = record w.runner { processes = put id p w.runner.processes } })
  Mid-process p w (inl l) = inl (record {
    job = l.job;
    there = l.there;
    unfinished = l.unfinished;
    uncancelled = l.uncancelled;
    unmarked = l.unmarked;
  })
  Mid-process p w (inr d) =
      inr (record { job = d.job; there = d.there; was_cancelled = d.was_cancelled })

  pub Mid-invocation :
      (p : Bool) (w : World)
      → Mid id w
      → Mid id
          (record w { runner = record w.runner { invocations = put id p w.runner.invocations } })
  Mid-invocation p w (inl l) = inl (record {
    job = l.job;
    there = l.there;
    unfinished = l.unfinished;
    uncancelled = l.uncancelled;
    unmarked = l.unmarked;
  })
  Mid-invocation p w (inr d) =
      inr (record { job = d.job; there = d.there; was_cancelled = d.was_cancelled })

  pub native-Run : (p : Option String) (w : World) → Mid id w → Run (set_native id p w)
  unfolding set_native
  native-Run p w h = record { at = Mid-native p w h }

  pub process-Run : (p : Option Bool) (w : World) → Mid id w → Run (set_process id p w)
  unfolding set_process
  process-Run p w h = record { at = Mid-process p w h }

  pub invocation-Run : (p : Bool) (w : World) → Mid id w → Run (set_invocation id p w)
  unfolding set_invocation
  invocation-Run p w h = record { at = Mid-invocation p w h }

  pub time-Run : (w : World) → Mid id w → Run (pass_time id w)
  unfolding pass_time
  time-Run w h = record { at = acquire-Mid id w h }

  pub pure-Run : {A : Type 0} (a : A) (w : World) → Mid id w → Run (pure a w)
  unfolding pure
  pure-Run a w h = record { at = h }

  pub throw-Run : {A : Type 0} (w : World) → Flaw ext → Run (throw {A = A} w)
  unfolding throw
  throw-Run w f = record { at = inl f }

  -- A step that goes on at a live job.
  pub live : {o : Exit (Unit {0})} → Post id (Delivered ext) (Flaw ext) (λ a v. Live id v) o → Run o
  live {o} h = weaken o h
    where
      weaken :
          (o : Exit (Unit {0})) → Post id (Delivered ext) (Flaw ext) (λ a v. Live id v) o → Run o
      weaken (go a v) h = record { at = inl h.at }
      weaken (stop v) h = record { at = h.at }
      weaken (thrown v) h = record { at = h.at }

  abbrev pub then-Run :
      {B : Type 0} (w : World) (m : X (Unit {0})) (k : X B)
      → Run (m w)
      → ((v : World) → Mid id v → Run (k v))
      → Run ((m >> k) w)
  then-Run w m k h next = Post-then id (Delivered ext) (Flaw ext) w m k h next

  abbrev pub test-Run :
      {B : Type 0} (w : World) (k : Bool → X B)
      → Mid id w
      → ((b : Bool) (v : World) → Mid id v → Run (k b v))
      → Run ((check_cancelled id >>= k) w)
  test-Run w k h next =
      Post-bind id (Delivered ext) (Flaw ext) w (check_cancelled id) k
        (check_cancelled-Post id (Delivered ext) (Flaw ext) w h)
        λ b v q. next b v (Answered-Mid id (Delivered ext) (Flaw ext) (not b) v q)

  pub branch-Run :
      {A : Type 0} (b : Bool) (m k : X A) (w : World)
      → (b ≡ true → Run (m w))
      → (b ≡ false → Run (k w))
      → Run (branch b m k w)
  unfolding branch
  branch-Run true m k w h g = h refl
  branch-Run false m k w h g = g refl

  pub need-Run : (b : Bool) (w : World) → (b ≡ false → Flaw ext) → Mid id w → Run (need b w)
  unfolding need
  need-Run true w f h = record { at = h }
  need-Run false w f h = record { at = inl (f refl) }

  pub keep_image-Run :
      (b : Bool) (s : String) (w : World)
      → (b ≡ false → Flaw ext)
      → Mid id w
      → Run (keep_image id b s w)
  unfolding keep_image
  keep_image-Run b s w f h = test-Run w _ h λ c v q.
      branch-Run c _ _ v (λ e. pure-Run none v q)
        λ e. then-Run v _ _ (need-Run b v f q) λ u k. pure-Run _ u k

  pub run_persistent-Run :
      (p : Persistent) (w : World)
      → ext.persistent ≡ p
      → Mid id w
      → Run (run_persistent id ext.image_written p w)
  unfolding run_persistent
  run_persistent-Run unavailable w e h = then-Run w _ _ (native-Run none w h) λ v q. pure-Run _ v q
  run_persistent-Run engine_cancelled w e h =
      then-Run w _ _ (native-Run none w h) λ v q. pure-Run _ v q
  run_persistent-Run broken w e h =
      then-Run w _ _ (native-Run none w h) λ v q. throw-Run v (engine_broke e)
  run_persistent-Run (engine_error text) w e h =
      then-Run w _ _ (native-Run none w h) λ v q. pure-Run _ v q
  run_persistent-Run (generated native summary) w e h =
      then-Run w _ _ (native-Run (some native) w h) λ v q. then-Run v _ _ (time-Run v q) λ u s.
        then-Run u _ _ (native-Run none u s)
          λ t k. keep_image-Run ext.image_written summary t image_unwritten k
