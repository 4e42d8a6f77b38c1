-- ===== src/Jobs/Fallback.antt =====
-- How `_run_persistent` takes the engine's answer, and when it falls back to the command line.
use mllm_windows_ai_workbenc.Prelude.{
  ℕ, ◌+◌, ◌*◌, ◌≤◌, ◌≡◌, sym, ◌∙◌, subst, String, Bool, true, false, ◌⊎◌, inl, inr, none, some,
}
use mllm_windows_ai_workbenc.Errors.{
  Exn, Result, ok, raise, os_error, key_error, value_error, runtime_error, type_error, index_error,
  worker_cancelled, attribute_error, api, engine_unavailable, engine_failed, generation_cancelled,
}
use mllm_windows_ai_workbenc.Jobs.Execution.{
  Persistent, unavailable, engine_cancelled, broken, engine_error, generated,
}
use mllm_windows_ai_workbenc.Engine.Model.{Config, Outside, Client}
use mllm_windows_ai_workbenc.Engine.Starting.{Ends}
use mllm_windows_ai_workbenc.Engine.Starting.Steps.{requests_of}
use mllm_windows_ai_workbenc.Engine.Starting.Ready.{Finishes}
use mllm_windows_ai_workbenc.Engine.Generating.{Generation, generate}
use mllm_windows_ai_workbenc.Engine.Generating.Accepting.{
  Accounted, Cancelled, Fails, Lost, Named, generate-Accounted,
}

-- The clauses of the `try`; `describe` is str(exc), and `summary` the text of the metadata.
-- The answers after which `_run_persistent` returns None, so that the command line runs, unless the
-- job has been cancelled.
unfoldable pub falls_back : Persistent → Bool
falls_back unavailable = true
falls_back engine_cancelled = true
falls_back broken = false
falls_back (engine_error text) = false
falls_back (generated id text) = false

module _ (describe : Exn → String) (summary : Generation → String) where
  unfoldable pub answer_of : Result Generation → Persistent
  answer_of (ok g) = generated g.native_job_id (summary g)
  answer_of (raise engine_unavailable) = unavailable
  answer_of (raise generation_cancelled) = engine_cancelled
  answer_of (raise engine_failed) = engine_error (describe engine_failed)
  answer_of (raise os_error) = engine_error (describe os_error)
  answer_of (raise key_error) = engine_error (describe key_error)
  answer_of (raise e) = broken

  raised-answer : (e : Exn) (id text : String) → answer_of (raise e) ≡ generated id text → ⊥
  unfolding answer_of
  raised-answer os_error id text h = absurd (cc (h))
  raised-answer value_error id text h = absurd (cc (h))
  raised-answer runtime_error id text h = absurd (cc (h))
  raised-answer type_error id text h = absurd (cc (h))
  raised-answer key_error id text h = absurd (cc (h))
  raised-answer index_error id text h = absurd (cc (h))
  raised-answer worker_cancelled id text h = absurd (cc (h))
  raised-answer attribute_error id text h = absurd (cc (h))
  raised-answer engine_unavailable id text h = absurd (cc (h))
  raised-answer engine_failed id text h = absurd (cc (h))
  raised-answer generation_cancelled id text h = absurd (cc (h))
  raised-answer (api a) id text h = absurd (cc (h))

  failed-answer :
      (env : Outside) (id : String) (e : Exn) (t : Client)
      → Fails env id e t
      → falls_back (answer_of (raise e)) ≡ true
      → Cancelled env id t
  unfolding answer_of falls_back
  failed-answer env id e t (inl h) a =
      absurd (cc (subst (λ e. falls_back (answer_of (raise e)) ≡ true) h a))
  failed-answer env id e t (inr (h, c)) a = c

  -- Where the command line may run instead, no request for an image was sent, or one whose answer
  -- brought no id, or the job of its id was cancelled; where the engine's image is taken, one request
  -- was sent, and its answer brought the id that is reported.
  abbrev pub Once : Outside → Client → Result Generation × Client → Type 0
  Once env s (o, t) =
      (falls_back (answer_of o) ≡ true
        → (requests_of t.acts ≡ requests_of s.acts)
          ⊎ Lost env s t
          ⊎ ((id : String) × Cancelled env id t × Named env id s t))
      × ((id text : String) → answer_of o ≡ generated id text → Named env id s t)

  Accounted-Once :
      (env : Outside) (model_path : String) (s : Client) (o : Result Generation × Client)
      → Accounted env model_path s o
      → Once env s o
  unfolding answer_of falls_back
  Accounted-Once env model_path s (ok g, t) (a, (id, d, j)) = (
    λ h. absurd (cc (h)),
    λ k text h.
        let same : g.native_job_id ≡ k = cc (h) in
        subst (λ i. Named env i s t) (sym d.job ∙ same) j,
  )
  Accounted-Once env model_path s (raise e, t) (inl (known, j)) =
      (λ h. inl j, λ id text h. absurd (raised-answer e id text h))
  Accounted-Once env model_path s (raise e, t) (inr (inl (h, l))) =
      (λ h. inr (inl l), λ id text h. absurd (raised-answer e id text h))
  Accounted-Once env model_path s (raise e, t) (inr (inr (id, f, j))) = (
    λ h. inr (inr (id, failed-answer env id e t f h, j)),
    λ id text h. absurd (raised-answer e id text h),
  )

  -- A generation ends. Where `_run_persistent` then returns None, so that the command line may run,
  -- at most one request for an image was sent: either none, or one whose answer brought no id, or one
  -- whose job was then cancelled, by the user with the engine told, or as the engine reported. Where
  -- it takes the engine's image, exactly one request was sent, and its answer brought the id of the
  -- job that is reported. The fuel has a round for each 250 ms of the start's timeout and each 100 ms
  -- of the generation's and one more each, and the clock never goes back.
  pub generate-Once :
      (env : Outside) (cfg : Config) (model_path : String) (fuel rounds : ℕ) (s : Client)
      → ((m n : ℕ) → m ≤ n → env.clock m ≤ env.clock n)
      → env.start_timeout + 250 ≤ 250 * fuel
      → env.generation_timeout + 100 ≤ 100 * rounds
      → Finishes (Once env s) (generate env cfg model_path fuel rounds s)
  generate-Once env cfg model_path fuel rounds s steady h k =
      go (generate env cfg model_path fuel rounds s)
        (generate-Accounted env cfg model_path fuel rounds s steady h k)
    where
      go : (o : Ends Generation) → Finishes (Accounted env model_path s) o → Finishes (Once env s) o
      go none f = f
      go (some o) f = Accounted-Once env model_path s o f
