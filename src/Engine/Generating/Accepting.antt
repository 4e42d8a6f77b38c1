-- ===== src/Engine/Generating/Accepting.antt =====
-- What a generation answers for: the native job, its image, and its failures.
use mllm_windows_ai_workbenc.Prelude.{
  ℕ, zero, suc, ◌+◌, ◌-◌, ◌*◌, ◌≤◌, ◌≡◌, refl, ap, ◌∙◌, String, Bool, true, false, ◌||◌, ◌⊎◌, inl,
  inr, Option, none, some, List, ◌∷◌, arith, ltb, ltb→lt, str_eq, str_eq_iff, if◌then◌else◌,
}
use mllm_windows_ai_workbenc.Errors.{
  Exn, Result, ok, raise, engine_unavailable, engine_failed, generation_cancelled,
}
use mllm_windows_ai_workbenc.Actions.{PostAt}
use mllm_windows_ai_workbenc.Engine.Model.{
  Submission, rejected, accepted, Payload, no_payload, no_base64, decodes, Status, Config, Outside,
  Act, posted, submitted, cancel_native, Client, counted, sleep, time_of, perform,
}
use mllm_windows_ai_workbenc.Engine.Release.Facts.{Answers}
use mllm_windows_ai_workbenc.Engine.Starting.{Ends, ensure_ready}
use mllm_windows_ai_workbenc.Engine.Starting.Steps.{requests_of, Known}
use mllm_windows_ai_workbenc.Engine.Starting.Ready.{Finishes, Settled, ensure_ready-Settled}
use mllm_windows_ai_workbenc.Engine.Generating.{
  Generation, starts_with, png_signature, verified, cancel, image_of, failure_of, after_poll, watch,
  in_deadline, await_image, accept, post, submit, when_ready, generate,
}

-- The job was cancelled by the user, and then the last effect asks the engine to, or by the engine.
abbrev pub Cancelled : Outside → String → Client → Type 0
Cancelled env id t =
    ((n : ℕ) × (env.is_cancelled n ≡ true)
      × ((acts : List Act) × (t.acts ≡ cancel_native id ∷ acts)))
    ⊎ ((n : ℕ) × (v : Status) × (env.poll n ≡ some v) × (v.status ≡ "cancelled"))

-- A failure after the answer to the request has brought the id of a job.
abbrev pub Fails : Outside → String → Exn → Client → Type 0
Fails env id e t = (e ≡ engine_failed) ⊎ ((e ≡ generation_cancelled) × Cancelled env id t)

-- The image of a job that the engine has reported as completed.
pub record Delivers (env : Outside) (id : String) (g : Generation) : Type 0 where
  pub job : g.native_job_id ≡ id
  pub call : ℕ
  pub status : Status
  pub answer : env.poll call ≡ some status
  pub completed : status.status ≡ "completed"
  pub image : status.image ≡ decodes g.image_bytes
  pub png : starts_with png_signature g.image_bytes ≡ true

abbrev pub Concludes : Outside → String → List Act → Result Generation × Client → Type 0
Concludes env id jobs o =
    PostAt (λ g t. Delivers env id g × (requests_of t.acts ≡ jobs))
      (λ e t. Fails env id e t × (requests_of t.acts ≡ jobs)) o

image_of-Concludes :
    (env : Outside) (id : String) (jobs : List Act) (wall n : ℕ) (v : Status) (s : Client)
    → env.poll n ≡ some v
    → v.status ≡ "completed"
    → requests_of s.acts ≡ jobs
    → Concludes env id jobs (image_of env id wall v.image s)
unfolding image_of
image_of-Concludes env id jobs wall n v s h c j = go v.image refl
  where
    go : (p : Payload) → v.image ≡ p → Concludes env id jobs (image_of env id wall p s)
    go no_payload e = (inl refl, j)
    go no_base64 e = (inl refl, j)
    go (decodes bytes) e = png (starts_with png_signature bytes) refl
      where
        png :
            (b : Bool)
            → starts_with png_signature bytes ≡ b
            → Concludes env id jobs (
                if b
                then (
                  ok record {
                    native_job_id = id;
                    image_bytes = bytes;
                    engine_wall_time_ms = wall;
                    postprocess_time_ms = time_of env (counted s) - time_of env s;
                    flash_attention = verified s.flash_verified;
                  },
                  counted (counted s),
                )
                else (raise engine_failed, counted (counted s)))
        png true p = (
          record {
            job = refl;
            call = n;
            status = v;
            answer = h;
            completed = c;
            image = e;
            png = p;
          },
          j,
        )
        png false p = (inl refl, j)

module _ (env : Outside) (steady : (m n : ℕ) → m ≤ n → env.clock m ≤ env.clock n) (id : String)
    (started : ℕ) (jobs : List Act) where
  -- The next round: later, and with the same native jobs.
  abbrev Again : (Client → Ends Generation) → Client → Type 0
  Again again s =
      (u : Client)
      → requests_of u.acts ≡ jobs
      → time_of env s + 100 ≤ time_of env u
      → Finishes (Concludes env id jobs) (again u)

  after_poll-Concludes :
      (again : Client → Ends Generation) (n : ℕ) (o : Option Status) (s : Client)
      → env.poll n ≡ o
      → requests_of s.acts ≡ jobs
      → Again again s
      → Finishes (Concludes env id jobs) (after_poll env id started again o s)
  unfolding after_poll
  after_poll-Concludes again n none s h j k = (inl refl, j)
  after_poll-Concludes again n (some v) s h j k = go (str_eq v.status "completed") refl
    where
      stopped :
          (b : Bool)
          → str_eq v.status "cancelled" ≡ b
          → Fails env id (if b then generation_cancelled else engine_failed) s
      stopped true e = inr (refl, inr (n, v, h, (str_eq_iff v.status "cancelled").0 e))
      stopped false e = inl refl

      ends :
          (b : Bool)
          → Finishes
              (Concludes env id jobs)
              (if b then some (raise (failure_of v.status), s) else again (sleep 100 s).1)
      ends true = (stopped (str_eq v.status "cancelled") refl, j)
      ends false = k ((sleep 100 s).1) j (omega arith)

      go :
          (b : Bool)
          → str_eq v.status "completed" ≡ b
          → Finishes (Concludes env id jobs) (
              if b
              then some (image_of env id (time_of env s - started) v.image (counted s))
              else if str_eq v.status "failed" || str_eq v.status "cancelled"
              then some (raise (failure_of v.status), s)
              else again (sleep 100 s).1)
      go true e =
          image_of-Concludes env id jobs (time_of env s - started) n v (counted s) h
            ((str_eq_iff v.status "completed").0 e) j
      go false e = ends (str_eq v.status "failed" || str_eq v.status "cancelled")

  watch-Concludes :
      (again : Client → Ends Generation) (n : ℕ) (b : Bool) (s : Client)
      → env.is_cancelled n ≡ b
      → requests_of s.acts ≡ jobs
      → Again again (counted s)
      → Finishes (Concludes env id jobs) (watch env id started again b s)
  unfolding watch cancel
  watch-Concludes again n true s h j k = (inr (refl, inl (n, h, (s.acts, refl))), j)
  watch-Concludes again n false s h j k =
      after_poll-Concludes again s.calls (env.poll s.calls) (counted s) refl j k

  in_deadline-Concludes :
      (again : Client → Ends Generation) (b : Bool) (s : Client)
      → requests_of s.acts ≡ jobs
      → (b ≡ true → Again again (counted (counted s)))
      → Finishes (Concludes env id jobs) (in_deadline env id started again b s)
  unfolding in_deadline
  in_deadline-Concludes again false s j k = (inl refl, j)
  in_deadline-Concludes again true s j k =
      watch-Concludes again s.calls (env.is_cancelled s.calls) (counted s) refl j (k refl)

  await_image-Concludes :
      (deadline fuel : ℕ) (s : Client)
      → requests_of s.acts ≡ jobs
      → 1 ≤ fuel
      → deadline + 100 ≤ time_of env s + 100 * fuel
      → Finishes (Concludes env id jobs) (await_image env id started deadline fuel s)
  unfolding await_image
  await_image-Concludes deadline zero s j one enough = absurd (omega (arith, one))
  await_image-Concludes deadline (suc fuel) s j one enough =
      in_deadline-Concludes (await_image env id started deadline fuel)
        (ltb (time_of env s) deadline) (counted s) j
        λ h u i later.
          let earlier = steady s.calls (suc (suc (suc s.calls))) (omega arith) in
          let before = ltb→lt (time_of env s) deadline h in
          await_image-Concludes deadline fuel u i (omega (arith, before, enough))
            (omega (arith, enough, later, earlier))

-- The answer to a request brings no id of a job.
abbrev pub Unnamed : Submission → Type 0
Unnamed p = (p ≡ rejected) ⊎ (p ≡ accepted none) ⊎ (p ≡ accepted (some ""))

-- One request was sent, and its answer has brought this id.
pub record Named (env : Outside) (id : String) (s t : Client) : Type 0 where
  pub call : ℕ
  pub answer : env.submit call ≡ accepted (some id)
  pub requests : requests_of t.acts ≡ submitted id ∷ posted call ∷ requests_of s.acts

-- One request was sent, and its answer has brought none.
pub record Lost (env : Outside) (s t : Client) : Type 0 where
  pub call : ℕ
  pub answer : Unnamed (env.submit call)
  pub requests : requests_of t.acts ≡ posted call ∷ requests_of s.acts

-- An image after one request; or a failure before a request, of the request, or after its id.
abbrev pub Accounted : Outside → String → Client → Result Generation × Client → Type 0
Accounted env model_path s o =
    PostAt (λ g t. Answers env model_path × ((id : String) × Delivers env id g × Named env id s t))
      (λ e t.
        (Known e × (requests_of t.acts ≡ requests_of s.acts))
        ⊎ ((e ≡ engine_unavailable) × Lost env s t)
        ⊎ ((id : String) × Fails env id e t × Named env id s t))
      o

Concludes-Accounted :
    (env : Outside) (model_path id : String) (n : ℕ) (s : Client) (o : Ends Generation)
    → Answers env model_path
    → env.submit n ≡ accepted (some id)
    → Finishes (Concludes env id (submitted id ∷ posted n ∷ requests_of s.acts)) o
    → Finishes (Accounted env model_path s) o
Concludes-Accounted env model_path id n s (some (ok g, t)) a e f =
    (a, (id, f.0, record { call = n; answer = e; requests = f.1 }))
Concludes-Accounted env model_path id n s (some (raise x, t)) a e f =
    inr (inr (id, f.0, record { call = n; answer = e; requests = f.1 }))
Concludes-Accounted env model_path id n s none a e f = f

module _ (env : Outside) (steady : (m n : ℕ) → m ≤ n → env.clock m ≤ env.clock n)
    (model_path : String) (fuel started : ℕ) (s t : Client)
    (enough : env.generation_timeout + 100 ≤ 100 * fuel) (a : Answers env model_path) (n : ℕ)
    (j : requests_of t.acts ≡ posted n ∷ requests_of s.acts) where
  accept-Accounted :
      (id : String)
      → env.submit n ≡ accepted (some id)
      → Finishes (Accounted env model_path s) (accept env fuel started id t)
  unfolding accept
  accept-Accounted id e =
      let u = counted ((perform (submitted id) t).1) in
      let earlier = steady t.calls (suc t.calls) (omega arith) in
      Concludes-Accounted env model_path id n s (accept env fuel started id t) a e (
        await_image-Concludes env steady id started (submitted id ∷ posted n ∷ requests_of s.acts)
          (time_of env t + env.generation_timeout) fuel u (ap (λ js. submitted id ∷ js) j)
          (omega (arith, enough)) (omega (arith, enough, earlier)))

  submit-Accounted :
      (p : Submission)
      → env.submit n ≡ p
      → Finishes (Accounted env model_path s) (submit env fuel started p t)
  unfolding submit
  submit-Accounted rejected e = inr (inl (refl, record { call = n; answer = inl e; requests = j }))
  submit-Accounted (accepted none) e =
      inr (inl (refl, record { call = n; answer = inr (inl e); requests = j }))
  submit-Accounted (accepted (some id)) e = go (str_eq id "") refl
    where
      go :
          (b : Bool)
          → str_eq id "" ≡ b
          → Finishes
              (Accounted env model_path s)
              (if b then some (raise engine_unavailable, t) else accept env fuel started id t)
      go true h =
          let same = (str_eq_iff id "").0 h in
          inr (
            inl (
              refl,
              record {
                call = n;
                answer = inr (inr (e ∙ ap (λ i. accepted (some i)) same));
                requests = j;
              },
            ))
      go false h = accept-Accounted id e

pub generate-Accounted :
    (env : Outside) (cfg : Config) (model_path : String) (fuel rounds : ℕ) (s : Client)
    → ((m n : ℕ) → m ≤ n → env.clock m ≤ env.clock n)
    → env.start_timeout + 250 ≤ 250 * fuel
    → env.generation_timeout + 100 ≤ 100 * rounds
    → Finishes (Accounted env model_path s) (generate env cfg model_path fuel rounds s)
unfolding generate when_ready post
generate-Accounted env cfg model_path fuel rounds s steady enough enough' =
    go (ensure_ready env cfg model_path fuel s)
      (ensure_ready-Settled env cfg model_path fuel s steady enough)
  where
    go :
        (o : Ends (Unit {0}))
        → Finishes (Settled env model_path s) o
        → Finishes (Accounted env model_path s) (when_ready env rounds o)
    go none f = f
    go (some (raise e, t)) (known, child, j) = inl (known, j)
    go (some (ok u, t)) (a, j) =
        let n = suc t.calls in
        submit-Accounted env steady model_path rounds (time_of env t) s
          (record (counted (counted t)) { acts = posted n ∷ t.acts }) enough' a n
          (ap (λ js. posted n ∷ js) j) (env.submit n) refl
