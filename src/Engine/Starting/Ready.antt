-- ===== src/Engine/Starting/Ready.antt =====
-- How `ensure_ready` ends, and what becomes of the process that it starts.
use mllm_windows_ai_workbenc.Prelude.{
  ℕ, zero, suc, ◌+◌, ◌*◌, ◌≤◌, ◌≡◌, refl, sym, ◌∙◌, subst, String, Bool, true, false, ◌⊎◌, inl, inr,
  Option, none, some, List, ◌∷◌, arith, ltb, ltb→lt, if◌then◌else◌,
}
use mllm_windows_ai_workbenc.Errors.{Exn, Result, ok, raise, engine_unavailable}
use mllm_windows_ai_workbenc.Actions.{next, PostAt}
use mllm_windows_ai_workbenc.Engine.Model.{
  Reply, finished, timed_out, failed_reply, Config, Outside, Act, terminate, Client, ask, counted,
  sleep, time_of, set_process,
}
use mllm_windows_ai_workbenc.Engine.Release.{done, terminate_alive, terminate_process}
use mllm_windows_ai_workbenc.Engine.Release.Facts.{Answers}
use mllm_windows_ai_workbenc.Engine.Starting.{
  probe, spawned, check_start, start_process, try_ready, give_up, Ends, after_try, poll_first,
  in_time, await_ready, launched, checked, ensure_ready,
}
use mllm_windows_ai_workbenc.Engine.Starting.Steps.{
  requests_of, Leaks, Known, Onward, Onward-refl, Onward-counted, Goes, next-Goes, Seen, probe-Goes,
  check_start-Goes, try_ready-Goes,
}

-- The process was seen to have exited, or the last effect asks it to.
abbrev pub Stopped : Outside → ℕ → Client → Type 0
Stopped env pid t =
    ((n : ℕ) × (env.alive n pid ≡ false)) ⊎ ((acts : List Act) × (t.acts ≡ terminate pid ∷ acts))

-- After a failure: no process was started, or the one that was is stopped, unless the exception is
-- one that `ensure_ready` lets through.
abbrev pub Child : Outside → Client → Exn → Client → Type 0
Child env s e t =
    (t.process ≡ s.process) ⊎ ((pid : ℕ) × (t.process ≡ some pid) × (Stopped env pid t ⊎ Leaks e))

abbrev pub Settled : Outside → String → Client → Result (Unit {0}) × Client → Type 0
Settled env model_path s o =
    PostAt (λ u t. Answers env model_path × (requests_of t.acts ≡ requests_of s.acts))
      (λ e t. Known e × Child env s e t × (requests_of t.acts ≡ requests_of s.acts)) o

-- The client has this child, and no image has been asked for meanwhile.
abbrev Owned : Client → ℕ → Client → Type 0
Owned s pid t = (t.process ≡ some pid) × (requests_of t.acts ≡ requests_of s.acts)

-- The fuel was enough, and the end is as stated.
abbrev pub Finishes : {A : Type 0} → (Result A × Client → Type 0) → Ends A → Type 0
Finishes P none = ⊥
Finishes P (some o) = P o

give_up-Settled :
    (env : Outside) (model_path : String) (s : Client) (pid : ℕ) (t : Client)
    → Owned s pid t
    → Settled env model_path s (give_up env pid t)
unfolding give_up terminate_alive terminate_process
give_up-Settled env model_path s pid t own = go (env.alive t.calls pid) refl
  where
    go :
        (b : Bool)
        → env.alive t.calls pid ≡ b
        → Settled env model_path s
            (next (terminate_alive env pid b (counted t)) (λ _ s. (raise engine_unavailable, s)))
    go false e = (inl refl, inr (pid, own.0, inl (inl (t.calls, e))), own.1)
    go true e = ends (env.reply (suc t.calls))
      where
        ends :
            (r : Reply)
            → Settled env model_path s (
                next
                  (done r, record (counted (counted t)) { acts = terminate pid ∷ t.acts })
                  (λ _ s. (raise engine_unavailable, s)))
        ends finished = (inl refl, inr (pid, own.0, inl (inr (t.acts, refl))), own.1)
        ends timed_out = (inl refl, inr (pid, own.0, inl (inr (t.acts, refl))), own.1)
        ends failed_reply = (inr (inl refl), inr (pid, own.0, inr (inl refl)), own.1)

-- The loop sleeps before it goes on, so the time of the next round is later.
abbrev Later : Outside → Client → ℕ → Client → Client → Type 0
Later env s pid t u = Owned s pid u × (time_of env t + 250 ≤ time_of env u)

after_try-Leaks :
    (env : Outside) (pid : ℕ) (again : Client → Ends (Unit {0})) (e : Exn) (t : Client)
    → Leaks e
    → after_try env pid again (raise e, t) ≡ some (raise e, t)
unfolding after_try
after_try-Leaks env pid again e t leaks = elim leaks [
  | inl h ↦ put h refl
  | inr k ↦ elim k [ inl h ↦ put h refl | inr h ↦ put h refl ]
]
  where
    put :
        {x : Exn}
        → e ≡ x
        → after_try env pid again (raise x, t) ≡ some (raise x, t)
        → after_try env pid again (raise e, t) ≡ some (raise e, t)
    put h = subst (λ x. after_try env pid again (raise x, t) ≡ some (raise x, t)) (sym h)

module _ (env : Outside) (steady : (m n : ℕ) → m ≤ n → env.clock m ≤ env.clock n)
    (model_path : String) (s : Client) (pid : ℕ) where
  Later-sleep : (t u : Client) → Owned s pid t → Onward t u → Later env s pid t ((sleep 250 u).1)
  Later-sleep t u own o = (
    (o.process ∙ own.0, o.jobs ∙ own.1),
    let later = steady t.calls u.calls o.calls in
        let slept = o.slept in omega (arith, later, slept),
  )

  -- What the loop does after a failed or a successful attempt.
  after_try-Settled :
      (again : Client → Ends (Unit {0})) (t : Client) (o : Result Bool × Client)
      → Owned s pid t
      → Goes (Seen env model_path) t o
      → ((u : Client) → Later env s pid t u → Finishes (Settled env model_path s) (again u))
      → Finishes (Settled env model_path s) (after_try env pid again o)
  unfolding after_try
  after_try-Settled again t (ok true, u) own (seen, o) k = (seen, o.jobs ∙ own.1)
  after_try-Settled again t (ok false, u) own (seen, o) k =
      k ((sleep 250 u).1) (Later-sleep t u own o)
  after_try-Settled again t (raise e, u) own (inr leaks, o) k =
      subst (Finishes (Settled env model_path s)) (sym (after_try-Leaks env pid again e u leaks))
        (inr leaks, inr (pid, o.process ∙ own.0, inr leaks), o.jobs ∙ own.1)
  after_try-Settled again t (raise e, u) own (inl h, o) k =
      subst (λ e. Finishes (Settled env model_path s) (after_try env pid again (raise e, u)))
        (sym h) (go (env.alive u.calls pid))
    where
      go :
          (b : Bool)
          → Finishes (Settled env model_path s) (
              if b
              then again (sleep 250 ((ask (λ n. env.alive n pid) u).1)).1
              else some (give_up env pid ((ask (λ n. env.alive n pid) u).1)))
      go true = k ((sleep 250 (counted u)).1) (Later-sleep t (counted u) own (Onward-counted t u o))
      go false =
          give_up-Settled env model_path s pid (counted u) (o.process ∙ own.0, o.jobs ∙ own.1)

  poll_first-Settled :
      (cfg : Config) (again : Client → Ends (Unit {0})) (b : Bool) (n : ℕ) (t : Client)
      → Owned s pid t
      → env.alive n pid ≡ b
      → ((u : Client) → Later env s pid t u → Finishes (Settled env model_path s) (again u))
      → Finishes (Settled env model_path s) (poll_first env cfg pid model_path again b t)
  poll_first-Settled cfg again false n t own dead k =
      (inl refl, inr (pid, own.0, inl (inl (n, dead))), own.1)
  poll_first-Settled cfg again true n t own up k =
      after_try-Settled again t (try_ready env cfg model_path t) own
        (try_ready-Goes env cfg model_path t t (Onward-refl t)) k

  in_time-Settled :
      (cfg : Config) (again : Client → Ends (Unit {0})) (b : Bool) (t : Client)
      → Owned s pid t
      → (b ≡ true
          → (u : Client) → Later env s pid (counted t) u
          → Finishes (Settled env model_path s) (again u))
      → Finishes (Settled env model_path s) (in_time env cfg pid model_path again b t)
  in_time-Settled cfg again false t own k = give_up-Settled env model_path s pid t own
  in_time-Settled cfg again true t own k =
      poll_first-Settled cfg again (env.alive t.calls pid) t.calls (counted t) own refl (k refl)

  await_ready-Settled :
      (cfg : Config) (deadline fuel : ℕ) (t : Client)
      → Owned s pid t
      → 1 ≤ fuel
      → deadline + 250 ≤ time_of env t + 250 * fuel
      → Finishes (Settled env model_path s) (await_ready env cfg pid model_path deadline fuel t)
  unfolding await_ready
  await_ready-Settled cfg deadline zero t own one enough = absurd (omega (arith, one))
  await_ready-Settled cfg deadline (suc fuel) t own one enough =
      in_time-Settled cfg (await_ready env cfg pid model_path deadline fuel)
        (ltb (time_of env t) deadline) (counted t) own
        λ h u later.
          let tick = later.1 in
          let earlier = steady t.calls (suc (suc t.calls)) (omega arith) in
          let before = ltb→lt (time_of env t) deadline h in
          await_ready-Settled cfg deadline fuel u later.0 (omega (arith, before, enough))
            (omega (arith, enough, tick, earlier))

pub ensure_ready-Settled :
    (env : Outside) (cfg : Config) (model_path : String) (fuel : ℕ) (s : Client)
    → ((m n : ℕ) → m ≤ n → env.clock m ≤ env.clock n)
    → env.start_timeout + 250 ≤ 250 * fuel
    → Finishes (Settled env model_path s) (ensure_ready env cfg model_path fuel s)
unfolding ensure_ready start_process
ensure_ready-Settled env cfg model_path fuel s steady enough =
    go (next (probe env cfg model_path s) (λ ready. check_start env cfg ready)) (
      next-Goes (Seen env model_path) (Seen env model_path) s (probe env cfg model_path s) _
        (probe-Goes env cfg model_path s s (Onward-refl s))
        λ b t seen o. check_start-Goes env cfg model_path b s t seen o)
  where
    start :
        (p : Option ℕ) (t : Client)
        → t.process ≡ s.process
        → requests_of t.acts ≡ requests_of s.acts
        → Finishes (Settled env model_path s) (
            launched env cfg model_path fuel (
              next
                (spawned p, t)
                (λ pid. (λ s. next (set_process (some pid) s) (λ _ s. (ok pid, s))))))
    start none t own same = (inl refl, inl own, same)
    start (some pid) t own same =
        let u = (set_process (some pid) t).1 in
        let earlier = steady t.calls (suc t.calls) (omega arith) in
        await_ready-Settled env steady model_path s pid cfg (time_of env u + env.start_timeout) fuel
          (counted u) (refl, same) (omega (arith, enough)) (omega (arith, enough, earlier))

    go :
        (o : Result Bool × Client)
        → Goes (Seen env model_path) s o
        → Finishes (Settled env model_path s) (checked env cfg model_path fuel o)
    go (raise e, t) (known, o) = (known, inl o.process, o.jobs)
    go (ok true, t) (seen, o) = (seen, o.jobs)
    go (ok false, t) (seen, o) = start (env.spawn t.calls) (counted t) o.process o.jobs
