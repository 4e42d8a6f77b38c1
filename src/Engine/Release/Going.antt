-- ===== src/Engine/Release/Going.antt =====
-- The steps of `release_for_identity`, and the effects that they may have.
use mllm_windows_ai_workbenc.Prelude.{
  ℕ, ◌≡◌, refl, ap, ◌∙◌, String, Bool, true, false, ◌⊎◌, inr, Option, none, some, List, [], ◌∷◌,
  ◌++◌, All,
}
use mllm_windows_ai_workbenc.Errors.{
  Exn, Result, ok, raise, guard, os_error, value_error, engine_unavailable,
}
use mllm_windows_ai_workbenc.Errors
use mllm_windows_ai_workbenc.Actions.{next, Keeps, next-Keeps, lift-Keeps}
use mllm_windows_ai_workbenc.Engine.Model.{
  Snapshot, object, Reply, finished, timed_out, failed_reply, Config, Outside, Act, terminate, kill,
  await, unlink_state, write_state, posted, submitted, cancel_native, Client, ask, counted, control,
  Opened, gone, denied, opened,
}
use mllm_windows_ai_workbenc.Engine.Identity.{
  snapshot_of, release_snapshot, state_unchanged, listener_of, release_endpoint, check_process,
  known_facts, check_facts, known_listener, verify_capabilities, is_unchanged, adopt_opened,
  adopt_for_release, claimed, as_unavailable,
}
use mllm_windows_ai_workbenc.Engine.Release.{
  done, stop_waiting, wait_or_kill, terminate_process, terminate_alive, release_child,
  release_adopted,
}
use mllm_windows_ai_workbenc.Engine.Release.Facts.{Verified}
use mllm_windows_ai_workbenc.Engine.Release.Verified.{Adopted}

-- A process that may be stopped: the service's own child, or a verified one that the state file
-- names.
abbrev pub Mine : Outside → Config → Client → ℕ → Type 0
Mine env cfg s pid =
    (s.process ≡ some pid)
    ⊎ ((n : ℕ) × (v : Snapshot) × (env.read n ≡ object v) × Verified env cfg v pid n)

abbrev pub Allowed : Outside → Config → Client → Act → Type 0
Allowed env cfg s (terminate pid) = Mine env cfg s pid
Allowed env cfg s (kill pid) = Mine env cfg s pid
Allowed env cfg s (await pid) = Mine env cfg s pid
Allowed env cfg s unlink_state = Unit
Allowed env cfg s write_state = ⊥
Allowed env cfg s (posted n) = ⊥
Allowed env cfg s (submitted id) = ⊥
Allowed env cfg s (cancel_native id) = ⊥

-- The effects since `s` are all allowed, and the client's child is the same.
pub record Going (env : Outside) (cfg : Config) (s t : Client) : Type 0 where
  pub since : List Act
  pub acts : t.acts ≡ since ++ s.acts
  pub allowed : All (Allowed env cfg s) since
  pub process : t.process ≡ s.process

-- The effects since `s` are all allowed.
pub record Harmless (env : Outside) (cfg : Config) (s t : Client) : Type 0 where
  pub since : List Act
  pub acts : t.acts ≡ since ++ s.acts
  pub allowed : All (Allowed env cfg s) since

pub Going-Harmless :
    (env : Outside) (cfg : Config) (s t : Client) → Going env cfg s t → Harmless env cfg s t
Going-Harmless env cfg s t g = record { since = g.since; acts = g.acts; allowed = g.allowed }

module _ (env : Outside) (cfg : Config) (s : Client) where
  pub Going-refl : Going env cfg s s
  Going-refl = record { since = []; acts = refl; allowed = tt; process = refl }

  -- Steps that have no effect.
  Going-same :
      (t u : Client)
      → u.acts ≡ t.acts
      → u.process ≡ t.process
      → Going env cfg s t
      → Going env cfg s u
  Going-same t u e p h = record {
    since = h.since;
    acts = e ∙ h.acts;
    allowed = h.allowed;
    process = p ∙ h.process;
  }

  pub control-Going :
      (a : Act) (t : Client)
      → Allowed env cfg s a
      → Going env cfg s t
      → Going env cfg s ((control env a t).1)
  control-Going a t p h = record {
    since = a ∷ h.since;
    acts = ap (λ as'. a ∷ as') h.acts;
    allowed = (p, h.allowed);
    process = h.process;
  }

  pub stop_waiting-Going :
      (pid : ℕ) (r : Reply) (t : Client)
      → Mine env cfg s pid
      → Going env cfg s t
      → Keeps (Going env cfg s) (stop_waiting env pid r t)
  unfolding stop_waiting
  stop_waiting-Going pid finished t m h = h
  stop_waiting-Going pid failed_reply t m h = h
  stop_waiting-Going pid timed_out t m h =
      let H = Going env cfg s in
      next-Keeps H (control env (kill pid) t) _ (control-Going (kill pid) t m h) λ r t h.
        next-Keeps H (done r, t) _ (lift-Keeps H (done r) t h)
          λ u t h.
            next-Keeps H (control env (await pid) t) _ (control-Going (await pid) t m h)
              λ q t h. lift-Keeps H (done q) t h

  pub wait_or_kill-Going :
      (pid : ℕ) (t : Client)
      → Mine env cfg s pid
      → Going env cfg s t
      → Keeps (Going env cfg s) (wait_or_kill env pid t)
  unfolding wait_or_kill
  wait_or_kill-Going pid t m h =
      next-Keeps (Going env cfg s) (control env (await pid) t) _ (control-Going (await pid) t m h)
        λ r t h. stop_waiting-Going pid r t m h

  pub terminate_process-Going :
      (pid : ℕ) (t : Client)
      → Mine env cfg s pid
      → Going env cfg s t
      → Keeps (Going env cfg s) (terminate_process env pid t)
  unfolding terminate_process
  terminate_process-Going pid t m h =
      next-Keeps (Going env cfg s) (control env (terminate pid) t) _
        (control-Going (terminate pid) t m h) λ r t h. lift-Keeps (Going env cfg s) (done r) t h

  pub as_unavailable-Keeps :
      {A : Type 0} (P : Client → Type 0) (o : Result A × Client)
      → Keeps P o
      → Keeps P (as_unavailable o)
  as_unavailable-Keeps P (ok a, t) p = p
  as_unavailable-Keeps P (raise e, t) p = p

  pub stop-Going :
      (pid : ℕ) (o : Result (Unit {0}) × Client)
      → Mine env cfg s pid
      → Keeps (Going env cfg s) o
      → Keeps (Going env cfg s) (as_unavailable (next o (λ _. wait_or_kill env pid)))
  stop-Going pid o m h =
      let H = Going env cfg s in
      as_unavailable-Keeps H (next o (λ _. wait_or_kill env pid))
        (next-Keeps H o (λ _. wait_or_kill env pid) h λ u t h. wait_or_kill-Going pid t m h)

  pub release_child-Going :
      (pid : ℕ) (t : Client)
      → Mine env cfg s pid
      → Going env cfg s t
      → Keeps (Going env cfg s) (release_child env pid t)
  unfolding release_child terminate_alive
  release_child-Going pid t m h = go (env.alive t.calls pid)
    where
      go :
          (b : Bool)
          → Keeps (Going env cfg s) (
              as_unavailable
                (next (terminate_alive env pid b (counted t)) (λ _. wait_or_kill env pid)))
      go true =
          stop-Going pid (terminate_process env pid (counted t)) m
            (terminate_process-Going pid (counted t) m (Going-same t (counted t) refl refl h))
      go false = stop-Going pid (ok tt, counted t) m (Going-same t (counted t) refl refl h)

  pub release_adopted-Going :
      (p : Option ℕ) (v : Snapshot) (n : ℕ) (t : Client)
      → env.read n ≡ object v
      → Adopted env cfg v n p
      → Going env cfg s t
      → Keeps (Going env cfg s) (release_adopted env p t)
  unfolding release_adopted
  release_adopted-Going none v n t e a h = h
  release_adopted-Going (some pid) v n t e a h =
      let m : Mine env cfg s pid = inr (n, v, e, a) in
      stop-Going pid (terminate_process env pid t) m (terminate_process-Going pid t m h)

  pub ask-Going :
      {A : Type 0} (f : ℕ → A) (t : Client) → Going env cfg s t → Going env cfg s ((ask f t).1)
  ask-Going f t h = Going-same t (counted t) refl refl h

  -- The three kinds of questions have no effect.
  pub snapshot-Going :
      (t : Client) → Going env cfg s t → Keeps (Going env cfg s) (release_snapshot env t)
  unfolding release_snapshot
  snapshot-Going t h =
      lift-Keeps (Going env cfg s) (snapshot_of (env.read t.calls)) (counted t)
        (ask-Going env.read t h)

  pub unchanged-Going :
      (v : Snapshot) (t : Client)
      → Going env cfg s t
      → Keeps (Going env cfg s) (state_unchanged env v t)
  unfolding state_unchanged
  unchanged-Going v t h =
      next-Keeps (Going env cfg s) (release_snapshot env t) _ (snapshot-Going t h)
        λ c t h. lift-Keeps (Going env cfg s) (guard (is_unchanged v c) engine_unavailable) t h

  pub endpoint-Going :
      (t : Client) → Going env cfg s t → Keeps (Going env cfg s) (release_endpoint env t)
  unfolding release_endpoint
  endpoint-Going t h =
      lift-Keeps (Going env cfg s) (listener_of (env.endpoint t.calls)) (counted t)
        (ask-Going env.endpoint t h)

  pub check_process-Going :
      (v : Snapshot) (pid : ℕ) (model_path : String) (t : Client)
      → Going env cfg s t
      → Keeps (Going env cfg s) (check_process env cfg v pid model_path t)
  unfolding check_process
  check_process-Going v pid model_path t h =
      let G = Going env cfg s in
      next-Keeps G (ask (λ n. env.facts n pid) t) _ (ask-Going (λ n. env.facts n pid) t h)
        λ known t h.
          next-Keeps G (Errors.◌>>=◌ (known_facts known) (check_facts env cfg v model_path), t) _
            (lift-Keeps G (Errors.◌>>=◌ (known_facts known) (check_facts env cfg v model_path)) t h)
            λ u t h. next-Keeps G (release_endpoint env t) _ (endpoint-Going t h) λ l t h.
              next-Keeps G (Errors.◌>>=◌ (known_listener l) (verify_capabilities env model_path), t)
                _
                (lift-Keeps G (Errors.◌>>=◌ (known_listener l) (verify_capabilities env model_path))
                  t h)
                λ u t h. next-Keeps G (state_unchanged env v t) _ (unchanged-Going v t h) λ u t h.
                  next-Keeps G (ask (λ n. env.alive n pid) t) _
                    (ask-Going (λ n. env.alive n pid) t h)
                    λ a t h. lift-Keeps G (guard a value_error) t h

  pub adopt_opened-Going :
      (v : Snapshot) (pid : ℕ) (model_path : String) (o : Opened) (t : Client)
      → Going env cfg s t
      → Keeps (Going env cfg s) (adopt_opened env cfg v pid model_path o t)
  unfolding adopt_opened
  adopt_opened-Going v pid model_path gone t h = h
  adopt_opened-Going v pid model_path denied t h = h
  adopt_opened-Going v pid model_path opened t h =
      let G = Going env cfg s in
      let first = check_process env cfg v pid model_path t in
      as_unavailable-Keeps G (next first (λ _ t. (ok (some pid), t))) (
        next-Keeps G first (λ _ t. (ok (some pid), t)) (check_process-Going v pid model_path t h)
          λ u t h. h)

  pub adopt-Going :
      (v : Snapshot) (t : Client)
      → Going env cfg s t
      → Keeps (Going env cfg s) (adopt_for_release env cfg v t)
  unfolding adopt_for_release
  adopt-Going v t h =
      let G = Going env cfg s in
      next-Keeps G (guard env.has_psutil engine_unavailable, t) _
        (lift-Keeps G (guard env.has_psutil engine_unavailable) t h)
        λ u t h.
          next-Keeps G (claimed env cfg v, t) _ (lift-Keeps G (claimed env cfg v) t h)
            λ c t h.
              next-Keeps G (ask (λ n. env.open_process n (c.0)) t) _
                (ask-Going (λ n. env.open_process n (c.0)) t h)
                λ o t h. adopt_opened-Going v (c.0) (c.1) o t h
