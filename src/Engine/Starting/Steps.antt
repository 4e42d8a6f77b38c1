-- ===== src/Engine/Starting/Steps.antt =====
-- What the steps of a start keep, and how they fail.
use mllm_windows_ai_workbenc.Prelude.{
  ℕ, ◌≤◌, ◌≡◌, refl, subst, String, Bool, true, false, not, ◌&&◌, ◌⊎◌, inl, inr, Option, none, some,
  List, [], ◌∷◌, arith, str_eq, if◌then◌else◌,
}
use mllm_windows_ai_workbenc.Errors.{
  Exn, Result, ok, raise, guard, os_error, value_error, attribute_error, engine_unavailable,
}
use mllm_windows_ai_workbenc.Errors
use mllm_windows_ai_workbenc.Actions.{Action, next, PostAt}
use mllm_windows_ai_workbenc.Engine.Model.{
  Capabilities, Loaded, unnamed, odd_model, named, Endpoint, refused, silent, answers, Reading,
  absent, unreadable, undecodable, no_json, no_object, object, Reply, finished, timed_out,
  failed_reply, Facts, Config, Outside, Act, posted, submitted, write_state, Client, ask, counted,
  control, set_flash, same_path,
}
use mllm_windows_ai_workbenc.Engine.Identity.{
  verify_capabilities, has_model, has_mode, check_loaded, known_facts,
}
use mllm_windows_ai_workbenc.Engine.Release.{done}
use mllm_windows_ai_workbenc.Engine.Release.Facts.{Answers, verify-named}
use mllm_windows_ai_workbenc.Engine.Starting.{
  is_for, restore, probe_answer, probe, child_of, persist_state, has_address, check_start,
  record_ready, try_ready,
}

-- The exceptions that a start lets through besides its own.
abbrev pub Leaks : Exn → Type 0
Leaks e = (e ≡ os_error) ⊎ (e ≡ value_error) ⊎ (e ≡ attribute_error)

abbrev pub Known : Exn → Type 0
Known e = (e ≡ engine_unavailable) ⊎ Leaks e

-- The requests for an image that were sent, and the ids that were received, the last one first.
abbrev pub requests_of : List Act → List Act
requests_of [] = []
requests_of (posted n ∷ acts) = posted n ∷ requests_of acts
requests_of (submitted id ∷ acts) = submitted id ∷ requests_of acts
requests_of (a ∷ acts) = requests_of acts

-- No time is slept away, calls are only added, the child is the same, and no image is asked for.
pub record Onward (s t : Client) : Type 0 where
  pub process : t.process ≡ s.process
  pub slept : t.slept ≡ s.slept
  pub calls : s.calls ≤ t.calls
  pub jobs : requests_of t.acts ≡ requests_of s.acts

pub Onward-refl : (s : Client) → Onward s s
Onward-refl s = record { process = refl; slept = refl; calls = omega arith; jobs = refl }

pub Onward-counted : (s t : Client) → Onward s t → Onward s (counted t)
Onward-counted s t o = record {
  process = o.process;
  slept = o.slept;
  calls = omega (arith, o.calls);
  jobs = o.jobs;
}

-- Returning with something known, or raising one of these exceptions.
abbrev pub Goes : {A : Type 0} → (A → Type 0) → Client → Result A × Client → Type 0
Goes P s o = PostAt (λ a t. P a × Onward s t) (λ e t. Known e × Onward s t) o

lift-Goes :
    {A : Type 0} (P : A → Type 0) (s : Client) (r : Result A) (t : Client)
    → Onward s t
    → ((a : A) → r ≡ ok a → P a)
    → ((e : Exn) → r ≡ raise e → Known e)
    → Goes P s (r, t)
lift-Goes P s (ok a) t o p k = (p a refl, o)
lift-Goes P s (raise e) t o p k = (k e refl, o)

pub next-Goes :
    {A B : Type 0} (P : A → Type 0) (Q : B → Type 0) (s : Client) (o : Result A × Client)
    (f : A → Action Client B)
    → Goes P s o
    → ((a : A) (t : Client) → P a → Onward s t → Goes Q s (f a t))
    → Goes Q s (next o f)
next-Goes P Q s (ok a, t) f p k = k a t p.0 p.1
next-Goes P Q s (raise e, t) f p k = p

guard-Known : (b : Bool) (x e : Exn) → Known x → guard b x ≡ raise e → Known e
guard-Known true x e k h = absurd (cc (h))
guard-Known false x e k h = subst Known (cc (h)) k

then-Known :
    {A : Type 0} (m : Result (Unit {0})) (k : Result A) (e : Exn)
    → ((x : Exn) → m ≡ raise x → Known x)
    → ((x : Exn) → k ≡ raise x → Known x)
    → Errors.◌>>◌ m k ≡ raise e
    → Known e
then-Known (ok u) k e p q h = q e h
then-Known (raise x) k e p q h = p e (cc (h))

has_model-Known : (l : Loaded) (e : Exn) → has_model l ≡ raise e → Known e
has_model-Known odd_model e h = inr (inr (inr (cc (h))))
has_model-Known unnamed e h = absurd (cc (h))
has_model-Known (named p) e h = absurd (cc (h))

check_loaded-Known :
    (env : Outside) (model_path : String) (l : Loaded) (e : Exn)
    → check_loaded env model_path l ≡ raise e
    → Known e
unfolding check_loaded
check_loaded-Known env model_path unnamed e h = inl (cc (h))
check_loaded-Known env model_path odd_model e h = inr (inr (inr (cc (h))))
check_loaded-Known env model_path (named p) e h =
    guard-Known (not (str_eq p "") && same_path env p model_path) engine_unavailable e (inl refl) h

verify-Known :
    (env : Outside) (model_path : String) (c : Capabilities) (e : Exn)
    → verify_capabilities env model_path c ≡ raise e
    → Known e
unfolding verify_capabilities
verify-Known env model_path c e h =
    then-Known (Errors.◌>>◌ (has_model c.model) (guard (has_mode c.modes) engine_unavailable))
      (check_loaded env model_path c.model) e
      (λ x h.
        then-Known (has_model c.model) (guard (has_mode c.modes) engine_unavailable) x
          (has_model-Known c.model)
          (λ x h. guard-Known (has_mode c.modes) engine_unavailable x (inl refl) h) h)
      (check_loaded-Known env model_path c.model) h

known_facts-Known : (o : Option Facts) (e : Exn) → known_facts o ≡ raise e → Known e
known_facts-Known none e h = inl (cc (h))
known_facts-Known (some f) e h = absurd (cc (h))

done-Known : (r : Reply) (e : Exn) → done r ≡ raise e → Known e
done-Known failed_reply e h = inr (inl (cc (h)))
done-Known finished e h = absurd (cc (h))
done-Known timed_out e h = absurd (cc (h))

child_of-Known : (o : Option ℕ) (e : Exn) → child_of o ≡ raise e → Known e
child_of-Known none e h = inl (cc (h))
child_of-Known (some p) e h = absurd (cc (h))

Onward-flash : (b : Bool) (s t : Client) → Onward s t → Onward s ((set_flash b t).1)
Onward-flash b s t o = record {
  process = o.process;
  slept = o.slept;
  calls = o.calls;
  jobs = o.jobs;
}

-- A restored state.
restore-Goes :
    (env : Outside) (cfg : Config) (model_path : String) (r : Reading) (s t : Client)
    → Onward s t
    → Goes (λ (u : Unit {0}). Unit {0}) s (restore env cfg model_path r t)
unfolding restore
restore-Goes env cfg model_path undecodable s t o = (inr (inr (inl refl)), o)
restore-Goes env cfg model_path no_object s t o = (inr (inr (inr refl)), o)
restore-Goes env cfg model_path absent s t o = (tt, o)
restore-Goes env cfg model_path unreadable s t o = (tt, o)
restore-Goes env cfg model_path no_json s t o = (tt, o)
restore-Goes env cfg model_path (object v) s t o = go (is_for env cfg model_path v)
  where
    go :
        (b : Bool)
        → Goes
            (λ (u : Unit {0}). Unit {0})
            s
            (if b then set_flash v.flash_attention t else (ok tt, t))
    go true = (tt, Onward-flash v.flash_attention s t o)
    go false = (tt, o)

-- What a probe that says yes has seen.
abbrev pub Seen : Outside → String → Bool → Type 0
Seen env model_path false = Unit
Seen env model_path true = Answers env model_path

probe_answer-Goes :
    (env : Outside) (cfg : Config) (model_path : String) (n : ℕ) (e : Endpoint) (s t : Client)
    → env.endpoint n ≡ e
    → Onward s t
    → Goes (Seen env model_path) s (probe_answer env cfg model_path e t)
unfolding probe_answer
probe_answer-Goes env cfg model_path n refused s t h o = (tt, o)
probe_answer-Goes env cfg model_path n silent s t h o = (tt, o)
probe_answer-Goes env cfg model_path n (answers c) s t h o =
    let Q = Seen env model_path in
    next-Goes (λ u. Answers env model_path) Q s (verify_capabilities env model_path c, t) _
      (lift-Goes (λ u. Answers env model_path) s (verify_capabilities env model_path c) t o
        (λ u k.
          let (p, x, y) = verify-named env model_path c u k in
          record { call = n; capabilities = c; answer = h; loaded = p; model = x; same = y })
        (verify-Known env model_path c))
      λ u t a o.
        next-Goes (λ r. Unit) Q s (ask env.read t) _ (tt, Onward-counted s t o)
          λ r t w o.
            next-Goes (λ u. Unit) Q s (restore env cfg model_path r t) (λ u s. (ok true, s))
              (restore-Goes env cfg model_path r s t o) λ u t w o. (a, o)

pub probe-Goes :
    (env : Outside) (cfg : Config) (model_path : String) (s t : Client)
    → Onward s t
    → Goes (Seen env model_path) s (probe env cfg model_path t)
unfolding probe
probe-Goes env cfg model_path s t o =
    next-Goes (λ e. env.endpoint t.calls ≡ e) (Seen env model_path) s (ask env.endpoint t) _
      (refl, Onward-counted s t o) λ e u h o. probe_answer-Goes env cfg model_path t.calls e s u h o

persist_state-Goes :
    (env : Outside) (cfg : Config) (s t : Client)
    → Onward s t
    → Goes (λ (u : Unit {0}). Unit {0}) s (persist_state env cfg t)
unfolding persist_state
persist_state-Goes env cfg s t o =
    let T = λ (u : Unit {0}). Unit {0} in
    next-Goes T T s (guard env.has_psutil engine_unavailable, t) _
      (lift-Goes T s (guard env.has_psutil engine_unavailable) t o (λ u h. tt)
        (λ e h. guard-Known env.has_psutil engine_unavailable e (inl refl) h))
      λ u t w o.
        next-Goes (λ p. Unit) T s (child_of t.process, t) _
          (lift-Goes (λ p. Unit) s (child_of t.process) t o (λ u h. tt) (child_of-Known t.process))
          λ pid t w o.
            next-Goes (λ f. Unit) T s (ask (λ n. env.facts n pid) t) _ (tt, Onward-counted s t o)
              λ known t w o.
                next-Goes (λ f. Unit) T s (known_facts known, t) _
                  (lift-Goes (λ f. Unit) s (known_facts known) t o (λ u h. tt)
                    (known_facts-Known known))
                  λ f t w o.
                    next-Goes (λ b. Unit) T s (ask (λ n. env.alive n pid) t) _
                      (tt, Onward-counted s t o)
                      λ alive t w o.
                        let mine = alive && same_path env f.exe cfg.executable in
                        next-Goes T T s (guard mine engine_unavailable, t) _
                          (lift-Goes T s (guard mine engine_unavailable) t o (λ u h. tt)
                            (λ e h. guard-Known mine engine_unavailable e (inl refl) h))
                          λ u t w o.
                            next-Goes (λ r. Unit) T s (control env write_state t) _
                              (
                                tt,
                                record {
                                  process = o.process;
                                  slept = o.slept;
                                  calls = omega (arith, o.calls);
                                  jobs = o.jobs;
                                },
                              )
                              λ r t w o. lift-Goes T s (done r) t o (λ u h. tt) (done-Known r)

record_ready-Goes :
    (env : Outside) (cfg : Config) (model_path : String) (b : Bool) (s t : Client)
    → Seen env model_path b
    → Onward s t
    → Goes (Seen env model_path) s (record_ready env cfg b t)
unfolding record_ready
record_ready-Goes env cfg model_path false s t a o = (tt, o)
record_ready-Goes env cfg model_path true s t a o =
    let u = (set_flash true t).1 in
    next-Goes (λ u. Unit) (Seen env model_path) s (persist_state env cfg u) (λ w s. (ok true, s))
      (persist_state-Goes env cfg s u (Onward-flash true s t o)) λ w t x o. (a, o)

pub try_ready-Goes :
    (env : Outside) (cfg : Config) (model_path : String) (s t : Client)
    → Onward s t
    → Goes (Seen env model_path) s (try_ready env cfg model_path t)
unfolding try_ready
try_ready-Goes env cfg model_path s t o =
    let Q = Seen env model_path in
    next-Goes Q Q s (probe env cfg model_path t) _ (probe-Goes env cfg model_path s t o)
      λ b t a o. record_ready-Goes env cfg model_path b s t a o

pub check_start-Goes :
    (env : Outside) (cfg : Config) (model_path : String) (b : Bool) (s t : Client)
    → Seen env model_path b
    → Onward s t
    → Goes (Seen env model_path) s (check_start env cfg b t)
unfolding check_start
check_start-Goes env cfg model_path true s t a o = (a, o)
check_start-Goes env cfg model_path false s t a o =
    let T = λ (u : Unit {0}). Unit {0} in
    let Q = Seen env model_path in
    next-Goes T Q s (guard (not cfg.is_injected) engine_unavailable, t) _
      (lift-Goes T s (guard (not cfg.is_injected) engine_unavailable) t o (λ u h. tt)
        (λ e h. guard-Known (not cfg.is_injected) engine_unavailable e (inl refl) h))
      λ u t w o.
        next-Goes (λ b. Unit) Q s (ask env.is_file t) _ (tt, Onward-counted s t o)
          λ there t w o.
            next-Goes T Q s (guard (there && has_address cfg) engine_unavailable, t) _
              (lift-Goes T s (guard (there && has_address cfg) engine_unavailable) t o (λ u h. tt)
                (λ e h. guard-Known (there && has_address cfg) engine_unavailable e (inl refl) h))
              λ u t w o.
                next-Goes (λ b. Unit) Q s (ask env.make_logs t) _ (tt, Onward-counted s t o)
                  λ made t w o.
                    next-Goes T Q s (guard made os_error, t) (λ u s. (ok false, s))
                      (lift-Goes T s (guard made os_error) t o (λ u h. tt)
                        (λ e h. guard-Known made os_error e (inr (inl refl)) h))
                      λ u t w o. (tt, o)
