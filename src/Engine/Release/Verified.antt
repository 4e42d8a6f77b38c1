-- ===== src/Engine/Release/Verified.antt =====
-- What `_adopt_for_release` has found out about the process that it returns.
use mllm_windows_ai_workbenc.Prelude.{
  ℕ, suc, ◌<◌, ◌≡◌, refl, ap, ◌∙◌, subst, String, true, Option, none, some, str_eq_iff, arith,
}
use mllm_windows_ai_workbenc.Errors.{
  Exn, Result, ok, raise, guard, value_error, engine_unavailable, bound-ok, checked-ok, guard-ok,
}
use mllm_windows_ai_workbenc.Errors
use mllm_windows_ai_workbenc.Actions.{next, PostAt, next-PostAt, lift-PostAt}
use mllm_windows_ai_workbenc.Engine.Model.{
  Capabilities, answers, refused, silent, Endpoint, Snapshot, Opened, gone, denied, opened, Facts,
  Config, Outside, Client, counted, ask,
}
use mllm_windows_ai_workbenc.Engine.Identity.{
  snapshot_of, release_snapshot, is_unchanged, state_unchanged, listener_of, release_endpoint,
  verify_capabilities, claimed, check_facts, known_facts, known_listener, check_process,
  as_unavailable, adopt_opened, adopt_for_release,
}
use mllm_windows_ai_workbenc.Engine.Release.Facts.{
  Runs, Started, Listens, Answers, Unchanged, Verified, check_facts-all, verify-named,
  snapshot_of-some, claimed-facts,
}

-- What the checks of an open process have found, from this call on.
record Checked (env : Outside) (cfg : Config) (v : Snapshot) (pid : ℕ) (model_path : String)
    (call : ℕ) : Type 0 where
  facts : Facts
  known : env.facts call pid ≡ some facts
  started : Started v facts
  runs : Runs env cfg facts
  listens : Listens cfg facts
  endpoint : Answers env model_path
  asked_after : endpoint.call ≡ suc call
  unchanged : Unchanged env v (suc (suc call))
  alive : env.alive (suc (suc (suc call))) pid ≡ true

known_facts-some : (o : Option Facts) (f : Facts) → known_facts o ≡ ok f → o ≡ some f
known_facts-some none f h = absurd (cc (h))
known_facts-some (some g) f h = cc (h)

known_listener-some :
    (o : Option Capabilities) (c : Capabilities) → known_listener o ≡ ok c → o ≡ some c
known_listener-some none c h = absurd (cc (h))
known_listener-some (some d) c h = cc (h)

listener_of-answers :
    (e : Endpoint) (o : Option Capabilities) (c : Capabilities)
    → listener_of e ≡ ok o
    → o ≡ some c
    → e ≡ answers c
unfolding listener_of
listener_of-answers refused o c h q = absurd (cc (h, q))
listener_of-answers silent o c h q = absurd (cc (h))
listener_of-answers (answers d) o c h q = cc (h, q)

abbrev Whatever : Exn → Client → Type 0
Whatever e s = Unit

state_unchanged-PostAt :
    (env : Outside) (v : Snapshot) (s : Client)
    → PostAt
        (λ u t. Unchanged env v s.calls × (t.calls ≡ suc s.calls))
        Whatever
        (state_unchanged env v s)
unfolding state_unchanged release_snapshot
state_unchanged-PostAt env v s =
    let Q = λ (u : Unit {0}) (t : Client). Unchanged env v s.calls × (t.calls ≡ suc s.calls) in
    let R = λ (current : Option Snapshot) (t : Client).
      (snapshot_of (env.read s.calls) ≡ ok current) × (t.calls ≡ suc s.calls) in
    next-PostAt R Q Whatever (release_snapshot env s) _
      (lift-PostAt R Whatever (snapshot_of (env.read s.calls)) (counted s) (λ a h. (h, refl))
        (λ e. tt))
      (λ current t h.
        lift-PostAt Q Whatever (guard (is_unchanged v current) engine_unavailable) t
          (λ u g. (read current h.0 (guard-ok (is_unchanged v current) engine_unavailable g), h.1))
          (λ e. tt))
  where
    read :
        (o : Option Snapshot)
        → snapshot_of (env.read s.calls) ≡ ok o
        → is_unchanged v o ≡ true
        → Unchanged env v s.calls
    read none h g = absurd (cc (g))
    read (some w) h g = record {
      current = w;
      read = snapshot_of-some (env.read s.calls) w h;
      same = (str_eq_iff w.raw v.raw).0 g;
    }

endpoint-PostAt :
    (env : Outside) (s : Client)
    → PostAt
        (λ l t. (listener_of (env.endpoint s.calls) ≡ ok l) × (t.calls ≡ suc s.calls))
        Whatever
        (release_endpoint env s)
unfolding release_endpoint
endpoint-PostAt env s =
    lift-PostAt (λ l t. (listener_of (env.endpoint s.calls) ≡ ok l) × (t.calls ≡ suc s.calls))
      Whatever (listener_of (env.endpoint s.calls)) (counted s) (λ l h. (h, refl)) (λ e. tt)

abbrev Described : Outside → Config → Snapshot → ℕ → Option Facts → Type 0
Described env cfg v n known =
    (f : Facts) × (known ≡ some f) × Started v f × Runs env cfg f × Listens cfg f

-- The model that the endpoint has answered with.
abbrev AnswersAt : Outside → String → ℕ → Type 0
AnswersAt env model_path n = (a : Answers env model_path) × (a.call ≡ n)

verified_answer :
    (env : Outside) (model_path : String) (n : ℕ) (l : Option Capabilities) (u : Unit {0})
    → listener_of (env.endpoint n) ≡ ok l
    → Errors.◌>>=◌ (known_listener l) (verify_capabilities env model_path) ≡ ok u
    → AnswersAt env model_path n
verified_answer env model_path n l u k h =
    let (c, a, b) = bound-ok (known_listener l) (verify_capabilities env model_path) u h in
    let (p, x, y) = verify-named env model_path c u b in
    (
      record {
        call = n;
        capabilities = c;
        answer = listener_of-answers (env.endpoint n) l c k (known_listener-some l c a);
        loaded = p;
        model = x;
        same = y;
      },
      refl,
    )

described :
    (env : Outside) (cfg : Config) (v : Snapshot) (model_path : String) (n : ℕ)
    (known : Option Facts) (u : Unit {0})
    → Errors.◌>>=◌ (known_facts known) (check_facts env cfg v model_path) ≡ ok u
    → Described env cfg v n known
described env cfg v model_path n known u h =
    let (f, a, b) = bound-ok (known_facts known) (check_facts env cfg v model_path) u h in
    let (x, y, z) = check_facts-all env cfg v model_path f u b in
    (f, known_facts-some known f a, x, y, z)

check_process-PostAt :
    (env : Outside) (cfg : Config) (v : Snapshot) (pid : ℕ) (model_path : String) (s : Client)
    → PostAt
        (λ u t. Checked env cfg v pid model_path s.calls)
        Whatever
        (check_process env cfg v pid model_path s)
unfolding check_process
check_process-PostAt env cfg v pid model_path s =
    let Q = λ (u : Unit {0}) (t : Client). Checked env cfg v pid model_path s.calls in
    next-PostAt (λ known t. (env.facts s.calls pid ≡ known) × (t.calls ≡ suc s.calls)) Q Whatever
      (ask (λ n. env.facts n pid) s) _ (refl, refl)
      λ known t e.
        next-PostAt (λ u t. Described env cfg v s.calls known × (t.calls ≡ suc s.calls)) Q Whatever
          (Errors.◌>>=◌ (known_facts known) (check_facts env cfg v model_path), t) _
          (lift-PostAt (λ u t. Described env cfg v s.calls known × (t.calls ≡ suc s.calls)) Whatever
            (Errors.◌>>=◌ (known_facts known) (check_facts env cfg v model_path)) t
            (λ u h. (described env cfg v model_path s.calls known u h, e.1)) (λ e. tt))
          λ u t d.
            next-PostAt
              (λ l u. (listener_of (env.endpoint t.calls) ≡ ok l) × (u.calls ≡ suc t.calls)) Q
              Whatever (release_endpoint env t) _ (endpoint-PostAt env t)
              λ l t' k.
                next-PostAt (λ u x. AnswersAt env model_path t.calls × (x.calls ≡ suc t.calls)) Q
                  Whatever
                  (Errors.◌>>=◌ (known_listener l) (verify_capabilities env model_path), t') _
                  (lift-PostAt (λ u x. AnswersAt env model_path t.calls × (x.calls ≡ suc t.calls))
                    Whatever (Errors.◌>>=◌ (known_listener l) (verify_capabilities env model_path))
                    t' (λ u h. (verified_answer env model_path t.calls l u k.0 h, k.1)) (λ e. tt))
                  λ u t'' a.
                    next-PostAt (λ u x. Unchanged env v t''.calls × (x.calls ≡ suc t''.calls)) Q
                      Whatever (state_unchanged env v t'') _ (state_unchanged-PostAt env v t'')
                      λ u x found.
                        let at_file : t''.calls ≡ suc (suc s.calls) = a.1 ∙ ap suc d.1 in
                        let at_end : x.calls ≡ suc (suc (suc s.calls)) = found.1 ∙ ap suc at_file in
                        next-PostAt (λ b y. env.alive x.calls pid ≡ b) Q Whatever
                          (ask (λ n. env.alive n pid) x) _ refl
                          λ b y alive.
                            lift-PostAt Q Whatever (guard b value_error) y
                              (λ u g. record {
                                facts = d.0.0;
                                known = e.0 ∙ d.0.1;
                                started = d.0.2;
                                runs = d.0.3;
                                listens = d.0.4;
                                endpoint = a.0.0;
                                asked_after = a.0.1 ∙ d.1;
                                unchanged = subst (Unchanged env v) at_file found.0;
                                alive =
                                    subst (λ n. env.alive n pid ≡ true) at_end
                                      (alive ∙ guard-ok b value_error g);
                              })
                              (λ e. tt)

-- What the routine returns: no process, or one that is verified.
abbrev pub Adopted : Outside → Config → Snapshot → ℕ → Option ℕ → Type 0
Adopted env cfg v n none = Unit
Adopted env cfg v n (some pid) = Verified env cfg v pid n

adopt_opened-PostAt :
    (env : Outside) (cfg : Config) (v : Snapshot) (pid : ℕ) (model_path : String) (o : Opened)
    (s : Client) (n : ℕ)
    → n < s.calls
    → v.pid ≡ some pid
    → v.base_url ≡ some cfg.base_url
    → v.model_path ≡ some model_path
    → PostAt (λ p t. Adopted env cfg v n p) Whatever (adopt_opened env cfg v pid model_path o s)
unfolding adopt_opened
adopt_opened-PostAt env cfg v pid model_path gone s n l p q r = tt
adopt_opened-PostAt env cfg v pid model_path denied s n l p q r = tt
adopt_opened-PostAt env cfg v pid model_path opened s n l p q r =
    go (check_process env cfg v pid model_path s) (check_process-PostAt env cfg v pid model_path s)
  where
    go :
        (o : Result (Unit {0}) × Client)
        → PostAt (λ u t. Checked env cfg v pid model_path s.calls) Whatever o
        → PostAt
            (λ p t. Adopted env cfg v n p)
            Whatever
            (as_unavailable (next o (λ _ t. (ok (some pid), t))))
    go (raise e, t) c = tt
    go (ok u, t) c = record {
      named_pid = p;
      service = q;
      model_path = model_path;
      named_model = r;
      call = s.calls;
      facts = c.facts;
      known = c.known;
      started = c.started;
      runs = c.runs;
      listens = c.listens;
      endpoint = c.endpoint;
      later = l;
      asked_after = c.asked_after;
      unchanged = c.unchanged;
      alive = c.alive;
    }

pub adopt_for_release-Adopted :
    (env : Outside) (cfg : Config) (v : Snapshot) (n : ℕ) (s : Client)
    → n < s.calls
    → PostAt (λ p t. Adopted env cfg v n p) Whatever (adopt_for_release env cfg v s)
unfolding adopt_for_release
adopt_for_release-Adopted env cfg v n s l =
    let Q = λ (p : Option ℕ) (t : Client). Adopted env cfg v n p in
    next-PostAt (λ u t. n < t.calls) Q Whatever (guard env.has_psutil engine_unavailable, s) _
      (lift-PostAt (λ u t. n < t.calls) Whatever (guard env.has_psutil engine_unavailable) s
        (λ u h. l) (λ e. tt))
      λ u t l.
        next-PostAt (λ c t. (claimed env cfg v ≡ ok c) × (n < t.calls)) Q Whatever
          (claimed env cfg v, t) _
          (lift-PostAt (λ c t. (claimed env cfg v ≡ ok c) × (n < t.calls)) Whatever
            (claimed env cfg v) t (λ c h. (h, l)) (λ e. tt))
          λ c t h.
            let (p, q, r) = claimed-facts env cfg v c h.0 in
            let below : n < suc t.calls = omega (arith, h.1) in
            next-PostAt (λ o t. n < t.calls) Q Whatever (ask (λ n. env.open_process n (c.0)) t) _
              below λ o t l. adopt_opened-PostAt env cfg v (c.0) (c.1) o t n l p q r
