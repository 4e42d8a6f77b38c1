-- ===== src/Engine/Release/Facts.antt =====
-- What the checks of a process's description say, one by one.
use mllm_windows_ai_workbenc.Prelude.{
  ℕ, suc, ◌<◌, ◌≤◌, ◌≡◌, refl, ap, ◌∙◌, subst, String, Bool, true, false, not, ◌&&◌, ◌||◌, ◌⊎◌, inl,
  inr, Option, none, some, List, [], ◌∷◌, arith, leb, leb→le, ◌==◌, ==_iff, str_eq, str_eq_iff,
  elem, any_of, Bool-cases, &&-eq-true, if◌then◌else◌,
}
use mllm_windows_ai_workbenc.Errors.{
  Exn, Result, ok, raise, guard, value_error, engine_unavailable, bound-ok, checked-ok, guard-ok,
}
use mllm_windows_ai_workbenc.Errors
use mllm_windows_ai_workbenc.Engine.Model.{
  Capabilities, Loaded, unnamed, odd_model, named, answers, Field, missing, odd, given, Snapshot,
  Reading, absent, unreadable, undecodable, no_json, no_object, object, Facts, Config, Outside,
  same_path,
}
use mllm_windows_ai_workbenc.Engine.Identity.{
  command_option, snapshot_of, has_mode, has_model, check_loaded, verify_capabilities, is_recorded,
  claimed, loopback, own_address, is_same_start, bound_names, listener_names, is_listening,
  check_bind, check_command, check_start, words_of, is_engine, check_words, check_facts,
}

-- The process is the service's executable, by its image and its command line.
pub record Runs (env : Outside) (cfg : Config) (f : Facts) : Type 0 where
  pub exe : env.normal f.exe ≡ env.normal cfg.executable
  pub program : String
  pub words : List String
  pub command : f.command ≡ some (program ∷ words)
  pub started_as : env.normal program ≡ env.normal cfg.executable

-- It started when the state file says; an old state file says nothing, and then it is younger.
abbrev pub Started : Snapshot → Facts → Type 0
Started v f =
    (t : ℕ) × (f.started ≡ some t)
    × ((v.start_time ≡ given t) ⊎ ((v.start_time ≡ missing) × (t ≤ v.modified)))

-- It listens at the service's port of this computer.
abbrev pub Listens : Config → Facts → Type 0
Listens cfg f =
    (port : ℕ) × (cfg.url.port ≡ some port)
    × (any_of (λ (c : String × ℕ). elem c.0 loopback && (c.1 == port)) f.listening ≡ true)

same_path-normal :
    (env : Outside) (p q : String) → same_path env p q ≡ true → env.normal p ≡ env.normal q
unfolding same_path
same_path-normal env p q h = (str_eq_iff (env.normal p) (env.normal q)).0 h

check_start-Started :
    (v : Snapshot) (f : Facts) (u : Unit {0}) → check_start v f.started ≡ ok u → Started v f
unfolding check_start is_same_start
check_start-Started v f u h = go f.started refl h
  where
    start :
        (t : ℕ) (o : Field ℕ)
        → v.start_time ≡ o
        → guard
            (elim o [ missing ↦ leb t v.modified | odd ↦ false | given r ↦ r == t ])
            engine_unavailable
          ≡ ok u
        → (v.start_time ≡ given t) ⊎ ((v.start_time ≡ missing) × (t ≤ v.modified))
    start t missing e h =
        inr (e, leb→le t v.modified (guard-ok (leb t v.modified) engine_unavailable h))
    start t odd e h = absurd (cc (h))
    start t (given r) e h =
        inl (e ∙ ap given ((==_iff r t).0 (guard-ok (r == t) engine_unavailable h)))

    go : (o : Option ℕ) → f.started ≡ o → check_start v o ≡ ok u → Started v f
    go none e h = absurd (cc (h))
    go (some t) e h = (t, e, start t v.start_time refl h)

words_of-some :
    (o : Option (List String)) (c : String × List String) → words_of o ≡ ok c → o ≡ some (c.0 ∷ c.1)
words_of-some none c h = absurd (cc (h))
words_of-some (some []) c h = absurd (cc (h))
words_of-some (some (p ∷ ws)) c h = cc (h)

own_address-port :
    (cfg : Config) (a : String × ℕ)
    → own_address cfg ≡ ok a
    → (cfg.url.port ≡ some (a.1)) × (elem (a.0) loopback ≡ true)
unfolding own_address
own_address-port cfg a h = go cfg.url.host cfg.url.port refl h
  where
    go :
        (ho : Option String) (po : Option ℕ)
        → cfg.url.port ≡ po
        → (elim ho [
          | none ↦ raise value_error
          | some host ↦ elim po [
            | none ↦ raise value_error
            | some port ↦
                if cfg.url.is_http && elem host loopback && cfg.url.is_bare
                then ok (host, port)
                else raise value_error
          ]
        ])
          ≡ ok a
        → (cfg.url.port ≡ some (a.1)) × (elem (a.0) loopback ≡ true)
    go none po e h = absurd (cc (h))
    go (some host) none e h = absurd (cc (h))
    go (some host) (some port) e h =
        elim (Bool-cases (cfg.url.is_http && elem host loopback && cfg.url.is_bare)) [
          | inr b ↦ absurd (cc (rw b at h))
          | inl b ↦
              let same : (host, port) ≡ a = cc (rw b at h) in
              let (c, d) = &&-eq-true _ _ b in
              let (f, g) = &&-eq-true _ _ c in
              subst (λ (a : String × ℕ). (cfg.url.port ≡ some (a.1)) × (elem (a.0) loopback ≡ true))
                same (e, g)
        ]

only-elem : (x y : String) → elem x (y ∷ []) ≡ true → y ≡ x
only-elem x y h = elim (Bool-cases (str_eq y x)) [
  | inl e ↦ (str_eq_iff y x).0 e
  | inr e ↦ absurd (cc (rw e at h))
]

-- Every name that a loopback address is bound under is a loopback address.
loopback-bound :
    (host ip : String)
    → elem host loopback ≡ true
    → elem ip (bound_names host) ≡ true
    → elem ip loopback ≡ true
loopback-bound host ip h e = elim (Bool-cases (str_eq host "localhost")) [
  | inl c ↦ rw c at e
  | inr c ↦
      let same : host ≡ ip = only-elem ip host (rw c at e) in
      subst (λ ip. elem ip loopback ≡ true) same h
]

loopback-listener :
    (ip name : String)
    → elem ip loopback ≡ true
    → elem name (listener_names ip) ≡ true
    → elem name loopback ≡ true
loopback-listener ip name h e = elim (Bool-cases (str_eq ip "localhost")) [
  | inl c ↦ two name (rw c at e)
  | inr c ↦
      let same : ip ≡ name = only-elem name ip (rw c at e) in
      subst (λ ip. elem ip loopback ≡ true) same h
]
  where
    two : (name : String) → elem name ("127.0.0.1" ∷ "::1" ∷ []) ≡ true → elem name loopback ≡ true
    two name e = ground (arith, e)

listens_here :
    (ip : String) (port : ℕ) (cs : List (String × ℕ))
    → elem ip loopback ≡ true
    → is_listening ip port cs ≡ true
    → any_of (λ (c : String × ℕ). elem c.0 loopback && (c.1 == port)) cs ≡ true
listens_here ip port [] h e = absurd (cc (e))
listens_here ip port ((name, n) ∷ cs) h e =
    elim (Bool-cases (elem name (listener_names ip) && (n == port))) [
      | inl c ↦
          let (a, b) = &&-eq-true (elem name (listener_names ip)) (n == port) c in
          rw (loopback-listener ip name h a, b) refl
      | inr c ↦ or_right (elem name loopback && (n == port)) (listens_here ip port cs h (rw c at e))
    ]
  where
    or_right : {b : Bool} (a : Bool) → b ≡ true → (a || b) ≡ true
    or_right true h = refl
    or_right false h = h

check_command-Listens :
    (env : Outside) (cfg : Config) (model_path : String) (a : String × ℕ) (words : List String)
    (f : Facts) (u : Unit {0})
    → own_address cfg ≡ ok a
    → check_command env cfg model_path a words f.listening ≡ ok u
    → Listens cfg f
unfolding check_command check_bind
check_command-Listens env cfg model_path (host, port) words f u o h =
    let found = own_address-port cfg (host, port) o in
    let (model, m1, m2) = bound-ok (command_option words ("-m" ∷ "--model" ∷ [])) _ u h in
    let (good, rest) = checked-ok (same_path env model model_path) value_error _ u m2 in
    let (ip, i1, i2) = bound-ok (command_option words ("--listen-ip" ∷ [])) _ u rest in
    let (number, n1, n2) = bound-ok (command_option words ("--listen-port" ∷ [])) _ u i2 in
    let (bound, last) =
      checked-ok _ value_error (guard (is_listening ip port f.listening) value_error) u n2 in
    let (b1, b2) = &&-eq-true _ _ bound in
    (
      port,
      found.0,
      listens_here ip port f.listening (loopback-bound host ip found.1 b1)
          (guard-ok _ value_error last),
    )

check_words-Runs :
    (env : Outside) (cfg : Config) (model_path : String) (a : String × ℕ) (f : Facts)
    (c : String × List String) (u : Unit {0})
    → own_address cfg ≡ ok a
    → f.command ≡ some (c.0 ∷ c.1)
    → check_words env cfg model_path f a c ≡ ok u
    → Runs env cfg f × Listens cfg f
unfolding check_words
check_words-Runs env cfg model_path a f (program, words) u o e h =
    let (good, rest) =
      checked-ok (is_engine env cfg f program) value_error
        (check_command env cfg model_path a words f.listening) u h in
    let (g1, g2) =
      &&-eq-true (same_path env f.exe cfg.executable) (same_path env program cfg.executable) good in
    (
      record {
        exe = same_path-normal env f.exe cfg.executable g1;
        program = program;
        words = words;
        command = e;
        started_as = same_path-normal env program cfg.executable g2;
      },
      check_command-Listens env cfg model_path a words f u o rest,
    )

pub check_facts-all :
    (env : Outside) (cfg : Config) (v : Snapshot) (model_path : String) (f : Facts) (u : Unit {0})
    → check_facts env cfg v model_path f ≡ ok u
    → Started v f × Runs env cfg f × Listens cfg f
unfolding check_facts
check_facts-all env cfg v model_path f u h =
    let (a, a1, a2) = bound-ok (own_address cfg) _ u h in
    let (w, s1, s2) =
      bound-ok (check_start v f.started)
        (λ _. Errors.◌>>=◌ (words_of f.command) (check_words env cfg model_path f a)) u a2 in
    let (c, c1, c2) = bound-ok (words_of f.command) (check_words env cfg model_path f a) u s2 in
    let (runs, listens) =
      check_words-Runs env cfg model_path a f c u a1 (words_of-some f.command c c1) c2 in
    (check_start-Started v f w s1, runs, listens)

-- Something answers at the engine's endpoint, and has loaded the model.
pub record Answers (env : Outside) (model_path : String) : Type 0 where
  pub call : ℕ
  pub capabilities : Capabilities
  pub answer : env.endpoint call ≡ answers capabilities
  pub loaded : String
  pub model : capabilities.model ≡ named loaded
  pub same : env.normal loaded ≡ env.normal model_path

pub verify-named :
    (env : Outside) (model_path : String) (c : Capabilities) (u : Unit {0})
    → verify_capabilities env model_path c ≡ ok u
    → (p : String) × (c.model ≡ named p) × (env.normal p ≡ env.normal model_path)
unfolding verify_capabilities check_loaded
verify-named env model_path c u h =
    let (w, a, b) =
      bound-ok (Errors.◌>>◌ (has_model c.model) (guard (has_mode c.modes) engine_unavailable))
        (λ _. check_loaded env model_path c.model) u h in
    go c.model refl b
  where
    go :
        (l : Loaded)
        → c.model ≡ l
        → check_loaded env model_path l ≡ ok u
        → (p : String) × (c.model ≡ named p) × (env.normal p ≡ env.normal model_path)
    go unnamed e h = absurd (cc (h))
    go odd_model e h = absurd (cc (h))
    go (named p) e h =
        let (a, b) =
          &&-eq-true (not (str_eq p "")) (same_path env p model_path)
            (guard-ok _ engine_unavailable h) in
        (p, e, same_path-normal env p model_path b)

-- The file is read at this call, and is still the one that was read.
pub record Unchanged (env : Outside) (v : Snapshot) (n : ℕ) : Type 0 where
  pub current : Snapshot
  pub read : env.read n ≡ object current
  pub same : current.raw ≡ v.raw

-- All that is known of a process before it may be stopped: its description is asked for after the
-- file was read at the call `first`, then the endpoint, then the file once more, and then whether
-- the process is still there.
pub record Verified (env : Outside) (cfg : Config) (v : Snapshot) (pid first : ℕ) : Type 0 where
  pub named_pid : v.pid ≡ some pid
  pub service : v.base_url ≡ some cfg.base_url
  pub model_path : String
  pub named_model : v.model_path ≡ some model_path
  pub call : ℕ
  pub facts : Facts
  pub known : env.facts call pid ≡ some facts
  pub started : Started v facts
  pub runs : Runs env cfg facts
  pub listens : Listens cfg facts
  pub endpoint : Answers env model_path
  pub later : first < call
  pub asked_after : endpoint.call ≡ suc call
  pub unchanged : Unchanged env v (suc (suc call))
  pub alive : env.alive (suc (suc (suc call))) pid ≡ true

-- The state file is still the one that was read.
pub snapshot_of-some : (r : Reading) (w : Snapshot) → snapshot_of r ≡ ok (some w) → r ≡ object w
unfolding snapshot_of
snapshot_of-some absent w h = absurd (cc (h))
snapshot_of-some unreadable w h = absurd (cc (h))
snapshot_of-some undecodable w h = absurd (cc (h))
snapshot_of-some no_json w h = absurd (cc (h))
snapshot_of-some no_object w h = absurd (cc (h))
snapshot_of-some (object v) w h = elim (Bool-cases (leb v.size 65536)) [
  | inl e ↦ cc (rw e at h)
  | inr e ↦ absurd (cc (rw e at h))
]

pub claimed-facts :
    (env : Outside) (cfg : Config) (v : Snapshot) (c : ℕ × String)
    → claimed env cfg v ≡ ok c
    → (v.pid ≡ some (c.0)) × (v.base_url ≡ some cfg.base_url) × (v.model_path ≡ some (c.1))
unfolding claimed
claimed-facts env cfg v c h = go v.pid v.base_url v.model_path refl refl refl h
  where
    go :
        (po : Option ℕ) (uo mo : Option String)
        → v.pid ≡ po
        → v.base_url ≡ uo
        → v.model_path ≡ mo
        → (elim po [
          | none ↦ raise engine_unavailable
          | some pid ↦ elim uo [
            | none ↦ raise engine_unavailable
            | some url ↦ elim mo [
              | none ↦ raise engine_unavailable
              | some path ↦
                  if str_eq url cfg.base_url
                    && env.is_absolute path
                    && is_recorded env cfg v.executable
                  then ok (pid, path)
                  else raise engine_unavailable
            ]
          ]
        ])
          ≡ ok c
        → (v.pid ≡ some (c.0)) × (v.base_url ≡ some cfg.base_url) × (v.model_path ≡ some (c.1))
    go none uo mo p q r h = absurd (cc (h))
    go (some pid) none mo p q r h = absurd (cc (h))
    go (some pid) (some url) none p q r h = absurd (cc (h))
    go (some pid) (some url) (some path) p q r h =
        elim (Bool-cases
          (str_eq url cfg.base_url && env.is_absolute path && is_recorded env cfg v.executable)) [
            | inr e ↦ absurd (cc (rw e at h))
            | inl e ↦
                let same : (pid, path) ≡ c = cc (rw e at h) in
                let (a, b) =
                  &&-eq-true (str_eq url cfg.base_url && env.is_absolute path)
                    (is_recorded env cfg v.executable) e in
                let (d, f) = &&-eq-true (str_eq url cfg.base_url) (env.is_absolute path) a in
                (
                  p ∙ ap (λ (c : ℕ × String). some (c.0)) same,
                  q ∙ ap some ((str_eq_iff url cfg.base_url).0 d),
                  r ∙ ap (λ (c : ℕ × String). some (c.1)) same,
                )
          ]
