-- ===== src/Engine/Identity.antt =====
-- `_adopt_for_release`: whether the process that the state file names is the engine.
use Prim.Native.Char.{code}
use mllm_windows_ai_workbenc.Prelude.{
  ℕ, String, Bool, true, false, not, ◌&&◌, Option, none, some, List, [], ◌∷◌, leb, ◌==◌, str_eq,
  elem, any_of, if◌then◌else◌,
}
use mllm_windows_ai_workbenc.Errors.{
  Exn, Result, ok, raise, guard, value_error, attribute_error, engine_unavailable,
}
use mllm_windows_ai_workbenc.Errors
use mllm_windows_ai_workbenc.Actions.{◌>>=◌, pure, lift}
use mllm_windows_ai_workbenc.Engine.Model.{
  Capabilities, Loaded, unnamed, odd_model, named, Endpoint, refused, silent, answers, Field,
  missing, odd, given, Snapshot, Reading, absent, object, Opened, gone, denied, opened, Facts,
  Config, Outside, Client, Run, ask, same_path,
}

-- token.partition("="): the part before the first sign, and what follows it if it is there.
unfoldable pub partition : String → String × Option String
partition String.[] = (String.[], none)
partition (String.◌∷◌ c s) =
    let (key, value) = partition s in
    if code c == 0x3d then (String.[], some s) else (String.◌∷◌ c key, value)

-- The values of an option, in the words after the program.
unfoldable pub option_values : List String → List String → Result (List String)
option_values names [] = ok []
option_values names (token ∷ rest) =
    let more = option_values names rest in
    let (key, value) = partition token in
    if elem key names
    then (elim value [
      | some v ↦ Errors.◌>>=◌ more (λ vs. ok (v ∷ vs))
      | none ↦ elim rest [
        | [] ↦ raise value_error
        | v ∷ others ↦ Errors.◌>>=◌ more (λ vs. ok (v ∷ vs))
      ]
    ])
    else more

abbrev pub only_one : List String → Result String
only_one [] = raise value_error
only_one (v ∷ []) = if str_eq v "" then raise value_error else ok v
only_one (v ∷ w ∷ vs) = raise value_error

-- `_command_option`, of the words after the program.
unfoldable pub command_option : List String → List String → Result String
command_option words names = Errors.◌>>=◌ (option_values names words) only_one

-- `_release_snapshot`
unfoldable pub snapshot_of : Reading → Result (Option Snapshot)
snapshot_of absent = ok none
snapshot_of (object v) = if leb v.size 65536 then ok (some v) else raise engine_unavailable
snapshot_of _ = raise engine_unavailable

unfoldable pub release_snapshot : Outside → Run (Option Snapshot)
release_snapshot env = ask env.read >>= λ r. lift (snapshot_of r)

abbrev pub is_unchanged : Snapshot → Option Snapshot → Bool
is_unchanged v none = false
is_unchanged v (some w) = str_eq w.raw v.raw

-- `_state_unchanged`
unfoldable pub state_unchanged : Outside → Snapshot → Run (Unit {0})
state_unchanged env v =
    release_snapshot env >>= λ current. lift (guard (is_unchanged v current) engine_unavailable)

-- `_release_endpoint`: only a refused connection proves that nothing listens.
unfoldable pub listener_of : Endpoint → Result (Option Capabilities)
listener_of refused = ok none
listener_of silent = raise engine_unavailable
listener_of (answers c) = ok (some c)

unfoldable pub release_endpoint : Outside → Run (Option Capabilities)
release_endpoint env = ask env.endpoint >>= λ e. lift (listener_of e)

abbrev pub has_mode : Option (List String) → Bool
has_mode none = false
has_mode (some modes) = elem "img_gen" modes

unfoldable pub check_loaded : Outside → String → Loaded → Result (Unit {0})
check_loaded env model_path unnamed = raise engine_unavailable
check_loaded env model_path odd_model = raise attribute_error
check_loaded env model_path (named p) =
    guard (not (str_eq p "") && same_path env p model_path) engine_unavailable

abbrev pub has_model : Loaded → Result (Unit {0})
has_model odd_model = raise attribute_error
has_model _ = ok tt

-- `_verify_capabilities`: the model is read before the modes are checked.
unfoldable pub verify_capabilities : Outside → String → Capabilities → Result (Unit {0})
verify_capabilities env model_path c =
    Errors.◌>>◌ (Errors.◌>>◌ (has_model c.model) (guard (has_mode c.modes) engine_unavailable))
      (check_loaded env model_path c.model)

abbrev pub is_recorded : Outside → Config → Field String → Bool
is_recorded env cfg missing = true
is_recorded env cfg odd = false
is_recorded env cfg (given p) = same_path env p cfg.executable

-- The process and the model that the state file names, where it is about this service.
unfoldable pub claimed : Outside → Config → Snapshot → Result (ℕ × String)
claimed env cfg v = elim v.pid [
  | none ↦ raise engine_unavailable
  | some pid ↦ elim v.base_url [
    | none ↦ raise engine_unavailable
    | some url ↦ elim v.model_path [
      | none ↦ raise engine_unavailable
      | some path ↦
          if str_eq url cfg.base_url && env.is_absolute path && is_recorded env cfg v.executable
          then ok (pid, path)
          else raise engine_unavailable
    ]
  ]
]

abbrev pub loopback : List String
loopback = "127.0.0.1" ∷ "localhost" ∷ "::1" ∷ []

-- The address and the port of the service's own URL.
unfoldable pub own_address : Config → Result (String × ℕ)
own_address cfg = elim cfg.url.host [
  | none ↦ raise value_error
  | some host ↦ elim cfg.url.port [
    | none ↦ raise value_error
    | some port ↦
        if cfg.url.is_http && elem host loopback && cfg.url.is_bare
        then ok (host, port)
        else raise value_error
  ]
]

-- The start of the process is the recorded one; an old record has none, and then the process is
-- not younger than the record.
unfoldable pub is_same_start : Snapshot → ℕ → Bool
is_same_start v started = elim v.start_time [
  | missing ↦ leb started v.modified
  | odd ↦ false
  | given t ↦ t == started
]

abbrev pub bound_names : String → List String
bound_names host = if str_eq host "localhost" then loopback else host ∷ []

abbrev pub listener_names : String → List String
listener_names ip = if str_eq ip "localhost" then "127.0.0.1" ∷ "::1" ∷ [] else ip ∷ []

-- The process itself listens at the address.
abbrev pub is_listening : String → ℕ → List (String × ℕ) → Bool
is_listening ip port listening =
    any_of (λ (c : String × ℕ). elem c.0 (listener_names ip) && (c.1 == port)) listening

unfoldable pub check_bind :
    Outside → String × ℕ → List (String × ℕ) → String → String → Result (Unit {0})
check_bind env (host, port) listening ip number =
    Errors.◌>>◌
      (guard (elem ip (bound_names host) && str_eq number (env.port_text port)) value_error)
      (guard (is_listening ip port listening) value_error)

-- The command line starts the engine with the model, at the service's address.
unfoldable pub check_command :
    Outside → Config → String → String × ℕ → List String → List (String × ℕ) → Result (Unit {0})
check_command env cfg model_path address words listening =
    Errors.◌>>=◌ (command_option words ("-m" ∷ "--model" ∷ [])) λ model.
      Errors.◌>>◌ (guard (same_path env model model_path) value_error) (
        Errors.◌>>=◌ (command_option words ("--listen-ip" ∷ [])) λ ip.
          Errors.◌>>=◌ (command_option words ("--listen-port" ∷ []))
            λ number. check_bind env address listening ip number)

unfoldable pub check_start : Snapshot → Option ℕ → Result (Unit {0})
check_start v none = raise value_error
check_start v (some started) = guard (is_same_start v started) engine_unavailable

-- The program and the words after it.
abbrev pub words_of : Option (List String) → Result (String × List String)
words_of none = raise value_error
words_of (some []) = raise value_error
words_of (some (program ∷ words)) = ok (program, words)

abbrev pub is_engine : Outside → Config → Facts → String → Bool
is_engine env cfg f program =
    same_path env f.exe cfg.executable && same_path env program cfg.executable

unfoldable pub check_words :
    Outside → Config → String → Facts → String × ℕ → String × List String → Result (Unit {0})
check_words env cfg model_path f address (program, words) =
    Errors.◌>>◌ (guard (is_engine env cfg f program) value_error)
      (check_command env cfg model_path address words f.listening)

unfoldable pub check_facts : Outside → Config → Snapshot → String → Facts → Result (Unit {0})
check_facts env cfg v model_path f = Errors.◌>>=◌ (own_address cfg) λ address.
    Errors.◌>>◌ (check_start v f.started)
      (Errors.◌>>=◌ (words_of f.command) (check_words env cfg model_path f address))

abbrev pub known_facts : Option Facts → Result Facts
known_facts none = raise engine_unavailable
known_facts (some f) = ok f

abbrev pub known_listener : Option Capabilities → Result Capabilities
known_listener none = raise value_error
known_listener (some c) = ok c

-- The checks of an open process, up to its still being the one that was opened.
unfoldable pub check_process : Outside → Config → Snapshot → ℕ → String → Run (Unit {0})
check_process env cfg v pid model_path = ask (λ n. env.facts n pid) >>= λ known.
    lift (Errors.◌>>=◌ (known_facts known) (check_facts env cfg v model_path)) >>= λ _.
    release_endpoint env >>= λ listener.
    lift (Errors.◌>>=◌ (known_listener listener) (verify_capabilities env model_path)) >>= λ _.
    state_unchanged env v >>= λ _.
    ask (λ n. env.alive n pid) >>= λ alive. lift (guard alive value_error)

-- Whatever the checks raise, the caller sees that the engine is not available.
abbrev pub as_unavailable : {A : Type 0} → Result A × Client → Result A × Client
as_unavailable (ok a, s) = (ok a, s)
as_unavailable (raise e, s) = (raise engine_unavailable, s)

unfoldable pub adopt_opened : Outside → Config → Snapshot → ℕ → String → Opened → Run (Option ℕ)
adopt_opened env cfg v pid model_path gone s = (ok none, s)
adopt_opened env cfg v pid model_path denied s = (raise engine_unavailable, s)
adopt_opened env cfg v pid model_path opened s =
    as_unavailable ((check_process env cfg v pid model_path >>= λ _. pure (some pid)) s)

-- `_adopt_for_release`
unfoldable pub adopt_for_release : Outside → Config → Snapshot → Run (Option ℕ)
adopt_for_release env cfg v = lift (guard env.has_psutil engine_unavailable) >>= λ _.
    lift (claimed env cfg v) >>= λ c.
    ask (λ n. env.open_process n (c.0)) >>= λ o. adopt_opened env cfg v (c.0) (c.1) o
