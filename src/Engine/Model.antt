-- ===== src/Engine/Model.antt =====
-- What persistent_engine.py asks of the operating system, and the client's own state.
use mllm_windows_ai_workbenc.Prelude.{ℕ, suc, ◌+◌, String, Bool, Option, List, ◌∷◌, str_eq}
use mllm_windows_ai_workbenc.Errors.{ok}
use mllm_windows_ai_workbenc.Actions.{Action}

-- The `model` of the capabilities: none or no path, no object, or one with a path.
pub data Loaded : Type 0 where
  unnamed odd_model : Loaded
  named : String → Loaded

pub record Capabilities : Type 0 where
  pub modes : Option (List String)
  pub model : Loaded

-- `GET /sdcpp/v1/capabilities`: a refused connection, another failure of the transport, or an
-- object.
pub data Endpoint : Type 0 where
  refused silent : Endpoint
  answers : Capabilities → Endpoint

-- A key of a JSON object: not there, of another type (or not finite), or a value.
pub data Field (A : Type 0) : Type 0 where
  missing odd : Field A
  given : A → Field A

-- A state file of an object: its bytes, their number, the time of its last change, and its keys. A
-- `pid` of none is no positive int, a text of none no text.
pub record Snapshot : Type 0 where
  pub raw : String
  pub size : ℕ
  pub modified : ℕ
  pub pid : Option ℕ
  pub base_url : Option String
  pub model_path : Option String
  pub flash_attention : Bool
  pub executable : Field String
  pub start_time : Field ℕ

-- Opening, decoding and parsing the state file.
pub data Reading : Type 0 where
  absent unreadable undecodable no_json no_object : Reading
  object : Snapshot → Reading

-- psutil.Process(pid)
pub data Opened : Type 0 where
  gone denied opened : Opened

-- A process as psutil describes it. `started` is none where the time is no finite positive number,
-- `command` where the command line is no list of texts or empty. `listening` are its listening TCP
-- connections.
pub record Facts : Type 0 where
  pub started : Option ℕ
  pub command : Option (List String)
  pub exe : String
  pub listening : List (String × ℕ)

-- The answer to an effect: it is done, the wait for it has timed out, or it raises.
pub data Reply : Type 0 where
  finished timed_out failed_reply : Reply

pub record Url : Type 0 where
  pub is_http : Bool
  pub host : Option String
  pub port : Option ℕ
  pub is_bare : Bool

pub record Config : Type 0 where
  pub base_url : String
  pub url : Url
  pub executable : String
  pub is_injected : Bool

-- `POST /sdcpp/v1/img_gen`: the transport fails, or an object whose id is no text or a text.
pub data Submission : Type 0 where
  rejected : Submission
  accepted : Option String → Submission

-- `["result"]["images"][0]["b64_json"]` of a native job: it is not there, it is no valid base64, or
-- the bytes that it stands for.
pub data Payload : Type 0 where
  no_payload no_base64 : Payload
  decodes : List ℕ → Payload

-- `GET` of a native job: its status, casefolded, and its first image.
pub record Status : Type 0 where
  pub status : String
  pub image : Payload

-- What the outside answers. Every answer may depend on the number of the call, so that other
-- processes may do anything between two calls. `normal` is normcase(abspath(p)).casefold(), times
-- are in milliseconds, and `clock` is the monotonic time without the client's own sleep. `facts` is
-- none where psutil raises, `poll` where the transport fails, and `spawn` where Popen raises.
pub record Outside : Type 0 where
  pub normal : String → String
  pub is_absolute : String → Bool
  pub port_text : ℕ → String
  pub has_psutil : Bool
  pub read : ℕ → Reading
  pub endpoint : ℕ → Endpoint
  pub open_process : ℕ → ℕ → Opened
  pub facts : ℕ → ℕ → Option Facts
  pub alive : ℕ → ℕ → Bool
  pub is_file : ℕ → Bool
  pub make_logs : ℕ → Bool
  pub spawn : ℕ → Option ℕ
  pub clock : ℕ → ℕ
  pub start_timeout : ℕ
  pub submit : ℕ → Submission
  pub poll : ℕ → Option Status
  pub is_cancelled : ℕ → Bool
  pub generation_timeout : ℕ
  pub reply : ℕ → Reply

-- The effects on the outside, with the process that they are about; `posted` is a request for an
-- image, sent at this call, whatever its answer, and `submitted` the id in an answer.
pub data Act : Type 0 where
  terminate kill await : ℕ → Act
  unlink_state write_state : Act
  posted : ℕ → Act
  submitted cancel_native : String → Act

-- `PersistentEngineClient`: its child process, the verified flag, the number of calls to the
-- outside, the time it has slept, and the effects so far, the last one first.
pub record Client : Type 0 where
  pub process : Option ℕ
  pub flash_verified : Bool
  pub calls : ℕ
  pub slept : ℕ
  pub acts : List Act

abbrev pub Run : Type 0 → Type 0
Run A = Action Client A

abbrev pub counted : Client → Client
counted s = record s { calls = suc s.calls }

abbrev pub ask : {A : Type 0} → (ℕ → A) → Run A
ask f s = (ok (f s.calls), counted s)

abbrev pub control : Outside → Act → Run Reply
control env a s = (ok (env.reply s.calls), record (counted s) { acts = a ∷ s.acts })

abbrev pub set_process : Option ℕ → Run (Unit {0})
set_process p s = (ok tt, record s { process = p })

abbrev pub set_flash : Bool → Run (Unit {0})
set_flash b s = (ok tt, record s { flash_verified = b })

abbrev pub sleep : ℕ → Run (Unit {0})
sleep ms s = (ok tt, record s { slept = s.slept + ms })

-- time.monotonic()
abbrev pub time_of : Outside → Client → ℕ
time_of env s = env.clock s.calls + s.slept

abbrev pub perform : Act → Run (Unit {0})
perform a s = (ok tt, record s { acts = a ∷ s.acts })

-- `_same_path`
unfoldable pub same_path : Outside → String → String → Bool
same_path env p q = str_eq (env.normal p) (env.normal q)
