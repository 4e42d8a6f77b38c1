-- ===== src/Batches/Model.antt =====
-- The records of identity_batches.py.
use mllm_windows_ai_workbenc.Prelude.{ℕ, String, Bool, true, false, Option, List}

-- `IdentityGenerateRequest` as far as batches look at it: a seed of none is "random", and `options`
-- is the text of the other fields, which are only compared and passed on.
pub record Params : Type 0 where
  pub reference_id : String
  pub face_index : ℕ
  pub seed : Option ℕ
  pub steps : ℕ
  pub width : ℕ
  pub height : ℕ
  pub options : String

pub record BatchRequest : Type 0 where
  pub profile_id : Option String
  pub request : Params
  pub count : ℕ
  pub step_values : Option (List ℕ)
  pub preview_every : ℕ

pub data State : Type 0 where
  queued preparing sampling complete failed cancelled : State

-- TERMINAL
abbrev pub is_terminal : State → Bool
is_terminal complete = true
is_terminal failed = true
is_terminal cancelled = true
is_terminal _ = false

abbrev pub is_complete : State → Bool
is_complete complete = true
is_complete _ = false

abbrev pub is_failed : State → Bool
is_failed failed = true
is_failed _ = false

abbrev pub is_cancelled : State → Bool
is_cancelled cancelled = true
is_cancelled _ = false

-- A float of the source, as an exact fraction.
pub record Percent : Type 0 where
  pub num : ℕ
  pub den : ℕ

abbrev pub whole : ℕ → Percent
whole n = record { num = n; den = 1 }

-- BatchItem; `result` is the text of the image's address and metadata.
pub record Item : Type 0 where
  pub id : String
  pub state : State
  pub progress : Percent
  pub message : String
  pub request : Params
  pub result : Option String
  pub error : Option String
  pub anime_binding : Option String

-- BatchRetryRequest.mode
pub data Mode : Type 0 where
  only_failed unfinished : Mode

-- BatchRecord, without the two times of day. `parent` to `key_hash` are there in a retry only.
pub record Batch : Type 0 where
  pub id : String
  pub state : State
  pub request : BatchRequest
  pub items : List Item
  pub current_item : ℕ
  pub total_items : ℕ
  pub completed_items : ℕ
  pub step : ℕ
  pub total_steps : ℕ
  pub progress : Percent
  pub stage : String
  pub elapsed_ms : ℕ
  pub eta_ms : Option ℕ
  pub preview_url : Option String
  pub error : Option String
  pub parent : Option String
  pub indices : Option (List ℕ)
  pub mode : Option Mode
  pub key_hash : Option String
