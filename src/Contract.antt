-- ===== src/Contract.antt =====
-- identity_contract.py, with what it takes from identity_models.py and identity_research.py: which
-- requests for an image of a person are accepted.
pub mod Estimate
pub mod Bundles
mod Examples
use Prim.Native.String
use mllm_windows_ai_workbenc.Prelude.{
  ℕ, suc, ◌+◌, ◌-◌, ◌*◌, ◌/◌, ◌%◌, min, max, String, Bool, true, false, not, ◌&&◌, ◌||◌, Option,
  none, some, ltb, leb, ◌==◌, if◌then◌else◌,
}
use mllm_windows_ai_workbenc.Errors.{Result, ok, raise, guard, value_error, ◌>>=◌, ◌>>◌}

-- `modelId`, the keys of MODEL_SPECS in their order.
pub data Model : Type 0 where
  realistic illustrious visual illustrious_visual : Model

-- MODEL_SPECS[self.modelId][1] == 'SDXL'
abbrev pub is_sdxl : Model → Bool
is_sdxl realistic = false
is_sdxl illustrious = true
is_sdxl visual = true
is_sdxl illustrious_visual = true

unfoldable pub is_visual_model_id : Model → Bool
is_visual_model_id realistic = false
is_visual_model_id illustrious = false
is_visual_model_id visual = true
is_visual_model_id illustrious_visual = true

abbrev pub is_realistic : Model → Bool
is_realistic realistic = true
is_realistic _ = false

abbrev pub is_illustrious : Model → Bool
is_illustrious illustrious = true
is_illustrious _ = false

pub data TraceLevel : Type 0 where
  off basic h6 h7 : TraceLevel

abbrev pub is_off : TraceLevel → Bool
is_off off = true
is_off _ = false

-- self.traceLevel in ('h6', 'h7')
abbrev pub is_deep : TraceLevel → Bool
is_deep h6 = true
is_deep h7 = true
is_deep _ = false

abbrev pub is_h7 : TraceLevel → Bool
is_h7 h7 = true
is_h7 _ = false

-- A float that is not negative, as an exact fraction.
pub record Ratio : Type 0 where
  pub num : ℕ
  pub den : ℕ

abbrev pub is_zero : Ratio → Bool
is_zero a = a.num == 0

abbrev pub is_one : Ratio → Bool
is_one a = a.num == a.den

abbrev pub is_at_least : Ratio → Ratio → Bool
is_at_least a b = leb (b.num * a.den) (a.num * b.den)

-- `IdentityGenerateRequest`, with the fields that `bounded_research` looks at. `is_extended` says
-- that `researchCoverage` is 'extended', `is_redraw` that `visualPolishMode` is 'redraw'.
pub record Request : Type 0 where
  pub model_id : Model
  pub prompt : String
  pub width : ℕ
  pub height : ℕ
  pub steps : ℕ
  pub reference_start : Ratio
  pub reference_end : Ratio
  pub structure_strength : Ratio
  pub face_lora_strength : Ratio
  pub face_polish : Bool
  pub anime_profile_id : Option String
  pub is_redraw : Bool
  pub visual_polish_passes : ℕ
  pub trace_level : TraceLevel
  pub is_extended : Bool

abbrev pub has_profile : Option String → Bool
has_profile none = false
has_profile (some id) = true

abbrev pub max_artifact_bytes : ℕ
max_artifact_bytes = 512 * 1024 * 1024

-- math.ceil(size / 8 / n), for a power n of two: the floats are exact.
unfoldable pub cells : ℕ → ℕ → ℕ
cells size n = (size + (8 * n - 1)) / (8 * n)

-- An entry of `grids`.
unfoldable pub grid : ℕ → ℕ → ℕ → ℕ
grid width height n = cells width n * cells height n

unfoldable pub area : ℕ → ℕ → Bool → ℕ
area width height true =
    5 * grid width height 1
    + 5 * grid width height 2
    + 5 * grid width height 4
    + grid width height 8
area width height false = 2 * grid width height 1 + grid width height 8

abbrev pub samples : ℕ → Bool → ℕ
samples steps true = steps
samples steps false = min steps 5

abbrev pub layers : Bool → ℕ
layers true = 16
layers false = 3

unfoldable pub estimated_capture_bytes : ℕ → ℕ → ℕ → ℕ → Bool → ℕ
estimated_capture_bytes width height steps token_count extended =
    samples steps extended * area width height extended * (token_count + 9) * 26
    + samples steps extended * layers extended * (token_count + 9) * 1400
    + steps * grid width height 1 * 8
    + 8 * 1024 * 1024

abbrev pub token_limit : Bool → ℕ
token_limit true = 75
token_limit false = 32

-- `len` counts the bytes of the UTF-8 encoding.
unfoldable pub tokens_of : Request → ℕ
tokens_of r = min (token_limit r.is_extended) (max 1 (String.len r.prompt))

abbrev pub is_affordable : Request → Bool
is_affordable r =
    leb (estimated_capture_bytes r.width r.height r.steps (tokens_of r) r.is_extended)
      max_artifact_bytes

-- What a visual model does not take, and what only such a model takes.
abbrev pub fits_visual : Request → Bool
fits_visual r =
    not (has_profile r.anime_profile_id)
    && is_zero r.structure_strength
    && is_zero r.face_lora_strength

abbrev pub fits_face : Request → Bool
fits_face r =
    is_zero r.reference_start
    && is_one r.reference_end
    && r.is_redraw
    && (r.visual_polish_passes == 1)

abbrev pub fits_model : Request → Bool
fits_model r = if is_visual_model_id r.model_id then fits_visual r else fits_face r

abbrev pub is_plain_large : Request → Bool
is_plain_large r =
    is_realistic r.model_id && is_off r.trace_level && not (has_profile r.anime_profile_id)

abbrev pub is_deep_extended : Request → Bool
is_deep_extended r = is_deep r.trace_level && r.is_extended

-- The checks before the estimate; each of them raises a ValueError.
unfoldable pub check_research : Request → Result (Unit {0})
check_research r =
    guard (leb (r.width * r.height) (768 * 1152)) value_error
    >> guard (leb (max r.width r.height) 768 || is_plain_large r) value_error
    >> guard (not (is_at_least r.reference_start r.reference_end)) value_error
    >> guard (fits_model r) value_error
    >> guard (not (r.face_polish && has_profile r.anime_profile_id) || is_illustrious r.model_id)
        value_error
    >> guard (not (is_sdxl r.model_id && is_deep_extended r)) value_error
    >> guard (not (is_deep_extended r) || (leb (max r.width r.height) 512 && leb r.steps 12))
        value_error

-- `bounded_research`
unfoldable pub bounded_research : Request → Result (Unit {0})
bounded_research r =
    check_research r >> guard (not (is_h7 r.trace_level) || is_affordable r) value_error
