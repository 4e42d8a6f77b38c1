-- ===== src/Contract/Examples.antt =====
-- A request that keeps every event of eight steps.
use mllm_windows_ai_workbenc.Prelude.{◌≡◌, refl, String, not, ◌&&◌, str_eq, true, none, inr, arith}
use mllm_windows_ai_workbenc.Errors.{ok}
use mllm_windows_ai_workbenc.Contract.{
  Request, realistic, illustrious_visual, h6, h7, cells, grid, area, estimated_capture_bytes,
  tokens_of, is_visual_model_id, check_research, bounded_research,
}
use mllm_windows_ai_workbenc.Contract.Bundles.{
  Bundle, Config, Files, Selected, require_enabled, bundle_of, selected_bundle, has_files,
  validate_extraction_assets, resolve_identity_model, resolve_identity_model-Selected,
}
use mllm_windows_ai_workbenc.Contract.Estimate.{bounded_research-advice}

abbrev eight_steps : Request
eight_steps = record {
  model_id = realistic;
  prompt = "a portrait in the garden, soft light";
  width = 512;
  height = 512;
  steps = 8;
  reference_start = record { num = 0; den = 1 };
  reference_end = record { num = 1; den = 1 };
  structure_strength = record { num = 9; den = 10 };
  face_lora_strength = record { num = 55; den = 100 };
  face_polish = true;
  anime_profile_id = none;
  is_redraw = true;
  visual_polish_passes = 1;
  trace_level = h7;
  is_extended = true;
}

bounded_research-advice_example :
    bounded_research eight_steps ≡ bounded_research (record eight_steps { trace_level = h6 })
bounded_research-advice_example =
    bounded_research-advice eight_steps refl (omega arith) (omega arith) (omega arith)
      (inr (omega arith))

accepted : bounded_research eight_steps ≡ ok tt
unfolding bounded_research check_research is_visual_model_id tokens_of estimated_capture_bytes area
    grid cells
accepted = refl

abbrev bundle : String → Bundle
bundle name = record {
  checkpoint = name;
  adapter = "adapter";
  face_lora = "lora";
  pipeline_config = "pipeline";
}

abbrev config : Config
config = record {
  own = bundle "default";
  models = λ m. bundle "xl";
  allows_experimental = true;
  clip_vision = "clip";
  insightface_root = "insight";
}

-- The default model's checkpoint is not there.
abbrev files : Files
files = record {
  is_file = λ p. not (str_eq p "default") && not (str_eq p "");
  is_dir = λ p. str_eq p "pipeline";
  detector = λ root name. name;
}

abbrev chosen : Bundle
chosen = record (bundle "xl") { face_lora = "" }

resolved : resolve_identity_model files config illustrious_visual ≡ ok chosen
unfolding resolve_identity_model require_enabled selected_bundle bundle_of has_files
    validate_extraction_assets is_visual_model_id
resolved = refl

resolve_identity_model-Selected_example : Selected files config illustrious_visual chosen
resolve_identity_model-Selected_example =
    resolve_identity_model-Selected files config illustrious_visual chosen resolved
