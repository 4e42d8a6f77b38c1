-- ===== src/Contract/Bundles.antt =====
-- identity_models.py: which files a model of persons is loaded from.
use mllm_windows_ai_workbenc.Prelude.{
  ◌≡◌, ◌≢◌, refl, sym, ap, ◌∙◌, subst, ◌⊎◌, inl, inr, String, Bool, true, false, not, ◌&&◌, ◌||◌,
  str_eq, if◌then◌else◌, &&-eq-true,
}
use mllm_windows_ai_workbenc.Errors.{Result, ok, guard, value_error, ◌>>◌, bound-ok, guard-ok}
use mllm_windows_ai_workbenc.Contract.{
  Model, realistic, illustrious, visual, illustrious_visual, is_visual_model_id,
}

-- BUNDLE_KEYS; a key that is not there is an empty text.
pub record Bundle : Type 0 where
  pub checkpoint : String
  pub adapter : String
  pub face_lora : String
  pub pipeline_config : String

-- The configuration: its own bundle, which is the default model's, and those of `models`.
pub record Config : Type 0 where
  pub own : Bundle
  pub models : Model → Bundle
  pub allows_experimental : Bool
  pub clip_vision : String
  pub insightface_root : String

-- The file system, and the path of a detector below a root.
pub record Files : Type 0 where
  pub is_file : String → Bool
  pub is_dir : String → Bool
  pub detector : String → String → String

abbrev pub is_experimental : Model → Bool
is_experimental illustrious_visual = true
is_experimental _ = false

-- `require_identity_model_enabled`
unfoldable pub require_enabled : Config → Model → Result (Unit {0})
require_enabled config m = guard (not (is_experimental m) || config.allows_experimental) value_error

-- The bundle of a model: none but the default one takes the configuration's own.
unfoldable pub bundle_of : Config → Model → Bundle
bundle_of config realistic = config.own
bundle_of config illustrious = config.models illustrious
bundle_of config visual = config.models visual
bundle_of config illustrious_visual = record {
  checkpoint = (config.models illustrious).checkpoint;
  adapter = (config.models visual).adapter;
  face_lora = "";
  pipeline_config = (config.models illustrious).pipeline_config;
}

-- A visual model has no LoRA.
unfoldable pub selected_bundle : Config → Model → Bundle
selected_bundle config m =
    let b = bundle_of config m in if is_visual_model_id m then record b { face_lora = "" } else b

unfoldable pub has_files : Files → Model → Bundle → Bool
has_files files m b =
    files.is_file b.checkpoint
    && files.is_file b.adapter
    && (is_visual_model_id m || files.is_file b.face_lora)

abbrev pub has_pipeline : Files → Bundle → Bool
has_pipeline files b = not (str_eq b.pipeline_config "") && files.is_dir b.pipeline_config

-- `validate_extraction_assets`
unfoldable pub validate_extraction_assets : Files → Config → Model → Result (Unit {0})
validate_extraction_assets files config m =
    guard (files.is_file config.clip_vision) value_error
    >> guard (files.is_file (files.detector config.insightface_root "det_10g.onnx")) value_error
    >> guard
        (is_visual_model_id m
          || files.is_file (files.detector config.insightface_root "w600k_r50.onnx"))
        value_error

-- `resolve_identity_model`, up to the names that the selection also gets.
unfoldable pub resolve_identity_model : Files → Config → Model → Result Bundle
resolve_identity_model files config m =
    require_enabled config m
    >> guard (has_files files m (selected_bundle config m)) value_error
    >> guard (has_pipeline files (selected_bundle config m)) value_error
    >> validate_extraction_assets files config m
    >> ok (selected_bundle config m)

-- What a selection can be relied on for.
pub record Selected (files : Files) (config : Config) (m : Model) (b : Bundle) : Type 0 where
  pub checkpoint : files.is_file b.checkpoint ≡ true
  pub adapter : files.is_file b.adapter ≡ true
  pub face_lora :
      ((is_visual_model_id m ≡ true) × (b.face_lora ≡ ""))
      ⊎ ((is_visual_model_id m ≡ false) × (files.is_file b.face_lora ≡ true))
  pub pipeline_config : files.is_dir b.pipeline_config ≡ true
  pub enabled : m ≡ illustrious_visual → config.allows_experimental ≡ true
  pub isolated :
      m ≢ realistic
      → (own : Bundle) → resolve_identity_model files (record config { own = own }) m ≡ ok b

face_lora_of :
    (files : Files) (config : Config) (m : Model)
    → (is_visual_model_id m || files.is_file (selected_bundle config m).face_lora) ≡ true
    → ((is_visual_model_id m ≡ true) × ((selected_bundle config m).face_lora ≡ ""))
      ⊎ ((is_visual_model_id m ≡ false)
          × (files.is_file (selected_bundle config m).face_lora ≡ true))
unfolding selected_bundle
face_lora_of files config m h = go (is_visual_model_id m) h
  where
    go :
        (v : Bool)
        → (v
            || files.is_file
                (if v
                  then record (bundle_of config m) { face_lora = "" }
                  else bundle_of config m).face_lora)
          ≡ true
        → ((v ≡ true)
            × ((if v
                  then record (bundle_of config m) { face_lora = "" }
                  else bundle_of config m).face_lora
                ≡ ""))
          ⊎ ((v ≡ false)
              × (files.is_file
                    (if v
                      then record (bundle_of config m) { face_lora = "" }
                      else bundle_of config m).face_lora
                  ≡ true))
    go true h = inl (refl, refl)
    go false h = inr (refl, h)

-- Of another model than the default one, nothing hangs on the configuration's own bundle.
own_bundle :
    (files : Files) (config : Config) (m : Model) (own : Bundle)
    → m ≢ realistic
    → resolve_identity_model files (record config { own = own }) m
      ≡ resolve_identity_model files config m
unfolding resolve_identity_model require_enabled selected_bundle bundle_of
    validate_extraction_assets
own_bundle files config realistic own n = absurd (n refl)
own_bundle files config illustrious own n = refl
own_bundle files config visual own n = refl
own_bundle files config illustrious_visual own n = refl

-- A selection that succeeds names files that are there: the checkpoint, the adapter, the folder of
-- the pipeline, and the LoRA of a model that takes one, a visual model having none. The
-- experimental model has been enabled, and for any but the default model the configuration's own
-- bundle makes no difference, so nothing of it is inherited.
pub resolve_identity_model-Selected :
    (files : Files) (config : Config) (m : Model) (b : Bundle)
    → resolve_identity_model files config m ≡ ok b
    → Selected files config m b
unfolding resolve_identity_model require_enabled has_files
resolve_identity_model-Selected files config m b h =
    let x = selected_bundle config m in
    let enable = require_enabled config m in
    let there = guard (has_files files m x) value_error in
    let folder = guard (has_pipeline files x) value_error in
    let (u₄, rest₄, same) =
      bound-ok (enable >> there >> folder >> validate_extraction_assets files config m) (λ _. ok x)
        b h in
    let e : x ≡ b = cc (same) in
    let (u₃, rest₃, _) =
      bound-ok (enable >> there >> folder) (λ _. validate_extraction_assets files config m) u₄
        rest₄ in
    let (u₂, rest₂, dir) = bound-ok (enable >> there) (λ _. folder) u₃ rest₃ in
    let (u₁, rest₁, found) = bound-ok enable (λ _. there) u₂ rest₂ in
    let on = guard-ok (not (is_experimental m) || config.allows_experimental) value_error rest₁ in
    let (pair, lora) = &&-eq-true _ _ (guard-ok (has_files files m x) value_error found) in
    let (checkpoint, adapter) = &&-eq-true _ _ pair in
    subst (Selected files config m) e (record {
      checkpoint = checkpoint;
      adapter = adapter;
      face_lora = face_lora_of files config m lora;
      pipeline_config = (&&-eq-true _ _ (guard-ok (has_pipeline files x) value_error dir)).1;
      enabled =
          λ k. subst (λ m. (not (is_experimental m) || config.allows_experimental) ≡ true) k on;
      isolated = λ n own. own_bundle files config m own n ∙ h ∙ ap ok (sym e);
    })
