-- ===== src/Batches/Observed.antt =====
-- The events that a batch's worker reports, and `_validated_event`.
use Prim.Native.String
use mllm_windows_ai_workbenc.Prelude.{
  ℕ, ◌+◌, ◌/◌, ◌%◌, String, Bool, true, false, not, ◌&&◌, ◌||◌, Option, none, some, List, [], ◌∷◌,
  ltb, leb, ◌==◌, str_eq, get_elem?, length, codes,
}
use mllm_windows_ai_workbenc.Errors.{
  Result, ok, raise, value_error, index_error, ◌>>=◌, ◌>>◌, guard,
}
use mllm_windows_ai_workbenc.Batches.Model.{Item, Batch}

-- StageEvent, StepEvent, CompleteEvent and PreviewErrorEvent: first `elapsedMs`, then the fields in
-- their order. `previewSource` and `type` are not looked at any more.
pub data Event : Type 0 where
  stage : ℕ → String → Option ℕ → Event
  step : ℕ → ℕ → ℕ → ℕ → Option String → Event
  item_complete : ℕ → ℕ → String → Event
  preview_error : ℕ → ℕ → String → Event

abbrev pub elapsed_of : Event → ℕ
elapsed_of (stage elapsed _ _) = elapsed
elapsed_of (step elapsed _ _ _ _) = elapsed
elapsed_of (item_complete elapsed _ _) = elapsed
elapsed_of (preview_error elapsed _ _) = elapsed

-- getattr(event, "itemIndex", None)
abbrev pub index_of : Event → Option ℕ
index_of (stage _ _ index) = index
index_of (step _ index _ _ _) = some index
index_of (item_complete _ index _) = some index
index_of (preview_error _ index _) = some index

abbrev pub is_in : ℕ → ℕ → ℕ → Bool
is_in low high n = leb low n && leb n high

abbrev pub is_short : ℕ → Option String → Bool
is_short limit none = true
is_short limit (some s) = leb (length (codes s)) limit

-- The ranges of the fields.
unfoldable pub is_ranged : Event → Bool
is_ranged (stage elapsed text index) =
    leb elapsed 86400000
    && is_in 1 120 (length (codes text))
    && (elim index [ none ↦ true | some i ↦ leb i 15 ])
is_ranged (step elapsed index number total file) =
    leb elapsed 86400000
    && leb index 15
    && is_in 1 50 number
    && is_in 1 50 total
    && is_short 80 file
is_ranged (item_complete elapsed index job_id) = leb elapsed 86400000 && leb index 15
is_ranged (preview_error elapsed index message) =
    leb elapsed 86400000 && leb index 15 && leb (length (codes message)) 500

abbrev pub is_beyond : Batch → Option ℕ → Bool
is_beyond r none = false
is_beyond r (some i) = leb r.total_items i || ltb r.completed_items i

-- f"{step:03d}", for a number below 1000
abbrev digits : List String
digits = "0" ∷ "1" ∷ "2" ∷ "3" ∷ "4" ∷ "5" ∷ "6" ∷ "7" ∷ "8" ∷ "9" ∷ []

abbrev pub text_or_empty : Option String → String
text_or_empty none = ""
text_or_empty (some s) = s

unfoldable pub digit : ℕ → String
digit n = text_or_empty (get_elem? digits (n % 10))

unfoldable pub preview_name : String → ℕ → String
preview_name id n = String.◌++◌ id (
    String.◌++◌ "-step-"
      (String.◌++◌ (digit (n / 100)) (String.◌++◌ (digit (n / 10)) (String.◌++◌ (digit n) ".png"))))

-- A preview that is named has to be wanted, and to be that of the step; an empty name is none.
unfoldable pub is_bad_preview : Batch → Item → ℕ → Option String → Bool
is_bad_preview r item number none = false
is_bad_preview r item number (some file) =
    not (str_eq file "")
    && ((r.request.preview_every == 0) || not (str_eq file (preview_name item.id number)))

unfoldable pub is_bad_step : Batch → Item → ℕ → ℕ → ℕ → Bool
is_bad_step r item index number total =
    not (index == r.completed_items)
    || not (total == item.request.steps)
    || ltb total number
    || ((r.current_item == index + 1) && ltb number r.step)

unfoldable pub validated_item : Batch → Event → Item → Result (Unit {0})
validated_item r (item_complete elapsed index job_id) item =
    guard (str_eq job_id item.id) value_error
validated_item r (step elapsed index number total file) item =
    guard (not (is_bad_step r item index number total)) value_error
    >> guard (not (is_bad_preview r item number file)) value_error
validated_item r _ item = ok tt

-- The events whose item is looked up.
abbrev pub item_of : Event → Option ℕ
item_of (item_complete _ index _) = some index
item_of (step _ index _ _ _) = some index
item_of _ = none

abbrev pub validated_place : Batch → Event → Option ℕ → Result (Unit {0})
validated_place r e none = ok tt
validated_place r e (some i) = elim (get_elem? r.items i) [
  | none ↦ raise index_error
  | some item ↦ validated_item r e item
]

-- `_validated_event`: none is a value of no known type, or one whose fields have other types.
unfoldable pub validated_event : Batch → Option Event → Result Event
validated_event r none = raise value_error
validated_event r (some e) =
    guard (is_ranged e) value_error
    >> guard (leb r.elapsed_ms (elapsed_of e)) value_error
    >> guard (not (is_beyond r (index_of e))) value_error
    >> (validated_place r e (item_of e) >>= λ _. ok e)
