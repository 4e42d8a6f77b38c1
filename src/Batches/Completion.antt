-- ===== src/Batches/Completion.antt =====
-- `_complete_item` and `consume`: what the events of a worker change.

pub mod Sound
pub mod Posts
pub mod Completing
pub mod Observing
pub mod Validating
pub mod Consuming
use Prim.Native.String
use mllm_windows_ai_workbenc.Prelude.{
  ℕ, zero, suc, ◌+◌, ◌-◌, ◌*◌, String, Bool, true, false, not, ◌&&◌, ◌||◌, Option, none, some, List,
  [], ◌∷◌, ltb, leb, ◌==◌, str_eq, if◌then◌else◌, get_elem?, set, length, count_if,
}
use mllm_windows_ai_workbenc.Errors.{
  Exn, Result, ok, raise, os_error, value_error, key_error, index_error,
}
use mllm_windows_ai_workbenc.Errors
use mllm_windows_ai_workbenc.Batches.Model.{
  Params, Item, Batch, State, complete, sampling, is_complete, Percent, whole,
}
use mllm_windows_ai_workbenc.Batches.Store.{
  Store, Action, next, ◌>>=◌, ◌>>◌, pure, lift, modify, write, put_job, put_pending, update, save,
  load,
}
use mllm_windows_ai_workbenc.Batches.Observed.{
  Event, stage, step, item_complete, preview_error, elapsed_of, validated_event,
}

-- An image file that can be opened, as `stat` and Pillow describe it.
pub record Image : Type 0 where
  pub size : ℕ
  pub is_png : Bool
  pub width : ℕ
  pub height : ℕ
  pub is_intact : Bool

-- What is on the disk for a job, and what the float division in an estimate gives: `image` is its
-- output, `metadata` the JSON object beside it with `_validate_face_polish` passed, `preview` whether
-- a named preview passes `_preview_path`, `has_paths` whether `output_paths` and `_job_path` find the
-- paths inside Dream, `cleanup` the error text of `_cleanup_incomplete`, and `ratio a b c` is
-- round(a / b * c).
pub record Outside : Type 0 where
  pub image : String → Result Image
  pub metadata : String → Result String
  pub preview : String → Result (Unit {0})
  pub has_paths : String → Bool
  pub cleanup : String → Option String
  pub ratio : ℕ → ℕ → ℕ → ℕ

abbrev pub complete_count : List Item → ℕ
complete_count items = count_if (λ x. is_complete x.state) items

-- sum(j["request"]["steps"] for j in items)
abbrev pub sum_steps : List Item → ℕ
sum_steps [] = 0
sum_steps (x ∷ xs) = x.request.steps + sum_steps xs

abbrev pub complete_steps : List Item → ℕ
complete_steps [] = 0
complete_steps (x ∷ xs) =
    let n = complete_steps xs in if is_complete x.state then x.request.steps + n else n

abbrev pub items_from : ℕ → List Item → List Item
items_from zero xs = xs
items_from (suc n) [] = []
items_from (suc n) (x ∷ xs) = items_from n xs

abbrev pub or_else {ℓ} : {A : Type ℓ} → Option A → A → A
or_else none a = a
or_else (some b) a = b

-- The record's item, as the service knows it now.
unfoldable pub prior_of : Item → Store → Item
prior_of x s = or_else (s.pending x.id) (or_else (s.jobs x.id) x)

-- any(state != "complete" for previous in items[:index])
unfoldable pub is_out_of_order : (String → Option Item) → ℕ → List Item → Bool
is_out_of_order jobs zero xs = false
is_out_of_order jobs (suc n) [] = false
is_out_of_order jobs (suc n) (x ∷ xs) =
    not (is_complete (or_else (jobs x.id) x).state) || is_out_of_order jobs n xs

abbrev pub recounted : Batch → ℕ → Item → Batch
recounted r index x = record r {
  items = set r.items index x;
  completed_items = complete_count (set r.items index x);
}

-- The checks of the output, in their order.
unfoldable pub inspect : Outside → String → Params → Result String
inspect env id params = Errors.◌>>=◌ (env.image id) λ i.
    Errors.◌>>◌ (Errors.guard (leb i.size (16 * 1024 * 1024)) value_error) (
      Errors.◌>>◌
        (Errors.guard (i.is_png && (i.width == params.width) && (i.height == params.height))
          value_error)
        (Errors.◌>>◌ (Errors.guard i.is_intact value_error) (env.metadata id)))

abbrev pub completed_item : String → Item → Item
completed_item metadata x = record x {
  state = complete;
  progress = whole 100;
  message = "生成完成";
  error = none;
  result = some metadata;
}

abbrev pub unsaved_item : String → Item → Item
unsaved_item metadata x = record x {
  state = complete;
  progress = whole 99;
  message = "图片已保留，完成状态待保存";
  error = some "图片已完整生成，但完成状态保存失败；原图和事件记录已保留，请检查磁盘后重启恢复";
  result = some metadata;
}

abbrev pub finished_at : Batch → ℕ → Params → Item → Batch
finished_at r index params x = record (recounted r index x) {
  current_item = suc index;
  step = params.steps;
  total_steps = params.steps;
}

-- How `_complete_item` leaves the record that it is given: an OSError of a write is a
-- CompletionPersistenceError, raised after the record has been changed.
pub data Completion : Type 0 where
  saved unsaved : Batch → Completion
  refused : Exn → Completion

unfoldable pub settle_commit :
    Batch → ℕ → Item → Item → String → Result Item × Store → Completion × Store
settle_commit r index x prior metadata (ok y, t) = (saved (finished_at r index x.request y), t)
settle_commit r index x prior metadata (raise os_error, t) =
    let y = unsaved_item metadata prior in
    (unsaved (finished_at r index x.request y), put_pending x.id y (put_job x.id y t))
settle_commit r index x prior metadata (raise e, t) = (refused e, t)

-- The two writes, of the metadata and of the job, and what follows each outcome.
unfoldable pub commit : Batch → ℕ → Item → Item → String → Store → Completion × Store
commit r index x prior metadata s =
    settle_commit r index x prior metadata
      (next (write s) (λ _. update x.id (completed_item metadata)))

-- An item that is complete already: what is pending becomes the job.
unfoldable pub adopt : Batch → ℕ → Item → Item → Store → Completion × Store
adopt r index x prior s = (
  saved (recounted r index prior),
  elim (s.pending x.id) [ none ↦ s | some _ ↦ put_job x.id prior s ],
)

unfoldable pub finish_item : Outside → Batch → ℕ → Item → Store → Completion × Store
finish_item env r index x s =
    if is_out_of_order s.jobs index r.items
    then (refused value_error, s)
    else (elim (inspect env x.id x.request) [
      | raise e ↦ (refused e, s)
      | ok metadata ↦ commit r index x (prior_of x s) metadata s
    ])

-- `_complete_item`
unfoldable pub complete_item : Outside → Batch → ℕ → Store → Completion × Store
complete_item env r index s = elim (get_elem? r.items index) [
  | none ↦ (refused index_error, s)
  | some x ↦
      if is_complete (prior_of x s).state
      then adopt r index x (prior_of x s) s
      else finish_item env r index x s
]

-- CompletionPersistenceError is an OSError.
unfoldable pub observe_complete : Completion × Store → Result Batch × Store
observe_complete (saved r, s) = (ok r, s)
observe_complete (unsaved r, s) = (raise os_error, s)
observe_complete (refused e, s) = (raise e, s)

abbrev pub item_at : Batch → ℕ → Result Item
item_at r i = elim (get_elem? r.items i) [ none ↦ raise index_error | some x ↦ ok x ]

abbrev pub replaced : Batch → ℕ → Item → Batch
replaced r i x = record r { items = set r.items i x }

-- A new image starts from step 0.
abbrev pub entered : Batch → ℕ → Item → Batch
entered r i x = record r {
  step = if r.current_item == suc i then r.step else 0;
  preview_url = if r.current_item == suc i then r.preview_url else none;
  current_item = suc i;
  total_steps = x.request.steps;
}

unfoldable pub observe_stage : Batch → String → Option ℕ → Action Batch
observe_stage r text none = pure (record r { stage = text; eta_ms = none })
observe_stage r text (some i) =
    let q = record r { stage = text; eta_ms = none } in
    if i == r.completed_items
    then (lift (item_at q i) >>= λ x.
        update x.id (λ y. record y { message = text }) >>= λ y. pure (replaced (entered q i x) i y))
    else pure q

-- min(99, 100 * step / totalSteps)
abbrev pub at_most : ℕ → ℕ → ℕ → Percent
at_most cap num den = if leb num (cap * den) then record { num = num; den = den } else whole cap

abbrev pub is_named : Option String → Bool
is_named none = false
is_named (some file) = not (str_eq file "")

abbrev pub preview_checked : Outside → Option String → Result (Unit {0})
preview_checked env none = ok tt
preview_checked env (some file) = if str_eq file "" then ok tt else env.preview file

abbrev pub url_after : Batch → Option String → Option String
url_after r none = r.preview_url
url_after r (some file) =
    if str_eq file ""
    then r.preview_url
    else some
        (String.◌++◌ "/api/identity/batches/" (String.◌++◌ r.id (String.◌++◌ "/previews/" file)))

abbrev pub previewed : Option String → Batch → Batch
previewed file r = record r { preview_url = url_after r file }

-- The estimate, from the last sample of the image.
abbrev pub eta_after : Outside → ℕ → ℕ → ℕ → Option (ℕ × ℕ) → Batch → Option ℕ
eta_after env elapsed i number none r = r.eta_ms
eta_after env elapsed i number (some (last, time)) r =
    let remaining = sum_steps (items_from i r.items) - number in
    if ltb last number && ltb time elapsed
    then some (env.ratio (elapsed - time) (number - last) remaining)
    else r.eta_ms

abbrev pub estimated : Outside → ℕ → ℕ → ℕ → ℕ → Option (ℕ × ℕ) → Batch → Batch
estimated env elapsed i number total sample r = record r {
  eta_ms = if number == total then none else eta_after env elapsed i number sample r;
}

abbrev pub put_sample : String → ℕ → ℕ × ℕ → Store → Store
put_sample id i v s = record s {
  samples = λ k j. if str_eq k id && (j == i) then some v else s.samples k j;
}

unfoldable pub sampled : Outside → ℕ → ℕ → ℕ → ℕ → Item → Batch → Action Batch
sampled env elapsed i number total x q =
    (λ s. (
      ok (estimated env elapsed i number total (s.samples q.id i) q),
      put_sample q.id i (number, elapsed) s,
    ))
    >>= λ p.
        update x.id (λ y. record y { state = sampling; progress = at_most 99 (100 * number) total })
        >>= λ y. pure (replaced p i y)

unfoldable pub observe_step : Outside → Batch → ℕ → ℕ → ℕ → ℕ → Option String → Action Batch
observe_step env r elapsed i number total file = lift (item_at r i) >>= λ x.
    lift (preview_checked env file) >>= λ _. sampled env elapsed i number total x (
      previewed file (record r {
        preview_url = if r.current_item == suc i then r.preview_url else none;
        state = sampling;
        current_item = suc i;
        step = number;
        total_steps = total;
        stage = "采样";
      }))

unfoldable pub observe : Outside → Batch → Event → Action Batch
observe env r (item_complete elapsed i job_id) s = observe_complete (complete_item env r i s)
observe env r (stage elapsed text i) s = observe_stage r text i s
observe env r (preview_error elapsed i message) s =
    (ok (record r { preview_url = none; error = some (String.◌++◌ "中间预览不可用：" message) }), s)
observe env r (step elapsed i number total file) s =
    observe_step env r elapsed i number total file s

-- The steps of the image in hand count, unless it is complete.
unfoldable pub observed_steps : Batch → Result ℕ
observed_steps r = elim r.current_item [
  | zero ↦ ok (complete_steps r.items)
  | suc i ↦ elim (get_elem? r.items i) [
    | none ↦ raise index_error
    | some x ↦ ok (complete_steps r.items + (if is_complete x.state then 0 else r.step))
  ]
]

abbrev pub progress_cap : Batch → ℕ
progress_cap r = if r.completed_items == r.total_items then 100 else 99

abbrev pub measured : Batch → ℕ → Batch
measured r observed = record r {
  progress = at_most (progress_cap r) (100 * observed) (sum_steps r.items);
}

-- `consume` from the validation on, of the record that was read.
unfoldable pub take_event : Outside → Option Event → Batch → Action (Unit {0})
take_event env value r = lift (validated_event r value) >>= λ e.
    observe env (record r { elapsed_ms = elapsed_of e }) e >>= λ q.
    lift (observed_steps q) >>= λ n. save (measured q n) >>= λ _. pure tt

unfoldable pub consume : Outside → String → Option Event → Action (Unit {0})
consume env id value = load false id >>= take_event env value
