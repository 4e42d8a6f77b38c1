-- ===== src/Batches/Lineage.antt =====
-- `_validate_lineage`: which batch another one retries, up to the one that was asked for.
pub mod Equal
pub mod Parents
pub mod Rounds
pub mod Origins
pub mod Endings
mod Examples
use mllm_windows_ai_workbenc.Prelude.{
  ℕ, zero, suc, ◌*◌, String, Bool, true, false, not, ◌&&◌, ◌||◌, Option, none, some, List, [], ◌∷◌,
  map, codes, is_hex_run, is_tagged_hex, elem, leb, ltb, ◌==◌, str_eq, if◌then◌else◌, length,
  all_of,
}
use mllm_windows_ai_workbenc.Errors.{Result, ok, raise, value_error, guard, ◌>>=◌, ◌>>◌}
use mllm_windows_ai_workbenc.History.Record.{is_identity_id, is_batch_id}
use mllm_windows_ai_workbenc.Batches.Model.{
  Params, BatchRequest, Item, Batch, Mode, only_failed, unfinished, is_terminal, is_complete,
  is_failed, Percent,
}
use mllm_windows_ai_workbenc.Batches.Matrix.{bounded_matrix, in_range, item_requests}

-- `==` of the source's dictionaries and lists.
module _ {ℓ} {A : Type ℓ} where
  unfoldable pub option_eq : (A → A → Bool) → Option A → Option A → Bool
  option_eq eq none none = true
  option_eq eq (some a) (some b) = eq a b
  option_eq eq none (some b) = false
  option_eq eq (some a) none = false

  unfoldable pub list_eq : (A → A → Bool) → List A → List A → Bool
  list_eq eq [] [] = true
  list_eq eq (a ∷ xs) (b ∷ ys) = eq a b && list_eq eq xs ys
  list_eq eq [] (b ∷ ys) = false
  list_eq eq (a ∷ xs) [] = false

unfoldable pub params_eq : Params → Params → Bool
params_eq p q =
    str_eq p.reference_id q.reference_id
    && (p.face_index == q.face_index)
    && option_eq (λ a b. a == b) p.seed q.seed
    && (p.steps == q.steps)
    && (p.width == q.width)
    && (p.height == q.height)
    && str_eq p.options q.options

unfoldable pub request_eq : BatchRequest → BatchRequest → Bool
request_eq a b =
    option_eq str_eq a.profile_id b.profile_id
    && params_eq a.request b.request
    && (a.count == b.count)
    && option_eq (list_eq (λ x y. x == y)) a.step_values b.step_values
    && (a.preview_every == b.preview_every)

abbrev pub is_some {ℓ} : {A : Type ℓ} → Option A → Bool
is_some none = false
is_some (some a) = true

abbrev pub holds {ℓ} : {A : Type ℓ} → (A → Bool) → Option A → Bool
holds p none = true
holds p (some a) = p a

abbrev pub is_percent : Percent → Bool
is_percent p = leb 1 p.den && leb p.num (100 * p.den)

abbrev pub is_between : ℕ → ℕ → ℕ → Bool
is_between low high n = leb low n && leb n high

-- The fields of a BatchItem; `contract` is the validation of `IdentityGenerateRequest`.
unfoldable pub is_item : (Params → Bool) → Item → Bool
is_item contract x = is_identity_id x.id && is_percent x.progress && contract x.request

-- The fields of a BatchRecord.
unfoldable pub is_shaped : (Params → Bool) → Batch → Bool
is_shaped contract r =
    is_batch_id r.id
    && holds (is_tagged_hex "person-" 24) r.request.profile_id
    && in_range r.request
    && contract r.request.request
    && is_between 1 16 (length r.items)
    && all_of (is_item contract) r.items
    && leb r.current_item 16
    && is_between 1 16 r.total_items
    && leb r.completed_items 16
    && leb r.step 50
    && leb r.total_steps 50
    && is_percent r.progress
    && leb (length (codes r.stage)) 120
    && holds is_batch_id r.parent
    && holds (λ is. is_between 1 16 (length is) && all_of (λ i. leb i 15) is) r.indices
    && holds (λ h. is_hex_run 64 (codes h)) r.key_hash

-- `BatchRecord.model_validate`
unfoldable pub validated : (Params → Bool) → Batch → Result Batch
validated contract r =
    guard (is_shaped contract r) value_error >> bounded_matrix contract r.request >>= λ q.
    ok (record r { request = q })

-- len({x for x in xs}) == len(xs)
unfoldable pub is_distinct : List String → Bool
is_distinct [] = true
is_distinct (x ∷ xs) = not (elem x xs) && is_distinct xs

-- is == sorted(set(is))
unfoldable pub is_increasing : List ℕ → Bool
is_increasing [] = true
is_increasing (i ∷ []) = true
is_increasing (i ∷ j ∷ is) = ltb i j && is_increasing (j ∷ is)

-- list(range(first, first + count))
unfoldable pub range : ℕ → ℕ → List ℕ
range first zero = []
range first (suc count) = first ∷ range (suc first) count

-- parent.get("originalItemIndices") or list(range(len(parent["items"])))
unfoldable pub indices_of : Batch → List ℕ
indices_of r = elim r.indices [
  | none ↦ range 0 (length r.items)
  | some [] ↦ range 0 (length r.items)
  | some (i ∷ is) ↦ i ∷ is
]

-- dict(zip(is, xs)).get(k): the last of equal keys counts.
unfoldable pub zip_lookup : List ℕ → List Item → ℕ → Option Item
zip_lookup [] xs k = none
zip_lookup (i ∷ is) [] k = none
zip_lookup (i ∷ is) (x ∷ xs) k = elim (zip_lookup is xs k) [
  | some y ↦ some y
  | none ↦ if i == k then some x else none
]

abbrev pub is_only_failed : Option Mode → Bool
is_only_failed (some only_failed) = true
is_only_failed (some unfinished) = false
is_only_failed none = false

-- Whether an image may stand for the parent's image `original`.
unfoldable pub is_retry_of : Bool → Item → Item → Bool
is_retry_of failed_only x original =
    not (is_complete original.state)
    && params_eq original.request x.request
    && (not failed_only || is_failed original.state)

unfoldable pub retries : Bool → Item → Option Item → Bool
retries failed_only x none = false
retries failed_only x (some original) = is_retry_of failed_only x original

-- for index, item in zip(indices, items)
unfoldable pub all_retries : Bool → (ℕ → Option Item) → List ℕ → List Item → Bool
all_retries failed_only originals [] xs = true
all_retries failed_only originals (i ∷ is) [] = true
all_retries failed_only originals (i ∷ is) (x ∷ xs) =
    retries failed_only x (originals i) && all_retries failed_only originals is xs

unfoldable pub is_root : Batch → Bool
is_root r =
    not (is_some r.indices || is_some r.mode || is_some r.key_hash)
    && list_eq params_eq (item_requests r.request) (map (λ (x : Item). x.request) r.items)

-- What is asked of a batch that names `is` as its original indices, apart from its parent.
unfoldable pub is_linked : Batch → List ℕ → Bool
is_linked r is =
    not (length is == 0)
    && (length is == length r.items)
    && is_increasing is
    && is_some r.mode
    && is_some r.key_hash

unfoldable pub fits_parent : Batch → List ℕ → Batch → Bool
fits_parent r is parent =
    is_terminal parent.state
    && request_eq r.request parent.request
    && all_retries (is_only_failed r.mode) (zip_lookup (indices_of parent) parent.items) is r.items

unfoldable pub parent_of : Batch → List ℕ → Option Batch → Result (Option Batch)
parent_of r is none = raise value_error
parent_of r is (some parent) = guard (fits_parent r is parent) value_error >> ok (some parent)

unfoldable pub link_of :
    (String → Option Batch) → Batch → String → Option (List ℕ) → Result (Option Batch)
link_of records r id none = raise value_error
link_of records r id (some is) = guard (is_linked r is) value_error >> parent_of r is (records id)

-- The last part of the loop's body: the parent to go on with, or none where the chain ends.
unfoldable pub origin : (String → Option Batch) → Batch → Option String → Result (Option Batch)
origin records r none = guard (is_root r) value_error >> ok none
origin records r (some id) = link_of records r id r.indices

unfoldable pub is_counted : List String → Batch → Bool
is_counted seen r =
    not (elem r.id seen)
    && (r.total_items == length r.items)
    && is_distinct (map (λ (x : Item). x.id) r.items)
    && is_some r.request.request.seed

-- The loop's body.
unfoldable pub ascend :
    (Params → Bool) → (String → Option Batch) → List String → Batch → Result (Option Batch)
ascend contract records seen given = validated contract given >>= λ r.
    guard (is_counted seen r) value_error >> origin records r r.parent

-- The loop goes on with the parent, or it ends.
unfoldable pub settle :
    (Batch → Option (Result (Unit {0}))) → Result (Option Batch) → Option (Result (Unit {0}))
settle go (raise e) = some (raise e)
settle go (ok none) = some (ok tt)
settle go (ok (some parent)) = go parent

-- `_validate_lineage`, on fuel; none says that the fuel was not enough.
unfoldable pub validate_lineage :
    (Params → Bool) → (String → Option Batch) → ℕ → List String → Batch → Option (Result (Unit {0}))
validate_lineage contract records zero seen given = none
validate_lineage contract records (suc fuel) seen given =
    settle (validate_lineage contract records fuel (given.id ∷ seen))
      (ascend contract records seen given)
