-- ===== src/Batches/Recovery.antt =====
-- `load_for_recovery`: which of the saved batches a new process takes over, and whose the images are.
pub mod Gathering
pub mod Owners
pub mod Admitting
pub mod Conflicts
pub mod Loaded
mod Examples
use mllm_windows_ai_workbenc.Prelude.{
  ℕ, suc, String, Bool, true, false, not, ◌&&◌, ◌||◌, Option, none, some, List, [], ◌∷◌, ◌++◌, ◌==◌,
  str_eq, elem, select, any_of, length, put, if◌then◌else◌,
}
use mllm_windows_ai_workbenc.Errors.{Result, ok, raise, api, guard, value_error, ◌>>=◌, ◌>>◌}
use mllm_windows_ai_workbenc.History.Record.{is_batch_id}
use mllm_windows_ai_workbenc.Batches.Model.{Params, Item, Batch}
use mllm_windows_ai_workbenc.Batches.Store.{Store}
use mllm_windows_ai_workbenc.Batches.Lineage.{
  params_eq, is_item, validated, is_distinct, validate_lineage,
}
use mllm_windows_ai_workbenc.Batches.Ending.{path_invalid}
use mllm_windows_ai_workbenc.Batches.Attempt.{ids_of}

-- A file of the folder of batches: its stem, and the record that its JSON text stands for; none
-- where it cannot be read or its fields have other types.
pub record BatchFile : Type 0 where
  pub stem : String
  pub content : Option Batch

-- The file of a single image's job.
pub data ChildFile : Type 0 where
  no_file unreadable : ChildFile
  child : Item → ChildFile

-- The folders: the batches in the order of their names, whether the output paths of an image can
-- be formed from the day of its batch, and the job files.
pub record Folder : Type 0 where
  pub files : List BatchFile
  pub has_paths : Batch → Item → Bool
  pub child_file : String → ChildFile

unfoldable pub check_child : (Params → Bool) → Item → ChildFile → Result (Unit {0})
check_child contract x no_file = ok tt
check_child contract x unreadable = raise value_error
check_child contract x (child c) =
    guard (is_item contract c) value_error
    >> guard (str_eq c.id x.id && params_eq c.request x.request) value_error

unfoldable pub check_children : Folder → (Params → Bool) → Batch → List Item → Result (Unit {0})
check_children env contract r [] = ok tt
check_children env contract r (x ∷ xs) =
    guard (env.has_paths r x) path_invalid
    >> check_child contract x (env.child_file x.id)
    >> check_children env contract r xs

abbrev pub has_count : String → Batch → Bool
has_count stem r =
    str_eq r.id stem && (r.total_items == length r.items) && is_distinct (ids_of r.items)

unfoldable pub check_record : Folder → (Params → Bool) → String → Batch → Result Batch
check_record env contract stem given = validated contract given >>= λ r.
    guard (has_count stem r) value_error >> check_children env contract r r.items >> ok r

-- The body of the first `try`. An error of the input, the values or the types is logged, and the file
-- is left alone; a DreamApiError is none of these.
unfoldable pub check_file : Folder → (Params → Bool) → BatchFile → Result Batch
check_file env contract f = elim f.content [
  | none ↦ raise value_error
  | some given ↦ check_record env contract f.stem given
]

-- `candidates`, `seen` and `conflicts`; the order and the repetitions of the sets do not matter.
pub record Gathered : Type 0 where
  pub candidates : List Batch
  pub seen : List String
  pub conflicts : List String

unfoldable pub take : Result Batch → Gathered → Gathered
take (raise e) g = g
take (ok r) g = record {
  candidates = g.candidates ++ (r ∷ []);
  seen = g.seen ++ ids_of r.items;
  conflicts = g.conflicts ++ select (λ i. elem i g.seen) (ids_of r.items);
}

-- The first loop.
unfoldable pub gather : Folder → (Params → Bool) → List BatchFile → Gathered → Gathered
gather env contract [] g = g
gather env contract (f ∷ fs) g =
    gather env contract fs (if is_batch_id f.stem then take (check_file env contract f) g else g)

-- The dictionary of the candidates, by their ids.
unfoldable pub by_id : List Batch → String → Option Batch
by_id [] id = none
by_id (r ∷ rs) id = elim (by_id rs id) [
  | some q ↦ some q
  | none ↦ if str_eq r.id id then some r else none
]

abbrev pub is_passed : Option (Result (Unit {0})) → Bool
is_passed (some (ok u)) = true
is_passed _ = false

-- The lineage is valid among the candidates, and no image is in another candidate. The lineage's
-- check raises only a ValueError, which is logged.
unfoldable pub admits : (Params → Bool) → Gathered → Batch → Bool
admits contract g r =
    is_passed
      (validate_lineage contract (by_id g.candidates) (suc (suc (length g.candidates))) [] r)
    && not (any_of (λ i. elem i g.conflicts) (ids_of r.items))

-- item_owners.update({id: batch_id for id in ids})
unfoldable pub put_owners : List String → String → (String → Option String) → String → Option String
put_owners [] id owners = owners
put_owners (i ∷ is) id owners = put_owners is id (put i (some id) owners)

unfoldable pub take_over : Batch → Store → Store
take_over r s = record s {
  records = put r.id (some r) s.records;
  owners = put_owners (ids_of r.items) r.id s.owners;
}

-- The second loop.
unfoldable pub admit : (Params → Bool) → Gathered → List Batch → Store → Store
admit contract g [] s = s
admit contract g (r ∷ rs) s = admit contract g rs (if admits contract g r then take_over r s else s)

abbrev pub nothing_gathered : Gathered
nothing_gathered = record { candidates = []; seen = []; conflicts = [] }

unfoldable pub is_escape : Result Batch → Bool
is_escape (raise (api e)) = true
is_escape (raise e) = false
is_escape (ok r) = false

-- A file ends the first loop by an exception. The loop has changed nothing but its own sets, so it
-- does not matter which one does.
unfoldable pub escapes : Folder → (Params → Bool) → List BatchFile → Bool
escapes env contract [] = false
escapes env contract (f ∷ fs) =
    (is_batch_id f.stem && is_escape (check_file env contract f)) || escapes env contract fs

-- `load_for_recovery`, up to the set of the owned ids that it returns.
unfoldable pub load_for_recovery : Folder → (Params → Bool) → Store → Result (Unit {0}) × Store
load_for_recovery env contract s =
    if escapes env contract env.files
    then (raise path_invalid, s)
    else (let g = gather env contract env.files nothing_gathered in
        (ok tt, admit contract g g.candidates s))
