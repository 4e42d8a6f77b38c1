-- ===== src/History/Reading.antt =====
-- `_source`, `_record_source` and `_read_record` of history_transactions.py: which journals and
-- which files the transactions accept.
pub mod Agreement
use Prim.Native.String
use mllm_windows_ai_workbenc.Prelude.{
  ℕ, zero, suc, String, Bool, true, false, not, ◌&&◌, ◌||◌, Option, none, some, List, [], ◌∷◌, leb,
  ◌==◌, length, all_of, elem, str_eq, if◌then◌else◌, codes, strip, is_hex,
}
use mllm_windows_ai_workbenc.Errors.{Result, ok, raise, value_error, os_error}
use mllm_windows_ai_workbenc.History.Record.{
  Paths, Node, other, Entry, Record, Kind, history_hidden, batch_deleted, Content, complete, broken,
  is_valid_id, is_identity_id, is_batch_id, is_plain, max_files, max_identity_files,
  max_batch_files, max_batch_items,
}

-- The regular files and other things below the root, by posix text.
abbrev pub Tree : Type 0
Tree = String → Option Node

same_parts : List String → List String → Bool
same_parts [] [] = true
same_parts (x ∷ xs) (y ∷ ys) = str_eq x y && same_parts xs ys
same_parts _ _ = false

abbrev published : List String
published = "outputs" ∷ "history" ∷ "exports" ∷ []

is_published : List String → Bool
is_published (first ∷ second ∷ rest) = elem first published
is_published _ = false

strip_hex : ℕ → List ℕ → Option (List ℕ)
strip_hex zero s = some s
strip_hex (suc n) [] = none
strip_hex (suc n) (c ∷ s) = let rest = strip_hex n s in if is_hex c then rest else none

abbrev after : List ℕ → Option (List ℕ) → Option (List ℕ)
after prefix none = none
after prefix (some s) = strip prefix s

abbrev is_ended : Option (List ℕ) → Bool
is_ended (some []) = true
is_ended _ = false

abbrev hex_after : ℕ → Option (List ℕ) → Option (List ℕ)
hex_after n none = none
hex_after n (some s) = strip_hex n s

-- item_id[9:]
drop_codes : ℕ → List ℕ → List ℕ
drop_codes zero s = s
drop_codes (suc n) [] = []
drop_codes (suc n) (c ∷ s) = drop_codes n s

-- A full match of `refine-<hex of the item>-[a-f0-9]{24}\.(json|png|pending\.png)`.
is_refinement_name : String → String → Bool
unfolding drop_codes strip_hex strip is_hex
is_refinement_name item_id name =
    let head =
      after (codes "-")
        (after (drop_codes 9 (codes item_id)) (strip (codes "refine-") (codes name))) in
    let tail = hex_after 24 head in
    is_ended (after (codes ".json") tail)
    || is_ended (after (codes ".png") tail)
    || is_ended (after (codes ".pending.png") tail)

is_original : String → List String → Bool
unfolding same_parts
is_original item_id parts =
    same_parts parts ("data" ∷ "identity" ∷ "originals" ∷ String.◌++◌ item_id ".png" ∷ [])

is_stage : String → List String → Bool
unfolding same_parts
is_stage item_id (a ∷ b ∷ c ∷ d ∷ name ∷ []) =
    same_parts (a ∷ b ∷ c ∷ d ∷ []) ("data" ∷ "identity" ∷ "stages" ∷ item_id ∷ [])
    && elem name ("anchor.png" ∷ "harmonize.png" ∷ "detail.png" ∷ [])
is_stage item_id _ = false

is_refinement : String → List String → Bool
unfolding same_parts is_refinement_name
is_refinement item_id (a ∷ b ∷ c ∷ d ∷ name ∷ []) =
    same_parts (a ∷ b ∷ c ∷ d ∷ []) ("data" ∷ "identity" ∷ "refinements" ∷ item_id ∷ [])
    && (str_eq name "selection.json" || is_refinement_name item_id name)
is_refinement item_id _ = false

abbrev pub is_other : Option Node → Bool
is_other (some other) = true
is_other _ = false

-- `_source`: every refusal of it is a ValueError.
unfoldable pub is_source : Paths → Tree → String → String → Bool
unfolding is_published is_original is_stage is_refinement
is_source env tree item_id p =
    let parts = env.parts p in
    is_plain env p
    && (is_published parts
        || (is_identity_id item_id
            && (is_original item_id parts
                || is_stage item_id parts
                || is_refinement item_id parts)))
    && not (is_other (tree p))

last_part : List String → String
last_part [] = ""
last_part (x ∷ []) = x
last_part (x ∷ y ∷ rest) = last_part (y ∷ rest)

is_member : Option String → Option (List String) → Bool
is_member (some owner) (some members) = elem owner members
is_member _ _ = false

abbrev text_or_empty : Option String → String
text_or_empty none = ""
text_or_empty (some s) = s

-- The branch of `_record_source` for a batch: a published file carries its owner's name.
is_owned_source : Paths → Tree → Record → Entry → Bool
unfolding is_published last_part is_member is_source
is_owned_source env tree r e =
    let owner = text_or_empty e.owner in
    let parts = env.parts e.source in
    is_member e.owner r.member_ids
    && is_source env tree owner e.source
    && (not (is_published parts)
        || elem (last_part parts) (String.◌++◌ owner ".png" ∷ String.◌++◌ owner ".json" ∷ []))

-- `_record_source`
unfoldable pub is_record_source : Paths → Tree → Record → Entry → Bool
unfolding is_owned_source
is_record_source env tree r e =
    if r.version == 3 then is_owned_source env tree r e else is_source env tree r.item_id e.source

-- The loop over the files: canonical and accepted sources, none twice, staged in order.
unfoldable pub are_entries : Paths → Tree → Record → List String → ℕ → List Entry → Bool
are_entries env tree r seen index [] = true
are_entries env tree r seen index (e ∷ es) =
    env.is_canonical e.source
    && is_record_source env tree r e
    && not (elem e.source seen)
    && (e.staged == index)
    && are_entries env tree r (e.source ∷ seen) (suc index) es

abbrev is_hidden_kind : Option Kind → Bool
is_hidden_kind (some history_hidden) = true
is_hidden_kind _ = false

abbrev is_batch_kind : Option Kind → Bool
is_batch_kind (some batch_deleted) = true
is_batch_kind _ = false

abbrev is_absent {ℓ} : {A : Type ℓ} → Option A → Bool
is_absent none = true
is_absent (some _) = false

abbrev is_empty {ℓ} : {A : Type ℓ} → List A → Bool
is_empty [] = true
is_empty (_ ∷ _) = false

no_duplicates : List String → Bool
no_duplicates [] = true
no_duplicates (x ∷ xs) = not (elem x xs) && no_duplicates xs

are_members : Option (List String) → Bool
unfolding no_duplicates
are_members none = false
are_members (some members) =
    leb 1 (length members)
    && leb (length members) max_batch_items
    && all_of is_identity_id members
    && no_duplicates members

-- A tombstone that hides an identity's history, with no files.
is_hidden_record : Record → Bool
is_hidden_record r =
    is_absent r.member_ids
    && not r.extra
    && is_hidden_kind r.kind
    && is_identity_id r.item_id
    && is_empty r.files

is_batch_record : Record → Bool
unfolding are_members
is_batch_record r =
    not r.extra && is_batch_kind r.kind && is_batch_id r.item_id && are_members r.member_ids

file_limit : Record → ℕ
file_limit r =
    if r.version == 3
    then max_batch_files
    else if is_identity_id r.item_id
    then max_identity_files
    else max_files

-- `_read_record` on a parsed object; a refusal is a ValueError.
unfoldable pub is_valid_record : Paths → Tree → String → Record → Bool
unfolding is_hidden_record is_batch_record file_limit
is_valid_record env tree folder r =
    leb 1 r.version
    && leb r.version 3
    && str_eq r.transaction_id folder
    && is_valid_id r.item_id
    && (if r.version == 2
        then is_hidden_record r
        else (not (r.version == 3) || is_batch_record r)
          && leb (if r.version == 3 then 0 else 1) (length r.files)
          && leb (length r.files) (file_limit r)
          && are_entries env tree r [] 0 r.files)

-- The JSON of a file, `none` where there is no such file, read for the transaction of a folder.
unfoldable pub read_record : Paths → Tree → String → Option Content → Result Record
unfolding is_valid_record
read_record env tree folder (some (complete r)) =
    if is_valid_record env tree folder r then ok r else raise value_error
read_record env tree folder (some broken) = raise value_error
read_record env tree folder none = raise os_error
