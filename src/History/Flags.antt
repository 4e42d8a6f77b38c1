-- ===== src/History/Flags.antt =====
-- `_committed_flags_locked` of history_transactions.py: what the receipts say of an item.
pub mod Receipts
mod Examples
use mllm_windows_ai_workbenc.Prelude.{
  ℕ, String, Bool, true, false, Option, none, some, List, [], ◌∷◌, ◌==◌, elem, put, if◌then◌else◌,
}
use mllm_windows_ai_workbenc.Errors.{Result, ok, raise}
use mllm_windows_ai_workbenc.History.Record.{Paths, Entry, Record}
use mllm_windows_ai_workbenc.History.Reading.{Tree, read_record}
use mllm_windows_ai_workbenc.History.Local.{Folder}

-- An item in the dictionary has `historyDeleted`; the Boolean says whether it has `resultDeleted`.
abbrev pub Flags : Type 0
Flags = String → Option Bool

-- flags.setdefault(id, {'historyDeleted': True})
abbrev pub touch : String → Flags → Flags
touch id flags = elim (flags id) [ none ↦ put id (some false) flags | some b ↦ flags ]

-- The owners of the files; a file of a valid batch record has one.
unfoldable pub result_owners : List Entry → List String
result_owners [] = []
result_owners (e ∷ es) =
    let rest = result_owners es in elim e.owner [ none ↦ rest | some owner ↦ owner ∷ rest ]

abbrev pub add_member : List String → String → Flags → Flags
add_member owners id flags =
    if elem id owners then put id (some true) (touch id flags) else touch id flags

unfoldable pub add_members : List String → List String → Flags → Flags
add_members owners [] flags = flags
add_members owners (id ∷ ids) flags = add_members owners ids (add_member owners id flags)

abbrev pub members_of : Record → List String
members_of r = elim r.member_ids [ none ↦ [] | some ids ↦ ids ]

unfoldable pub add_record : Record → Flags → Flags
add_record r flags =
    if r.version == 1
    then put r.item_id (some true) (touch r.item_id flags)
    else if r.version == 3
    then add_members (result_owners r.files) (members_of r) (touch r.item_id flags)
    else touch r.item_id flags

-- The loop over the transactions' folders.
unfoldable pub committed_flags : Paths → Tree → List Folder → Flags → Result Flags
committed_flags env tree [] flags = ok flags
committed_flags env tree (f ∷ fs) flags =
    let skip = committed_flags env tree fs flags in
    let next = λ (r : Record). committed_flags env tree fs (add_record r flags) in
    elim f.committed_file [
      | none ↦ skip
      | some c ↦ elim (read_record env tree f.name (some c)) [ raise e ↦ raise e | ok r ↦ next r ]
    ]
