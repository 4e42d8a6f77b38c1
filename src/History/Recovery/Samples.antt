-- ===== src/History/Recovery/Samples.antt =====
-- A tree with one published image, and the journal of its deletion.
use mllm_windows_ai_workbenc.Prelude.{
  ℕ, String, true, false, none, some, [], ◌∷◌, str_eq, if◌then◌else◌,
}
use mllm_windows_ai_workbenc.History.Record.{Paths, Info, file, Entry, Record}
use mllm_windows_ai_workbenc.History.Reading.{Tree}

abbrev pub paths : Paths
paths = record {
  parts = λ p. if str_eq p "outputs/a.png" then "outputs" ∷ "a.png" ∷ [] else p ∷ [];
  is_canonical = λ p. true;
  is_redirected = λ p. false;
}

abbrev pub info : Info
info = record { size = 900; device = 1; inode = 77 }

abbrev pub image : Entry
image = record { source = "outputs/a.png"; staged = 0; info = info; owner = none }

abbrev pub plan : Record
plan = record {
  version = 1;
  transaction_id = "0123456789abcdef0123456789abcdef";
  item_id = "a";
  kind = none;
  member_ids = none;
  files = image ∷ [];
  extra = false;
}

abbrev pub tree : Tree
tree p = if str_eq "outputs/a.png" p then some (file info) else none

abbrev pub bytes_of : Record → ℕ
bytes_of r = 300

abbrev pub tx : String
tx = "0123456789abcdef0123456789abcdef"
