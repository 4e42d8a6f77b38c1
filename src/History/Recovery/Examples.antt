-- ===== src/History/Recovery/Examples.antt =====
-- The deletion of one published image.
use mllm_windows_ai_workbenc.Prelude.{
  ◌≡◌, refl, ◌⊎◌, inl, inr, true, List, [], ◌∷◌, has_code, is_tagged_hex, last_code,
}
use mllm_windows_ai_workbenc.History.Record.{is_valid_id, is_identity_id, is_plain}
use mllm_windows_ai_workbenc.History.Reading.{
  is_source, is_record_source, are_entries, is_valid_record,
}
use mllm_windows_ai_workbenc.History.Local.{Local, Fault, fine, fail, crash, done}
use mllm_windows_ai_workbenc.History.Transaction.{final, start, transact, restart, restarts}
use mllm_windows_ai_workbenc.History.Recovery.Samples.{paths, tree, plan, bytes_of, tx}
use mllm_windows_ai_workbenc.History.Recovery.Atomic.{
  AsBefore, Deleted, Captured, transact_atomic, transact_returns,
}

plan_valid : is_valid_record paths tree tx plan ≡ true
unfolding is_valid_record is_valid_id are_entries is_record_source is_source is_plain is_identity_id
    has_code is_tagged_hex last_code
plan_valid = refl

captured : Captured tree plan
captured a (inl e) = rw e refl
captured a (inr m) = absurd m

-- The process exits while the file is moved, and again while it is moved back.
abbrev faults : List Fault
faults = fine ∷ fine ∷ fine ∷ fine ∷ crash ∷ []

transact_atomic_example :
    let d =
      restarts paths bytes_of
        ((fine ∷ crash ∷ []) ∷ (fail ∷ []) ∷ [])
        (final (transact paths bytes_of plan (start tree tx) faults)) in
    (d' : Local) × (restart paths bytes_of d [] ≡ done tt d' [])
    × (AsBefore tree d' ⊎ Deleted tree plan d')
transact_atomic_example =
    transact_atomic paths bytes_of tree tx plan plan_valid refl captured faults
      ((fine ∷ crash ∷ []) ∷ (fail ∷ []) ∷ [])

transact_returns_example :
    ((d : Local) (gs : List Fault)
      → transact paths bytes_of plan (start tree tx) [] ≡ done tt d gs
      → Deleted tree plan d)
    × (Path (List Fault) [] []
        → (d : Local) × (transact paths bytes_of plan (start tree tx) [] ≡ done tt d []))
transact_returns_example = transact_returns paths bytes_of tree tx plan plan_valid refl captured []
