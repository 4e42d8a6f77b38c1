-- ===== src/History/Reading/Agreement.antt =====
-- The checks of history_transactions.py on a source look at the disk only for something that is
-- there and is no regular file.
use mllm_windows_ai_workbenc.Prelude.{
  ℕ, suc, String, ◌≡◌, refl, inl, inr, true, false, List, [], ◌∷◌, ◌==◌, Bool-cases, &&-eq-true,
  &&-intro,
}
use mllm_windows_ai_workbenc.History.Record.{Paths, Entry, Record, is_plain}
use mllm_windows_ai_workbenc.History.Reading.{
  Tree, is_other, is_source, is_owned_source, is_record_source, are_entries, is_valid_record,
  is_hidden_record, is_empty, text_or_empty,
}

module _ (env : Paths) (t u : Tree) where
  is_source-agrees :
      (item_id p : String)
      → is_other (u p) ≡ false
      → is_source env t item_id p ≡ true
      → is_source env u item_id p ≡ true
  unfolding is_source
  is_source-agrees item_id p clean h = rw clean (&&-intro ((&&-eq-true _ _ h).0) refl)

  is_source-plain : (item_id p : String) → is_source env t item_id p ≡ true → is_plain env p ≡ true
  unfolding is_source
  is_source-plain item_id p h = (&&-eq-true _ _ ((&&-eq-true _ _ h).0)).0

  is_owned_source-agrees :
      (r : Record) (e : Entry)
      → is_other (u e.source) ≡ false
      → is_owned_source env t r e ≡ true
      → is_owned_source env u r e ≡ true
  unfolding is_owned_source
  is_owned_source-agrees r e clean h =
      let a = &&-eq-true _ _ h in
      let b = &&-eq-true _ _ a.0 in
      &&-intro (&&-intro b.0 (is_source-agrees (text_or_empty e.owner) e.source clean b.1)) a.1

  pub is_record_source-agrees :
      (r : Record) (e : Entry)
      → is_other (u e.source) ≡ false
      → is_record_source env t r e ≡ true
      → is_record_source env u r e ≡ true
  unfolding is_record_source
  is_record_source-agrees r e clean h = elim (Bool-cases (r.version == 3)) [
    | inl p ↦ rw p (is_owned_source-agrees r e clean (rw p at h))
    | inr p ↦ rw p (is_source-agrees r.item_id e.source clean (rw p at h))
  ]

  is_owned_source-plain :
      (r : Record) (e : Entry) → is_owned_source env t r e ≡ true → is_plain env e.source ≡ true
  unfolding is_owned_source
  is_owned_source-plain r e h =
      is_source-plain (text_or_empty e.owner) e.source (&&-eq-true _ _ ((&&-eq-true _ _ h).0)).1

  pub is_record_source-plain :
      (r : Record) (e : Entry) → is_record_source env t r e ≡ true → is_plain env e.source ≡ true
  unfolding is_record_source
  is_record_source-plain r e h = elim (Bool-cases (r.version == 3)) [
    | inl p ↦ is_owned_source-plain r e (rw p at h)
    | inr p ↦ is_source-plain r.item_id e.source (rw p at h)
  ]

  -- Every file of the list is absent or a regular file.
  abbrev pub Clean : List Entry → Type 0
  Clean [] = Unit
  Clean (e ∷ es) = (is_other (u e.source) ≡ false) × Clean es

  pub are_entries-agrees :
      (r : Record) (seen : List String) (index : ℕ) (es : List Entry)
      → Clean es
      → are_entries env t r seen index es ≡ true
      → are_entries env u r seen index es ≡ true
  unfolding are_entries
  are_entries-agrees r seen index [] c h = refl
  are_entries-agrees r seen index (e ∷ es) c h =
      let a = &&-eq-true _ _ h in
      let b = &&-eq-true _ _ a.0 in
      let d = &&-eq-true _ _ b.0 in
      let f = &&-eq-true _ _ d.0 in
      &&-intro (&&-intro (&&-intro (&&-intro f.0 (is_record_source-agrees r e c.0 f.1)) d.1) b.1)
        (are_entries-agrees r (e.source ∷ seen) (suc index) es c.1 a.1)

  pub is_valid_record-agrees :
      (folder : String) (r : Record)
      → Clean r.files
      → is_valid_record env t folder r ≡ true
      → is_valid_record env u folder r ≡ true
  unfolding is_valid_record
  is_valid_record-agrees folder r c h = elim (Bool-cases (r.version == 2)) [
    | inl p ↦ rw p (rw p at h)
    | inr p ↦
        let k = rw p at h in
        let a = &&-eq-true _ _ k in
        let b = &&-eq-true _ _ a.1 in
        rw p (&&-intro a.0 (&&-intro b.0 (are_entries-agrees r [] 0 r.files c b.1)))
  ]

-- The list of a valid record has passed the loop, a hidden one having none.
is_empty-nil :
    (env : Paths) (t : Tree) (r : Record) (es : List Entry)
    → is_empty es ≡ true
    → are_entries env t r [] 0 es ≡ true
unfolding are_entries
is_empty-nil env t r [] h = refl
is_empty-nil env t r (e ∷ es) h = cc

is_hidden_record-empty : (r : Record) → is_hidden_record r ≡ true → is_empty r.files ≡ true
unfolding is_hidden_record
is_hidden_record-empty r h = (&&-eq-true _ _ h).1

pub is_valid_record-entries :
    (env : Paths) (t : Tree) (folder : String) (r : Record)
    → is_valid_record env t folder r ≡ true
    → are_entries env t r [] 0 r.files ≡ true
unfolding is_valid_record
is_valid_record-entries env t folder r h = elim (Bool-cases (r.version == 2)) [
  | inl p ↦
      let k = rw p at h in
      is_empty-nil env t r r.files (is_hidden_record-empty r (&&-eq-true _ _ k).1)
  | inr p ↦ let k = rw p at h in (&&-eq-true _ _ (&&-eq-true _ _ k).1).1
]
