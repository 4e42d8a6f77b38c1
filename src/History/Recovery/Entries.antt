-- ===== src/History/Recovery/Entries.antt =====
-- The files of a valid journal are apart from one another, and the checks on them look at the tree
-- only for things that are no regular file.
use mllm_windows_ai_workbenc.Prelude.{
  ℕ, suc, ◌≤◌, String, ◌≡◌, sym, ◌≢◌, ◌⊎◌, inl, inr, true, false, List, [], ◌∷◌, arith, elem,
  str_eq_iff,
}
use mllm_windows_ai_workbenc.History.Record.{Paths, Entry, Record}
use mllm_windows_ai_workbenc.History.Reading.{Tree, is_record_source, are_entries}

abbrev pub In : Entry → List Entry → Type 0
In a [] = ⊥
In a (x ∷ xs) = (a ≡ x) ⊎ In a xs

pub record Apart (a b : Entry) : Type 0 where
  pub sources : a.source ≢ b.source
  pub numbers : a.staged ≢ b.staged

abbrev pub Distinct : List Entry → Type 0
Distinct [] = Unit
Distinct (x ∷ xs) = ((a : Entry) → In a xs → Apart x a) × Distinct xs

pub Apart-sym : {a b : Entry} → Apart a b → Apart b a
Apart-sym h = record { sources = λ e. h.sources (sym e); numbers = λ e. h.numbers (sym e) }

-- Two files of the list are the same or apart.
pub same_or_different :
    (xs : List Entry) (a b : Entry) → Distinct xs → In a xs → In b xs → (a ≡ b) ⊎ Apart a b
same_or_different [] a b d i j = absurd i
same_or_different (x ∷ xs) a b d (inl e) (inl f) = inl (cc)
same_or_different (x ∷ xs) a b d (inl e) (inr j) = inr (rw e (d.0 b j))
same_or_different (x ∷ xs) a b d (inr i) (inl f) = inr (rw f (Apart-sym (d.0 a i)))
same_or_different (x ∷ xs) a b d (inr i) (inr j) = same_or_different xs a b d.1 i j

module _ (env : Paths) (t : Tree) (r : Record) where
  -- What the loop of `_read_record` has checked of each file.
  pub record Checked (seen : List String) (index : ℕ) (a : Entry) : Type 0 where
    pub allowed : is_record_source env t r a ≡ true
    pub unseen : elem a.source seen ≡ false
    pub later : index ≤ a.staged

  elem-cons :
      (p q : String) (seen : List String)
      → elem p (q ∷ seen) ≡ false
      → (q ≢ p) × (elem p seen ≡ false)
  elem-cons p q seen h = (λ e. ground (arith, str_eq_iff q p), ground arith)

  are_entries-cons :
      (seen : List String) (index : ℕ) (e : Entry) (es : List Entry)
      → are_entries env t r seen index (e ∷ es) ≡ true
      → (is_record_source env t r e ≡ true)
        × (elem e.source seen ≡ false)
        × (e.staged ≡ index)
        × (are_entries env t r (e.source ∷ seen) (suc index) es ≡ true)
  unfolding are_entries
  are_entries-cons seen index e es h = ground arith

  pub are_entries-Checked :
      (seen : List String) (index : ℕ) (es : List Entry)
      → are_entries env t r seen index es ≡ true
      → (a : Entry) → In a es
      → Checked seen index a
  are_entries-Checked seen index [] h a i = absurd i
  are_entries-Checked seen index (e ∷ es) h a (inl p) =
      let c = are_entries-cons seen index e es h in
      rw p (record { allowed = c.0; unseen = c.1; later = omega (arith, c.2) })
  are_entries-Checked seen index (e ∷ es) h a (inr i) =
      let rest = (are_entries-cons seen index e es h).3 in
      let c = are_entries-Checked (e.source ∷ seen) (suc index) es rest a i in
      record {
        allowed = c.allowed;
        unseen = (elem-cons a.source e.source seen c.unseen).1;
        later = omega (arith, c.later);
      }

  pub are_entries-Distinct :
      (seen : List String) (index : ℕ) (es : List Entry)
      → are_entries env t r seen index es ≡ true
      → Distinct es
  are_entries-Distinct seen index [] h = tt
  are_entries-Distinct seen index (e ∷ es) h =
      let c = are_entries-cons seen index e es h in
      (
        λ a i. apart c.2 (are_entries-Checked (e.source ∷ seen) (suc index) es c.3 a i),
        are_entries-Distinct (e.source ∷ seen) (suc index) es c.3,
      )
    where
      apart : {a : Entry} → e.staged ≡ index → Checked (e.source ∷ seen) (suc index) a → Apart e a
      apart {a} number k = record {
        sources = λ p. (elem-cons a.source e.source seen k.unseen).0 p;
        numbers = λ p. omega (arith, k.later, p, number);
      }
