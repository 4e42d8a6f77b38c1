-- ===== src/History/Recovery/Slots.antt =====
-- Changing a JSON file of the folder, or its existence, moves no file.
use mllm_windows_ai_workbenc.Prelude.{
  ℕ, zero, suc, String, ◌≡◌, refl, ◌≢◌, ◌⊎◌, inl, inr, Bool, true, Option, none, List, [], ◌∷◌,
  ◌==◌, ==_iff, Bool-cases, select,
}
use mllm_windows_ai_workbenc.History.Record.{Node, Entry, Content}
use mllm_windows_ai_workbenc.History.Reading.{Tree}
use mllm_windows_ai_workbenc.History.Local.{Slot, journal, Local, put_slot, no_bins}
use mllm_windows_ai_workbenc.History.Recovery.Entries.{In, Distinct}
use mllm_windows_ai_workbenc.History.Recovery.Invariant.{Kept, Staged, Base}

pub Kept-put_slot :
    (s : Slot) (c : Option Content) (d : Local) (a : Entry) → Kept d a → Kept (put_slot s c d) a
Kept-put_slot journal c d a k = record { there = k.there; unstaged = k.unstaged }
Kept-put_slot _ c d a k = record { there = k.there; unstaged = k.unstaged }

pub Staged-put_slot :
    (s : Slot) (c : Option Content) (d : Local) (a : Entry) → Staged d a → Staged (put_slot s c d) a
Staged-put_slot journal c d a k = record { gone = k.gone; held = k.held }
Staged-put_slot _ c d a k = record { gone = k.gone; held = k.held }

module _ (orig : Tree) (n : String) (files : List Entry) where
  Placed-put_slot :
      (s : Slot) (c : Option Content) (d : Local) (a : Entry)
      → Kept d a ⊎ Staged d a
      → Kept (put_slot s c d) a ⊎ Staged (put_slot s c d) a
  Placed-put_slot s c d a (inl k) = inl (Kept-put_slot s c d a k)
  Placed-put_slot s c d a (inr k) = inr (Staged-put_slot s c d a k)

  pub Base-put_slot :
      (s : Slot) (c : Option Content) (d : Local)
      → Base orig n files d
      → Base orig n files (put_slot s c d)
  Base-put_slot journal c d b = record {
    name = b.name;
    clean = b.clean;
    placed = λ a i. Placed-put_slot journal c d a (b.placed a i);
    others = b.others;
    bins_others = b.bins_others;
  }
  Base-put_slot s c d b = record {
    name = b.name;
    clean = b.clean;
    placed = λ a i. Placed-put_slot s c d a (b.placed a i);
    others = b.others;
    bins_others = b.bins_others;
  }

  -- A number is that of a listed file, or of none.
  number-cases :
      (i : ℕ) (es : List Entry)
      → ((a : Entry) × In a es × (a.staged ≡ i)) ⊎ ((a : Entry) → In a es → a.staged ≢ i)
  number-cases i [] = inr (λ a m. absurd m)
  number-cases i (e ∷ es) = elim (Bool-cases (e.staged == i)) [
    | inl h ↦ inl (e, inl refl, (==_iff e.staged i).0 h)
    | inr h ↦ extend (number-cases i es) (λ p. cc (h, (==_iff e.staged i).1 p))
  ]
    where
      extend :
          ((a : Entry) × In a es × (a.staged ≡ i)) ⊎ ((a : Entry) → In a es → a.staged ≢ i)
          → e.staged ≢ i
          → ((a : Entry) × In a (e ∷ es) × (a.staged ≡ i))
            ⊎ ((a : Entry) → In a (e ∷ es) → a.staged ≢ i)
      extend (inl (a, m, p)) ne = inl (a, inr m, p)
      extend (inr f) ne = inr (λ a m. elim m [ inl q ↦ (λ p. ne (cc (p, q))) | inr k ↦ f a k ])

  -- With every file back in the tree, no number is left in the folder.
  pub bins-none :
      (d : Local)
      → Base orig n files d
      → ((a : Entry) → In a files → Kept d a)
      → (i : ℕ) → d.folder.bins i ≡ none
  bins-none d b kept i = elim (number-cases i files) [
    | inl (a, m, p) ↦ rw p at ((kept a m).unstaged)
    | inr f ↦ b.bins_others i f
  ]

pub no_bins-true :
    (k : ℕ) (bins : ℕ → Option Node) → ((i : ℕ) → bins i ≡ none) → no_bins k bins ≡ true
unfolding no_bins
no_bins-true zero bins h = refl
no_bins-true (suc k) bins h = rw (h k) (no_bins-true k bins h)

-- Membership in a selection, and what a selection of apart files keeps.
module _ (p : Entry → Bool) where
  selected :
      (a e : Entry) (es : List Entry)
      → p e ≡ true
      → (In a (select p es) → In a es × (p a ≡ true))
      → In a (e ∷ select p es)
      → In a (e ∷ es) × (p a ≡ true)
  selected a e es h ih (inl q) = (inl q, rw q h)
  selected a e es h ih (inr m) = let (k, q) = ih m in (inr k, q)

  pub In-select : (a : Entry) (es : List Entry) → In a (select p es) → In a es × (p a ≡ true)
  In-select a [] i = absurd i
  In-select a (e ∷ es) i = elim (Bool-cases (p e)) [
    | inl h ↦ selected a e es h (In-select a es) (rw h at i)
    | inr h ↦ let (m, q) = In-select a es (rw h at i) in (inr m, q)
  ]

  pub select-In : (a : Entry) (es : List Entry) → p a ≡ true → In a es → In a (select p es)
  select-In a [] h i = i
  select-In a (e ∷ es) h (inl q) = rw (← q, h) (inl refl)
  select-In a (e ∷ es) h (inr i) = elim (Bool-cases (p e)) [
    | inl k ↦ rw k (inr (select-In a es h i))
    | inr k ↦ rw k (select-In a es h i)
  ]

  pub select-Distinct : (es : List Entry) → Distinct es → Distinct (select p es)
  select-Distinct [] d = tt
  select-Distinct (e ∷ es) d = elim (Bool-cases (p e)) [
    | inl k ↦ rw k ((λ a i. d.0 a ((In-select a es i).0), select-Distinct es d.1))
    | inr k ↦ rw k (select-Distinct es d.1)
  ]
