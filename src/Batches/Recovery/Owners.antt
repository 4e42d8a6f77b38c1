-- ===== src/Batches/Recovery/Owners.antt =====
-- Who owns the images, and what one batch more changes.
use mllm_windows_ai_workbenc.Prelude.{
  ◌≡◌, refl, ◌∙◌, subst, String, Bool, true, false, not, inl, inr, Option, some, List, [], ◌∷◌,
  str_eq, str_eq_iff, elem, any_of, put, put-ne, Bool-cases, &&-eq-true, ||-eq-false,
}
use mllm_windows_ai_workbenc.Batches.Model.{Params, Batch}
use mllm_windows_ai_workbenc.Batches.Store.{Store}
use mllm_windows_ai_workbenc.Batches.Attempt.{ids_of}
use mllm_windows_ai_workbenc.Batches.Recovery.{Gathered, admits, put_owners}
use mllm_windows_ai_workbenc.Batches.Recovery.Gathering.{Among}

pub any_of-false :
    (p : String → Bool) (xs : List String) (i : String)
    → any_of p xs ≡ false
    → elem i xs ≡ true
    → p i ≡ false
any_of-false p [] i h k = absurd (cc (k))
any_of-false p (x ∷ xs) i h k = elim (Bool-cases (str_eq x i)) [
  | inl e ↦
      let same : x ≡ i = (str_eq_iff x i).0 e in
      subst (λ x. p x ≡ false) same (||-eq-false (p x) (any_of p xs) h).0
  | inr e ↦ any_of-false p xs i (||-eq-false (p x) (any_of p xs) h).1 (cc (rw e at k))
]

pub put_owners-out :
    (is : List String) (b : String) (owners : String → Option String) (i : String)
    → elem i is ≡ false
    → put_owners is b owners i ≡ owners i
unfolding put_owners
put_owners-out [] b owners i h = refl
put_owners-out (k ∷ ks) b owners i h =
    let (e, rest) = ||-eq-false (str_eq k i) (elem i ks) h in
    put_owners-out ks b (put k (some b) owners) i rest
    ∙ put-ne k i (some b) owners (λ same. absurd (cc (e, (str_eq_iff k i).1 same)))

pub put_owners-in :
    (is : List String) (b : String) (owners : String → Option String) (i : String)
    → elem i is ≡ true
    → put_owners is b owners i ≡ some b
unfolding put_owners
put_owners-in [] b owners i h = absurd (cc (h))
put_owners-in (k ∷ ks) b owners i h = elim (Bool-cases (elem i ks)) [
  | inl m ↦ put_owners-in ks b (put k (some b) owners) i m
  | inr m ↦ elim (Bool-cases (str_eq k i)) [
    | inl e ↦ put_owners-out ks b (put k (some b) owners) i m ∙ (rw e refl)
    | inr e ↦ absurd (cc (rw (e, m) at h))
  ]
]

-- Each image of a batch in memory is owned by this batch alone, and every owner is in memory.
pub record Owned (contract : Params → Bool) (g : Gathered) (s : Store) : Type 0 where
  pub keyed :
      (k : String) (r : Batch)
      → s.records k ≡ some r
      → (r.id ≡ k) × Among r g.candidates × (admits contract g r ≡ true)
  pub mine :
      (k : String) (r : Batch)
      → s.records k ≡ some r
      → (i : String) → elem i (ids_of r.items) ≡ true
      → s.owners i ≡ some k
  pub theirs :
      (i k : String)
      → s.owners i ≡ some k
      → (r : Batch) × (s.records k ≡ some r) × (elem i (ids_of r.items) ≡ true)

pub admits-conflict :
    (contract : Params → Bool) (g : Gathered) (r : Batch) (i : String)
    → admits contract g r ≡ true
    → elem i (ids_of r.items) ≡ true
    → elem i g.conflicts ≡ false
unfolding admits
admits-conflict contract g r i h m =
    let (p, q) = &&-eq-true _ _ h in
    any_of-false (λ i. elem i g.conflicts) (ids_of r.items) i (not-true _ q) m
  where
    not-true : (b : Bool) → not b ≡ true → b ≡ false
    not-true true h = absurd (cc (h))
    not-true false h = refl
