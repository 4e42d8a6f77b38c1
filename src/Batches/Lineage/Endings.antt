-- ===== src/Batches/Lineage/Endings.antt =====
-- The rounds of `_validate_lineage`, counted.
use mllm_windows_ai_workbenc.Prelude.{
  ℕ, zero, suc, ◌≤◌, ◌<◌, ◌≡◌, ◌≢◌, refl, sym, subst, String, Bool, true, false, not, ◌||◌, ◌⊎◌,
  inl, inr, Option, none, some, List, [], ◌∷◌, arith, str_eq, str_eq_iff, str_eq_refl, elem, select,
  Bool-cases, &&-eq-true, length,
}
use mllm_windows_ai_workbenc.Batches.Model.{Params, Batch}
use mllm_windows_ai_workbenc.Batches.Matrix.{deduplicated}
use mllm_windows_ai_workbenc.Batches.Lineage.{is_counted, ascend, validate_lineage}
use mllm_windows_ai_workbenc.Batches.Lineage.Rounds.{ascend-Linked, settle-none}

without : String → List String → List String
without id ids = select (λ k. not (str_eq k id)) ids

length-without_le : (id : String) (ids : List String) → length (without id ids) ≤ length ids
unfolding without
length-without_le id [] = omega arith
length-without_le id (k ∷ ids) = ground (arith, length-without_le id ids)

length-without :
    (id : String) (ids : List String) → elem id ids ≡ true → length (without id ids) < length ids
unfolding without
length-without id [] h = absurd (cc)
length-without id (k ∷ ids) h = ground (arith, length-without id ids, length-without_le id ids)

elem-without :
    (id k : String) (ids : List String)
    → str_eq k id ≡ false
    → elem k ids ≡ true
    → elem k (without id ids) ≡ true
unfolding without
elem-without id k [] n h = absurd (cc)
elem-without id k (l ∷ ids) n h = elim (Bool-cases (str_eq l k)) [
  | inl e ↦
      let same : l ≡ k = (str_eq_iff l k).0 e in
      let m : str_eq l id ≡ false = subst (λ l. str_eq l id ≡ false) (sym same) n in rw (m, e) refl
  | inr e ↦ ground (arith, elem-without id k ids n (cc (rw e at h)))
]

-- Every batch in memory is still to be visited, or its id has been seen.
abbrev Pending : (String → Option Batch) → List String → List String → Type 0
Pending records left seen =
    (k : String) (p : Batch) → records k ≡ some p → (elem k left ≡ true) ⊎ (elem p.id seen ≡ true)

Pending-without :
    (records : String → Option Batch) (left seen : List String) (id : String) (q : Batch)
    → Pending records left seen
    → records id ≡ some q
    → Pending records (without id left) (q.id ∷ seen)
Pending-without records left seen id q w f k p g = elim (Bool-cases (str_eq k id)) [
  | inl e ↦
      let same : records k ≡ some q =
        subst (λ k. records k ≡ some q) (sym ((str_eq_iff k id).0 e)) f in
      let q_is : q ≡ p = cc in
      inr
        (subst (λ p. (str_eq q.id p.id || elem p.id seen) ≡ true) q_is (rw (str_eq_refl q.id) refl))
  | inr e ↦ elim (w k p g) [
    | inl h ↦ inl (elem-without id k left e h)
    | inr h ↦ inr (rw h (or_true (str_eq q.id p.id)))
  ]
]
  where
    or_true : (b : Bool) → (b || true) ≡ true
    or_true true = refl
    or_true false = refl

counted-new : (seen : List String) (r : Batch) → is_counted seen r ≡ true → elem r.id seen ≡ false
unfolding is_counted
counted-new seen r h =
    let (h2, g4) = &&-eq-true _ _ h in
    let (h1, g3) = &&-eq-true _ _ h2 in
    let (g1, g2) = &&-eq-true _ _ h1 in not_true (elem r.id seen) g1
  where
    not_true : (b : Bool) → not b ≡ true → b ≡ false
    not_true true h = absurd (cc)
    not_true false h = refl

validate_lineage-visits :
    (contract : Params → Bool) (records : String → Option Batch) (left seen : List String)
    (fuel : ℕ) (id : String) (q : Batch)
    → Pending records left seen
    → records id ≡ some q
    → length left < fuel
    → validate_lineage contract records fuel seen q ≢ none
unfolding validate_lineage
validate_lineage-visits contract records left seen zero id q w f l h = omega arith
validate_lineage-visits contract records left seen (suc fuel) id q w f l h =
    let (p, o, u) = settle-none _ (ascend contract records seen q) h in
    let (counted, link) = ascend-Linked contract records seen q p o in
    let new = counted-new seen (record q { request = deduplicated q.request }) counted in
    elim (w id q f) [
      | inr there ↦ cc (new, there)
      | inl there ↦
          validate_lineage-visits contract records (without id left) (q.id ∷ seen) fuel link.id p
            (Pending-without records left seen id q w f) link.found
            (omega (arith, length-without id left there)) u
    ]

-- The check ends, whatever the batches say of each other, cycles included: with two more rounds
-- than there are batches in memory the fuel is enough. `keys` lists their ids.
pub validate_lineage-ends :
    (contract : Params → Bool) (records : String → Option Batch) (keys : List String) (fuel : ℕ)
    (r : Batch)
    → ((k : String) (p : Batch) → records k ≡ some p → elem k keys ≡ true)
    → suc (length keys) < fuel
    → validate_lineage contract records fuel [] r ≢ none
unfolding validate_lineage
validate_lineage-ends contract records keys zero r w l h = omega arith
validate_lineage-ends contract records keys (suc fuel) r w l h =
    let (p, o, u) = settle-none _ (ascend contract records [] r) h in
    let (counted, link) = ascend-Linked contract records [] r p o in
    validate_lineage-visits contract records keys (r.id ∷ []) fuel link.id p
      (λ k p e. inl (w k p e)) link.found (omega arith) u
