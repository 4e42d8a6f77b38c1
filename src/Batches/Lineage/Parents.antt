-- ===== src/Batches/Lineage/Parents.antt =====
-- The images of a parent, looked up by their original index.
use mllm_windows_ai_workbenc.Prelude.{
  ℕ, zero, suc, ◌≡◌, refl, ap, ◌∙◌, Bool, true, inl, inr, Option, none, some, List, [], ◌∷◌, arith,
  get_elem?, Bool-cases, Option-cases, &&-eq-true, ◌==◌, ==_iff, any_of,
}
use mllm_windows_ai_workbenc.Batches.Model.{BatchRequest, Item}
use mllm_windows_ai_workbenc.Batches.Matrix.{first_ones, deduplicated}
use mllm_windows_ai_workbenc.Batches.Lineage.{zip_lookup, is_retry_of, retries, all_retries}
use mllm_windows_ai_workbenc.Batches.Lineage.Equal.{params_eq_sound}

number_eq : (a b : ℕ) → (a == b) ≡ true → a ≡ b
number_eq a b = (==_iff a b).0

-- A second removal of repeated numbers removes nothing.
abbrev Covers : List ℕ → List ℕ → Type 0
Covers t s = (y : ℕ) → any_of (λ z. z == y) s ≡ true → any_of (λ z. z == y) t ≡ true

first_ones-again : (s t xs : List ℕ) → Covers t s → first_ones s (first_ones t xs) ≡ first_ones t xs
unfolding first_ones
first_ones-again s t [] c = refl
first_ones-again s t (x ∷ xs) c = elim (Bool-cases (any_of (λ y. y == x) t)) [
  | inl e ↦ rw e (first_ones-again s t xs c)
  | inr e ↦ elim (Bool-cases (any_of (λ y. y == x) s)) [
    | inl d ↦ absurd (cc (c x d, e))
    | inr d ↦
        rw (e, d)
          (ap (λ ys. x ∷ ys) (first_ones-again (x ∷ s) (x ∷ t) xs (λ y h. ground (arith, c y))))
  ]
]

pub deduplicated-again : (q : BatchRequest) → deduplicated (deduplicated q) ≡ deduplicated q
unfolding deduplicated
deduplicated-again q = elim (Option-cases q.step_values) [
  | inl e ↦ rw e refl
  | inr (xs, e) ↦
      rw e (ap (λ ys. record q { step_values = some ys }) (first_ones-again [] [] xs (λ y h. h)))
]

-- Where a value of `dict(zip(is, xs))` comes from.
pub record Found (is : List ℕ) (xs : List Item) (k : ℕ) (x : Item) : Type 0 where
  pub place : ℕ
  pub key : get_elem? is place ≡ some k
  pub value : get_elem? xs place ≡ some x

Found-later :
    (i k : ℕ) (y x : Item) (is : List ℕ) (xs : List Item)
    → Found is xs k x
    → Found (i ∷ is) (y ∷ xs) k x
Found-later i k y x is xs f = record { place = suc f.place; key = f.key; value = f.value }

pub zip_lookup-Found :
    (is : List ℕ) (xs : List Item) (k : ℕ) (x : Item)
    → zip_lookup is xs k ≡ some x
    → Found is xs k x
unfolding zip_lookup
zip_lookup-Found [] xs k x h = absurd (cc)
zip_lookup-Found (i ∷ is) [] k x h = absurd (cc)
zip_lookup-Found (i ∷ is) (y ∷ xs) k x h = elim (Option-cases (zip_lookup is xs k)) [
  | inr (z, e) ↦ Found-later i k y x is xs (zip_lookup-Found is xs k x (e ∙ (rw e at h)))
  | inl e ↦ elim (Bool-cases (i == k)) [
    | inl d ↦ record { place = 0; key = ap some (number_eq i k d); value = rw (e, d) at h }
    | inr d ↦ absurd (cc (rw (e, d) at h))
  ]
]

-- What the loop over the images has checked.
pub record Retried (originals : ℕ → Option Item) (k : ℕ) (x : Item) : Type 0 where
  pub original : Item
  pub found : originals k ≡ some original
  pub same : original.request ≡ x.request

retries-Retried :
    (b : Bool) (originals : ℕ → Option Item) (k : ℕ) (x : Item) (o : Option Item)
    → originals k ≡ o
    → retries b x o ≡ true
    → Retried originals k x
unfolding retries is_retry_of
retries-Retried b originals k x none e h = absurd (cc)
retries-Retried b originals k x (some original) e h =
    let (rest, g) = &&-eq-true _ _ h in
    let (g1, g2) = &&-eq-true _ _ rest in
    record { original = original; found = e; same = params_eq_sound original.request x.request g2 }

pub all_retries-at :
    (b : Bool) (originals : ℕ → Option Item) (is : List ℕ) (xs : List Item) (j k : ℕ) (x : Item)
    → all_retries b originals is xs ≡ true
    → get_elem? is j ≡ some k
    → get_elem? xs j ≡ some x
    → Retried originals k x
unfolding all_retries
all_retries-at b originals [] xs j k x h d e = absurd (cc)
all_retries-at b originals (i ∷ is) [] j k x h d e = absurd (cc)
all_retries-at b originals (i ∷ is) (y ∷ xs) (suc j) k x h d e =
    all_retries-at b originals is xs j k x (&&-eq-true _ _ h).1 d e
all_retries-at b originals (i ∷ is) (y ∷ xs) zero k x h d e =
    retries-Retried b originals k x (originals k) refl
      (cc (&&-eq-true (retries b y (originals i)) (all_retries b originals is xs) h).0)
