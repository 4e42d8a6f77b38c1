-- ===== src/Batches/Completion/Sound.antt =====
-- The invariant of a running batch: the completed images come first and are counted, and the
-- service's jobs agree with the record's items.
use mllm_windows_ai_workbenc.Prelude.{
  ℕ, zero, suc, ◌*◌, ◌≤◌, ◌<◌, ◌≡◌, refl, sym, ap, ◌∙◌, subst, String, true, false, inl, inr, none,
  some, List, [], ◌∷◌, arith, elem, str_eq, str_eq_iff, str_eq_refl, get_elem?, set, length, All,
  Bool-cases, ||-eq-false, leb, leb→le,
}
use mllm_windows_ai_workbenc.Batches.Model.{Item, Batch, is_complete}
use mllm_windows_ai_workbenc.Batches.Store.{Store}
use mllm_windows_ai_workbenc.Batches.Completion.{complete_count, at_most, progress_cap}

-- The first `c` items are complete, and no other.
abbrev pub Prefix : ℕ → List Item → Type 0
Prefix zero [] = Unit
Prefix zero (x ∷ xs) = (is_complete x.state ≡ false) × Prefix zero xs
Prefix (suc c) [] = ⊥
Prefix (suc c) (x ∷ xs) = (is_complete x.state ≡ true) × Prefix c xs

pub Prefix-count : (c : ℕ) (xs : List Item) → Prefix c xs → complete_count xs ≡ c
Prefix-count zero [] h = refl
Prefix-count zero (x ∷ xs) h = rw h.0 (Prefix-count zero xs h.1)
Prefix-count (suc c) [] h = absurd h
Prefix-count (suc c) (x ∷ xs) h = rw h.0 (ap suc (Prefix-count c xs h.1))

pub Prefix-set_next :
    (c : ℕ) (xs : List Item) (y : Item)
    → Prefix c xs
    → c < length xs
    → is_complete y.state ≡ true
    → Prefix (suc c) (set xs c y)
Prefix-set_next c [] y h l e = absurd (omega arith)
Prefix-set_next zero (x ∷ xs) y h l e = (e, h.1)
Prefix-set_next (suc c) (x ∷ xs) y h l e = (h.0, Prefix-set_next c xs y h.1 (omega arith) e)

pub Prefix-set_done :
    (c i : ℕ) (xs : List Item) (y : Item)
    → Prefix c xs
    → i < c
    → is_complete y.state ≡ true
    → Prefix c (set xs i y)
Prefix-set_done zero i xs y h l e = absurd (omega arith)
Prefix-set_done (suc c) i [] y h l e = absurd h
Prefix-set_done (suc c) zero (x ∷ xs) y h l e = (e, h.1)
Prefix-set_done (suc c) (suc i) (x ∷ xs) y h l e =
    (h.0, Prefix-set_done c i xs y h.1 (omega arith) e)

pub Prefix-set_open :
    (c : ℕ) (xs : List Item) (y : Item)
    → Prefix c xs
    → is_complete y.state ≡ false
    → Prefix c (set xs c y)
Prefix-set_open zero [] y h e = tt
Prefix-set_open zero (x ∷ xs) y h e = (e, h.1)
Prefix-set_open (suc c) [] y h e = absurd h
Prefix-set_open (suc c) (x ∷ xs) y h e = (h.0, Prefix-set_open c xs y h.1 e)

pub Prefix-at :
    (c : ℕ) (xs : List Item) (x : Item)
    → Prefix c xs
    → get_elem? xs c ≡ some x
    → is_complete x.state ≡ false
Prefix-at c [] x h e = absurd (cc)
Prefix-at zero (y ∷ xs) x h e = ground (arith, h.0)
Prefix-at (suc c) (y ∷ xs) x h e = Prefix-at c xs x h.1 e

abbrev pub ids : List Item → List String
ids [] = []
ids (x ∷ xs) = x.id ∷ ids xs

abbrev pub Distinct : List String → Type 0
Distinct [] = Unit
Distinct (x ∷ xs) = (elem x xs ≡ false) × Distinct xs

pub ids-set :
    (xs : List Item) (i : ℕ) (x y : Item)
    → get_elem? xs i ≡ some x
    → y.id ≡ x.id
    → ids (set xs i y) ≡ ids xs
ids-set [] i x y e h = refl
ids-set (z ∷ xs) zero x y e h =
    let same : z ≡ x = cc in ap (λ k. k ∷ ids xs) (h ∙ sym (ap (λ (w : Item). w.id) same))
ids-set (z ∷ xs) (suc i) x y e h = ap (λ k. z.id ∷ k) (ids-set xs i x y e h)

-- The service knows the item, as complete as the record has it, and nothing is pending.
pub record Fit (s : Store) (x : Item) : Type 0 where
  pub job : Item
  pub settled : s.pending x.id ≡ none
  pub there : s.jobs x.id ≡ some job
  pub named : job.id ≡ x.id
  pub agrees : is_complete job.state ≡ is_complete x.state

-- Another store with the same jobs but for one id.
pub record Elsewhere (id : String) (s t : Store) : Type 0 where
  pub jobs : (k : String) → str_eq id k ≡ false → t.jobs k ≡ s.jobs k
  pub pending : (k : String) → str_eq id k ≡ false → t.pending k ≡ s.pending k

Fit-elsewhere :
    (id : String) (s t : Store) (x : Item)
    → Elsewhere id s t
    → str_eq id x.id ≡ false
    → Fit s x
    → Fit t x
Fit-elsewhere id s t x e n h = record {
  job = h.job;
  settled = e.pending x.id n ∙ h.settled;
  there = e.jobs x.id n ∙ h.there;
  named = h.named;
  agrees = h.agrees;
}

str_flip : (a b : String) → str_eq a b ≡ false → str_eq b a ≡ false
str_flip a b h = elim (Bool-cases (str_eq b a)) [
  | inr e ↦ e
  | inl e ↦ absurd (clash ((str_eq_iff b a).0 e))
]
  where
    clash : b ≡ a → ⊥
    clash p = cc (p, h, str_eq_refl a)

pub apart :
    (x : String) (xs : List Item) → elem x (ids xs) ≡ false → All (λ y. str_eq x y.id ≡ false) xs
apart x [] h = tt
apart x (y ∷ ys) h =
    let parts = ||-eq-false (str_eq y.id x) (elem x (ids ys)) h in
    (str_flip y.id x parts.0, apart x ys parts.1)

All-Fit :
    (id : String) (s t : Store) (xs : List Item)
    → Elsewhere id s t
    → All (λ y. str_eq id y.id ≡ false) xs
    → All (Fit s) xs
    → All (Fit t) xs
All-Fit id s t [] e n h = tt
All-Fit id s t (x ∷ xs) e n h = (Fit-elsewhere id s t x e n.0 h.0, All-Fit id s t xs e n.1 h.1)

distinct_at :
    (ys : List Item) (j : ℕ) (w : Item) (k : String)
    → get_elem? ys j ≡ some w
    → elem k (ids ys) ≡ false
    → str_eq w.id k ≡ false
distinct_at [] j w k g n = absurd (cc)
distinct_at (y ∷ ys) zero w k g n =
    let same : y ≡ w = cc in
    subst (λ v. str_eq (Item.id v) k ≡ false) same
      (||-eq-false (str_eq y.id k) (elem k (ids ys)) n).0
distinct_at (y ∷ ys) (suc j) w k g n =
    distinct_at ys j w k g (||-eq-false (str_eq y.id k) (elem k (ids ys)) n).1

pub Fit-set :
    (s t : Store) (xs : List Item) (i : ℕ) (x y : Item)
    → get_elem? xs i ≡ some x
    → Elsewhere x.id s t
    → Distinct (ids xs)
    → Fit t y
    → All (Fit s) xs
    → All (Fit t) (set xs i y)
Fit-set s t [] i x y e o d f h = tt
Fit-set s t (z ∷ xs) zero x y e o d f h =
    let same : x ≡ z = cc in (f, All-Fit x.id s t xs o (rw same (apart z.id xs d.0)) h.1)
Fit-set s t (z ∷ xs) (suc i) x y e o d f h = (
  Fit-elsewhere x.id s t z o (distinct_at xs i x z.id e d.0) h.0,
  Fit-set s t xs i x y e o d.1 f h.1,
)

pub Fit-at :
    (s : Store) (xs : List Item) (i : ℕ) (x : Item)
    → get_elem? xs i ≡ some x
    → All (Fit s) xs
    → Fit s x
Fit-at s [] i x e h = absurd (cc)
Fit-at s (z ∷ xs) zero x e h = let same : z ≡ x = cc in subst (Fit s) same h.0
Fit-at s (z ∷ xs) (suc i) x e h = Fit-at s xs i x e h.1

pub at_most_lem : (cap num den : ℕ) → (at_most cap num den).num ≤ cap * (at_most cap num den).den
at_most_lem cap num den = elim (Bool-cases (leb num (cap * den))) [
  | inl e ↦ rw e (leb→le num (cap * den) e)
  | inr e ↦ rw e (grind arith)
]

-- What holds of a record and the service's state between two events.
pub record Sound (r : Batch) (s : Store) : Type 0 where
  pub known : length r.items ≡ r.total_items
  pub first : Prefix r.completed_items r.items
  pub distinct : Distinct (ids r.items)
  pub fit : All (Fit s) r.items
  pub current : r.current_item ≤ r.total_items
  pub measured : r.progress.num ≤ progress_cap r * r.progress.den
