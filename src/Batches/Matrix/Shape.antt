-- ===== src/Batches/Matrix/Shape.antt =====
-- The shape of the matrix of a batch.
use mllm_windows_ai_workbenc.Prelude.{
  ℕ, zero, suc, ◌+◌, ◌*◌, ◌%◌, ◌^◌, ◌≤◌, ◌<◌, ◌≡◌, refl, ◌∙◌, ap, subst, Bool, true, false, Option,
  none, some, List, [], ◌∷◌, ◌++◌, arith, leb, ◌==◌, ==_iff, ==_refl, sym, ◌⊎◌, inl, inr,
  ||-eq-false, if◌then◌else◌, length, length-append, get_elem?, all_of, any_of, Bool-cases,
  &&-eq-true, ◌&&◌, leb→le,
}
use mllm_windows_ai_workbenc.Errors.{Result, ok, raise, value_error}
use mllm_windows_ai_workbenc.Batches.Model.{Params, BatchRequest}
use mllm_windows_ai_workbenc.Batches.Matrix.{
  first_ones, steps_of, deduplicated, overrides, bounded_matrix, row, shifted, rows, seed_or_zero,
  item_requests,
}

length-row : (base : Params) (seed : ℕ) (ns : List ℕ) → length (row base seed ns) ≡ length ns
unfolding row
length-row base seed [] = refl
length-row base seed (n ∷ ns) = ap suc (length-row base seed ns)

length-rows :
    (base : Params) (seed : ℕ) (ns : List ℕ) (index left : ℕ)
    → length (rows base seed ns index left) ≡ left * length ns
unfolding rows
length-rows base seed ns index zero = omega arith
length-rows base seed ns index (suc left) = grind (
  arith,
  length-append (row base (shifted seed index) ns) (rows base seed ns (suc index) left),
  length-row base (shifted seed index) ns,
  length-rows base seed ns (suc index) left,
)

get_elem?-append_left {ℓ} :
    {A : Type ℓ} (xs ys : List A) (i : ℕ) → i < length xs → get_elem? (xs ++ ys) i ≡ get_elem? xs i
get_elem?-append_left [] ys i h = absurd (omega arith)
get_elem?-append_left (x ∷ xs) ys zero h = refl
get_elem?-append_left (x ∷ xs) ys (suc i) h = get_elem?-append_left xs ys i (omega arith)

get_elem?-append_right {ℓ} :
    {A : Type ℓ} (xs ys : List A) (i : ℕ) → get_elem? (xs ++ ys) (length xs + i) ≡ get_elem? ys i
get_elem?-append_right [] ys i = rw (zero_plus i)
  where
    zero_plus : (i : ℕ) → 0 + i ≡ i
    zero_plus i = omega arith
get_elem?-append_right (x ∷ xs) ys i = rw (shift (length xs) i) (get_elem?-append_right xs ys i)
  where
    shift : (n i : ℕ) → suc n + i ≡ suc (n + i)
    shift n i = omega arith

get_elem?-row :
    (base : Params) (seed : ℕ) (ns : List ℕ) (j n : ℕ)
    → get_elem? ns j ≡ some n
    → get_elem? (row base seed ns) j ≡ some (record base { seed = some seed; steps = n })
unfolding row
get_elem?-row base seed [] j n h = cc
get_elem?-row base seed (m ∷ ns) zero n h = ground arith
get_elem?-row base seed (m ∷ ns) (suc j) n h = get_elem?-row base seed ns j n h

get_elem?-lt {ℓ} :
    {A : Type ℓ} (xs : List A) (j : ℕ) (x : A) → get_elem? xs j ≡ some x → j < length xs
get_elem?-lt [] j x h = absurd (cc)
get_elem?-lt (y ∷ xs) zero x h = omega arith
get_elem?-lt (y ∷ xs) (suc j) x h = omega (arith, get_elem?-lt xs j x h)

get_elem?-rows :
    (base : Params) (seed : ℕ) (ns : List ℕ) (index left i j n : ℕ)
    → i < left
    → get_elem? ns j ≡ some n
    → get_elem? (rows base seed ns index left) (i * length ns + j)
      ≡ some (record base { seed = some (shifted seed (index + i)); steps = n })
unfolding rows
get_elem?-rows base seed ns index zero i j n h e = absurd (omega arith)
get_elem?-rows base seed ns index (suc left) zero j n h e =
    let line = row base (shifted seed index) ns in
    let rest = rows base seed ns (suc index) left in
    let p : 0 * length ns + j ≡ j = omega arith in
    let q : index + 0 ≡ index = omega arith in
    rw (p, q)
      (get_elem?-append_left line rest j
          (omega (arith, get_elem?-lt ns j n e, length-row base (shifted seed index) ns))
        ∙ get_elem?-row base (shifted seed index) ns j n e)
get_elem?-rows base seed ns index (suc left) (suc i) j n h e =
    let line = row base (shifted seed index) ns in
    let rest = rows base seed ns (suc index) left in
    let p : suc i * length ns + j ≡ length line + (i * length ns + j) =
      omega (arith, length-row base (shifted seed index) ns) in
    let q : index + suc i ≡ suc index + i = omega arith in
    rw (p, q)
      (get_elem?-append_right line rest (i * length ns + j)
        ∙ get_elem?-rows base seed ns (suc index) left i j n (omega arith) e)

-- A batch of `count` seeds by `k` step numbers has `count * k` images, and the image at position
-- `i * k + j` has the i-th following seed modulo 2^31, the j-th number of steps, and else the
-- parameters of the request.
pub item_requests_shape :
    (r : BatchRequest)
    → (length (item_requests r) ≡ r.count * length (steps_of r))
      × ((i j n : ℕ)
          → i < r.count
          → get_elem? (steps_of r) j ≡ some n
          → get_elem? (item_requests r) (i * length (steps_of r) + j)
            ≡ some (record r.request {
              seed = some ((seed_or_zero r.request.seed + i) % 2 ^ 31);
              steps = n;
            }))
unfolding item_requests
item_requests_shape r = (
  length-rows r.request (seed_or_zero r.request.seed) (steps_of r) 0 r.count,
  λ i j n h e.
      get_elem?-rows r.request (seed_or_zero r.request.seed) (steps_of r) 0 r.count i j n h e
      ∙ ap
          (λ k. some (record r.request {
            seed = some ((seed_or_zero r.request.seed + k) % 2 ^ 31);
            steps = n;
          }))
          (zero_plus i),
)
  where
    zero_plus : (i : ℕ) → 0 + i ≡ i
    zero_plus i = omega arith

-- Membership among numbers.
abbrev pub Mentions : ℕ → List ℕ → Type 0
Mentions x [] = ⊥
Mentions x (y ∷ ys) = (x ≡ y) ⊎ Mentions x ys

abbrev pub Unrepeated : List ℕ → Type 0
Unrepeated [] = Unit
Unrepeated (x ∷ xs) = (Mentions x xs → ⊥) × Unrepeated xs

seen-Mentions : (x : ℕ) (seen : List ℕ) → Mentions x seen → any_of (λ y. y == x) seen ≡ true
seen-Mentions x [] m = absurd m
seen-Mentions x (y ∷ ys) (inl e) = ground arith
seen-Mentions x (y ∷ ys) (inr m) = ground (arith, seen-Mentions x ys m)

Mentions-seen : (x : ℕ) (seen : List ℕ) → any_of (λ y. y == x) seen ≡ true → Mentions x seen
Mentions-seen x [] h = absurd (cc)
Mentions-seen x (y ∷ ys) h = elim (Bool-cases (y == x)) [
  | inl e ↦ inl (sym ((==_iff y x).0 e))
  | inr e ↦ inr (Mentions-seen x ys (rw e at h))
]

-- The values that stay are new and once each, and none is lost.
first_ones-new :
    (seen xs : List ℕ) (x : ℕ) → Mentions x (first_ones seen xs) → any_of (λ y. y == x) seen ≡ false
unfolding first_ones
first_ones-new seen [] x m = absurd m
first_ones-new seen (y ∷ ys) x m = elim (Bool-cases (any_of (λ z. z == y) seen)) [
  | inl e ↦ first_ones-new seen ys x (rw e at m)
  | inr e ↦ fresh e (rw e at m) (first_ones-new (y ∷ seen) ys x)
]
  where
    fresh :
        any_of (λ z. z == y) seen ≡ false
        → (x ≡ y) ⊎ Mentions x (first_ones (y ∷ seen) ys)
        → (Mentions x (first_ones (y ∷ seen) ys) → any_of (λ z. z == x) (y ∷ seen) ≡ false)
        → any_of (λ z. z == x) seen ≡ false
    fresh e (inl p) ih = rw p e
    fresh e (inr k) ih = (||-eq-false (y == x) (any_of (λ z. z == x) seen) (ih k)).1

first_ones-Unrepeated : (seen xs : List ℕ) → Unrepeated (first_ones seen xs)
unfolding first_ones
first_ones-Unrepeated seen [] = tt
first_ones-Unrepeated seen (y ∷ ys) = elim (Bool-cases (any_of (λ z. z == y) seen)) [
  | inl e ↦ rw e (first_ones-Unrepeated seen ys)
  | inr e ↦
      rw e ((λ m. clash (first_ones-new (y ∷ seen) ys y m)), first_ones-Unrepeated (y ∷ seen) ys)
]
  where
    clash : any_of (λ z. z == y) (y ∷ seen) ≡ false → ⊥
    clash h = cc ((||-eq-false (y == y) (any_of (λ z. z == y) seen) h).0, ==_refl y)

ok-injective {ℓ} : {A : Type ℓ} {a b : A} → Path (Result A) (ok a) (ok b) → a ≡ b
ok-injective h = cc

length-steps_of : (r : BatchRequest) → 1 ≤ length (steps_of r)
length-steps_of r = go r.step_values
  where
    go :
        (o : Option (List ℕ))
        → 1
          ≤ length (elim o [
            | none ↦ r.request.steps ∷ []
            | some [] ↦ r.request.steps ∷ []
            | some (x ∷ xs) ↦ x ∷ xs
          ])
    go none = omega arith
    go (some []) = omega arith
    go (some (x ∷ xs)) = omega arith

deduplicated-Unrepeated : (r : BatchRequest) → Unrepeated (overrides (deduplicated r))
unfolding deduplicated
deduplicated-Unrepeated r = go r.step_values
  where
    go :
        (o : Option (List ℕ)) → Unrepeated (overrides (deduplicated (record r { step_values = o })))
    go none = tt
    go (some xs) = first_ones-Unrepeated [] xs

count_of_deduplicated : (r : BatchRequest) → (deduplicated r).count ≡ r.count
unfolding deduplicated
count_of_deduplicated r = refl

-- An accepted batch holds between one and sixteen images, at most four distinct step numbers, and
-- each of its overrides has passed the contract of a single request.
pub bounded_matrix_bounds :
    (contract : Params → Bool) (given r : BatchRequest)
    → 1 ≤ given.count
    → bounded_matrix contract given ≡ ok r
    → (1 ≤ length (item_requests r))
      × (length (item_requests r) ≤ 16)
      × (length (overrides r) ≤ 4)
      × Unrepeated (overrides r)
      × (all_of (λ n. contract (record r.request { steps = n })) (overrides r) ≡ true)
unfolding bounded_matrix
bounded_matrix_bounds contract given r c h = elim (Bool-cases (accepts (deduplicated given))) [
  | inl e ↦ subst Bounded (accepted e h) (within e)
  | inr e ↦ absurd (cc (rw e at h))
]
  where
    accepts : BatchRequest → Bool
    accepts q =
        leb (length (overrides q)) 4
        && leb (q.count * length (steps_of q)) 16
        && all_of (λ n. contract (record q.request { steps = n })) (overrides q)

    Bounded : BatchRequest → Type 0
    Bounded q =
        (1 ≤ length (item_requests q))
        × (length (item_requests q) ≤ 16)
        × (length (overrides q) ≤ 4)
        × Unrepeated (overrides q)
        × (all_of (λ n. contract (record q.request { steps = n })) (overrides q) ≡ true)

    accepted :
        accepts (deduplicated given) ≡ true
        → (if accepts (deduplicated given) then ok (deduplicated given) else raise value_error)
          ≡ ok r
        → deduplicated given ≡ r
    accepted e h = ok-injective (rw e at h)

    some_images : (c k l : ℕ) → l ≡ c * k → 1 ≤ c → 1 ≤ k → 1 ≤ l
    some_images (suc c) (suc k) l h a b = grind arith
    some_images zero k l h a b = omega arith
    some_images (suc c) zero l h a b = omega arith

    within : accepts (deduplicated given) ≡ true → Bounded (deduplicated given)
    within e =
        let q = deduplicated given in
        let k = length (steps_of q) in
        let tests =
          &&-eq-true (leb (length (overrides q)) 4 && leb (q.count * k) 16)
            (all_of (λ n. contract (record q.request { steps = n })) (overrides q)) e in
        let sizes = &&-eq-true (leb (length (overrides q)) 4) (leb (q.count * k) 16) tests.0 in
        let shape = (item_requests_shape q).0 in
        let total = leb→le (q.count * k) 16 sizes.1 in
        (
          some_images q.count k (length (item_requests q)) shape
              (rw (count_of_deduplicated given) c) (length-steps_of q),
          omega (arith, shape, total),
          leb→le (length (overrides q)) 4 sizes.0,
          deduplicated-Unrepeated given,
          tests.1,
        )
