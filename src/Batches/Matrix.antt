-- ===== src/Batches/Matrix.antt =====
-- `BatchRequest.bounded_matrix` and `item_requests`: which images a batch stands for.
pub mod Shape
use mllm_windows_ai_workbenc.Prelude.{
  ℕ, zero, suc, ◌+◌, ◌*◌, ◌%◌, ◌^◌, Bool, true, false, not, ◌&&◌, ◌||◌, Option, none, some, List,
  [], ◌∷◌, ◌++◌, map, leb, ◌==◌, if◌then◌else◌, length, all_of, any_of,
}
use mllm_windows_ai_workbenc.Errors.{Result, ok, raise, value_error}
use mllm_windows_ai_workbenc.Batches.Model.{Params, BatchRequest}

-- list(dict.fromkeys(values)): the first of equal values stays.
unfoldable pub first_ones : List ℕ → List ℕ → List ℕ
first_ones seen [] = []
first_ones seen (x ∷ xs) =
    let rest = first_ones (x ∷ seen) xs in
    let same = first_ones seen xs in if any_of (λ y. y == x) seen then same else x ∷ rest

-- `stepValues or [steps]`
abbrev pub steps_of : BatchRequest → List ℕ
steps_of r = elim r.step_values [
  | none ↦ r.request.steps ∷ []
  | some [] ↦ r.request.steps ∷ []
  | some (x ∷ xs) ↦ x ∷ xs
]

unfoldable pub deduplicated : BatchRequest → BatchRequest
deduplicated r = record r {
  step_values = elim r.step_values [ none ↦ none | some xs ↦ some (first_ones [] xs) ];
}

abbrev pub overrides : BatchRequest → List ℕ
overrides r = elim r.step_values [ none ↦ [] | some xs ↦ xs ]

-- The model validator, after the ranges of the fields. `contract` is the validation of
-- `IdentityGenerateRequest`; its errors are ValueErrors too.
unfoldable pub bounded_matrix : (Params → Bool) → BatchRequest → Result BatchRequest
bounded_matrix contract given =
    let r = deduplicated given in
    if leb (length (overrides r)) 4
      && leb (r.count * length (steps_of r)) 16
      && all_of (λ n. contract (record r.request { steps = n })) (overrides r)
    then ok r
    else raise value_error

-- The ranges of the fields of `BatchRequest`.
unfoldable pub in_range : BatchRequest → Bool
in_range r =
    leb 1 r.count
    && leb r.count 8
    && all_of (λ n. leb 1 n && leb n 50) (overrides r)
    && (elim r.step_values [ none ↦ true | some xs ↦ leb 1 (length xs) ])
    && any_of (λ n. n == r.preview_every) (0 ∷ 5 ∷ 10 ∷ [])

-- One row of the matrix: every number of steps, at one seed.
unfoldable pub row : Params → ℕ → List ℕ → List Params
row base seed [] = []
row base seed (n ∷ ns) = record base { seed = some seed; steps = n } ∷ row base seed ns

-- (base["seed"] + index) % 2147483648
abbrev pub shifted : ℕ → ℕ → ℕ
shifted seed index = (seed + index) % 2 ^ 31

-- The rows from `index` on, `left` of them.
unfoldable pub rows : Params → ℕ → List ℕ → ℕ → ℕ → List Params
rows base seed ns index zero = []
rows base seed ns index (suc left) =
    row base (shifted seed index) ns ++ rows base seed ns (suc index) left

abbrev pub seed_or_zero : Option ℕ → ℕ
seed_or_zero none = 0
seed_or_zero (some n) = n

-- `item_requests` of a request whose seed has been drawn.
unfoldable pub item_requests : BatchRequest → List Params
item_requests r = rows r.request (seed_or_zero r.request.seed) (steps_of r) 0 r.count
