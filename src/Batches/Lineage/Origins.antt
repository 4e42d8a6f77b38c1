-- ===== src/Batches/Lineage/Origins.antt =====
-- The images of a retried batch, followed up to the first batch.
use mllm_windows_ai_workbenc.Prelude.{
  ℕ, zero, suc, ◌+◌, ◌≡◌, sym, ap, ◌∙◌, subst, String, Bool, inl, inr, Option, some, List, [], ◌∷◌,
  map, arith, get_elem?, length,
}
use mllm_windows_ai_workbenc.Errors.{ok}
use mllm_windows_ai_workbenc.Batches.Model.{Params, Item, Batch}
use mllm_windows_ai_workbenc.Batches.Matrix.{deduplicated, item_requests}
use mllm_windows_ai_workbenc.Batches.Lineage.{
  range, indices_of, zip_lookup, is_only_failed, ascend, validate_lineage,
}
use mllm_windows_ai_workbenc.Batches.Lineage.Parents.{
  deduplicated-again, zip_lookup-Found, all_retries-at,
}
use mllm_windows_ai_workbenc.Batches.Lineage.Rounds.{
  Root, Linked, ascend-Root, ascend-Linked, settle-ok,
}

get_elem?-range : (first count j k : ℕ) → get_elem? (range first count) j ≡ some k → k ≡ first + j
unfolding range
get_elem?-range first zero j k h = absurd (cc)
get_elem?-range first (suc count) zero k h = ground arith
get_elem?-range first (suc count) (suc j) k h =
    omega (arith, get_elem?-range (suc first) count j k h)

get_elem?-map :
    {A B : Type 0} (f : A → B) (xs : List A) (j : ℕ) (x : A)
    → get_elem? xs j ≡ some x
    → get_elem? (map f xs) j ≡ some (f x)
get_elem?-map f [] j x h = absurd (cc)
get_elem?-map f (y ∷ xs) zero x h = cc
get_elem?-map f (y ∷ xs) (suc j) x h = get_elem?-map f xs j x h

Root-origins :
    (r : Batch) (j k : ℕ) (x : Item)
    → Root r
    → get_elem? r.items j ≡ some x
    → get_elem? (indices_of r) j ≡ some k
    → get_elem? (item_requests r.request) k ≡ some x.request
unfolding indices_of
Root-origins r j k x f h e =
    let place : k ≡ 0 + j = get_elem?-range 0 (length r.items) j k (rw f.indices at e) in
    let same : k ≡ j = omega arith in
    rw (same, f.same) (get_elem?-map (λ (x : Item). x.request) r.items j x h)

-- The parent's image that an image stands for.
record Origin (r parent : Batch) (k : ℕ) (x : Item) : Type 0 where
  original : Item
  place : ℕ
  value : get_elem? parent.items place ≡ some original
  key : get_elem? (indices_of parent) place ≡ some k
  same : original.request ≡ x.request

Linked-origins :
    (records : String → Option Batch) (r parent : Batch) (j k : ℕ) (x : Item)
    → Linked records r parent
    → get_elem? r.items j ≡ some x
    → get_elem? (indices_of r) j ≡ some k
    → Origin r parent k x
Linked-origins records r parent j k x f h e =
    let one =
      all_retries-at (is_only_failed r.mode) (zip_lookup (indices_of parent) parent.items) f.named
        r.items j k x f.retried (subst (λ is. get_elem? is j ≡ some k) f.some_named e) h in
    let there = zip_lookup-Found (indices_of parent) parent.items k one.original one.found in
    record {
      original = one.original;
      place = there.place;
      value = there.value;
      key = there.key;
      same = one.same;
    }

-- However often a batch was retried: where the check succeeds, the image at each position has the
-- parameters that the matrix of the request gives at its original index.
pub validate_lineage-origins :
    (contract : Params → Bool) (records : String → Option Batch) (fuel : ℕ) (seen : List String)
    (r : Batch) (j k : ℕ) (x : Item)
    → validate_lineage contract records fuel seen r ≡ some (ok tt)
    → get_elem? r.items j ≡ some x
    → get_elem? (indices_of r) j ≡ some k
    → get_elem? (item_requests (deduplicated r.request)) k ≡ some x.request
unfolding validate_lineage indices_of
validate_lineage-origins contract records zero seen r j k x v h e = absurd (cc)
validate_lineage-origins contract records (suc fuel) seen r j k x v h e =
    let q : Batch = record r { request = deduplicated r.request } in
    elim (settle-ok _ (ascend contract records seen r) v) [
      | inl o ↦ Root-origins q j k x (ascend-Root contract records seen r o) h e
      | inr (parent, o, v) ↦
          let (counted, f) = ascend-Linked contract records seen r parent o in
          let one = Linked-origins records q parent j k x f h e in
          let before =
            validate_lineage-origins contract records fuel (r.id ∷ seen) parent one.place k
              one.original v one.value one.key in
          let same : deduplicated parent.request ≡ deduplicated r.request =
            ap deduplicated (sym f.same) ∙ deduplicated-again r.request in
          subst (λ q. get_elem? (item_requests q) k ≡ some x.request) same
            (before ∙ ap some one.same)
    ]
