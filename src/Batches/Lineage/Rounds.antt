-- ===== src/Batches/Lineage/Rounds.antt =====
-- What one round of `_validate_lineage` has found.
use mllm_windows_ai_workbenc.Prelude.{
  ℕ, ◌≡◌, refl, subst, String, Bool, true, false, not, ◌||◌, ◌⊎◌, inl, inr, Option, none, some,
  List, [], ◌∷◌, map, &&-eq-true, ◌==◌, if◌then◌else◌, length,
}
use mllm_windows_ai_workbenc.Errors.{
  bound-ok, checked-ok, Exn, Result, ok, raise, value_error, guard, ◌>>◌,
}
use mllm_windows_ai_workbenc.Batches.Model.{Params, Item, Batch}
use mllm_windows_ai_workbenc.Batches.Matrix.{deduplicated, bounded_matrix, item_requests}
use mllm_windows_ai_workbenc.Batches.Lineage.{
  params_eq, is_some, is_shaped, validated, indices_of, zip_lookup, is_only_failed, all_retries,
  is_root, is_linked, fits_parent, parent_of, link_of, origin, is_counted, ascend, settle,
}
use mllm_windows_ai_workbenc.Batches.Lineage.Equal.{
  list_eq_sound, params_eq_sound, request_eq_sound,
}

-- The results that the body of the loop can have.
pub record Root (r : Batch) : Type 0 where
  pub indices : r.indices ≡ none
  pub same : item_requests r.request ≡ map (λ (x : Item). x.request) r.items

pub record Linked (records : String → Option Batch) (r parent : Batch) : Type 0 where
  pub named : List ℕ
  pub indices : r.indices ≡ some named
  pub some_named : indices_of r ≡ named
  pub id : String
  pub found : records id ≡ some parent
  pub same : r.request ≡ parent.request
  pub retried :
      all_retries
        (is_only_failed r.mode)
        (zip_lookup (indices_of parent) parent.items)
        named
        r.items
      ≡ true

checked_or :
    {A : Type 0} (t : Bool) (a b : A) (e : Exn) → (if t then ok a else raise e) ≡ ok b → a ≡ b
checked_or true a b e h = cc
checked_or false a b e h = absurd (cc)

pub validated-same :
    (contract : Params → Bool) (r q : Batch)
    → validated contract r ≡ ok q
    → q ≡ record r { request = deduplicated r.request }
unfolding validated bounded_matrix
validated-same contract r q h =
    let (u, first, last) =
      bound-ok (guard (is_shaped contract r) value_error >> bounded_matrix contract r.request)
        (λ p. ok (record r { request = p })) q h in
    let (good, matrix) =
      checked-ok (is_shaped contract r) value_error (bounded_matrix contract r.request) u first in
    cc (checked_or _ (deduplicated r.request) u value_error matrix)

bare-unnamed :
    {A B C : Type 0} (a : Option A) (b : Option B) (c : Option C)
    → not (is_some a || is_some b || is_some c) ≡ true
    → a ≡ none
bare-unnamed none b c h = refl
bare-unnamed (some a) none none h = absurd (cc)
bare-unnamed (some a) none (some c) h = absurd (cc)
bare-unnamed (some a) (some b) none h = absurd (cc)
bare-unnamed (some a) (some b) (some c) h = absurd (cc)

indices_of-some :
    (r : Batch) (is : List ℕ)
    → r.indices ≡ some is
    → not (length is == 0) ≡ true
    → indices_of r ≡ is
unfolding indices_of
indices_of-some r [] e h = absurd (cc)
indices_of-some r (i ∷ is) e h = rw e refl

parent_of-Linked :
    (records : String → Option Batch) (r : Batch) (id : String) (is : List ℕ) (o q : Option Batch)
    → r.indices ≡ some is
    → is_linked r is ≡ true
    → records id ≡ o
    → parent_of r is o ≡ ok q
    → (parent : Batch) × (q ≡ some parent) × Linked records r parent
unfolding parent_of fits_parent is_linked
parent_of-Linked records r id is none q e l f h = absurd (cc)
parent_of-Linked records r id is (some parent) q e l f h =
    let (good, u) = checked-ok _ value_error (ok (some parent)) q h in
    let is_parent : q ≡ some parent = cc in
    let (before, retried) = &&-eq-true _ _ good in
    let (ended, same) = &&-eq-true _ _ before in
    let (l1, l2) = &&-eq-true _ _ l in
    let (l3, l4) = &&-eq-true _ _ l1 in
    let (l5, l6) = &&-eq-true _ _ l3 in
    let (l7, l8) = &&-eq-true _ _ l5 in
    (
      parent,
      is_parent,
      record {
        named = is;
        indices = e;
        some_named = indices_of-some r is e l7;
        id = id;
        found = f;
        same = request_eq_sound r.request parent.request same;
        retried = retried;
      },
    )

link_of-Linked :
    (records : String → Option Batch) (r : Batch) (id : String) (o : Option (List ℕ))
    (q : Option Batch)
    → r.indices ≡ o
    → link_of records r id o ≡ ok q
    → (parent : Batch) × (q ≡ some parent) × Linked records r parent
unfolding link_of
link_of-Linked records r id none q e h = absurd (cc)
link_of-Linked records r id (some is) q e h =
    let (good, rest) = checked-ok (is_linked r is) value_error (parent_of r is (records id)) q h in
    parent_of-Linked records r id is (records id) q e good refl rest

-- A chain goes on, or it ends at a batch that names no other.
pub origin-cases :
    (records : String → Option Batch) (r : Batch) (o : Option String) (q : Option Batch)
    → origin records r o ≡ ok q
    → ((q ≡ none) × Root r) ⊎ ((parent : Batch) × (q ≡ some parent) × Linked records r parent)
unfolding origin is_root
origin-cases records r none q h =
    let (good, u) = checked-ok (is_root r) value_error (ok none) q h in
    let (bare, same) = &&-eq-true _ _ good in
    inl (
      cc,
      record {
        indices = bare-unnamed r.indices r.mode r.key_hash bare;
        same =
            list_eq_sound params_eq params_eq_sound (item_requests r.request)
              (map (λ (x : Item). x.request) r.items) same;
      },
    )
origin-cases records r (some id) q h = inr (link_of-Linked records r id r.indices q refl h)

-- What one round says of the record that is given.
pub ascend-cases :
    (contract : Params → Bool) (records : String → Option Batch) (seen : List String)
    (given : Batch) (q : Option Batch)
    → ascend contract records seen given ≡ ok q
    → let r : Batch = record given { request = deduplicated given.request } in
      (is_counted seen r ≡ true)
      × (((q ≡ none) × Root r) ⊎ ((parent : Batch) × (q ≡ some parent) × Linked records r parent))
unfolding ascend
ascend-cases contract records seen given q h =
    let r : Batch = record given { request = deduplicated given.request } in
    let (v, good, rest) =
      bound-ok (validated contract given)
        (λ r. guard (is_counted seen r) value_error >> origin records r r.parent) q h in
    let same = validated-same contract given v good in
    let (counted, last) =
      checked-ok (is_counted seen v) value_error (origin records v v.parent) q rest in
    (
      subst (λ x. is_counted seen x ≡ true) same counted,
      origin-cases records r r.parent q (subst (λ x. origin records x x.parent ≡ ok q) same last),
    )

pub settle-ok :
    (go : Batch → Option (Result (Unit {0}))) (o : Result (Option Batch))
    → settle go o ≡ some (ok tt)
    → (o ≡ ok none) ⊎ ((p : Batch) × (o ≡ ok (some p)) × (go p ≡ some (ok tt)))
unfolding settle
settle-ok go (raise e) h = absurd (cc)
settle-ok go (ok none) h = inl refl
settle-ok go (ok (some p)) h = inr (p, refl, h)

pub settle-none :
    (go : Batch → Option (Result (Unit {0}))) (o : Result (Option Batch))
    → settle go o ≡ none
    → (p : Batch) × (o ≡ ok (some p)) × (go p ≡ none)
unfolding settle
settle-none go (raise e) h = absurd (cc)
settle-none go (ok none) h = absurd (cc)
settle-none go (ok (some p)) h = (p, refl, h)

-- The parent that a round goes on with.
pub ascend-Linked :
    (contract : Params → Bool) (records : String → Option Batch) (seen : List String)
    (given parent : Batch)
    → ascend contract records seen given ≡ ok (some parent)
    → (is_counted seen (record given { request = deduplicated given.request }) ≡ true)
      × Linked records (record given { request = deduplicated given.request }) parent
ascend-Linked contract records seen given parent h =
    let (counted, more) = ascend-cases contract records seen given (some parent) h in
    (
      counted,
      elim more [
        | inl (e, f) ↦ absurd (cc (e))
        | inr (p, e, f) ↦
            subst (λ p. Linked records (record given { request = deduplicated given.request }) p)
              (cc (e)) f
      ],
    )

pub ascend-Root :
    (contract : Params → Bool) (records : String → Option Batch) (seen : List String)
    (given : Batch)
    → ascend contract records seen given ≡ ok none
    → Root (record given { request = deduplicated given.request })
ascend-Root contract records seen given h =
    elim ((ascend-cases contract records seen given none h).1) [
      | inl (e, f) ↦ f
      | inr (p, e, f) ↦ absurd (cc (e))
    ]
