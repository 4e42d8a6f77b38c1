-- ===== src/Batches/Retry/Origins.antt =====
-- Which images a retry submits.
use mllm_windows_ai_workbenc.Prelude.{
  ℕ, zero, suc, ◌+◌, ◌≡◌, refl, sym, ap, ◌∙◌, subst, String, true, not, inl, inr, Option, none,
  some, List, [], ◌∷◌, arith, get_elem?, Bool-cases, Option-cases, length,
}
use mllm_windows_ai_workbenc.Errors.{
  Exn, Result, ok, raise, os_error, value_error, type_error, key_error, index_error, runtime_error,
  worker_cancelled, attribute_error, engine_unavailable, engine_failed, generation_cancelled, api,
  guard, bound-ok, checked-ok, ◌>>=◌, ◌>>◌,
}
use mllm_windows_ai_workbenc.History.Record.{is_batch_id}
use mllm_windows_ai_workbenc.Batches.Model.{Params, BatchRequest, Item, Batch, Mode, is_terminal}
use mllm_windows_ai_workbenc.Batches.Matrix.{deduplicated, item_requests}
use mllm_windows_ai_workbenc.Batches.Store.{Store, load}
use mllm_windows_ai_workbenc.Batches.Attempt.{Provenance}
use mllm_windows_ai_workbenc.Batches.Lineage.{indices_of, validated, validate_lineage}
use mllm_windows_ai_workbenc.Operations.Capacity.{ensure_generation_capacity}
use mllm_windows_ai_workbenc.Batches.Lineage.Origins.{validate_lineage-origins}
use mllm_windows_ai_workbenc.Batches.Retry.{
  Plan, known, fresh, or_raise, lineage, active, nothing_chosen, same_frozen, durable_of,
  check_frozen, check_saved, check_parent, check_images, is_empty, check_new, planned, replay,
  matching, unknown_id, is_chosen, selected, requests_of, originals, plan_new, plan_for, plan_retry,
}
use mllm_windows_ai_workbenc.Batches.Service.{Service, Saved, invalid}

-- The parent's image that a retried image stands for.
pub record Retaken (parent : Batch) (mode : Mode) (k : ℕ) (x : Params) : Type 0 where
  pub place : ℕ
  pub item : Item
  pub value : get_elem? parent.items place ≡ some item
  pub index : get_elem? (indices_of parent) place ≡ some k
  pub same : item.request ≡ x
  pub chosen : is_chosen mode item ≡ true

-- The same for a part of the images, from a position on.
record Taken (is : List ℕ) (mode : Mode) (first : ℕ) (xs : List Item) (k : ℕ) (x : Params)
    : Type 0 where
  place : ℕ
  item : Item
  value : get_elem? xs place ≡ some item
  index : get_elem? is (first + place) ≡ some k
  same : item.request ≡ x
  chosen : is_chosen mode item ≡ true

Taken-later :
    (is : List ℕ) (mode : Mode) (first : ℕ) (y : Item) (xs : List Item) (k : ℕ) (x : Params)
    → Taken is mode (suc first) xs k x
    → Taken is mode first (y ∷ xs) k x
Taken-later is mode first y xs k x t = record {
  place = suc t.place;
  item = t.item;
  value = t.value;
  index = subst (λ n. get_elem? is n ≡ some k) (shift first t.place) t.index;
  same = t.same;
  chosen = t.chosen;
}
  where
    shift : (a b : ℕ) → suc a + b ≡ a + suc b
    shift a b = omega arith

originals-split :
    (is : List ℕ) (i : ℕ) (y : Item) (xs : List (ℕ × Item)) (ks : List ℕ)
    → originals is ((i, y) ∷ xs) ≡ ok ks
    → (k : ℕ) × (rest : List ℕ) × (get_elem? is i ≡ some k)
      × (originals is xs ≡ ok rest)
      × (ks ≡ k ∷ rest)
unfolding originals
originals-split is i y xs ks h = elim (Option-cases (get_elem? is i)) [
  | inl e ↦ absurd (cc (rw (e, originals) at h))
  | inr (k, e) ↦
      let (rest, a, b) =
        bound-ok (originals is xs) (λ ks. ok (k ∷ ks)) ks (rw (e, originals) at h) in
      (k, rest, e, a, cc (b))
]

-- The first image is one of those at position `j`, or the rest has it at the position before.
Taken-first :
    (is : List ℕ) (mode : Mode) (first : ℕ) (y : Item) (xs : List Item) (rest : List (ℕ × Item))
    (k' : ℕ) (ks : List ℕ) (j k : ℕ) (x : Params)
    → get_elem? is first ≡ some k'
    → is_chosen mode y ≡ true
    → get_elem? (k' ∷ ks) j ≡ some k
    → get_elem? (requests_of ((first, y) ∷ rest)) j ≡ some x
    → ((i : ℕ)
        → get_elem? (requests_of rest) i ≡ some x
        → get_elem? ks i ≡ some k
        → Taken is mode (suc first) xs k x)
    → Taken is mode first (y ∷ xs) k x
Taken-first is mode first y xs rest k' ks zero k x found c e d later = record {
  place = 0;
  item = y;
  value = refl;
  index = subst (λ n. get_elem? is n ≡ some k) (plus_zero first) (found ∙ e);
  same = cc (d);
  chosen = c;
}
  where
    plus_zero : (n : ℕ) → n ≡ n + 0
    plus_zero n = omega arith
Taken-first is mode first y xs rest k' ks (suc j) k x found c e d later =
    Taken-later is mode first y xs k x (later j d e)

selected-Taken :
    (is : List ℕ) (mode : Mode) (first : ℕ) (xs : List Item) (ks : List ℕ) (j k : ℕ) (x : Params)
    → originals is (selected mode first xs) ≡ ok ks
    → get_elem? (requests_of (selected mode first xs)) j ≡ some x
    → get_elem? ks j ≡ some k
    → Taken is mode first xs k x
unfolding selected
selected-Taken is mode first [] ks j k x h d e = absurd (cc (d))
selected-Taken is mode first (y ∷ xs) ks j k x h d e = elim (Bool-cases (is_chosen mode y)) [
  | inr c ↦
      Taken-later is mode first y xs k x
        (selected-Taken is mode (suc first) xs ks j k x (rw c at h) (rw c at d) e)
  | inl c ↦
      let rest = selected mode (suc first) xs in
      let (k', ks', found, more, same) = originals-split is first y rest ks (rw c at h) in
      Taken-first is mode first y xs rest k' ks' j k x found c
        (subst (λ ks. get_elem? ks j ≡ some k) same e) (rw c at d)
        (λ i d e. selected-Taken is mode (suc first) xs ks' i k x more d e)
]

or_raise-ok : (e : Exn) (m : Result (Unit {0})) (u : Unit {0}) → or_raise e m ≡ ok u → m ≡ ok tt
unfolding or_raise
or_raise-ok e (ok v) u h = refl
or_raise-ok e (raise os_error) u h = absurd (cc (h))
or_raise-ok e (raise value_error) u h = absurd (cc (h))
or_raise-ok e (raise type_error) u h = absurd (cc (h))
or_raise-ok e (raise key_error) u h = absurd (cc (h))
or_raise-ok e (raise runtime_error) u h = absurd (cc (h))
or_raise-ok e (raise index_error) u h = absurd (cc (h))
or_raise-ok e (raise attribute_error) u h = absurd (cc)
or_raise-ok e (raise engine_unavailable) u h = absurd (cc)
or_raise-ok e (raise engine_failed) u h = absurd (cc)
or_raise-ok e (raise generation_cancelled) u h = absurd (cc)
or_raise-ok e (raise worker_cancelled) u h = absurd (cc (h))
or_raise-ok e (raise (api a)) u h = absurd (cc (h))

lineage-valid :
    (svc : Service) (s : Store) (r : Batch)
    → lineage svc s r ≡ ok tt
    → validate_lineage svc.contract s.records (3 + length svc.keys) [] r ≡ some (ok tt)
unfolding lineage
lineage-valid svc s r h = go (validate_lineage svc.contract s.records (3 + length svc.keys) [] r) h
  where
    go :
        (o : Option (Result (Unit {0})))
        → (elim o [ none ↦ raise runtime_error | some m ↦ m ]) ≡ ok tt
        → o ≡ some (ok tt)
    go none h = absurd (cc (h))
    go (some m) h = ap some h

check_parent-valid :
    (svc : Service) (s : Store) (id : String) (parent : Batch) (u : Unit {0})
    → check_parent svc s id parent ≡ ok u
    → validate_lineage svc.contract s.records (3 + length svc.keys) [] parent ≡ some (ok tt)
unfolding check_parent check_saved check_frozen
check_parent-valid svc s id parent u h =
    let whole = or_raise-ok invalid (svc.disk id >>= check_saved svc s parent) u h in
    let (v, a, b) = bound-ok (svc.disk id) (check_saved svc s parent) tt whole in
    let (durable, c, d) = bound-ok (durable_of svc v.whole) (check_frozen svc s parent) tt b in
    let (snapshot, e, f) =
      bound-ok (validated svc.contract parent)
        (λ snapshot. guard (same_frozen durable snapshot) value_error >> lineage svc s parent) tt
        d in
    let (good, last) =
      checked-ok (same_frozen durable snapshot) value_error (lineage svc s parent) tt f in
    lineage-valid svc s parent last

check_new-valid :
    (svc : Service) (s : Store) (id : String) (mode : Mode) (parent : Batch) (u : Unit {0})
    → check_new svc s id mode parent ≡ ok u
    → validate_lineage svc.contract s.records (3 + length svc.keys) [] parent ≡ some (ok tt)
unfolding check_new
check_new-valid svc s id mode parent u h =
    let chosen = selected mode 0 parent.items in
    let one = guard (is_terminal parent.state) active >> check_parent svc s id parent in
    let two = one >> guard (not (is_empty chosen)) nothing_chosen in
    let (u2, e2, e2') =
      bound-ok two (λ _. check_images svc s parent.request.profile_id chosen) u h in
    let (u1, e1, e1') = bound-ok one (λ _. guard (not (is_empty chosen)) nothing_chosen) u2 e2 in
    let (good, last) =
      checked-ok (is_terminal parent.state) active (check_parent svc s id parent) u1 e1 in
    check_parent-valid svc s id parent u1 last

-- What a plan for a new batch rests on.
record Planned (svc : Service) (s : Store) (id : String) (mode : Mode) (parent : Batch)
    (frozen : BatchRequest) (requests : List Params) (p : Provenance) : Type 0 where
  valid : validate_lineage svc.contract s.records (3 + length svc.keys) [] parent ≡ some (ok tt)
  frozen_is : frozen ≡ parent.request
  requests_are : requests ≡ requests_of (selected mode 0 parent.items)
  indices_are : originals (indices_of parent) (selected mode 0 parent.items) ≡ ok p.indices
  parent_is : p.parent ≡ id

plan_new-Planned :
    (svc : Service) (s : Store) (id : String) (mode : Mode) (key : String) (parent : Batch)
    (frozen : BatchRequest) (requests : List Params) (p : Provenance)
    → plan_new svc s id mode key parent ≡ ok (fresh frozen requests p)
    → Planned svc s id mode parent frozen requests p
unfolding plan_new planned
plan_new-Planned svc s id mode key parent frozen requests p h =
    let goal : Plan = fresh frozen requests p in
    let one = check_new svc s id mode parent >> svc.polish parent.request in
    let space = ensure_generation_capacity svc.free >>= λ _. ok tt in
    let found = originals (indices_of parent) (selected mode 0 parent.items) in
    let (u3, e3, last) =
      bound-ok (one >> space) (λ _. found >>= planned id mode key parent) goal h in
    let (u2, e2, e2') = bound-ok one (λ _. space) u3 e3 in
    let (u1, e1, e1') =
      bound-ok (check_new svc s id mode parent) (λ _. svc.polish parent.request) u2 e2 in
    let (ks, k1, k2) = bound-ok found (planned id mode key parent) goal last in
    let p_is : p ≡ record { parent = id; indices = ks; mode = mode; key_hash = key } = cc (k2) in
    record {
      valid = check_new-valid svc s id mode parent u1 e1;
      frozen_is = cc (k2);
      requests_are = cc (k2);
      indices_are = k1 ∙ ap (λ (p : Provenance). ok p.indices) (sym p_is);
      parent_is = ap (λ (p : Provenance). p.parent) p_is;
    }

plan_for-Planned :
    (svc : Service) (s : Store) (id : String) (mode : Mode) (key : String)
    (ms : List (String × Saved)) (frozen : BatchRequest) (requests : List Params) (p : Provenance)
    → plan_for svc s id mode key ms ≡ ok (fresh frozen requests p)
    → (parent : Batch) × ((load true id s).0 ≡ ok parent)
      × Planned svc s id mode parent frozen requests p
unfolding plan_for
plan_for-Planned svc s id mode key [] frozen requests p h =
    let (parent, a, b) =
      bound-ok ((load true id s).0) (plan_new svc s id mode key) (fresh frozen requests p) h in
    (parent, a, plan_new-Planned svc s id mode key parent frozen requests p b)
plan_for-Planned svc s id mode key (m ∷ ms) frozen requests p h =
    let (saved_id, a, b) =
      bound-ok (replay svc id mode s m ms) (λ saved_id. ok (known saved_id))
        (fresh frozen requests p) h in
    absurd (cc (b))

-- Where a retry goes on to a new batch, each request at a position stands for an image of the
-- parent that the mode takes: it has this image's parameters, and they are those that the matrix of
-- the parent's request gives at the original index at the same position.
pub plan_retry-origins :
    (svc : Service) (s : Store) (id : String) (mode : Mode) (idempotency_key : String)
    (frozen : BatchRequest) (requests : List Params) (p : Provenance) (j k : ℕ) (x : Params)
    → plan_retry svc s id mode idempotency_key ≡ ok (fresh frozen requests p)
    → get_elem? requests j ≡ some x
    → get_elem? p.indices j ≡ some k
    → (parent : Batch) × ((load true id s).0 ≡ ok parent)
      × Retaken parent mode k x
      × (get_elem? (item_requests (deduplicated frozen)) k ≡ some x)
unfolding plan_retry
plan_retry-origins svc s id mode idempotency_key frozen requests p j k x h d e =
    let goal : Plan = fresh frozen requests p in
    let key = svc.digest id idempotency_key in
    let (u, a, b) =
      bound-ok (svc.is_open >> guard (is_batch_id id) unknown_id)
        (λ _. matching svc key svc.names >>= plan_for svc s id mode key) goal h in
    let (ms, c, f) = bound-ok (matching svc key svc.names) (plan_for svc s id mode key) goal b in
    let (parent, loaded, plan) = plan_for-Planned svc s id mode key ms frozen requests p f in
    let t =
      selected-Taken (indices_of parent) mode 0 parent.items p.indices j k x plan.indices_are
        (subst (λ l. get_elem? l j ≡ some x) plan.requests_are d) e in
    let there = subst (λ n. get_elem? (indices_of parent) n ≡ some k) (zero_plus t.place) t.index in
    let origin =
      validate_lineage-origins svc.contract s.records (3 + length svc.keys) [] parent t.place k
        t.item plan.valid t.value there in
    (
      parent,
      loaded,
      record {
        place = t.place;
        item = t.item;
        value = t.value;
        index = there;
        same = t.same;
        chosen = t.chosen;
      },
      subst (λ q. get_elem? (item_requests (deduplicated q)) k ≡ some x) (sym plan.frozen_is)
          (origin ∙ ap some t.same),
    )
  where
    zero_plus : (n : ℕ) → 0 + n ≡ n
    zero_plus n = omega arith
