-- ===== src/Batches/Completion/Completing.antt =====
-- `_complete_item` on a record that holds the invariant.
use mllm_windows_ai_workbenc.Prelude.{
  ℕ, suc, ◌≤◌, ◌<◌, ◌≡◌, refl, sym, ap, ◌∙◌, subst, String, Bool, true, ◌⊎◌, inl, inr, Option, some,
  List, arith, get_elem?, set, length, length-set, All, Bool-cases, ltb, if◌then◌else◌,
}
use mllm_windows_ai_workbenc.Errors.{
  Exn, Result, ok, raise, os_error, value_error, key_error, index_error,
}
use mllm_windows_ai_workbenc.Batches.Model.{Item, Batch, is_complete}
use mllm_windows_ai_workbenc.Batches.Store.{Store, next, write, update}
use mllm_windows_ai_workbenc.Batches.Completion.{
  Outside, complete_count, prior_of, recounted, completed_item, finished_at, refused, inspect,
  is_out_of_order, settle_commit, commit, adopt, finish_item, complete_item, observe_complete,
}
use mllm_windows_ai_workbenc.Batches.Completion.Sound.{
  Prefix, Prefix-count, Prefix-set_next, Prefix-set_done, ids, ids-set, Fit, Elsewhere, Fit-set,
  Fit-at, Sound,
}
use mllm_windows_ai_workbenc.Batches.Completion.Posts.{
  Post, Unsaved, Unsaved-refl, write-cases, Updated, Post-eq, Post-map, Unsaved-rewritten,
  Updated-rewritten, update-Post,
}

-- One event's effect on the record, before the progress is measured and the record is saved.
pub record Observed (r : Batch) (s : Store) (q : Batch) (t : Store) : Type 0 where
  pub id : q.id ≡ r.id
  pub elapsed : q.elapsed_ms ≡ r.elapsed_ms
  pub total : q.total_items ≡ r.total_items
  pub names : ids q.items ≡ ids r.items
  pub grows : r.completed_items ≤ q.completed_items
  pub by_one : q.completed_items ≤ suc r.completed_items
  pub known : length q.items ≡ q.total_items
  pub first : Prefix q.completed_items q.items
  pub fit : All (Fit t) q.items
  pub current : q.current_item ≤ q.total_items
  pub unsaved : Unsaved s t

-- The record as it was, with other fields than these.
pub Observed-same :
    (r q : Batch) (s : Store)
    → Sound r s
    → q.id ≡ r.id
    → q.elapsed_ms ≡ r.elapsed_ms
    → q.total_items ≡ r.total_items
    → q.items ≡ r.items
    → q.completed_items ≡ r.completed_items
    → q.current_item ≤ r.total_items
    → Observed r s q s
Observed-same r q s h i e t x c u = record {
  id = i;
  elapsed = e;
  total = t;
  names = ap ids x;
  grows = omega (arith, c);
  by_one = omega (arith, c);
  known = ap length x ∙ h.known ∙ sym t;
  first = rw (c, x) h.first;
  fit = rw x h.fit;
  current = omega (arith, u, t);
  unsaved = Unsaved-refl s;
}

-- The item at `i` is replaced by one of the same id that is as complete as the count says.
pub Observed-set :
    (r q : Batch) (s t : Store) (i : ℕ) (x y : Item)
    → Sound r s
    → get_elem? r.items i ≡ some x
    → y.id ≡ x.id
    → Elsewhere x.id s t
    → Unsaved s t
    → Fit t y
    → i < r.total_items
    → q.id ≡ r.id
    → q.elapsed_ms ≡ r.elapsed_ms
    → q.total_items ≡ r.total_items
    → q.items ≡ set r.items i y
    → Prefix q.completed_items (set r.items i y)
    → r.completed_items ≤ q.completed_items
    → q.completed_items ≤ suc r.completed_items
    → q.current_item ≤ r.total_items
    → Observed r s q t
Observed-set r q s t i x y h g n o v f l a b c d p j k u = record {
  id = a;
  elapsed = b;
  total = c;
  names = ap ids d ∙ ids-set r.items i x y g n;
  grows = j;
  by_one = k;
  known = ap length d ∙ length-set r.items i y ∙ h.known ∙ sym c;
  first = rw d p;
  fit = rw d (Fit-set s t r.items i x y g o h.distinct f h.fit);
  current = omega (arith, u, c);
  unsaved = v;
}

-- A complete image at a place that is next or before it.
pub completes :
    (c i : ℕ) (xs : List Item) (y : Item)
    → Prefix c xs
    → i ≤ c
    → i < length xs
    → is_complete y.state ≡ true
    → Prefix (complete_count (set xs i y)) (set xs i y)
      × (c ≤ complete_count (set xs i y))
      × (complete_count (set xs i y) ≤ suc c)
completes c i xs y h le lt e = elim (Bool-cases (ltb i c)) [
  | inl b ↦ counted c (Prefix-set_done c i xs y h (ground (arith, b)) e) (omega arith) (omega arith)
  | inr b ↦
      let same : i ≡ c = ground (arith, b) in
      counted (suc c)
        (subst (λ k. Prefix (suc c) (set xs k y)) (sym same)
          (Prefix-set_next c xs y h (omega (arith, lt, same)) e))
        (omega arith) (omega arith)
]
  where
    counted :
        (n : ℕ)
        → Prefix n (set xs i y)
        → c ≤ n
        → n ≤ suc c
        → Prefix (complete_count (set xs i y)) (set xs i y)
          × (c ≤ complete_count (set xs i y))
          × (complete_count (set xs i y) ≤ suc c)
    counted n p a b =
        let k = Prefix-count n (set xs i y) p in
        (subst (λ m. Prefix m (set xs i y)) (sym k) p, omega (arith, k, a), omega (arith, k, b))

found_item :
    (env : Outside) (r : Batch) (i : ℕ) (s : Store) (x : Item)
    → get_elem? r.items i ≡ some x
    → complete_item env r i s ≡ (
        if is_complete (prior_of x s).state
        then adopt r i x (prior_of x s) s
        else finish_item env r i x s)
unfolding complete_item
found_item env r i s x there = ground (arith, there)

module _ (env : Outside) (r : Batch) (s : Store) (sound : Sound r s) (i : ℕ) (x : Item)
    (there : get_elem? r.items i ≡ some x) (inside : i < r.total_items)
    (reached : i ≤ r.completed_items) where
  fit_x : Fit s x
  fit_x = Fit-at s r.items i x there sound.fit

  prior-job : prior_of x s ≡ fit_x.job
  unfolding prior_of
  prior-job = ground (arith, fit_x.settled, fit_x.there)

  -- A new complete item, known to the service.
  done :
      (q : Batch) (t : Store) (y : Item)
      → y.id ≡ x.id
      → is_complete y.state ≡ true
      → Elsewhere x.id s t
      → Unsaved s t
      → Fit t y
      → q.id ≡ r.id
      → q.elapsed_ms ≡ r.elapsed_ms
      → q.total_items ≡ r.total_items
      → q.items ≡ set r.items i y
      → q.completed_items ≡ complete_count (set r.items i y)
      → q.current_item ≤ r.total_items
      → Observed r s q t
  done q t y n e o v f a b c d k u =
      let p =
        completes r.completed_items i r.items y sound.first reached
          (omega (arith, inside, sound.known)) e in
      Observed-set r q s t i x y sound there n o v f inside a b c d
        (subst (λ m. Prefix m (set r.items i y)) (sym k) p.0) (omega (arith, p.1, k))
        (omega (arith, p.2, k)) u

  adopt-Post :
      is_complete (prior_of x s).state ≡ true
      → Post (Observed r s) (Unsaved s) (observe_complete (adopt r i x (prior_of x s) s))
  unfolding adopt observe_complete
  adopt-Post e = record {
    at =
        rw (fit_x.settled, prior-job)
          (done (recounted r i fit_x.job) s fit_x.job fit_x.named (rw prior-job at e)
            (record { jobs = λ k n. refl; pending = λ k n. refl }) (Unsaved-refl s)
            (record {
              job = fit_x.job;
              settled = ap s.pending fit_x.named ∙ fit_x.settled;
              there = ap s.jobs fit_x.named ∙ fit_x.there;
              named = refl;
              agrees = refl;
            })
            refl refl refl refl refl sound.current);
  }

  settle-Post :
      (metadata : String) (o : Result Item × Store)
      → Post (λ y t. (y ≡ completed_item metadata fit_x.job) × Updated x.id y s t) (Unsaved s) o
      → Post
          (Observed r s)
          (Unsaved s)
          (observe_complete (settle_commit r i x (prior_of x s) metadata o))
  unfolding settle_commit observe_complete
  settle-Post metadata (ok y, t) h =
      let u = h.at.1 in
      let e = h.at.0 in
      let n : y.id ≡ x.id = ap (λ (w : Item). w.id) e ∙ fit_x.named in
      record {
        at =
            done (finished_at r i x.request y) t y n (ap (λ (w : Item). is_complete w.state) e)
              u.elsewhere u.unsaved
              (record {
                job = y;
                settled =
                    ap t.pending n
                    ∙ ap (λ (m : String → Option Item). m x.id) u.pending
                    ∙ fit_x.settled;
                there = ap t.jobs n ∙ u.there;
                named = refl;
                agrees = refl;
              })
              refl refl refl refl refl (omega (arith, inside));
      }
  settle-Post metadata (raise os_error, t) h = record {
    at = record { records = h.at.records; batch_files = h.at.batch_files };
  }
  settle-Post metadata (raise value_error, t) h = record { at = h.at }
  settle-Post metadata (raise Exn.runtime_error, t) h = record { at = h.at }
  settle-Post metadata (raise Exn.type_error, t) h = record { at = h.at }
  settle-Post metadata (raise key_error, t) h = record { at = h.at }
  settle-Post metadata (raise index_error, t) h = record { at = h.at }
  settle-Post metadata (raise Exn.worker_cancelled, t) h = record { at = h.at }
  settle-Post metadata (raise Exn.attribute_error, t) h = record { at = h.at }
  settle-Post metadata (raise Exn.engine_unavailable, t) h = record { at = h.at }
  settle-Post metadata (raise Exn.engine_failed, t) h = record { at = h.at }
  settle-Post metadata (raise Exn.generation_cancelled, t) h = record { at = h.at }
  settle-Post metadata (raise (Exn.api a), t) h = record { at = h.at }

  commit-Post :
      (metadata : String)
      → Post (Observed r s) (Unsaved s) (observe_complete (commit r i x (prior_of x s) metadata s))
  unfolding commit
  commit-Post metadata = settle-Post metadata _ (go (write-cases s))
    where
      rebased :
          (w : List Bool)
          → Post
              (λ y t.
                (y ≡ completed_item metadata fit_x.job)
                × Updated x.id y (record s { writes = w }) t)
              (Unsaved (record s { writes = w }))
              (update x.id (completed_item metadata) (record s { writes = w }))
          → Post
              (λ y t. (y ≡ completed_item metadata fit_x.job) × Updated x.id y s t)
              (Unsaved s)
              (update x.id (completed_item metadata) (record s { writes = w }))
      rebased w h =
          Post-map _ (λ y t k. (k.0, Updated-rewritten x.id y s t w k.1))
            (λ t k. Unsaved-rewritten s t w k) h

      go :
          ((w : List Bool) × ((write s ≡ (ok tt, record s { writes = w }))
              ⊎ (write s ≡ (raise os_error, record s { writes = w }))))
          → Post
              (λ y t. (y ≡ completed_item metadata fit_x.job) × Updated x.id y s t)
              (Unsaved s)
              (next (write s) (λ _. update x.id (completed_item metadata)))
      go (w, inr e) =
          Post-eq (ap (λ o. next o (λ _. update x.id (completed_item metadata))) e)
            (record { at = record { records = refl; batch_files = refl } })
      go (w, inl e) = Post-eq (ap (λ o. next o (λ _. update x.id (completed_item metadata))) e) (
          rebased w (
            update-Post x.id (completed_item metadata) (record s { writes = w }) fit_x.job
              fit_x.there))

  finish-Post : Post (Observed r s) (Unsaved s) (observe_complete (finish_item env r i x s))
  unfolding finish_item observe_complete
  finish-Post = elim (Bool-cases (is_out_of_order s.jobs i r.items)) [
    | inl e ↦ rw e (record { at = Unsaved-refl s })
    | inr e ↦ rw e (go (inspect env x.id x.request))
  ]
    where
      go :
          (o : Result String)
          → Post (Observed r s) (Unsaved s) (
              observe_complete (elim o [
                | raise e ↦ (refused e, s)
                | ok metadata ↦ commit r i x (prior_of x s) metadata s
              ]))
      go (ok metadata) = commit-Post metadata
      go (raise e) = record { at = Unsaved-refl s }

  pub complete-Post : Post (Observed r s) (Unsaved s) (observe_complete (complete_item env r i s))
  complete-Post =
      Post-eq (ap observe_complete found) (elim (Bool-cases (is_complete (prior_of x s).state)) [
        | inl e ↦ rw e (adopt-Post e)
        | inr e ↦ rw e finish-Post
      ])
    where
      found : complete_item env r i s ≡ (
          if is_complete (prior_of x s).state
          then adopt r i x (prior_of x s) s
          else finish_item env r i x s)
      found = found_item env r i s x there
