-- ===== src/Batches/Replay/Completing.antt =====
-- What `_complete_item` keeps, in a replay.
use mllm_windows_ai_workbenc.Prelude.{
  ℕ, zero, suc, ◌≡◌, refl, sym, ap, ◌∙◌, subst, String, Bool, true, false, ◌⊎◌, inl, inr, Option,
  none, some, List, [], ◌∷◌, str_eq, str_eq_refl, get_elem?, set, elem, put_self, Bool-cases,
  if◌then◌else◌,
}
use mllm_windows_ai_workbenc.Errors.{Result, ok, raise, value_error, index_error, os_error}
use mllm_windows_ai_workbenc.Batches.Model.{Item, Batch, is_complete}
use mllm_windows_ai_workbenc.Batches.Store.{Store, next, write, put_job, put_pending, update}
use mllm_windows_ai_workbenc.Batches.Completion.{
  Outside, prior_of, is_out_of_order, inspect, Completion, saved, unsaved, refused, settle_commit,
  commit, adopt, finish_item, complete_item, completed_item, unsaved_item,
}
use mllm_windows_ai_workbenc.Batches.Completion.Sound.{ids, ids-set}
use mllm_windows_ai_workbenc.Batches.Completion.Posts.{put_other, write-cases, update-cases, stored}
use mllm_windows_ai_workbenc.Batches.Replay.Grown.{
  Served, known_as, HasDone, Grown, Grown-refl, Grown-at, prior-held, put_job-Grown,
}

-- How a completion leaves the record and the shared state.
abbrev pub Completes : Batch → Store → Completion × Store → Type 0
Completes r s (saved q, t) = (ids q.items ≡ ids r.items) × (q.id ≡ r.id) × Grown s t
Completes r s (unsaved q, t) = (ids q.items ≡ ids r.items) × (q.id ≡ r.id) × Grown s t
Completes r s (refused e, t) = Grown s t

module _ (env : Outside) (r : Batch) (i : ℕ) (x : Item) (s : Store)
    (there : get_elem? r.items i ≡ some x) (known : Served s x.id) where
  replaced-ids : (y : Item) → y.id ≡ x.id → ids (set r.items i y) ≡ ids r.items
  replaced-ids y n = ids-set r.items i x y there n

  adopt-Completes : Completes r s (adopt r i x (prior_of x s) s)
  unfolding adopt
  adopt-Completes =
      (replaced-ids (prior_of x s) (prior-held x s known).1, refl, go (s.pending x.id) refl)
    where
      go :
          (o : Option Item)
          → s.pending x.id ≡ o
          → Grown s (elim o [ none ↦ s | some _ ↦ put_job x.id (prior_of x s) s ])
      go none e = Grown-refl s
      go (some p) e = put_job-Grown x.id (prior_of x s) s (prior-held x s known).1 λ h. (
        h.0,
        ap (λ m. known_as m ((put_job x.id (prior_of x s) s).jobs x.id)) e
            ∙ sym (ap (λ m. known_as m (s.jobs x.id)) e)
            ∙ h.1,
        h.2,
      )

  -- The two writes: either both have succeeded, or nothing has changed.
  writes-cases :
      (metadata : String)
      → (w : List Bool) × ((next (write s) (λ _. update x.id (completed_item metadata)) ≡ (
        ok (completed_item metadata known.job),
        stored x.id (completed_item metadata known.job) s w,
      ))
          ⊎ (next (write s) (λ _. update x.id (completed_item metadata))
              ≡ (raise os_error, record s { writes = w })))
  writes-cases metadata = go (write-cases s)
    where
      ch : Item → Item
      ch = completed_item metadata

      go :
          ((w : List Bool) × ((write s ≡ (ok tt, record s { writes = w }))
              ⊎ (write s ≡ (raise os_error, record s { writes = w }))))
          → (w : List Bool) × ((next (write s) (λ _. update x.id (completed_item metadata)) ≡ (
            ok (completed_item metadata known.job),
            stored x.id (completed_item metadata known.job) s w,
          ))
              ⊎ (next (write s) (λ _. update x.id (completed_item metadata))
                  ≡ (raise os_error, record s { writes = w })))
      go (w, inr e) = (w, inr (ap (λ o. next o (λ _. update x.id (completed_item metadata))) e))
      go (w, inl e) =
          let (v, c) =
            update-cases x.id (completed_item metadata) (record s { writes = w }) known.job
              known.there in
          let first = ap (λ o. next o (λ _. update x.id (completed_item metadata))) e in
          elim c [ inl d ↦ (v, inl (first ∙ d)) | inr d ↦ (v, inr (first ∙ d)) ]

  module _ (open_yet : is_complete (prior_of x s).state ≡ false) where
    -- It was not complete before.
    not_done : {A : Type 0} → HasDone s x.id → A
    not_done h =
        let (e, n) = prior-held x s known in
        let same : h.0 ≡ prior_of x s = cc (h.1, e) in
        absurd (cc (subst (λ (j : Item). is_complete j.state ≡ true) same (h.2), open_yet))

    stored-Grown : (y : Item) (w : List Bool) → y.id ≡ x.id → Grown s (stored x.id y s w)
    stored-Grown y w n =
        Grown-at x.id s (stored x.id y s w)
          (record { jobs = λ k d. put_other x.id k (some y) s.jobs d; pending = λ k d. refl })
          (λ h. record {
            job = y;
            there = put_self x.id (some y) s.jobs;
            named = n;
            waiting = h.waiting;
          })
          (λ h. not_done h)

    pending-Grown :
        (y : Item) (w : List Bool)
        → y.id ≡ x.id
        → Grown s (put_pending x.id y (put_job x.id y (record s { writes = w })))
    pending-Grown y w n =
        Grown-at x.id s (put_pending x.id y (put_job x.id y (record s { writes = w })))
          (record {
            jobs = λ k d. put_other x.id k (some y) s.jobs d;
            pending = λ k d. put_other x.id k (some y) s.pending d;
          })
          (λ h. record {
            job = y;
            there = put_self x.id (some y) s.jobs;
            named = n;
            waiting = λ q e.
                let same : y ≡ q = cc (put_self x.id (some y) s.pending, e) in
                subst (λ (q : Item). q.id ≡ x.id) same n;
          })
          (λ h. not_done h)

    commit-Completes : (metadata : String) → Completes r s (commit r i x (prior_of x s) metadata s)
    unfolding commit settle_commit
    commit-Completes metadata = go (writes-cases metadata)
      where
        go :
            ((w : List Bool) × ((next (write s) (λ _. update x.id (completed_item metadata)) ≡ (
              ok (completed_item metadata known.job),
              stored x.id (completed_item metadata known.job) s w,
            ))
                ⊎ (next (write s) (λ _. update x.id (completed_item metadata))
                    ≡ (raise os_error, record s { writes = w }))))
            → Completes r s (commit r i x (prior_of x s) metadata s)
        go (w, inl e) =
            let y = completed_item metadata known.job in
            subst (λ o. Completes r s (settle_commit r i x (prior_of x s) metadata o)) (sym e)
              (replaced-ids y known.named, refl, stored-Grown y w known.named)
        go (w, inr e) =
            let y = unsaved_item metadata (prior_of x s) in
            let n = (prior-held x s known).1 in
            subst (λ o. Completes r s (settle_commit r i x (prior_of x s) metadata o)) (sym e)
              (replaced-ids y n, refl, pending-Grown y w n)

    finish_item-Completes : Completes r s (finish_item env r i x s)
    unfolding finish_item
    finish_item-Completes = go (is_out_of_order s.jobs i r.items) (inspect env x.id x.request)
      where
        go :
            (b : Bool) (o : Result String)
            → Completes r s (
                if b then (refused value_error, s) else (elim o [
                  | raise e ↦ (refused e, s)
                  | ok metadata ↦ commit r i x (prior_of x s) metadata s
                ]))
        go true o = Grown-refl s
        go false (raise e) = Grown-refl s
        go false (ok metadata) = commit-Completes metadata

  found-Completes : Completes r s (
      if is_complete (prior_of x s).state
      then adopt r i x (prior_of x s) s
      else finish_item env r i x s)
  found-Completes = go (is_complete (prior_of x s).state) refl
    where
      go :
          (b : Bool)
          → is_complete (prior_of x s).state ≡ b
          → Completes r s (if b then adopt r i x (prior_of x s) s else finish_item env r i x s)
      go true e = adopt-Completes
      go false e = finish_item-Completes e

elem-ids : (xs : List Item) (i : ℕ) (x : Item) → get_elem? xs i ≡ some x → elem x.id (ids xs) ≡ true
elem-ids [] i x h = absurd (cc (h))
elem-ids (y ∷ ys) zero x h =
    let same : y ≡ x = cc (h) in
    subst (λ (x : Item). elem x.id (y.id ∷ ids ys) ≡ true) same (rw (str_eq_refl y.id) refl)
elem-ids (y ∷ ys) (suc i) x h = elim (Bool-cases (str_eq y.id x.id)) [
  | inl e ↦ rw e refl
  | inr e ↦ rw e (elem-ids ys i x h)
]

pub complete_item-Completes :
    (env : Outside) (r : Batch) (i : ℕ) (s : Store)
    → ((k : String) → elem k (ids r.items) ≡ true → Served s k)
    → Completes r s (complete_item env r i s)
unfolding complete_item
complete_item-Completes env r i s known = go (get_elem? r.items i) refl
  where
    go :
        (o : Option Item)
        → get_elem? r.items i ≡ o
        → Completes r s (elim o [
          | none ↦ (refused index_error, s)
          | some x ↦
              if is_complete (prior_of x s).state
              then adopt r i x (prior_of x s) s
              else finish_item env r i x s
        ])
    go none e = Grown-refl s
    go (some x) e = found-Completes env r i x s e (known x.id (elem-ids r.items i x e))
