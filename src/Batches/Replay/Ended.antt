-- ===== src/Batches/Replay/Ended.antt =====
-- How a batch that was cut off ends.
use mllm_windows_ai_workbenc.Prelude.{
  ◌⊎◌, ◌≡◌, refl, sym, ap, ◌∙◌, subst, String, Bool, true, false, inl, inr, Option, some, List, [],
  ◌∷◌, str_eq, str_eq_refl, elem, put_self, All, Bool-cases,
}
use mllm_windows_ai_workbenc.Errors.{Result, ok, raise}
use mllm_windows_ai_workbenc.Actions.{Keeps}
use mllm_windows_ai_workbenc.Events.{Bytes}
use mllm_windows_ai_workbenc.Batches.Model.{Item, Batch, failed, is_complete}
use mllm_windows_ai_workbenc.Batches.Store.{Store, put_job}
use mllm_windows_ai_workbenc.Batches.Store
use mllm_windows_ai_workbenc.Batches.Observed.{Event}
use mllm_windows_ai_workbenc.Batches.Completion.{Outside, complete_count, prior_of}
use mllm_windows_ai_workbenc.Batches.Completion.Sound.{ids, Distinct}
use mllm_windows_ai_workbenc.Batches.Ending.Ended.{Owned, Ends, finish_returns}
use mllm_windows_ai_workbenc.Batches.Replay.{
  EventFile, Replay, fresh_cursor, replay_completions, sync_items, keep_record, remaining,
  restart_message, finish_replay, is_open, synced, recover_batch,
}
use mllm_windows_ai_workbenc.Batches.Replay.Grown.{
  Served, HasDone, Grown, Grown-trans, Grown-same, prior-held,
}
use mllm_windows_ai_workbenc.Batches.Replay.Replayed.{Replayed, replay_file-Replayed}
use mllm_windows_ai_workbenc.Batches.Replay.Synced.{Tidy, sync_items-Synced}

Served-Owned : (s : Store) (x : Item) → Served s x.id → Owned s x
Served-Owned s x h = record {
  job = h.job;
  there = h.there;
  named = h.named;
  prior_named = (prior-held x s h).1;
}

All-Owned :
    (s : Store) (xs : List Item)
    → ((k : String) → elem k (ids xs) ≡ true → Served s k)
    → All (Owned s) xs
All-Owned s [] h = tt
All-Owned s (x ∷ xs) h = (
  Served-Owned s x (h x.id (rw (str_eq_refl x.id) refl)),
  All-Owned s xs
      λ k m. h k (elim (Bool-cases (str_eq x.id k)) [ inl e ↦ rw e refl | inr e ↦ rw e m ]),
)

-- An image is failed or complete, and complete if it was so before.
abbrev pub Settled : Store → Item → Type 0
Settled s y =
    ((y.state ≡ failed) ⊎ (is_complete y.state ≡ true))
    × (HasDone s y.id → is_complete y.state ≡ true)

Ends-Settled :
    (s t : Store) (xs ys : List Item)
    → Grown s t
    → ((k : String) → elem k (ids xs) ≡ true → Served t k)
    → Ends failed t xs ys
    → (ids ys ≡ ids xs) × All (Settled s) ys
Ends-Settled s t [] [] g h e = (refl, tt)
Ends-Settled s t [] (y ∷ ys) g h e = absurd e
Ends-Settled s t (x ∷ xs) [] g h e = absurd e
Ends-Settled s t (x ∷ xs) (y ∷ ys) g h (n, o, e) =
    let rest =
      Ends-Settled s t xs ys g
        (λ k m. h k (elim (Bool-cases (str_eq x.id k)) [ inl d ↦ rw d refl | inr d ↦ rw d m ])) e in
    let known = h x.id (rw (str_eq_refl x.id) refl) in
    let was_done : HasDone s y.id → is_complete (prior_of x t).state ≡ true = λ d.
      let (j, there, done) = g.done x.id (subst (HasDone s) n d) in
      let same : j ≡ prior_of x t = cc (there, (prior-held x t known).0) in
      subst (λ (j : Item). is_complete j.state ≡ true) same done in
    (
      ap (λ k. k ∷ ids ys) n ∙ ap (λ ks. x.id ∷ ks) rest.0,
      (
        (elim o [
          | inl (done, same) ↦
              let z = subst (λ (j : Item). is_complete j.state ≡ true) (sym same) done in
              (inr z, λ d. z)
          | inr (open_yet, state) ↦ (inl state, λ d. absurd (cc (was_done d, open_yet)))
        ]),
        rest.1,
      ),
    )

-- The batch in memory after its recovery.
pub record Recovered (r : Batch) (s : Store) (q : Batch) (t : Store) : Type 0 where
  pub id : q.id ≡ r.id
  pub in_memory : t.records r.id ≡ some q
  pub state : q.state ≡ failed
  pub images : ids q.items ≡ ids r.items
  pub settled : All (Settled s) q.items
  pub counted : q.completed_items ≡ complete_count q.items

finish_replay-Recovered :
    (env : Outside) (r : Batch) (s : Store) (o : Result (Unit {0})) (z : Replay)
    → Distinct (ids r.items)
    → ((k : String) → elem k (ids r.items) ≡ true → env.has_paths k ≡ true)
    → Replayed r s z
    → (q : Batch) × (t : Store) × (finish_replay env r.id (o, z) ≡ (remaining o, t))
      × Recovered r s q t
unfolding finish_replay
finish_replay-Recovered env r s o z distinct formed h =
    let u = keep_record z.batch z.store in
    let same = Grown-same z.store u refl refl in
    let known : (k : String) → elem k (ids z.batch.items) ≡ true → Served u k =
      λ k m. same.served k (h.known k (subst (λ ks. elem k ks ≡ true) h.images m)) in
    let there =
      subst (λ k. u.records k ≡ some z.batch) h.id
        (put_self z.batch.id (some z.batch) z.store.records) in
    let (q, t, e, f) =
      finish_returns env r.id failed (some restart_message) u z.batch there
        (subst Distinct (sym h.images) distinct) (All-Owned u z.batch.items known)
        (λ k m. formed k (subst (λ ks. elem k ks ≡ true) h.images m)) in
    let (images, settled) =
      Ends-Settled s u z.batch.items q.items (Grown-trans s z.store u h.grown same) known
        f.images in
    let named = f.id ∙ h.id in
    (
      q,
      t,
      ap (λ o'. Store.next o' (λ _ t. (remaining o, t))) e,
      record {
        id = named;
        in_memory = subst (λ k. t.records k ≡ some q) named f.in_memory;
        state = f.ends;
        images = images ∙ h.images;
        settled = settled;
        counted = f.counted;
      },
    )

-- A batch that is still open when the service restarts is failed in memory afterwards, whatever
-- its file of events holds, however the replay ends and whichever writes fail: it keeps its images'
-- ids, each image is failed or complete, and no image is lost that was complete before, as a job or
-- pending. The images of a batch have different ids, the paths of their outputs can be formed, as
-- the check of its file has found, and jobs and pending images are filed under their own ids.
pub recover_batch-Recovered :
    (env : Outside) (decode : Bytes → Option (Option Event)) (file : EventFile) (r : Batch)
    (s : Store)
    → Tidy s
    → Distinct (ids r.items)
    → ((k : String) → elem k (ids r.items) ≡ true → env.has_paths k ≡ true)
    → is_open (synced r ((sync_items r.items s).0)) ≡ true
    → (o : Result (Unit {0})) × (q : Batch) × (t : Store) × (recover_batch env decode file r s
        ≡ (o, t))
      × Recovered r s q t
unfolding recover_batch replay_completions
recover_batch-Recovered env decode file r s tidy distinct formed open_yet =
    go (is_open (synced r ((sync_items r.items s).0))) open_yet
  where
    q : Batch
    q = synced r ((sync_items r.items s).0)

    u : Store
    u = keep_record q ((sync_items r.items s).1)

    start : Replayed r s (record { batch = q; cursor = fresh_cursor q; store = u })
    start =
        let y = sync_items-Synced r.items s tidy in
        let same = Grown-same ((sync_items r.items s).1) u refl refl in
        record {
          id = refl;
          images = y.images;
          known = λ k m. same.served k (y.known k m);
          grown = Grown-trans s ((sync_items r.items s).1) u y.grown same;
        }

    ends :
        (o : Result (Unit {0}) × Replay)
        → Keeps (Replayed r s) o
        → (o' : Result (Unit {0})) × (p : Batch) × (t : Store) × (finish_replay env r.id o
            ≡ (o', t))
          × Recovered r s p t
    ends (ok v, z) h =
        let (p, t, e, f) = finish_replay-Recovered env r s (ok v) z distinct formed h in
        (ok tt, p, t, e, f)
    ends (raise x, z) h =
        let (p, t, e, f) = finish_replay-Recovered env r s (raise x) z distinct formed h in
        (remaining (raise x), p, t, e, f)

    here : Bool → Result (Unit {0}) × Store
    here b = elim b [
      | true ↦ finish_replay env r.id (replay_completions env decode file q u)
      | false ↦ (ok tt, u)
    ]

    go :
        (b : Bool)
        → b ≡ true
        → (o : Result (Unit {0})) × (p : Batch) × (t : Store) × (here b ≡ (o, t))
          × Recovered r s p t
    go false e = absurd (cc (e))
    go true e = ends (replay_completions env decode file q u) (
        replay_file-Replayed env r s decode file
          (record { batch = q; cursor = fresh_cursor q; store = u }) start)
