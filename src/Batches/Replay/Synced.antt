-- ===== src/Batches/Replay/Synced.antt =====
-- The record's items and the service's jobs are brought together.
use mllm_windows_ai_workbenc.Prelude.{
  ◌≡◌, refl, sym, ap, ◌∙◌, subst, String, true, inl, inr, Option, none, some, List, [], ◌∷◌, str_eq,
  str_eq_iff, elem, put_self, Bool-cases,
}
use mllm_windows_ai_workbenc.Batches.Model.{Item}
use mllm_windows_ai_workbenc.Batches.Store.{Store, put_job}
use mllm_windows_ai_workbenc.Batches.Completion.Sound.{ids}
use mllm_windows_ai_workbenc.Batches.Replay.{sync_items}
use mllm_windows_ai_workbenc.Batches.Replay.Grown.{
  Served, known_as, HasDone, Grown, Grown-refl, Grown-trans, put_job-Grown,
}

-- Jobs and pending images are filed under their own ids.
pub record Tidy (s : Store) : Type 0 where
  pub jobs : (i : String) (j : Item) → s.jobs i ≡ some j → j.id ≡ i
  pub pending : (i : String) (p : Item) → s.pending i ≡ some p → p.id ≡ i

pub record Synced (xs : List Item) (s : Store) (ys : List Item) (t : Store) : Type 0 where
  pub images : ids ys ≡ ids xs
  pub tidy : Tidy t
  pub known : (k : String) → elem k (ids xs) ≡ true → Served t k
  pub grown : Grown s t

put_job-Tidy : (x : Item) (s : Store) → Tidy s → Tidy (put_job x.id x s)
put_job-Tidy x s h = record {
  jobs = λ i j e. elim (Bool-cases (str_eq x.id i)) [
    | inl d ↦
        let same : x ≡ j = cc (rw d at e) in
        subst (λ (j : Item). j.id ≡ i) same ((str_eq_iff x.id i).0 d)
    | inr d ↦ h.jobs i j (rw d at e)
  ];
  pending = h.pending;
}

fresh-Grown : (x : Item) (s : Store) → s.jobs x.id ≡ none → Grown s (put_job x.id x s)
fresh-Grown x s n = put_job-Grown x.id x s refl λ h. go h (s.pending x.id) refl
  where
    go : HasDone s x.id → (o : Option Item) → s.pending x.id ≡ o → HasDone (put_job x.id x s) x.id
    go h none e = absurd (cc (h.1, ap (λ m. known_as m (s.jobs x.id)) e ∙ n))
    go h (some p) e = (
      h.0,
      ap (λ m. known_as m ((put_job x.id x s).jobs x.id)) e
          ∙ sym (ap (λ m. known_as m (s.jobs x.id)) e)
          ∙ h.1,
      h.2,
    )

first-known :
    (x : Item) (xs : List Item) (s t : Store)
    → Served s x.id
    → Grown s t
    → ((k : String) → elem k (ids xs) ≡ true → Served t k)
    → (k : String) → elem k (ids (x ∷ xs)) ≡ true
    → Served t k
first-known x xs s t h g rest k m = elim (Bool-cases (str_eq x.id k)) [
  | inl e ↦ subst (Served t) ((str_eq_iff x.id k).0 e) (g.served x.id h)
  | inr e ↦ rest k (rw e at m)
]

pub sync_items-Synced :
    (xs : List Item) (s : Store) → Tidy s → Synced xs s ((sync_items xs s).0) ((sync_items xs s).1)
unfolding sync_items
sync_items-Synced [] s h = record {
  images = refl;
  tidy = h;
  known = λ k m. absurd (cc (m));
  grown = Grown-refl s;
}
sync_items-Synced (x ∷ xs) s h =
    go (s.jobs x.id) refl (sync_items-Synced xs (put_job x.id x s) (put_job-Tidy x s h))
      (sync_items-Synced xs s h)
  where
    here : Option Item → List Item × Store
    here o = elim o [
      | none ↦ let (ys, t) = sync_items xs (put_job x.id x s) in (x ∷ ys, t)
      | some j ↦ let (ys, t) = sync_items xs s in (j ∷ ys, t)
    ]

    go :
        (o : Option Item)
        → s.jobs x.id ≡ o
        → Synced xs
            (put_job x.id x s)
            ((sync_items xs (put_job x.id x s)).0)
            ((sync_items xs (put_job x.id x s)).1)
        → Synced xs s ((sync_items xs s).0) ((sync_items xs s).1)
        → Synced (x ∷ xs) s ((here o).0) ((here o).1)
    go none e a b =
        let u = put_job x.id x s in
        let t = (sync_items xs u).1 in
        record {
          images = ap (λ ks. x.id ∷ ks) a.images;
          tidy = a.tidy;
          known =
              first-known x xs u t
                (record {
                  job = x;
                  there = put_self x.id (some x) s.jobs;
                  named = refl;
                  waiting = h.pending x.id;
                })
                a.grown a.known;
          grown = Grown-trans s u t (fresh-Grown x s e) a.grown;
        }
    go (some j) e a b =
        let n = h.jobs x.id j e in
        record {
          images = ap (λ k. k ∷ ids ((sync_items xs s).0)) n ∙ ap (λ ks. x.id ∷ ks) b.images;
          tidy = b.tidy;
          known =
              first-known x xs s ((sync_items xs s).1)
                (record { job = j; there = e; named = n; waiting = h.pending x.id }) b.grown
                b.known;
          grown = b.grown;
        }
