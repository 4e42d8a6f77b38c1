-- ===== src/Batches/Replay/Grown.antt =====
-- What a replay keeps of the shared state: the jobs stay known, and complete images stay complete.
use mllm_windows_ai_workbenc.Prelude.{
  ◌≡◌, refl, sym, ap, ◌∙◌, subst, String, true, inl, inr, Option, none, some, str_eq, str_eq_iff,
  put_self, Bool-cases,
}
use mllm_windows_ai_workbenc.Batches.Model.{Item, is_complete}
use mllm_windows_ai_workbenc.Batches.Store.{Store, put_job}
use mllm_windows_ai_workbenc.Batches.Completion.{prior_of, or_else}
use mllm_windows_ai_workbenc.Batches.Completion.Sound.{Elsewhere}
use mllm_windows_ai_workbenc.Batches.Completion.Posts.{put_other}

-- The service knows the job of this id, and what is pending for it.
pub record Served (s : Store) (i : String) : Type 0 where
  pub job : Item
  pub there : s.jobs i ≡ some job
  pub named : job.id ≡ i
  pub waiting : (p : Item) → s.pending i ≡ some p → p.id ≡ i

-- The image as the service knows it.
abbrev pub known_as : Option Item → Option Item → Option Item
known_as none o = o
known_as (some p) o = some p

abbrev pub held : Store → String → Option Item
held s i = known_as (s.pending i) (s.jobs i)

abbrev pub HasDone : Store → String → Type 0
HasDone s i = (j : Item) × (held s i ≡ some j) × (is_complete j.state ≡ true)

pub record Grown (s t : Store) : Type 0 where
  pub served : (i : String) → Served s i → Served t i
  pub done : (i : String) → HasDone s i → HasDone t i

pub Grown-refl : (s : Store) → Grown s s
Grown-refl s = record { served = λ i h. h; done = λ i h. h }

pub Grown-trans : (s t u : Store) → Grown s t → Grown t u → Grown s u
Grown-trans s t u a b = record {
  served = λ i h. b.served i (a.served i h);
  done = λ i h. b.done i (a.done i h);
}

pub Grown-same : (s t : Store) → t.jobs ≡ s.jobs → t.pending ≡ s.pending → Grown s t
Grown-same s t j p = record {
  served = λ i h. record {
    job = h.job;
    there = ap (λ (m : String → Option Item). m i) j ∙ h.there;
    named = h.named;
    waiting = λ q e. h.waiting q (sym (ap (λ (m : String → Option Item). m i) p) ∙ e);
  };
  done = λ i h. (
    h.0,
    subst (λ m. known_as m (t.jobs i) ≡ some (h.0)) (sym (ap (λ (m : String → Option Item). m i) p))
        (subst (λ m. known_as (s.pending i) m ≡ some (h.0))
          (sym (ap (λ (m : String → Option Item). m i) j)) h.1),
    h.2,
  );
}

-- A change at one id.
pub Grown-at :
    (k : String) (s t : Store)
    → Elsewhere k s t
    → (Served s k → Served t k)
    → (HasDone s k → HasDone t k)
    → Grown s t
Grown-at k s t e f g = record { served = served; done = done }
  where
    served : (i : String) → Served s i → Served t i
    served i h = elim (Bool-cases (str_eq k i)) [
      | inl d ↦ let same = (str_eq_iff k i).0 d in subst (λ i. Served s i → Served t i) same f h
      | inr d ↦ record {
        job = h.job;
        there = e.jobs i d ∙ h.there;
        named = h.named;
        waiting = λ q w. h.waiting q (sym (e.pending i d) ∙ w);
      }
    ]

    done : (i : String) → HasDone s i → HasDone t i
    done i h = elim (Bool-cases (str_eq k i)) [
      | inl d ↦ let same = (str_eq_iff k i).0 d in subst (λ i. HasDone s i → HasDone t i) same g h
      | inr d ↦ (
        h.0,
        ap (λ m. known_as m (t.jobs i)) (e.pending i d)
            ∙ ap (known_as (s.pending i)) (e.jobs i d)
            ∙ h.1,
        h.2,
      )
    ]

-- The item as the service knows it, where it does.
pub prior-held :
    (x : Item) (s : Store)
    → Served s x.id
    → (held s x.id ≡ some (prior_of x s)) × ((prior_of x s).id ≡ x.id)
unfolding prior_of
prior-held x s h = go (s.pending x.id) refl
  where
    go :
        (o : Option Item)
        → s.pending x.id ≡ o
        → (known_as o (s.jobs x.id) ≡ some (or_else o (or_else (s.jobs x.id) x)))
          × ((or_else o (or_else (s.jobs x.id) x)).id ≡ x.id)
    go none e = rw h.there (refl, h.named)
    go (some p) e = (refl, h.waiting p e)

pub put_job-Grown :
    (k : String) (y : Item) (s : Store)
    → y.id ≡ k
    → (HasDone s k → HasDone (put_job k y s) k)
    → Grown s (put_job k y s)
put_job-Grown k y s n g =
    Grown-at k s (put_job k y s)
      (record { jobs = λ i d. put_other k i (some y) s.jobs d; pending = λ i d. refl })
      (λ h. record { job = y; there = put_self k (some y) s.jobs; named = n; waiting = h.waiting })
      g
