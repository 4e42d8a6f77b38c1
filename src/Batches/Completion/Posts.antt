-- ===== src/Batches/Completion/Posts.antt =====
-- What the actions on the shared state ensure, where they return and where they raise.
use mllm_windows_ai_workbenc.Prelude.{
  ◌≡◌, refl, sym, ◌∙◌, subst, String, Bool, true, false, ◌⊎◌, inl, inr, some, List, [], ◌∷◌, arith,
  str_eq, put, put_self,
}
use mllm_windows_ai_workbenc.Errors.{Result, ok, raise, os_error}
use mllm_windows_ai_workbenc.Batches.Model.{Item}
use mllm_windows_ai_workbenc.Batches.Store.{Store, Action, next, write, update}
use mllm_windows_ai_workbenc.Batches.Completion.Sound.{Elsewhere}

-- What an action ensures where it returns, and what where it raises.
abbrev pub PostAt :
    {A : Type 0} → (A → Store → Type 0) → (Store → Type 0) → Result A × Store → Type 0
PostAt P R (ok a, t) = P a t
PostAt P R (raise e, t) = R t

pub record Post {A : Type 0} (P : A → Store → Type 0) (R : Store → Type 0) (o : Result A × Store)
    : Type 0 where
  pub at : PostAt P R o

-- No batch record has been written or replaced.
pub record Unsaved (s t : Store) : Type 0 where
  pub records : t.records ≡ s.records
  pub batch_files : t.batch_files ≡ s.batch_files

pub Unsaved-trans : (s t u : Store) → Unsaved s t → Unsaved t u → Unsaved s u
Unsaved-trans s t u a b = record {
  records = b.records ∙ a.records;
  batch_files = b.batch_files ∙ a.batch_files;
}

pub Unsaved-refl : (s : Store) → Unsaved s s
Unsaved-refl s = record { records = refl; batch_files = refl }

module _ {A B : Type 0} {P : A → Store → Type 0} {Q : B → Store → Type 0} {R : Store → Type 0} where
  pub next-Post :
      (o : Result A × Store) (f : A → Action B)
      → Post P R o
      → ((a : A) (t : Store) → P a t → Post Q R (f a t))
      → Post Q R (next o f)
  next-Post (ok a, t) f h k = k a t h.at
  next-Post (raise e, t) f h k = record { at = h.at }

-- The same, and something weaker where it raises.
pub Post-raise :
    {A : Type 0} {P : A → Store → Type 0} {R R' : Store → Type 0} (o : Result A × Store)
    → Post P R o
    → ((t : Store) → R t → R' t)
    → Post P R' o
Post-raise (ok a, t) h k = record { at = h.at }
Post-raise (raise e, t) h k = record { at = k t h.at }

pub lift-Post :
    {A : Type 0} {P : A → Store → Type 0} {R : Store → Type 0} (r : Result A) (s : Store)
    → ((a : A) → r ≡ ok a → P a s)
    → R s
    → Post P R (r, s)
lift-Post (ok a) s h k = record { at = h a refl }
lift-Post (raise e) s h k = record { at = k }

pub write-cases :
    (s : Store)
    → (w : List Bool) × ((write s ≡ (ok tt, record s { writes = w }))
        ⊎ (write s ≡ (raise os_error, record s { writes = w })))
unfolding write
write-cases s = go s.writes refl
  where
    go :
        (b : List Bool)
        → s.writes ≡ b
        → (w : List Bool) × ((write s ≡ (ok tt, record s { writes = w }))
            ⊎ (write s ≡ (raise os_error, record s { writes = w })))
    go [] e = (s.writes, inl (ground (arith, e)))
    go (true ∷ w) e = (w, inl (ground (arith, e)))
    go (false ∷ w) e = (w, inr (ground (arith, e)))

-- A job that is known is changed in memory and on the disk, or stays as it is.
pub record Updated (id : String) (y : Item) (s t : Store) : Type 0 where
  pub unsaved : Unsaved s t
  pub elsewhere : Elsewhere id s t
  pub pending : t.pending ≡ s.pending
  pub there : t.jobs id ≡ some y

pub put_other :
    {V : Type 0} (k j : String) (v : V) (d : String → V) → str_eq k j ≡ false → put k v d j ≡ d j
put_other k j v d e = rw e refl

pub Post-eq :
    {A : Type 0} {P : A → Store → Type 0} {R : Store → Type 0} {o o' : Result A × Store}
    → o ≡ o'
    → Post P R o'
    → Post P R o
Post-eq {P = P} {R = R} e h = subst (Post P R) (sym e) h

abbrev pub stored : String → Item → Store → List Bool → Store
stored id y s w = record s {
  writes = w;
  jobs = put id (some y) s.jobs;
  job_files = put id (some y) s.job_files;
}

pub update-cases :
    (id : String) (ch : Item → Item) (s : Store) (x : Item)
    → s.jobs id ≡ some x
    → (w : List Bool) × ((update id ch s ≡ (ok (ch x), stored id (ch x) s w))
        ⊎ (update id ch s ≡ (raise os_error, record s { writes = w })))
unfolding update
update-cases id ch s x there = go (write-cases s)
  where
    go :
        ((w : List Bool) × ((write s ≡ (ok tt, record s { writes = w }))
            ⊎ (write s ≡ (raise os_error, record s { writes = w }))))
        → (w : List Bool) × ((update id ch s ≡ (ok (ch x), stored id (ch x) s w))
            ⊎ (update id ch s ≡ (raise os_error, record s { writes = w })))
    go (w, inl e) = (w, inl (ground (arith, there, e)))
    go (w, inr e) = (w, inr (ground (arith, there, e)))

pub update-Post :
    (id : String) (ch : Item → Item) (s : Store) (x : Item)
    → s.jobs id ≡ some x
    → Post (λ y t. (y ≡ ch x) × Updated id y s t) (Unsaved s) (update id ch s)
update-Post id ch s x there = go (update-cases id ch s x there)
  where
    go :
        ((w : List Bool) × ((update id ch s ≡ (ok (ch x), stored id (ch x) s w))
            ⊎ (update id ch s ≡ (raise os_error, record s { writes = w }))))
        → Post (λ y t. (y ≡ ch x) × Updated id y s t) (Unsaved s) (update id ch s)
    go (w, inl e) = Post-eq e (record {
      at = (
        refl,
        record {
          unsaved = record { records = refl; batch_files = refl };
          elsewhere = record {
            jobs = λ k n. put_other id k (some (ch x)) s.jobs n;
            pending = λ k n. refl;
          };
          pending = refl;
          there = put_self id (some (ch x)) s.jobs;
        },
      );
    })
    go (w, inr e) = Post-eq e (record { at = record { records = refl; batch_files = refl } })

pub Post-map :
    {A : Type 0} {P Q : A → Store → Type 0} {R S : Store → Type 0} (o : Result A × Store)
    → ((a : A) (t : Store) → P a t → Q a t)
    → ((t : Store) → R t → S t)
    → Post P R o
    → Post Q S o
Post-map (ok a, t) f g h = record { at = f a t h.at }
Post-map (raise e, t) f g h = record { at = g t h.at }

-- From a store whose coming writes are fewer.
pub Unsaved-rewritten :
    (s t : Store) (w : List Bool) → Unsaved (record s { writes = w }) t → Unsaved s t
Unsaved-rewritten s t w h = record { records = h.records; batch_files = h.batch_files }

pub Updated-rewritten :
    (id : String) (y : Item) (s t : Store) (w : List Bool)
    → Updated id y (record s { writes = w }) t
    → Updated id y s t
Updated-rewritten id y s t w h = record {
  unsaved = Unsaved-rewritten s t w h.unsaved;
  elsewhere = record { jobs = h.elsewhere.jobs; pending = h.elsewhere.pending };
  pending = h.pending;
  there = h.there;
}
