-- ===== src/Batches/Recovery/Admitting.antt =====
-- What the second loop of `load_for_recovery` keeps.
use mllm_windows_ai_workbenc.Prelude.{
  ◌≡◌, ◌≢◌, refl, sym, ap, ◌∙◌, subst, String, Bool, true, false, inl, inr, Option, none, some,
  List, [], ◌∷◌, str_eq, str_eq_iff, elem, put_self, Bool-cases, &&-eq-true, if◌then◌else◌,
}
use mllm_windows_ai_workbenc.Errors.{ok, raise, guard, value_error, ◌>>◌, bound-ok, guard-ok}
use mllm_windows_ai_workbenc.Batches.Model.{Params, Batch}
use mllm_windows_ai_workbenc.Batches.Store.{Store}
use mllm_windows_ai_workbenc.Batches.Lineage.{validated}
use mllm_windows_ai_workbenc.Batches.Attempt.{ids_of}
use mllm_windows_ai_workbenc.Batches.Recovery.{
  BatchFile, Folder, check_file, check_record, check_children, has_count, Gathered, admits,
  take_over, admit,
}
use mllm_windows_ai_workbenc.Batches.Recovery.Gathering.{Among, Sifted}
use mllm_windows_ai_workbenc.Batches.Recovery.Owners.{
  Owned, put_owners-out, put_owners-in, admits-conflict,
}

pub check_file-stem :
    (env : Folder) (contract : Params → Bool) (f : BatchFile) (r : Batch)
    → check_file env contract f ≡ ok r
    → r.id ≡ f.stem
unfolding check_file check_record
check_file-stem env contract f r h = go f.content h
  where
    go :
        (o : Option Batch)
        → (elim o [
          | none ↦ raise value_error
          | some given ↦ check_record env contract f.stem given
        ])
          ≡ ok r
        → r.id ≡ f.stem
    go none h = absurd (cc (h))
    go (some given) h =
        let (q, _, rest) =
          bound-ok (validated contract given)
            (λ q.
              guard (has_count f.stem q) value_error
              >> check_children env contract q q.items
              >> ok q)
            r h in
        let (u, checked, same) =
          bound-ok (guard (has_count f.stem q) value_error >> check_children env contract q q.items)
            (λ _. ok q) r rest in
        let (v, counted, _) =
          bound-ok (guard (has_count f.stem q) value_error)
            (λ _. check_children env contract q q.items) u checked in
        let named : str_eq q.id f.stem ≡ true =
          (&&-eq-true _ _
            (&&-eq-true _ _ (guard-ok (has_count f.stem q) value_error counted)).0).0 in
        let e : q ≡ r = cc (same) in
        subst (λ (q : Batch). q.id ≡ f.stem) e ((str_eq_iff q.id f.stem).0 named)

module _ (env : Folder) (contract : Params → Bool)
    (single : (f f' : BatchFile)
      → Among f env.files
      → Among f' env.files
      → f.stem ≡ f'.stem
      → f ≡ f')
    (g : Gathered) (sifted : Sifted env contract env.files g) where
  same_id : (q r : Batch) → Among q g.candidates → Among r g.candidates → q.id ≡ r.id → q ≡ r
  same_id q r k l e =
      let (f, m, _, h) = sifted.from q k in
      let (f', m', _, h') = sifted.from r l in
      let x = check_file-stem env contract f q h in
      let x' = check_file-stem env contract f' r h' in
      let same = single f f' m m' (sym x ∙ e ∙ x') in cc (same, h, h')

  module _ (r : Batch) (s : Store) (m : Among r g.candidates) (a : admits contract g r ≡ true)
      (o : Owned contract g s) where
    take_over-keyed :
        (k : String) (q : Batch)
        → (take_over r s).records k ≡ some q
        → (q.id ≡ k) × Among q g.candidates × (admits contract g q ≡ true)
    unfolding take_over
    take_over-keyed k q h = elim (Bool-cases (str_eq r.id k)) [
      | inl e ↦
          let same : r ≡ q = cc (rw e at h) in
          subst (λ (q : Batch). (q.id ≡ k) × Among q g.candidates × (admits contract g q ≡ true))
            same ((str_eq_iff r.id k).0 e, m, a)
      | inr e ↦ o.keyed k q (rw e at h)
    ]

    take_over-mine :
        (k : String) (q : Batch)
        → (take_over r s).records k ≡ some q
        → (i : String) → elem i (ids_of q.items) ≡ true
        → (take_over r s).owners i ≡ some k
    unfolding take_over
    take_over-mine k q h i n = elim (Bool-cases (str_eq r.id k)) [
      | inl e ↦
          let same : r ≡ q = cc (rw e at h) in
          let here = subst (λ (q : Batch). elem i (ids_of q.items) ≡ true) (sym same) n in
          put_owners-in (ids_of r.items) r.id s.owners i here ∙ ap some ((str_eq_iff r.id k).0 e)
      | inr e ↦
          let before : s.records k ≡ some q = rw e at h in
          let (named, among, admitted) = o.keyed k q before in
          elim (Bool-cases (elem i (ids_of r.items))) [
            | inl t ↦
                let other : q.id ≢ r.id =
                  λ d. absurd (cc (e, (str_eq_iff r.id k).1 (sym d ∙ named))) in
                let clash = sifted.apart q r among m other i n t in
                absurd (cc (clash, admits-conflict contract g r i a t))
            | inr t ↦ put_owners-out (ids_of r.items) r.id s.owners i t ∙ o.mine k q before i n
          ]
    ]

    take_over-theirs :
        (i k : String)
        → (take_over r s).owners i ≡ some k
        → (q : Batch) × ((take_over r s).records k ≡ some q) × (elem i (ids_of q.items) ≡ true)
    unfolding take_over
    take_over-theirs i k h = elim (Bool-cases (elem i (ids_of r.items))) [
      | inl t ↦
          let e : r.id ≡ k = cc (sym (put_owners-in (ids_of r.items) r.id s.owners i t) ∙ h) in
          (r, rw ((str_eq_iff r.id k).1 e) refl, t)
      | inr t ↦
          let before = sym (put_owners-out (ids_of r.items) r.id s.owners i t) ∙ h in
          let (q, there, n) = o.theirs i k before in
          let (named, among, _) = o.keyed k q there in
          elim (Bool-cases (str_eq r.id k)) [
            | inl e ↦
                let same = same_id q r among m (named ∙ sym ((str_eq_iff r.id k).0 e)) in
                absurd (cc (subst (λ (q : Batch). elem i (ids_of q.items) ≡ true) same n, t))
            | inr e ↦ (q, rw e there, n)
          ]
    ]

    take_over-Owned : Owned contract g (take_over r s)
    take_over-Owned = record {
      keyed = take_over-keyed;
      mine = take_over-mine;
      theirs = take_over-theirs;
    }

  -- What has been taken over stays.
  admit-keeps :
      (rs : List Batch) (s : Store) (k : String) (q : Batch)
      → ((r : Batch) → Among r rs → Among r g.candidates)
      → Among q g.candidates
      → q.id ≡ k
      → s.records k ≡ some q
      → (admit contract g rs s).records k ≡ some q
  unfolding admit take_over
  admit-keeps [] s k q w m n h = h
  admit-keeps (r ∷ rs) s k q w m n h =
      admit-keeps rs (if admits contract g r then take_over r s else s) k q (λ x l. w x (inr l)) m n
        (go (admits contract g r))
    where
      go : (b : Bool) → (if b then take_over r s else s).records k ≡ some q
      go false = h
      go true = elim (Bool-cases (str_eq r.id k)) [
        | inl e ↦ rw e (ap some (same_id r q (w r (inl refl)) m ((str_eq_iff r.id k).0 e ∙ sym n)))
        | inr e ↦ rw e h
      ]

  pub admit-Owned :
      (rs : List Batch) (s : Store)
      → ((r : Batch) → Among r rs → Among r g.candidates)
      → Owned contract g s
      → Owned contract g (admit contract g rs s)
  unfolding admit
  admit-Owned [] s w o = o
  admit-Owned (r ∷ rs) s w o =
      admit-Owned rs (if admits contract g r then take_over r s else s) (λ x l. w x (inr l))
        (go (admits contract g r) refl)
    where
      go : (b : Bool) → admits contract g r ≡ b → Owned contract g (if b then take_over r s else s)
      go true a = take_over-Owned r s (w r (inl refl)) a o
      go false a = o

  pub admit-all :
      (rs : List Batch) (s : Store) (q : Batch)
      → ((r : Batch) → Among r rs → Among r g.candidates)
      → Among q rs
      → admits contract g q ≡ true
      → (admit contract g rs s).records q.id ≡ some q
  unfolding admit take_over
  admit-all [] s q w m a = absurd m
  admit-all (r ∷ rs) s q w (inl e) a =
      subst (λ (q : Batch). (admit contract g (r ∷ rs) s).records q.id ≡ some q) e
        (go (admits contract g r) (subst (λ q. admits contract g q ≡ true) (sym e) a))
    where
      go :
          (b : Bool)
          → b ≡ true
          → (admit contract g rs (if b then take_over r s else s)).records r.id ≡ some r
      go false h = absurd (cc (h))
      go true h =
          admit-keeps rs (take_over r s) r.id r (λ x l. w x (inr l)) (w r (inl refl)) refl
            (put_self r.id (some r) s.records)
  admit-all (r ∷ rs) s q w (inr m) a =
      admit-all rs (if admits contract g r then take_over r s else s) q (λ x l. w x (inr l)) m a
