-- ===== src/Batches/Recovery/Gathering.antt =====
-- What the first loop of `load_for_recovery` has gathered.
use mllm_windows_ai_workbenc.Prelude.{
  ◌≡◌, ◌≢◌, refl, sym, ap, ◌∙◌, subst, String, Bool, true, false, ◌⊎◌, inl, inr, List, [], ◌∷◌,
  ◌++◌, str_eq, str_eq_iff, elem, select, Bool-cases, if◌then◌else◌, arith,
}
use mllm_windows_ai_workbenc.Errors.{Result, ok, raise}
use mllm_windows_ai_workbenc.History.Record.{is_batch_id}
use mllm_windows_ai_workbenc.Batches.Model.{Params, Batch}
use mllm_windows_ai_workbenc.Batches.Attempt.{ids_of}
use mllm_windows_ai_workbenc.Batches.Recovery.{
  BatchFile, Folder, check_file, Gathered, take, gather,
}

module _ {A : Type 0} where
  -- Membership, with where it is.
  abbrev pub Among : A → List A → Type 0
  Among x [] = ⊥
  Among x (y ∷ ys) = (y ≡ x) ⊎ Among x ys

  pub Among-last : (x y : A) (xs : List A) → Among x (xs ++ (y ∷ [])) → Among x xs ⊎ (y ≡ x)
  Among-last x y [] (inl e) = inr e
  Among-last x y [] (inr m) = absurd m
  Among-last x y (z ∷ zs) (inl e) = inl (inl e)
  Among-last x y (z ∷ zs) (inr m) = elim (Among-last x y zs m) [
    | inl k ↦ inl (inr k)
    | inr e ↦ inr e
  ]

pub elem-append_left :
    (i : String) (xs ys : List String) → elem i xs ≡ true → elem i (xs ++ ys) ≡ true
elem-append_left i [] ys h = absurd (cc (h))
elem-append_left i (x ∷ xs) ys h = ground (arith, elem-append_left i xs ys)

pub elem-append_right :
    (i : String) (xs ys : List String) → elem i ys ≡ true → elem i (xs ++ ys) ≡ true
elem-append_right i [] ys h = h
elem-append_right i (x ∷ xs) ys h = ground (arith, elem-append_right i xs ys)

-- What passes the test is kept.
pub elem-select :
    (i : String) (p : String → Bool) (xs : List String)
    → elem i xs ≡ true
    → p i ≡ true
    → elem i (select p xs) ≡ true
elem-select i p [] h k = absurd (cc (h))
elem-select i p (x ∷ xs) h k = elim (Bool-cases (str_eq x i)) [
  | inl e ↦
      let same : x ≡ i = (str_eq_iff x i).0 e in
      let kept : p x ≡ true = subst (λ x. p x ≡ true) (sym same) k in rw (kept, e) refl
  | inr e ↦
      let rest = elem-select i p xs (cc (rw e at h)) k in
      elim (Bool-cases (p x)) [ inl d ↦ rw (d, e) rest | inr d ↦ rw d rest ]
]

module _ (env : Folder) (contract : Params → Bool) where
  pub record Sifted (files : List BatchFile) (g : Gathered) : Type 0 where
    pub from :
        (r : Batch)
        → Among r g.candidates
        → (f : BatchFile) × Among f files
          × (is_batch_id f.stem ≡ true)
          × (check_file env contract f ≡ ok r)
    pub noted :
        (r : Batch)
        → Among r g.candidates
        → (i : String) → elem i (ids_of r.items) ≡ true
        → elem i g.seen ≡ true
    pub apart :
        (q r : Batch)
        → Among q g.candidates
        → Among r g.candidates
        → q.id ≢ r.id
        → (i : String) → elem i (ids_of q.items) ≡ true
        → elem i (ids_of r.items) ≡ true
        → elem i g.conflicts ≡ true

  take-Sifted :
      (files : List BatchFile) (f : BatchFile) (o : Result Batch) (g : Gathered)
      → Among f files
      → is_batch_id f.stem ≡ true
      → check_file env contract f ≡ o
      → Sifted files g
      → Sifted files (take o g)
  unfolding take
  take-Sifted files f (raise e) g m b h z = z
  take-Sifted files f (ok x) g m named h z =
      let fresh = select (λ i. elem i g.seen) (ids_of x.items) in
      let twice : (q : Batch)
          → Among q g.candidates
          → (i : String) → elem i (ids_of q.items) ≡ true
          → elem i (ids_of x.items) ≡ true
          → elem i (g.conflicts ++ fresh) ≡ true =
        λ q k i a b.
          elem-append_right i g.conflicts fresh
            (elem-select i (λ i. elem i g.seen) (ids_of x.items) b (z.noted q k i a)) in
      record {
        from = λ r k. elim (Among-last r x g.candidates k) [
          | inl k ↦ z.from r k
          | inr e ↦ (f, m, named, h ∙ ap ok e)
        ];
        noted = λ r k i a. elim (Among-last r x g.candidates k) [
          | inl k ↦ elem-append_left i g.seen (ids_of x.items) (z.noted r k i a)
          | inr e ↦
              elem-append_right i g.seen (ids_of x.items)
                (subst (λ (r : Batch). elem i (ids_of r.items) ≡ true) (sym e) a)
        ];
        apart = λ q r k l n i a b. elim (Among-last q x g.candidates k) [
          | inl k ↦ elim (Among-last r x g.candidates l) [
            | inl l ↦ elem-append_left i g.conflicts fresh (z.apart q r k l n i a b)
            | inr e ↦
                twice q k i a (subst (λ (r : Batch). elem i (ids_of r.items) ≡ true) (sym e) b)
          ]
          | inr d ↦ elim (Among-last r x g.candidates l) [
            | inl l ↦
                twice r l i b (subst (λ (r : Batch). elem i (ids_of r.items) ≡ true) (sym d) a)
            | inr e ↦ absurd (n (ap (λ (r : Batch). r.id) (sym d ∙ e)))
          ]
        ];
      }

  pub gather-Sifted :
      (files rest : List BatchFile) (g : Gathered)
      → ((f : BatchFile) → Among f rest → Among f files)
      → Sifted files g
      → Sifted files (gather env contract rest g)
  unfolding gather
  gather-Sifted files [] g w z = z
  gather-Sifted files (f ∷ fs) g w z =
      gather-Sifted files fs (if is_batch_id f.stem then take (check_file env contract f) g else g)
        (λ x m. w x (inr m)) (go (is_batch_id f.stem) refl)
    where
      go :
          (b : Bool)
          → is_batch_id f.stem ≡ b
          → Sifted files (if b then take (check_file env contract f) g else g)
      go true e = take-Sifted files f (check_file env contract f) g (w f (inl refl)) e refl z
      go false e = z
