-- ===== src/Batches/Recovery/Conflicts.antt =====
-- Nothing that passes is lost by the first loop of `load_for_recovery`, and a conflict is one.
use mllm_windows_ai_workbenc.Prelude.{
  ◌≡◌, ◌≢◌, refl, sym, ap, ◌∙◌, subst, String, Bool, true, false, ◌⊎◌, inl, inr, List, [], ◌∷◌,
  ◌++◌, str_eq, str_eq_iff, elem, select, Bool-cases, ||-eq-false, if◌then◌else◌,
}
use mllm_windows_ai_workbenc.Errors.{Result, ok, raise}
use mllm_windows_ai_workbenc.History.Record.{is_batch_id}
use mllm_windows_ai_workbenc.Batches.Model.{Params, Batch}
use mllm_windows_ai_workbenc.Batches.Attempt.{ids_of}
use mllm_windows_ai_workbenc.Batches.Completion.Sound.{Distinct}
use mllm_windows_ai_workbenc.Batches.Recovery.{
  BatchFile, Folder, check_file, Gathered, take, gather,
}
use mllm_windows_ai_workbenc.Batches.Recovery.Gathering.{Among}
use mllm_windows_ai_workbenc.Batches.Recovery.Admitting.{check_file-stem}

abbrev pub stems : List BatchFile → List String
stems [] = []
stems (f ∷ fs) = f.stem ∷ stems fs

module _ {A : Type 0} where
  Among-front : (x : A) (xs ys : List A) → Among x xs → Among x (xs ++ ys)
  Among-front x [] ys m = absurd m
  Among-front x (z ∷ zs) ys (inl e) = inl e
  Among-front x (z ∷ zs) ys (inr m) = inr (Among-front x zs ys m)

  Among-end : (x : A) (xs : List A) → Among x (xs ++ (x ∷ []))
  Among-end x [] = inl refl
  Among-end x (z ∷ zs) = inr (Among-end x zs)

  Among-cases : (x y : A) (xs : List A) → Among x (xs ++ (y ∷ [])) → Among x xs ⊎ (y ≡ x)
  Among-cases x y [] (inl e) = inr e
  Among-cases x y [] (inr m) = absurd m
  Among-cases x y (z ∷ zs) (inl e) = inl (inl e)
  Among-cases x y (z ∷ zs) (inr m) = elim (Among-cases x y zs m) [
    | inl k ↦ inl (inr k)
    | inr e ↦ inr e
  ]

elem-append :
    (i : String) (xs ys : List String)
    → elem i (xs ++ ys) ≡ true
    → (elem i xs ≡ true) ⊎ (elem i ys ≡ true)
elem-append i [] ys h = inr h
elem-append i (x ∷ xs) ys h = elim (Bool-cases (str_eq x i)) [
  | inl e ↦ inl (rw e refl)
  | inr e ↦ elim (elem-append i xs ys (cc (rw e at h))) [
    | inl k ↦ inl (rw (e, k) refl)
    | inr k ↦ inr k
  ]
]

-- What is kept was there, and passes the test.
elem-selected :
    (i : String) (p : String → Bool) (xs : List String)
    → elem i (select p xs) ≡ true
    → (elem i xs ≡ true) × (p i ≡ true)
elem-selected i p [] h = absurd (cc (h))
elem-selected i p (x ∷ xs) h = elim (Bool-cases (p x)) [
  | inr d ↦
      let rest = elem-selected i p xs (cc (rw d at h)) in
      elim (Bool-cases (str_eq x i)) [
        | inl e ↦ (rw e refl, rest.1)
        | inr e ↦ (rw (e, rest.0) refl, rest.1)
      ]
  | inl d ↦ elim (Bool-cases (str_eq x i)) [
    | inl e ↦ (rw e refl, subst (λ x. p x ≡ true) ((str_eq_iff x i).0 e) d)
    | inr e ↦ let rest = elem-selected i p xs (cc (rw (d, e) at h)) in (rw (e, rest.0) refl, rest.1)
  ]
]

stem-elem : (f : BatchFile) (fs : List BatchFile) → Among f fs → elem f.stem (stems fs) ≡ true
stem-elem f [] m = absurd m
stem-elem f (g ∷ fs) (inl e) = rw ((str_eq_iff g.stem f.stem).1 (ap (λ x. BatchFile.stem x) e)) refl
stem-elem f (g ∷ fs) (inr m) = elim (Bool-cases (str_eq g.stem f.stem)) [
  | inl e ↦ rw e refl
  | inr e ↦ rw (e, stem-elem f fs m) refl
]

-- Files of different stems: a stem stands for one file.
pub single_file :
    (fs : List BatchFile)
    → Distinct (stems fs)
    → (f f' : BatchFile) → Among f fs
    → Among f' fs
    → f.stem ≡ f'.stem
    → f ≡ f'
single_file [] d f f' m n h = absurd m
single_file (g ∷ fs) d f f' (inl e) (inl e') h = sym e ∙ e'
single_file (g ∷ fs) d f f' (inl e) (inr n) h =
    let other = stem-elem f' fs n in
    absurd (
      cc (
        d.0,
        subst (λ s. elem s (stems fs) ≡ true) (sym h ∙ ap (λ x. BatchFile.stem x) (sym e)) other,
      ))
single_file (g ∷ fs) d f f' (inr m) (inl e') h =
    let other = stem-elem f fs m in
    absurd (
      cc (
        d.0,
        subst (λ s. elem s (stems fs) ≡ true) (h ∙ ap (λ x. BatchFile.stem x) (sym e')) other,
      ))
single_file (g ∷ fs) d f f' (inr m) (inr n) h = single_file fs d.1 f f' m n h

-- Two candidates that share an image.
pub record Shared (g : Gathered) (i : String) : Type 0 where
  pub first : Batch
  pub second : Batch
  pub first_there : Among first g.candidates
  pub second_there : Among second g.candidates
  pub unlike : first.id ≢ second.id
  pub in_first : elem i (ids_of first.items) ≡ true
  pub in_second : elem i (ids_of second.items) ≡ true

module _ (env : Folder) (contract : Params → Bool) where
  -- What is known while the files of `rest` are still to come.
  pub record Traced (files rest : List BatchFile) (g : Gathered) : Type 0 where
    pub whole :
        (f : BatchFile) (r : Batch)
        → Among f files
        → is_batch_id f.stem ≡ true
        → check_file env contract f ≡ ok r
        → Among f rest ⊎ Among r g.candidates
    pub ahead : (q : Batch) → Among q g.candidates → elem q.id (stems rest) ≡ false
    pub known :
        (i : String)
        → elem i g.seen ≡ true
        → (q : Batch) × Among q g.candidates × (elem i (ids_of q.items) ≡ true)
    pub shared : (i : String) → elem i g.conflicts ≡ true → Shared g i

  Shared-more : (g : Gathered) (x : Batch) (i : String) → Shared g i → Shared (take (ok x) g) i
  unfolding take
  Shared-more g x i s = record {
    first = s.first;
    second = s.second;
    first_there = Among-front s.first g.candidates (x ∷ []) s.first_there;
    second_there = Among-front s.second g.candidates (x ∷ []) s.second_there;
    unlike = s.unlike;
    in_first = s.in_first;
    in_second = s.in_second;
  }

  -- A file that is left alone, because it does not pass.
  skip-Traced :
      (files : List BatchFile) (f : BatchFile) (rest : List BatchFile) (g : Gathered)
      → (is_batch_id f.stem ≡ true → (r : Batch) → check_file env contract f ≡ ok r → ⊥)
      → Traced files (f ∷ rest) g
      → Traced files rest g
  skip-Traced files f rest g fails t = record {
    whole = λ x r m b h. elim (t.whole x r m b h) [
      | inl (inl e) ↦
          let b' = subst (λ x. is_batch_id (BatchFile.stem x) ≡ true) (sym e) b in
          absurd (fails b' r (subst (λ x. check_file env contract x ≡ ok r) (sym e) h))
      | inl (inr k) ↦ inl k
      | inr k ↦ inr k
    ];
    ahead = λ q m. (||-eq-false (str_eq f.stem q.id) (elem q.id (stems rest)) (t.ahead q m)).1;
    known = t.known;
    shared = t.shared;
  }

  take-Traced :
      (files : List BatchFile) (f : BatchFile) (rest : List BatchFile) (g : Gathered) (x : Batch)
      → elem f.stem (stems rest) ≡ false
      → check_file env contract f ≡ ok x
      → Traced files (f ∷ rest) g
      → Traced files rest (take (ok x) g)
  take-Traced files f rest g x new passed t =
      let named = check_file-stem env contract f x passed in
      record {
        whole = λ y r m b h.
            unfold take in
            elim (t.whole y r m b h) [
              | inl (inl e) ↦
                  let same : x ≡ r =
                    cc (subst (λ y. check_file env contract y ≡ ok r) (sym e) h, passed) in
                  inr (
                    subst (λ r. Among r (g.candidates ++ (x ∷ []))) same (Among-end x g.candidates))
              | inl (inr k) ↦ inl k
              | inr k ↦ inr (Among-front r g.candidates (x ∷ []) k)
            ];
        ahead = λ q m. elim (Among-cases q x g.candidates (unfold take in m)) [
          | inl k ↦ (||-eq-false (str_eq f.stem q.id) (elem q.id (stems rest)) (t.ahead q k)).1
          | inr e ↦
              subst (λ s. elem s (stems rest) ≡ false) (sym named ∙ ap (λ x. Batch.id x) e) new
        ];
        known = λ i m.
            unfold take in
            elim (elem-append i g.seen (ids_of x.items) (unfold take in m)) [
              | inl k ↦ let (q, a, b) = t.known i k in (q, Among-front q g.candidates (x ∷ []) a, b)
              | inr k ↦ (x, Among-end x g.candidates, k)
            ];
        shared = λ i m.
            elim (elem-append i g.conflicts (select (λ i. elem i g.seen) (ids_of x.items))
              (unfold take in m)) [
                | inl k ↦ Shared-more g x i (t.shared i k)
                | inr k ↦
                    let (here, before) = elem-selected i (λ i. elem i g.seen) (ids_of x.items) k in
                    let (q, a, b) = t.known i before in
                    let other : str_eq f.stem q.id ≡ false =
                      (||-eq-false (str_eq f.stem q.id) (elem q.id (stems rest)) (t.ahead q a)).0 in
                    record {
                      first = q;
                      second = x;
                      first_there = unfold take in Among-front q g.candidates (x ∷ []) a;
                      second_there = unfold take in Among-end x g.candidates;
                      unlike =
                          λ e. absurd (cc (other, (str_eq_iff f.stem q.id).1 (sym named ∙ sym e)));
                      in_first = b;
                      in_second = here;
                    }
              ];
      }

  pub gather-Traced :
      (files rest : List BatchFile) (g : Gathered)
      → Distinct (stems rest)
      → Traced files rest g
      → Traced files [] (gather env contract rest g)
  unfolding gather
  gather-Traced files [] g d t = t
  gather-Traced files (f ∷ fs) g d t =
      gather-Traced files fs (if is_batch_id f.stem then take (check_file env contract f) g else g)
        d.1 (go (is_batch_id f.stem) refl (check_file env contract f) refl)
    where
      go :
          (b : Bool)
          → is_batch_id f.stem ≡ b
          → (o : Result Batch) → check_file env contract f ≡ o
          → Traced files fs (if b then take o g else g)
      go false e o h = skip-Traced files f fs g (λ y r k. absurd (cc (e, y))) t
      go true e (ok x) h = take-Traced files f fs g x d.0 h t
      go true e (raise x) h =
          unfold take in skip-Traced files f fs g (λ y r k. absurd (cc (h, k))) t
