-- ===== src/Batches/Lineage/Equal.antt =====
-- The tests of equality, and the paths that they stand for.
use mllm_windows_ai_workbenc.Prelude.{
  ℕ, ◌≡◌, refl, ap, String, Bool, true, Option, none, some, List, [], ◌∷◌, str_eq, str_eq_iff,
  &&-eq-true, ◌==◌, ==_iff,
}
use mllm_windows_ai_workbenc.Batches.Model.{Params, BatchRequest}
use mllm_windows_ai_workbenc.Batches.Lineage.{option_eq, list_eq, params_eq, request_eq}

option_eq_sound {ℓ} :
    {A : Type ℓ} (eq : A → A → Bool)
    → ((a b : A) → eq a b ≡ true → a ≡ b)
    → (o p : Option A) → option_eq eq o p ≡ true
    → o ≡ p
unfolding option_eq
option_eq_sound eq f none none h = refl
option_eq_sound eq f (some a) (some b) h = ap some (f a b h)
option_eq_sound eq f none (some b) h = absurd (cc)
option_eq_sound eq f (some a) none h = absurd (cc)

pub list_eq_sound {ℓ} :
    {A : Type ℓ} (eq : A → A → Bool)
    → ((a b : A) → eq a b ≡ true → a ≡ b)
    → (xs ys : List A) → list_eq eq xs ys ≡ true
    → xs ≡ ys
unfolding list_eq
list_eq_sound eq f [] [] h = refl
list_eq_sound eq f (a ∷ xs) (b ∷ ys) h =
    let (p, q) = &&-eq-true (eq a b) (list_eq eq xs ys) h in
    λ i. f a b p i ∷ list_eq_sound eq f xs ys q i
list_eq_sound eq f [] (b ∷ ys) h = absurd (cc)
list_eq_sound eq f (a ∷ xs) [] h = absurd (cc)

number_eq : (a b : ℕ) → (a == b) ≡ true → a ≡ b
number_eq a b = (==_iff a b).0

text_eq : (s t : String) → str_eq s t ≡ true → s ≡ t
text_eq s t = (str_eq_iff s t).0

pub params_eq_sound : (p q : Params) → params_eq p q ≡ true → p ≡ q
unfolding params_eq
params_eq_sound p q h =
    let (h6, g7) = &&-eq-true _ _ h in
    let (h5, g6) = &&-eq-true _ _ h6 in
    let (h4, g5) = &&-eq-true _ _ h5 in
    let (h3, g4) = &&-eq-true _ _ h4 in
    let (h2, g3) = &&-eq-true _ _ h3 in
    let (g1, g2) = &&-eq-true _ _ h2 in
    λ i. record {
      reference_id = text_eq p.reference_id q.reference_id g1 i;
      face_index = number_eq p.face_index q.face_index g2 i;
      seed = option_eq_sound (λ a b. a == b) number_eq p.seed q.seed g3 i;
      steps = number_eq p.steps q.steps g4 i;
      width = number_eq p.width q.width g5 i;
      height = number_eq p.height q.height g6 i;
      options = text_eq p.options q.options g7 i;
    }

pub request_eq_sound : (a b : BatchRequest) → request_eq a b ≡ true → a ≡ b
unfolding request_eq
request_eq_sound a b h =
    let (h4, g5) = &&-eq-true _ _ h in
    let (h3, g4) = &&-eq-true _ _ h4 in
    let (h2, g3) = &&-eq-true _ _ h3 in
    let (g1, g2) = &&-eq-true _ _ h2 in
    λ i. record {
      profile_id = option_eq_sound str_eq text_eq a.profile_id b.profile_id g1 i;
      request = params_eq_sound a.request b.request g2 i;
      count = number_eq a.count b.count g3 i;
      step_values =
          option_eq_sound (list_eq (λ x y. x == y)) (list_eq_sound (λ x y. x == y) number_eq)
            a.step_values b.step_values g4 i;
      preview_every = number_eq a.preview_every b.preview_every g5 i;
    }
