-- ===== src/Events/Consuming/Feeding.antt =====
-- Lists of events that are passed on, and their bytes.
use mllm_windows_ai_workbenc.Prelude.{
  ℕ, ◌≤◌, ◌≡◌, ◌≢◌, refl, sym, ap, ◌∙◌, fun_ext, Bool, true, false, not, ◌&&◌, inl, inr, List, [],
  ◌∷◌, ◌++◌, arith, ◌==◌, ==_iff, length, length-append, All, Bool-cases,
}
use mllm_windows_ai_workbenc.Errors.{Exn, Result, ok, raise, guard, value_error}
use mllm_windows_ai_workbenc.Actions.{Action, next}
use mllm_windows_ai_workbenc.Events.{Bytes, line_of, written}
use mllm_windows_ai_workbenc.Events.Reading.{append_assoc}
use mllm_windows_ai_workbenc.Events.Consuming.{feed}

pub next_assoc :
    {A B C S : Type 0} (o : Result A × S) (f : A → Action S B) (g : B → Action S C)
    → next o (λ a s. next (f a s) g) ≡ next (next o f) g
next_assoc (ok a, s) f g = refl
next_assoc (raise e, s) f g = refl

pub feed-append :
    {E S : Type 0} (callback : E → Action S (Unit {0})) (xs ys : List E) (s : S)
    → feed callback (xs ++ ys) s ≡ next (feed callback xs s) (λ _. feed callback ys)
unfolding feed
feed-append callback [] ys s = refl
feed-append {S = S} callback (x ∷ xs) ys s =
    ap (λ (f : Unit {0} → Action S (Unit {0})). next (callback x s) f)
      (fun_ext λ _. fun_ext λ t. feed-append callback xs ys t)
    ∙ next_assoc (callback x s) (λ _. feed callback xs) (λ _. feed callback ys)

pub written-append :
    {E : Type 0} (encode : E → Bytes) (xs ys : List E)
    → written encode (xs ++ ys) ≡ written encode xs ++ written encode ys
unfolding written
written-append encode [] ys = refl
written-append encode (x ∷ xs) ys =
    ap (λ l. line_of encode x ++ l) (written-append encode xs ys)
    ∙ sym (append_assoc (line_of encode x) (written encode xs) (written encode ys))

pub All-back : {A : Type 0} (P : A → Type 0) (xs ys : List A) → All P (xs ++ ys) → All P ys
All-back P [] ys h = h
All-back P (x ∷ xs) ys h = All-back P xs ys h.1

pub written-longer :
    {E : Type 0} (encode : E → Bytes) (es : List E) → 1 ≤ length es → 1 ≤ length (written encode es)
unfolding written line_of
written-longer encode [] h = absurd (omega (arith, h))
written-longer encode (e ∷ es) h =
    let line = length-append (encode e) (10 ∷ []) in
    let both = length-append (line_of encode e) (written encode es) in omega (arith, line, both)

pub no_length : {A : Type 0} (xs : List A) → length xs ≡ 0 → xs ≡ []
no_length [] h = refl
no_length (x ∷ xs) h = absurd (omega (arith, h))

pub whole-read :
    (drain : Bool) (m n : ℕ)
    → drain ≡ true
    → guard (not (drain && not (m == n))) value_error ≡ ok tt
    → m ≡ n
whole-read false m n d h = absurd (cc (d))
whole-read true m n d h = elim (Bool-cases (m == n)) [
  | inl e ↦ (==_iff m n).0 e
  | inr e ↦ absurd (cc (rw e at h))
]

-- What is read so far is not all of it.
pub part-read :
    (drain : Bool) (m n : ℕ) (e : Exn)
    → guard (not (drain && not (m == n))) value_error ≡ raise e
    → (e ≡ value_error) × (drain ≡ true) × (m ≢ n)
part-read false m n e h = absurd (cc (h))
part-read true m n e h = elim (Bool-cases (m == n)) [
  | inl d ↦ absurd (cc (rw d at h))
  | inr d ↦ (cc (rw d at h), refl, λ k. absurd (cc (d, (==_iff m n).1 k)))
]
