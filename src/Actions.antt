-- ===== src/Actions.antt =====
-- Actions on a state that may raise: what has been changed stays changed.
use mllm_windows_ai_workbenc.Prelude.{◌≡◌, refl}
use mllm_windows_ai_workbenc.Errors.{Exn, Result, ok, raise}

abbrev pub Action {ℓ κ} : Type ℓ → Type κ → Type (ℓ ⊔ κ)
Action S A = S → Result A × S

module _ {ℓ κ λ'} {S : Type ℓ} {A : Type κ} {B : Type λ'} where
  abbrev pub next : Result A × S → (A → Action S B) → Result B × S
  next (ok a, s) f = f a s
  next (raise e, s) f = (raise e, s)

infixl 5 ◌>>=◌ ◌>>◌
module _ {ℓ κ λ'} {S : Type ℓ} {A : Type κ} {B : Type λ'} where
  abbrev pub ◌>>=◌ : Action S A → (A → Action S B) → Action S B
  ◌>>=◌ m f s = next (m s) f

  abbrev pub ◌>>◌ : Action S A → Action S B → Action S B
  ◌>>◌ m k s = next (m s) (λ _. k)

abbrev pub pure {ℓ κ} : {S : Type ℓ} {A : Type κ} → A → Action S A
pure a s = (ok a, s)

abbrev pub lift {ℓ κ} : {S : Type ℓ} {A : Type κ} → Result A → Action S A
lift r s = (r, s)

-- What holds of the value and the state where an action returns, and of the exception and the
-- state where it raises.
abbrev pub PostAt {ℓ κ ι} :
    {S : Type ℓ} {A : Type κ} → (A → S → Type ι) → (Exn → S → Type ι) → Result A × S → Type ι
PostAt P R (ok a, t) = P a t
PostAt P R (raise e, t) = R e t

pub next-PostAt {ℓ κ λ' ι} :
    {S : Type ℓ} {A : Type κ} {B : Type λ'} (P : A → S → Type ι) (Q : B → S → Type ι)
    (R : Exn → S → Type ι) (o : Result A × S) (f : A → Action S B)
    → PostAt P R o
    → ((a : A) (t : S) → P a t → PostAt Q R (f a t))
    → PostAt Q R (next o f)
next-PostAt P Q R (ok a, s) f p k = k a s p
next-PostAt P Q R (raise e, s) f p k = p

-- A result on its own, at a state.
pub lift-PostAt {ℓ κ ι} :
    {S : Type ℓ} {A : Type κ} (P : A → S → Type ι) (R : Exn → S → Type ι) (r : Result A) (s : S)
    → ((a : A) → r ≡ ok a → P a s)
    → ((e : Exn) → R e s)
    → PostAt P R (r, s)
lift-PostAt P R (ok a) s p k = p a refl
lift-PostAt P R (raise e) s p k = k e

-- What holds at the end, whether the action returns or raises.
abbrev pub Keeps {ℓ κ ι} : {S : Type ℓ} {A : Type κ} → (S → Type ι) → Result A × S → Type ι
Keeps P o = PostAt (λ a t. P t) (λ e t. P t) o

pub next-Keeps {ℓ κ λ' ι} :
    {S : Type ℓ} {A : Type κ} {B : Type λ'} (P : S → Type ι) (o : Result A × S) (f : A → Action S B)
    → Keeps P o
    → ((a : A) (t : S) → P t → Keeps P (f a t))
    → Keeps P (next o f)
next-Keeps P (ok a, s) f p k = k a s p
next-Keeps P (raise e, s) f p k = p

pub lift-Keeps {ℓ κ ι} :
    {S : Type ℓ} {A : Type κ} (P : S → Type ι) (r : Result A) (s : S) → P s → Keeps P (r, s)
lift-Keeps P (ok a) s p = p
lift-Keeps P (raise e) s p = p

pub PostAt-map {ℓ κ ι} :
    {S : Type ℓ} {A : Type κ} (P P' : A → S → Type ι) (R R' : Exn → S → Type ι) (o : Result A × S)
    → PostAt P R o
    → ((a : A) (t : S) → P a t → P' a t)
    → ((e : Exn) (t : S) → R e t → R' e t)
    → PostAt P' R' o
PostAt-map P P' R R' (ok a, t) p f g = f a t p
PostAt-map P P' R R' (raise e, t) p f g = g e t p
