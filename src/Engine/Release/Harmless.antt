-- ===== src/Engine/Release/Harmless.antt =====
-- Which processes `release_for_identity` stops, and what it leaves.
use mllm_windows_ai_workbenc.Prelude.{
  ℕ, ◌<◌, arith, ◌≡◌, refl, sym, ap, ◌∙◌, subst, false, ◌⊎◌, inl, inr, Option, none, some, List,
  ◌∷◌, leb, Bool-cases,
}
use mllm_windows_ai_workbenc.Errors.{Exn, Result, ok, raise, guard, engine_unavailable}
use mllm_windows_ai_workbenc.Actions.{
  PostAt, next-PostAt, lift-PostAt, PostAt-map, Keeps, next-Keeps, lift-Keeps,
}
use mllm_windows_ai_workbenc.Engine.Model.{
  Snapshot, Reading, absent, object, Config, Outside, Act, unlink_state, Client, counted, control,
  Capabilities, Endpoint, refused, silent, answers, unreadable, undecodable, no_json, no_object,
}
use mllm_windows_ai_workbenc.Engine.Identity.{
  snapshot_of, release_snapshot, state_unchanged, listener_of, release_endpoint, is_unchanged,
  adopt_for_release,
}
use mllm_windows_ai_workbenc.Engine.Release.{
  done, is_about, release_child, release_adopted, release_engine, clear_state, no_listener,
  finish_release, release_for_identity,
}
use mllm_windows_ai_workbenc.Engine.Release.Facts.{snapshot_of-some}
use mllm_windows_ai_workbenc.Engine.Release.Verified.{Adopted, adopt_for_release-Adopted}
use mllm_windows_ai_workbenc.Engine.Release.Going.{
  Going, Harmless, Going-Harmless, Going-refl, ask-Going, release_child-Going,
  release_adopted-Going, adopt-Going,
}

-- What both ways of ending keep, and what is known where the action returns.
with_value :
    {A : Type 0} (P : A → Client → Type 0) (H : Client → Type 0) (o : Result A × Client)
    → PostAt P (λ e t. Unit {0}) o
    → Keeps H o
    → PostAt (λ a t. P a t × H t) (λ e t. H t) o
with_value P H (ok a, t) p h = (p, h)
with_value P H (raise e, t) p h = h

Harmless-process :
    (env : Outside) (cfg : Config) (s t u : Client)
    → u.acts ≡ t.acts
    → Harmless env cfg s t
    → Harmless env cfg s u
Harmless-process env cfg s t u e h = record {
  since = h.since;
  acts = e ∙ h.acts;
  allowed = h.allowed;
}

-- No child is left.
abbrev Gone : Outside → Config → Client → Client → Type 0
Gone env cfg s t = Harmless env cfg s t × (t.process ≡ none)

release_engine-Gone :
    (env : Outside) (cfg : Config) (s : Client) (v : Option Snapshot) (p : Option ℕ) (t : Client)
    → s.process ≡ p
    → (n : ℕ) → n < t.calls
    → snapshot_of (env.read n) ≡ ok v
    → Going env cfg s t
    → PostAt (λ u t. Gone env cfg s t) (λ e t. Harmless env cfg s t) (release_engine env cfg v p t)
unfolding release_engine
release_engine-Gone env cfg s v (some pid) t own n l r g =
    let H = λ (t : Client). Harmless env cfg s t in
    let G = λ (t : Client). Going env cfg s t in
    next-PostAt (λ u t. Going env cfg s t) (λ u t. Gone env cfg s t) (λ e t. H t)
      (guard (is_about cfg pid v) engine_unavailable, t) _
      (lift-PostAt (λ u t. Going env cfg s t) (λ e t. H t)
        (guard (is_about cfg pid v) engine_unavailable) t (λ u h. g)
        (λ e. Going-Harmless env cfg s t g))
      λ u t g.
        next-PostAt (λ u t. H t) (λ u t. Gone env cfg s t) (λ e t. H t) (release_child env pid t) _
          (PostAt-map (λ u t. G t) (λ u t. H t) (λ e t. G t) (λ e t. H t) (release_child env pid t)
            (release_child-Going env cfg s pid t (inl own) g)
            (λ u t g. Going-Harmless env cfg s t g) (λ e t g. Going-Harmless env cfg s t g))
          λ u t h. (Harmless-process env cfg s t (record t { process = none }) refl h, refl)
release_engine-Gone env cfg s (some v) none t own n l r g =
    let H = λ (t : Client). Harmless env cfg s t in
    let G = λ (t : Client). Going env cfg s t in
    let found = adopt_for_release env cfg v t in
    next-PostAt (λ p t. Adopted env cfg v n p × G t) (λ u t. Gone env cfg s t) (λ e t. H t) found _
      (PostAt-map (λ p t. Adopted env cfg v n p × G t) (λ p t. Adopted env cfg v n p × G t)
        (λ e t. G t) (λ e t. H t) found
        (with_value (λ p t. Adopted env cfg v n p) G found
          (adopt_for_release-Adopted env cfg v n t l) (adopt-Going env cfg s v t g))
        (λ p t h. h) (λ e t g. Going-Harmless env cfg s t g))
      λ p t both.
        PostAt-map (λ u t. G t) (λ u t. Gone env cfg s t) (λ e t. G t) (λ e t. H t)
          (release_adopted env p t)
          (release_adopted-Going env cfg s p v n t (snapshot_of-some (env.read n) v r) both.0
            both.1)
          (λ u t g. (Going-Harmless env cfg s t g, g.process ∙ own))
          (λ e t g. Going-Harmless env cfg s t g)
release_engine-Gone env cfg s none none t own n l r g =
    (Going-Harmless env cfg s t g, g.process ∙ own)

-- The state file was not there, or its removal was the last effect.
abbrev pub Cleared : Outside → Client → Type 0
Cleared env t =
    ((n : ℕ) × (env.read n ≡ absent)) ⊎ ((acts : List Act) × (t.acts ≡ unlink_state ∷ acts))

-- Where the release returns: no child is left, nothing listens, and the state is cleared.
pub record Released (env : Outside) (t : Client) : Type 0 where
  pub process : t.process ≡ none
  pub flash_verified : t.flash_verified ≡ false
  pub call : ℕ
  pub no_listener : env.endpoint call ≡ refused
  pub cleared : Cleared env t

-- Questions change no effect and no child.
abbrev Quiet : Client → Client → Type 0
Quiet t u = (u.acts ≡ t.acts) × (u.process ≡ t.process)

Gone-Quiet :
    (env : Outside) (cfg : Config) (s t u : Client)
    → Gone env cfg s t
    → Quiet t u
    → Gone env cfg s u
Gone-Quiet env cfg s t u g q = (Harmless-process env cfg s t u q.0 g.0, q.1 ∙ g.1)

unchanged-Quiet :
    (env : Outside) (v : Snapshot) (t : Client) → Keeps (Quiet t) (state_unchanged env v t)
unfolding state_unchanged release_snapshot
unchanged-Quiet env v t =
    next-Keeps (Quiet t) (snapshot_of (env.read t.calls), counted t) _
      (lift-Keeps (Quiet t) (snapshot_of (env.read t.calls)) (counted t) (refl, refl))
      λ c u q. lift-Keeps (Quiet t) (guard (is_unchanged v c) engine_unavailable) u q

snapshot_of-none : (r : Reading) → snapshot_of r ≡ ok none → r ≡ absent
unfolding snapshot_of
snapshot_of-none absent h = refl
snapshot_of-none unreadable h = absurd (cc (h))
snapshot_of-none undecodable h = absurd (cc (h))
snapshot_of-none no_json h = absurd (cc (h))
snapshot_of-none no_object h = absurd (cc (h))
snapshot_of-none (object v) h = elim (Bool-cases (leb v.size 65536)) [
  | inl e ↦ absurd (cc (rw e at h))
  | inr e ↦ absurd (cc (rw e at h))
]

listener_of-refused :
    (e : Endpoint) (c : Option Capabilities) (u : Unit {0})
    → listener_of e ≡ ok c
    → no_listener c ≡ ok u
    → e ≡ refused
unfolding listener_of
listener_of-refused refused c u h k = refl
listener_of-refused silent c u h k = absurd (cc (h))
listener_of-refused (answers a) none u h k = absurd (cc (h))
listener_of-refused (answers a) (some b) u h k = absurd (cc (k))

clear_state-Cleared :
    (env : Outside) (cfg : Config) (s : Client) (v : Option Snapshot) (n : ℕ) (t : Client)
    → snapshot_of (env.read n) ≡ ok v
    → Gone env cfg s t
    → PostAt
        (λ u t. Gone env cfg s t × Cleared env t)
        (λ e t. Harmless env cfg s t)
        (clear_state env v t)
unfolding clear_state
clear_state-Cleared env cfg s none n t r g = (g, inl (n, snapshot_of-none (env.read n) r))
clear_state-Cleared env cfg s (some v) n t r g =
    let H = λ (e : Exn) (t : Client). Harmless env cfg s t in
    let Q = λ (u : Unit {0}) (t : Client). Gone env cfg s t × Cleared env t in
    next-PostAt (λ u t. Gone env cfg s t) Q H (state_unchanged env v t) _
      (PostAt-map (λ u u'. Quiet t u') (λ u t. Gone env cfg s t) (λ e u. Quiet t u) H
        (state_unchanged env v t) (unchanged-Quiet env v t) (λ a u q. Gone-Quiet env cfg s t u g q)
        (λ e u q. (Gone-Quiet env cfg s t u g q).0))
      λ u x g.
        let y = (control env unlink_state x).1 in
        let after : Harmless env cfg s y = record {
          since = unlink_state ∷ g.0.since;
          acts = ap (λ l. unlink_state ∷ l) g.0.acts;
          allowed = (tt, g.0.allowed);
        } in
        next-PostAt (λ r z. z ≡ y) Q H (control env unlink_state x) _ refl
          λ r z e.
            lift-PostAt Q H (done r) z
              (λ u h.
                subst (λ z. Gone env cfg s z × Cleared env z) (sym e)
                  ((after, g.1), inr (x.acts, refl)))
              (λ x'. subst (Harmless env cfg s) (sym e) after)

finish_release-Released :
    (env : Outside) (cfg : Config) (s : Client) (v : Option Snapshot) (n : ℕ) (t : Client)
    → snapshot_of (env.read n) ≡ ok v
    → Gone env cfg s t
    → PostAt
        (λ u t. Harmless env cfg s t × Released env t)
        (λ e t. Harmless env cfg s t)
        (finish_release env v t)
unfolding finish_release release_endpoint
finish_release-Released env cfg s v n t r g =
    let H = λ (e : Exn) (t : Client). Harmless env cfg s t in
    let Q = λ (u : Unit {0}) (t : Client). Harmless env cfg s t × Released env t in
    let quiet : Gone env cfg s (counted t) = Gone-Quiet env cfg s t (counted t) g (refl, refl) in
    next-PostAt (λ c u. (listener_of (env.endpoint t.calls) ≡ ok c) × Gone env cfg s u) Q H
      (listener_of (env.endpoint t.calls), counted t) _
      (lift-PostAt (λ c u. (listener_of (env.endpoint t.calls) ≡ ok c) × Gone env cfg s u) H
        (listener_of (env.endpoint t.calls)) (counted t) (λ c h. (h, quiet)) (λ e. quiet.0))
      λ c u p.
        next-PostAt (λ w x. (env.endpoint t.calls ≡ refused) × Gone env cfg s x) Q H
          (no_listener c, u) _
          (lift-PostAt (λ w x. (env.endpoint t.calls ≡ refused) × Gone env cfg s x) H
            (no_listener c) u (λ w h. (listener_of-refused (env.endpoint t.calls) c w p.0 h, p.1))
            (λ e. p.1.0))
          λ w x q.
            next-PostAt (λ w y. Gone env cfg s y × Cleared env y) Q H (clear_state env v x) _
              (clear_state-Cleared env cfg s v n x r q.1)
              λ w y z. (
                Harmless-process env cfg s y (record y { flash_verified = false }) refl z.0.0,
                record {
                  process = z.0.1;
                  flash_verified = refl;
                  call = t.calls;
                  no_listener = q.0;
                  cleared = z.1;
                },
              )

-- Whatever the outside answers and whichever other processes come in between, a release stops,
-- kills or awaits no process but the service's own child and one that has been verified: the state
-- file names it with this service's address, it is the service's executable, it started when the
-- file says or, where an old file says nothing, not after the file was written, it listens at the
-- service's port, the engine's endpoint answers with the model of the file, then the
-- file was read once more and had not been changed, and the process was still there. Where the release returns, there is no child, nothing
-- listens, and the state file was not there or has been removed.
pub release_for_identity-Harmless :
    (env : Outside) (cfg : Config) (s : Client)
    → PostAt
        (λ u t. Harmless env cfg s t × Released env t)
        (λ e t. Harmless env cfg s t)
        (release_for_identity env cfg s)
unfolding release_for_identity release_snapshot
release_for_identity-Harmless env cfg s =
    let H = λ (e : Exn) (t : Client). Harmless env cfg s t in
    let Q = λ (u : Unit {0}) (t : Client). Harmless env cfg s t × Released env t in
    let start = ask-Going env cfg s env.read s (Going-refl env cfg s) in
    let R = λ (v : Option Snapshot) (t : Client).
      (snapshot_of (env.read s.calls) ≡ ok v) × (s.calls < t.calls) × Going env cfg s t in
    next-PostAt R Q H (snapshot_of (env.read s.calls), counted s) _
      (lift-PostAt R H (snapshot_of (env.read s.calls)) (counted s) (λ v h. (h, omega arith, start))
        (λ e. Going-Harmless env cfg s (counted s) start))
      λ v t p.
        next-PostAt (λ u t. Gone env cfg s t) Q H (release_engine env cfg v t.process t) _
          (release_engine-Gone env cfg s v t.process t (sym p.2.process) s.calls p.1 p.0 p.2)
          λ u x g. finish_release-Released env cfg s v s.calls x p.0 g
