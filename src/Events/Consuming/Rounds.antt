-- ===== src/Events/Consuming/Rounds.antt =====
-- Which events the rounds of `consume_events` pass on.
use mllm_windows_ai_workbenc.Prelude.{
  ℕ, zero, suc, ◌≤◌, ◌<◌, ◌≡◌, refl, sym, ap, ◌∙◌, subst, Bool, true, false, not, ◌&&◌, ◌⊎◌, inl,
  inr, Option, some, List, [], ◌∷◌, ◌++◌, arith, ◌==◌, ==_iff, length, length-append, All,
}
use mllm_windows_ai_workbenc.Errors.{Exn, Result, ok, raise, guard, value_error}
use mllm_windows_ai_workbenc.Actions.{Action, next}
use mllm_windows_ai_workbenc.Events.{max_line, Bytes, line_of, written}
use mllm_windows_ai_workbenc.Events.Reading.{IsInner, append_assoc, append_nil, read_events-written}
use mllm_windows_ai_workbenc.Events.Consuming.{
  is_too_large, has_tail, Outcome, feed, after_feed, take_round, consume_rounds,
}
use mllm_windows_ai_workbenc.Events.Consuming.Feeding.{
  feed-append, written-append, All-back, written-longer, no_length, whole-read, part-read,
}

module _ {E S : Type 0} (decode : Bytes → Option E) (encode : E → Bytes)
    (text_IsInner : (e : E) → IsInner (encode e))
    (decodes : (e : E) → decode (line_of encode e) ≡ some e) (callback : E → Action S (Unit {0}))
    (drain large : Bool) where
  -- Of the events after the offset, `taken` were passed on and are behind it, `tried` were passed on
  -- up to the callback's exception, and `left` were not. `large` says that the file is too large.
  pub record Delivered (before torn : Bytes) (es : List E) (rounds : ℕ) (s : S) (o : Outcome S)
      : Type 0 where
    pub taken : List E
    pub tried : List E
    pub left : List E
    pub parts : es ≡ taken ++ (tried ++ left)
    pub offset : o.1 ≡ length (before ++ written encode taken)
    pub state :
        (feed callback (taken ++ tried) s ≡ (o.0, o.2))
        ⊎ ((tried ≡ []) × (feed callback taken s ≡ (ok tt, o.2)))
    pub moves : large ≡ false → 1 ≤ rounds → taken ++ tried ≡ [] → es ≡ []
    pub refused : large ≡ true → 1 ≤ rounds → (o.0 ≡ raise value_error) × (taken ++ tried ≡ [])
    pub cause :
        (e : Exn)
        → o.0 ≡ raise e
        → (feed callback (taken ++ tried) s ≡ (raise e, o.2))
          ⊎ ((e ≡ value_error)
              × ((large ≡ true) ⊎ ((drain ≡ true) × (left ≡ []) × (1 ≤ length torn))))
    pub drained :
        drain ≡ true → o.0 ≡ ok tt → length es < rounds → (left ≡ []) × (tried ≡ []) × (torn ≡ [])

  nothing-Delivered :
      (before torn : Bytes) (es : List E) (rounds : ℕ) (s : S) (r : Result (Unit {0}))
      → (drain ≡ true → r ≡ ok tt → length es < rounds → (es ≡ []) × (torn ≡ []))
      → (large ≡ false → 1 ≤ rounds → es ≡ [])
      → (large ≡ true → 1 ≤ rounds → r ≡ raise value_error)
      → ((e : Exn)
          → r ≡ raise e
          → (e ≡ value_error) × ((large ≡ true) ⊎ ((drain ≡ true) × (es ≡ []) × (1 ≤ length torn))))
      → Delivered before torn es rounds s (r, length before, s)
  unfolding feed written
  nothing-Delivered before torn es rounds s r k m f c = record {
    taken = [];
    tried = [];
    left = es;
    parts = refl;
    offset = ap length (sym (append_nil before));
    state = inr (refl, refl);
    moves = λ n one h. m n one;
    refused = λ y one. (f y one, refl);
    cause = λ e h. inr (c e h);
    drained = λ d e n. let (a, b) = k d e n in (a, refl, b);
  }

  -- A round that has found no event.
  idle-Delivered :
      (before torn : Bytes) (es : List E) (rounds : ℕ) (s : S)
      → large ≡ false
      → es ≡ []
      → Delivered before torn es rounds s (
        guard
            (not (drain && has_tail (some (before ++ (written encode es ++ torn))) (length before)))
            value_error,
        length before,
        s,
      )
  unfolding written
  idle-Delivered before torn es rounds s small none_left =
      let file = before ++ (written encode es ++ torn) in
      let sizes = length-append before (written encode es ++ torn) in
      let inner = length-append (written encode es) torn in
      let empty : length (written encode es) ≡ 0 = ap (λ l. length (written encode l)) none_left in
      nothing-Delivered before torn es rounds s _
        (λ d e n.
          let full : length file ≡ length before =
            whole-read drain (length file) (length before) d e in
          (none_left, no_length torn (omega (arith, full, sizes, inner))))
        (λ n one. none_left) (λ y one. absurd (cc (y, small)))
        λ e h.
          let (v, d, n) = part-read drain (length file) (length before) e h in
          (v, inr (d, none_left, omega (arith, n, sizes, inner, empty)))

  module _ (before torn : Bytes) (es front back : List E) (rounds : ℕ) (again : ℕ → S → Outcome S)
      (small : large ≡ false) (parts : es ≡ front ++ back)
      (rest : (t : S)
        → Delivered
            (before ++ written encode front)
            torn
            back
            rounds
            t
            (again (length (before ++ written encode front)) t)) where
    -- The round's events were taken, and the loop goes on after them.
    onward-Delivered :
        (s t : S)
        → feed callback front s ≡ (ok tt, t)
        → 1 ≤ length front
        → Delivered before torn es
            (suc rounds)
            s
            (again (length (before ++ written encode front)) t)
    onward-Delivered s t fed some_taken =
        let d = rest t in
        let through : (ys : List E) → feed callback (front ++ ys) s ≡ feed callback ys t =
          λ ys. feed-append callback front ys s ∙ ap (λ o. next o (λ _. feed callback ys)) fed in
        record {
          taken = front ++ d.taken;
          tried = d.tried;
          left = d.left;
          parts =
              parts
              ∙ ap (λ l. front ++ l) d.parts
              ∙ sym (append_assoc front d.taken (d.tried ++ d.left));
          offset =
              d.offset
              ∙ ap length (
                  append_assoc before (written encode front) (written encode d.taken)
                  ∙ ap (λ l. before ++ l) (sym (written-append encode front d.taken)));
          state = elim d.state [
            | inl e ↦ inl (
                ap (λ l. feed callback l s) (append_assoc front d.taken d.tried)
                ∙ through (d.taken ++ d.tried)
                ∙ e)
            | inr (none_tried, e) ↦ inr (none_tried, through d.taken ∙ e)
          ];
          moves = λ n one h.
              let size = ap length h in
              absurd (
                omega (
                  arith,
                  size,
                  some_taken,
                  length-append (front ++ d.taken) d.tried,
                  length-append front d.taken,
                ));
          refused = λ y one. absurd (cc (y, small));
          cause = λ e h. elim (d.cause e h) [
            | inl c ↦ inl (
                ap (λ l. feed callback l s) (append_assoc front d.taken d.tried)
                ∙ through (d.taken ++ d.tried)
                ∙ c)
            | inr c ↦ inr c
          ];
          drained = λ a b n.
              d.drained a b
                (omega (arith, ap length parts, length-append front back, some_taken, n));
        }

    -- The round's events are passed on.
    fed-Delivered :
        (s : S) (o : Result (Unit {0}) × S)
        → feed callback front s ≡ o
        → 1 ≤ length front
        → Delivered before torn es (suc rounds) s (
            after_feed decode drain
              (some (before ++ (written encode es ++ torn)))
              (length before)
              again
              (length (before ++ written encode front))
              o)
    unfolding after_feed written
    fed-Delivered s (raise e, t) fed some_taken = record {
      taken = [];
      tried = front;
      left = back;
      parts = parts;
      offset = ap length (sym (append_nil before));
      state = inl fed;
      moves = λ n one h. absurd (omega (arith, ap length h, some_taken));
      refused = λ y one. absurd (cc (y, small));
      cause = λ x h. inl (fed ∙ ap (λ r. (r, t)) h);
      drained = λ a b n. absurd (cc (b));
    }
    fed-Delivered s (ok u, t) fed some_taken =
        go (length (before ++ written encode front) == length before) refl
      where
        longer : length before < length (before ++ written encode front)
        longer =
            let first = written-longer encode front some_taken in
            omega (arith, first, length-append before (written encode front))

        here : Bool → Outcome S
        here b = elim b [
          | true ↦ (
            guard
                (not (
                  drain && has_tail (some (before ++ (written encode es ++ torn))) (length before)))
                value_error,
            length before,
            t,
          )
          | false ↦ again (length (before ++ written encode front)) t
        ]

        go :
            (b : Bool)
            → (length (before ++ written encode front) == length before) ≡ b
            → Delivered before torn es (suc rounds) s (here b)
        go true e =
            let same = (==_iff (length (before ++ written encode front)) (length before)).0 e in
            absurd (omega (arith, same, longer))
        go false e = onward-Delivered s t fed some_taken

  idle-round :
      (before torn : Bytes) (es : List E) (rounds : ℕ) (again : ℕ → S → Outcome S)
      → large ≡ false
      → es ≡ []
      → (s : S)
      → Delivered before torn es (suc rounds) s (
          after_feed decode drain
            (some (before ++ (written encode es ++ torn)))
            (length before)
            again
            (length (before ++ written encode []))
            (feed callback [] s))
  unfolding after_feed feed written
  idle-round before torn es rounds again small none_left s =
      go (length (before ++ []) == length before) refl
    where
      here : Bool → Outcome S
      here b = elim b [
        | true ↦ (
          guard
              (not
                (drain && has_tail (some (before ++ (written encode es ++ torn))) (length before)))
              value_error,
          length before,
          s,
        )
        | false ↦ again (length (before ++ [])) s
      ]

      go :
          (b : Bool)
          → (length (before ++ []) == length before) ≡ b
          → Delivered before torn es (suc rounds) s (here b)
      go true e = idle-Delivered before torn es (suc rounds) s small none_left
      go false e = absurd (
          cc
            (e, (==_iff (length (before ++ [])) (length before)).1 (ap length (append_nil before))))

  -- A file that is too large ends the loop before it is read.
  settled :
      (before torn : Bytes) (es : List E) (rounds : ℕ) (s : S) (b : Bool) {o : Outcome S}
      → b ≡ large
      → (large ≡ false → Delivered before torn es (suc rounds) s o)
      → Delivered before torn es
          (suc rounds)
          s
          (elim b [ true ↦ (raise value_error, length before, s) | false ↦ o ])
  settled before torn es rounds s true same d =
      nothing-Delivered before torn es (suc rounds) s (raise value_error) (λ a b n. absurd (cc (b)))
        (λ n one. absurd (cc (n, same))) (λ y one. refl) λ e h. (cc (h), inl (sym same))
  settled before torn es rounds s false same d = d (sym same)

  round-Delivered :
      (before torn : Bytes) (es front back : List E) (rounds : ℕ) (again : ℕ → S → Outcome S)
      → large ≡ false
      → es ≡ front ++ back
      → ((t : S)
          → Delivered
              (before ++ written encode front)
              torn
              back
              rounds
              t
              (again (length (before ++ written encode front)) t))
      → (front ≡ [] → es ≡ [])
      → (s : S)
      → Delivered before torn es (suc rounds) s (
          after_feed decode drain
            (some (before ++ (written encode es ++ torn)))
            (length before)
            again
            (length (before ++ written encode front))
            (feed callback front s))
  round-Delivered before torn es (x ∷ xs) back rounds again small parts rest moves s =
      fed-Delivered before torn es (x ∷ xs) back rounds again small parts rest s
        (feed callback (x ∷ xs) s) refl (omega arith)
  round-Delivered before torn es [] back rounds again small parts rest moves s =
      idle-round before torn es rounds again small (moves refl) s

  -- The loop passes the events of the file on, in order, none twice and none left out between.
  pub consume_rounds-Delivered :
      (rounds : ℕ) (before torn : Bytes) (es : List E) (s : S)
      → All (λ e. length (line_of encode e) ≤ max_line) es
      → IsInner torn
      → length torn ≤ max_line
      → is_too_large (some (before ++ (written encode es ++ torn))) ≡ large
      → Delivered before torn es rounds s (
          consume_rounds decode callback drain
            (some (before ++ (written encode es ++ torn)))
            rounds
            (length before)
            s)
  unfolding consume_rounds take_round
  consume_rounds-Delivered zero before torn es s fits inner short size =
      nothing-Delivered before torn es zero s (ok tt) (λ d e n. absurd (omega (arith, n)))
        (λ n one. absurd (omega (arith, one))) (λ y one. absurd (omega (arith, one)))
        λ e h. absurd (cc (h))
  consume_rounds-Delivered (suc rounds) before torn es s fits inner short size =
      let file = before ++ (written encode es ++ torn) in
      let (front, back, parts, found, moves) =
        read_events-written decode encode text_IsInner decodes before torn es fits inner short in
      let same : file ≡ (before ++ written encode front) ++ (written encode back ++ torn) =
        ap (λ l. before ++ (l ++ torn))
          (ap (written encode) parts ∙ written-append encode front back)
        ∙ ap (λ l. before ++ l) (append_assoc (written encode front) (written encode back) torn)
        ∙ sym (append_assoc before (written encode front) (written encode back ++ torn)) in
      let again = consume_rounds decode callback drain (some file) rounds in
      let rest = λ (t : S).
        subst
          (λ f. Delivered (before ++ written encode front) torn back rounds t (
            consume_rounds decode callback drain (some f) rounds
              (length (before ++ written encode front)) t))
          (sym same)
          (consume_rounds-Delivered rounds (before ++ written encode front) torn back t
            (All-back _ front back
              (subst (All (λ e. length (line_of encode e) ≤ max_line)) parts fits))
            inner short (ap (λ f. is_too_large (some f)) (sym same) ∙ size)) in
      settled before torn es rounds s (is_too_large (some file)) size λ small.
        subst
          (λ o.
            Delivered before torn es (suc rounds) s
              (take_round decode callback drain (some file) (length before) again o s))
          (sym found)
          (round-Delivered before torn es front back rounds again small parts rest moves s)
