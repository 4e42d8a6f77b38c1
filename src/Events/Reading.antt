-- ===== src/Events/Reading.antt =====
-- What a reader gets of the events that a worker has written.
use mllm_windows_ai_workbenc.Prelude.{
  ℕ, zero, suc, ◌+◌, ◌-◌, ◌≤◌, ◌<◌, ◌≡◌, refl, sym, ap, ◌∙◌, inl, inr, Bool, true, false, not, ◌||◌,
  Option, some, List, [], ◌∷◌, ◌++◌, arith, ltb, leb, ◌==◌, length, length-append, all_of, All,
  Bool-cases, leb→le, &&-eq-true,
}
use mllm_windows_ai_workbenc.Errors.{Result, ok}
use mllm_windows_ai_workbenc.Events.{
  max_line, max_read, Bytes, take, drop, ends_line, push, split_lines, is_ended, line_of,
  emit_event, read_lines, read_events, written,
}

module _ {ℓ} {A : Type ℓ} where
  pub append_assoc : (xs ys zs : List A) → (xs ++ ys) ++ zs ≡ xs ++ (ys ++ zs)
  append_assoc [] ys zs = refl
  append_assoc (x ∷ xs) ys zs = ap (λ l. x ∷ l) (append_assoc xs ys zs)

  drop-append : (xs ys : List A) → drop (length xs) (xs ++ ys) ≡ ys
  unfolding drop
  drop-append [] ys = refl
  drop-append (x ∷ xs) ys = drop-append xs ys

  take-append-ge : (xs ys : List A) (k : ℕ) → take (length xs + k) (xs ++ ys) ≡ xs ++ take k ys
  unfolding take
  take-append-ge [] ys k = plus_zero k
    where
      plus_zero : (k : ℕ) → take (0 + k) ys ≡ take k ys
      plus_zero k = let e : 0 + k ≡ k = omega arith in ap (λ n. take n ys) e
  take-append-ge (x ∷ xs) ys k =
      let more : length (x ∷ xs) + k ≡ suc (length xs + k) = omega arith in
      ap (λ n. take n (x ∷ (xs ++ ys))) more ∙ ap (λ l. x ∷ l) (take-append-ge xs ys k)

  take-append-le : (xs ys : List A) (n : ℕ) → n ≤ length xs → take n (xs ++ ys) ≡ take n xs
  unfolding take
  take-append-le xs ys zero h = refl
  take-append-le [] ys (suc n) h = absurd (omega arith)
  take-append-le (x ∷ xs) ys (suc n) h = ap (λ l. x ∷ l) (take-append-le xs ys n (omega arith))

  length-take : (xs : List A) (n : ℕ) → length (take n xs) ≤ length xs
  unfolding take
  length-take xs zero = omega arith
  length-take [] (suc n) = omega arith
  length-take (x ∷ xs) (suc n) = omega (arith, length-take xs n)

-- A byte that is no line feed and no carriage return.
abbrev pub is_inner : ℕ → Bool
is_inner c = not ((c == 10) || (c == 13))

abbrev pub IsInner : Bytes → Type 0
IsInner bytes = all_of is_inner bytes ≡ true

IsInner-take : (bytes : Bytes) (n : ℕ) → IsInner bytes → IsInner (take n bytes)
unfolding take
IsInner-take bytes zero h = refl
IsInner-take [] (suc n) h = refl
IsInner-take (c ∷ cs) (suc n) h = ground (arith, IsInner-take cs n)

inner_goes_on : (c : ℕ) (rest : Bytes) → is_inner c ≡ true → ends_line c rest ≡ false
inner_goes_on c rest h = ground arith

-- Bytes with no line end are at most one line, and that is not ended.
abbrev alone : Bytes → List Bytes
alone [] = []
alone (c ∷ cs) = (c ∷ cs) ∷ []

split_lines-inner : (bytes : Bytes) → IsInner bytes → split_lines bytes ≡ alone bytes
unfolding split_lines
split_lines-inner [] h = refl
split_lines-inner (c ∷ cs) h =
    let parts = &&-eq-true (is_inner c) (all_of is_inner cs) h in
    rw (inner_goes_on c cs parts.0, split_lines-inner cs parts.1) (joined c cs)
  where
    joined : (c : ℕ) (cs : Bytes) → push c (alone cs) ≡ alone (c ∷ cs)
    joined c [] = refl
    joined c (d ∷ ds) = refl

is_ended-inner : (bytes : Bytes) → IsInner bytes → is_ended bytes ≡ false
unfolding is_ended
is_ended-inner [] h = refl
is_ended-inner (c ∷ []) h = ground arith
is_ended-inner (c ∷ d ∷ cs) h =
    is_ended-inner (d ∷ cs) (&&-eq-true (is_inner c) (all_of is_inner (d ∷ cs)) h).1

is_ended-line : (bytes : Bytes) → is_ended (bytes ++ (10 ∷ [])) ≡ true
unfolding is_ended
is_ended-line [] = refl
is_ended-line (c ∷ []) = refl
is_ended-line (c ∷ d ∷ cs) = is_ended-line (d ∷ cs)

split_lines-line :
    (bytes rest : Bytes)
    → IsInner bytes
    → split_lines ((bytes ++ (10 ∷ [])) ++ rest) ≡ (bytes ++ (10 ∷ [])) ∷ split_lines rest
unfolding split_lines
split_lines-line [] rest h = refl
split_lines-line (c ∷ cs) rest h =
    let parts = &&-eq-true (is_inner c) (all_of is_inner cs) h in
    rw (inner_goes_on c ((cs ++ (10 ∷ [])) ++ rest) parts.0, split_lines-line cs rest parts.1) refl

pub append_nil {ℓ} : {A : Type ℓ} (xs : List A) → xs ++ [] ≡ xs
append_nil [] = refl
append_nil (x ∷ xs) = ap (λ l. x ∷ l) (append_nil xs)

-- What the documentation of json says, of the encoder and the decoder: a text has no line end, and
-- the line of an object is read as that object.
module _ {E : Type 0} (decode : Bytes → Option E) (encode : E → Bytes)
    (text_IsInner : (e : E) → IsInner (encode e))
    (decodes : (e : E) → decode (line_of encode e) ≡ some e) where
  pub length-line : (e : E) → length (line_of encode e) ≡ length (encode e) + 1
  unfolding line_of
  length-line e = omega (arith, length-append (encode e) (10 ∷ []))

  -- The events that a slice of the file holds, and the rest of it.
  record Chunk (n : ℕ) (es : List E) (torn : Bytes) : Type 0 where
    pub front : List E
    pub back : List E
    pub tail : Bytes
    pub parts : es ≡ front ++ back
    pub cut : take n (written encode es ++ torn) ≡ written encode front ++ tail
    pub inner : IsInner tail
    pub short : length tail ≤ max_line
    pub moves : max_line ≤ n → front ≡ [] → es ≡ []
    pub fits : All (λ e. length (line_of encode e) ≤ max_line) front

  chunk :
      (n : ℕ) (es : List E) (torn : Bytes)
      → All (λ e. length (line_of encode e) ≤ max_line) es
      → IsInner torn
      → length torn ≤ max_line
      → Chunk n es torn
  unfolding written line_of take
  chunk n [] torn f i s = record {
    front = [];
    back = [];
    tail = take n torn;
    parts = refl;
    cut = refl;
    inner = IsInner-take torn n i;
    short = omega (arith, s, length-take torn n);
    moves = λ h e. refl;
    fits = tt;
  }
  chunk n (e ∷ es) torn f i s = elim (Bool-cases (leb (length (line_of encode e)) n)) [
    | inl h ↦
        whole (leb→le (length (line_of encode e)) n h)
          (chunk (n - length (line_of encode e)) es torn f.1 i s)
    | inr h ↦ partial (ground arith)
  ]
    where
      whole :
          length (line_of encode e) ≤ n
          → Chunk (n - length (line_of encode e)) es torn
          → Chunk n (e ∷ es) torn
      whole h c =
          let line = line_of encode e in
          let k = n - length line in
          let total : n ≡ length line + k = omega (arith, h) in
          record {
            front = e ∷ c.front;
            back = c.back;
            tail = c.tail;
            parts = ap (λ l. e ∷ l) c.parts;
            cut =
                ap (λ m. take m ((line ++ written encode es) ++ torn)) total
                ∙ ap (λ l. take (length line + k) l) (append_assoc line (written encode es) torn)
                ∙ take-append-ge line (written encode es ++ torn) k
                ∙ ap (λ l. line ++ l) c.cut
                ∙ sym (append_assoc line (written encode c.front) c.tail);
            inner = c.inner;
            short = c.short;
            moves = λ m x. cc;
            fits = (f.0, c.fits);
          }

      begun :
          n < length (line_of encode e)
          → take n ((line_of encode e ++ written encode es) ++ torn) ≡ take n (encode e)
      begun h =
          ap (λ l. take n l)
            (append_assoc (encode e ++ (10 ∷ [])) (written encode es) torn
              ∙ append_assoc (encode e) (10 ∷ []) (written encode es ++ torn))
          ∙ take-append-le (encode e) ((10 ∷ []) ++ (written encode es ++ torn)) n
              (omega (arith, h, length-line e))

      partial : n < length (line_of encode e) → Chunk n (e ∷ es) torn
      partial h = record {
        front = [];
        back = e ∷ es;
        tail = take n (encode e);
        parts = refl;
        cut = begun h;
        inner = IsInner-take (encode e) n (text_IsInner e);
        short = omega (arith, length-take (encode e) n, length-line e, f.0);
        moves = λ m x. absurd (omega (arith, m, h, f.0));
        fits = tt;
      }

  first :
      (e : E) (rest : Bytes)
      → split_lines (line_of encode e ++ rest) ≡ line_of encode e ∷ split_lines rest
  unfolding line_of
  first e rest = split_lines-line (encode e) rest (text_IsInner e)

  ends : (e : E) → is_ended (line_of encode e) ≡ true
  unfolding line_of
  ends e = is_ended-line (encode e)

  read_lines-written :
      (es : List E) (tail : Bytes) (events : List E) (position : ℕ)
      → All (λ e. length (line_of encode e) ≤ max_line) es
      → IsInner tail
      → length tail ≤ max_line
      → read_lines decode (split_lines (written encode es ++ tail)) events position
        ≡ ok (events ++ es, position + length (written encode es))
  unfolding written read_lines
  read_lines-written [] tail events position f i s = rw (split_lines-inner tail i) (last tail i s)
    where
      last :
          (tail : Bytes)
          → IsInner tail
          → length tail ≤ max_line
          → read_lines decode (alone tail) events position ≡ ok (events ++ [], position + 0)
      last [] i s = let e : position + 0 ≡ position = omega arith in rw (append_nil events, e) refl
      last (c ∷ cs) i s =
          let e : position + 0 ≡ position = omega arith in
          let g : ltb max_line (length (c ∷ cs)) ≡ false = ground arith in
          rw (append_nil events, e, g, is_ended-inner (c ∷ cs) i) refl
  read_lines-written (e ∷ es) tail events position f i s =
      let line = line_of encode e in
      let g : ltb max_line (length line) ≡ false = ground (arith, f.0) in
      let sum : position + length (line ++ written encode es)
          ≡ (position + length line) + length (written encode es) =
        omega (arith, length-append line (written encode es)) in
      let list : events ++ (e ∷ es) ≡ (events ++ (e ∷ [])) ++ es =
        sym (append_assoc events (e ∷ []) es) in
      rw
        (
          append_assoc line (written encode es) tail,
          first e (written encode es ++ tail),
          g,
          ends e,
          decodes e,
          sum,
          list,
        )
        (read_lines-written es tail (events ++ (e ∷ [])) (position + length line) f.1 i s)

  -- A reader gets the next whole events, in order and none left out or read twice, and the place where
  -- the next one starts; it makes progress while there is a whole event. A worker may be in the middle
  -- of a line. JSON texts have to hold no line end and to be read as what was written, and the lines
  -- must not be longer than `emit_event` allows.
  pub read_events-written :
      (before torn : Bytes) (es : List E)
      → All (λ e. length (line_of encode e) ≤ max_line) es
      → IsInner torn
      → length torn ≤ max_line
      → (front back : List E) × (es ≡ front ++ back)
        × (read_events decode (some (before ++ (written encode es ++ torn))) (length before)
            ≡ ok (front, length (before ++ written encode front)))
        × (front ≡ [] → es ≡ [])
  unfolding read_events
  read_events-written before torn es f i s = result (chunk max_read es torn f i s)
    where
      result :
          Chunk max_read es torn
          → (front back : List E) × (es ≡ front ++ back)
            × (read_events decode (some (before ++ (written encode es ++ torn))) (length before)
                ≡ ok (front, length (before ++ written encode front)))
            × (front ≡ [] → es ≡ [])
      result c =
          let file = before ++ (written encode es ++ torn) in
          let g : ltb (length file) (length before) ≡ false =
            ground (arith, length-append before (written encode es ++ torn)) in
          (
            c.front,
            c.back,
            c.parts,
            rw
                (
                  g,
                  drop-append before (written encode es ++ torn),
                  c.cut,
                  length-append before (written encode c.front),
                )
                (read_lines-written c.front c.tail [] (length before) c.fits c.inner c.short),
            c.moves (omega arith),
          )

  -- An event that `emit_event` has accepted is what a reader gets who had read all before it, and the
  -- reader is then at the end. JSON texts have to hold no line end and to be read as what was written.
  pub emit_event-read_events :
      (e : E) (before after : Bytes)
      → emit_event encode e before ≡ ok after
      → read_events decode (some after) (length before) ≡ ok (e ∷ [], length after)
  unfolding emit_event written
  emit_event-read_events e before after h =
      elim (Bool-cases (ltb max_line (length (line_of encode e)))) [
        | inl b ↦ absurd (cc (rw b at h))
        | inr b ↦
            rw (← appended (rw b at h))
              (only (read_events-written before [] (e ∷ []) (ground arith, tt) refl (omega arith)))
      ]
    where
      appended :
          Path (Result Bytes) (ok (before ++ line_of encode e)) (ok after)
          → before ++ line_of encode e ≡ after
      appended q = cc

      only :
          ((front back : List E) × (e ∷ [] ≡ front ++ back)
            × (read_events decode
                  (some (before ++ ((line_of encode e ++ []) ++ [])))
                  (length before)
                ≡ ok (front, length (before ++ written encode front)))
            × (front ≡ [] → e ∷ [] ≡ []))
          → read_events decode (some (before ++ line_of encode e)) (length before)
            ≡ ok (e ∷ [], length (before ++ line_of encode e))
      only ([], back, parts, result, moves) = absurd (cc (moves refl))
      only (x ∷ y ∷ ys, back, parts, result, moves) = absurd (cc)
      only (x ∷ [], back, parts, result, moves) =
          let same : x ≡ e = cc in
          let line = line_of encode e in
          rw (same, append_nil (line ++ []), append_nil line) at result
