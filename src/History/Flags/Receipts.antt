-- ===== src/History/Flags/Receipts.antt =====
-- What the flags of an item mean.
use mllm_windows_ai_workbenc.Prelude.{
  String, ◌≡◌, refl, ap, sym, ◌∙◌, ◌⊎◌, inl, inr, Bool, true, false, ◌&&◌, ◌||◌, Option, none, some,
  List, [], ◌∷◌, ◌==◌, arith, elem, any_of, if◌then◌else◌, str_eq, str_eq_iff, Bool-cases,
  Option-cases, ||-eq-false,
}
use mllm_windows_ai_workbenc.Errors.{Result, ok, raise, value_error}
use mllm_windows_ai_workbenc.History.Record.{Paths, Record, Content, complete, broken}
use mllm_windows_ai_workbenc.History.Reading.{Tree, is_valid_record, read_record}
use mllm_windows_ai_workbenc.History.Local.{Folder}
use mllm_windows_ai_workbenc.History.Flags.{
  Flags, touch, result_owners, add_member, add_members, members_of, add_record, committed_flags,
}

-- The receipt names the item, or a batch that it belongs to.
abbrev pub names : String → Record → Bool
names id r = str_eq r.item_id id || ((r.version == 3) && elem id (members_of r))

-- The receipt is for the item's own files: it is the item's, or its batch's with a file of it.
abbrev pub deletes : String → Record → Bool
deletes id r =
    ((r.version == 1) && str_eq r.item_id id)
    || ((r.version == 3) && elem id (members_of r) && elem id (result_owners r.files))

abbrev pub receipts : List Folder → List Record
receipts [] = []
receipts (f ∷ fs) = elim f.committed_file [
  | none ↦ receipts fs
  | some broken ↦ receipts fs
  | some (complete r) ↦ r ∷ receipts fs
]

abbrev pub is_set : Option Bool → Bool
is_set none = false
is_set (some b) = b

-- More information on an item.
abbrev pub joined : Bool → Bool → Option Bool → Option Bool
joined false d o = o
joined true d o = some (is_set o || d)

touch-at : (k id : String) (m : Flags) → touch k m id ≡ joined (str_eq k id) false (m id)
touch-at k id m = go (Bool-cases (str_eq k id)) (Option-cases (m k))
  where
    go :
        (str_eq k id ≡ true) ⊎ (str_eq k id ≡ false)
        → (m k ≡ none) ⊎ ((b : Bool) × (m k ≡ some b))
        → touch k m id ≡ joined (str_eq k id) false (m id)
    go (inl e) (inl o) = let p : k ≡ id = (str_eq_iff k id).0 e in ground (arith, e, o, p)
    go (inl e) (inr (b, o)) = let p : k ≡ id = (str_eq_iff k id).0 e in ground (arith, e, o, p)
    go (inr e) (inl o) = ground (arith, e, o)
    go (inr e) (inr (b, o)) = ground (arith, e, o)

add_member-at :
    (owners : List String) (k id : String) (m : Flags)
    → add_member owners k m id ≡ joined (str_eq k id) (elem id owners) (m id)
add_member-at owners k id m = go (Bool-cases (str_eq k id)) (Bool-cases (elem k owners))
  where
    at_k : k ≡ id → elem k owners ≡ elem id owners
    at_k p = ap (λ x. elem x owners) p

    full : (o : Option Bool) → some true ≡ joined true true o
    full none = refl
    full (some true) = refl
    full (some false) = refl

    go :
        (str_eq k id ≡ true) ⊎ (str_eq k id ≡ false)
        → (elem k owners ≡ true) ⊎ (elem k owners ≡ false)
        → add_member owners k m id ≡ joined (str_eq k id) (elem id owners) (m id)
    go (inl e) (inl o) =
        let q : elem id owners ≡ true = sym (at_k ((str_eq_iff k id).0 e)) ∙ o in
        rw (o, e, q) (full (m id))
    go (inl e) (inr o) =
        let q : elem id owners ≡ false = sym (at_k ((str_eq_iff k id).0 e)) ∙ o in
        rw (o, q) (touch-at k id m)
    go (inr e) (inl o) = rw (o, e) (touch-at k id m ∙ rw e refl)
    go (inr e) (inr o) = rw (o, e) (touch-at k id m ∙ rw e refl)

add_members-at :
    (owners ids : List String) (id : String) (m : Flags)
    → add_members owners ids m id ≡ joined (elem id ids) (elem id owners) (m id)
unfolding add_members
add_members-at owners [] id m = refl
add_members-at owners (k ∷ ids) id m =
    ground
      (arith, add_members-at owners ids id (add_member owners k m), add_member-at owners k id m)

add_record-at :
    (r : Record) (id : String) (m : Flags)
    → add_record r m id ≡ joined (names id r) (deletes id r) (m id)
unfolding add_record
add_record-at r id m = go (Bool-cases (r.version == 1)) (Bool-cases (r.version == 3))
  where
    o : Option Bool
    o = m id

    full : (s : Bool) (a : Option Bool) → (if s then some true else joined s false a) ≡ joined s s a
    full true none = refl
    full true (some true) = refl
    full true (some false) = refl
    full false a = refl

    merged :
        (s k w : Bool) (a : Option Bool)
        → joined k w (joined s false a) ≡ joined (s || k) (k && w) a
    merged true true w none = refl
    merged true true w (some true) = refl
    merged true true w (some false) = refl
    merged true false w a = refl
    merged false true w a = refl
    merged false false w a = refl

    own : (r.version == 1) ≡ true → (r.version == 3) ≡ false
    own e = ground arith

    plain : (s : Bool) (a : Option Bool) → joined s false a ≡ joined (s || false) false a
    plain true a = refl
    plain false a = refl

    item : (s : Bool) (a : Option Bool) → joined s s a ≡ joined (s || false) (s || false) a
    item true a = refl
    item false a = refl

    go :
        ((r.version == 1) ≡ true) ⊎ ((r.version == 1) ≡ false)
        → ((r.version == 3) ≡ true) ⊎ ((r.version == 3) ≡ false)
        → add_record r m id ≡ joined (names id r) (deletes id r) (m id)
    go (inl e) x =
        rw (e, own e, touch-at r.item_id id m)
          (full (str_eq r.item_id id) (m id) ∙ item (str_eq r.item_id id) (m id))
    go (inr e) (inl g) =
        rw (e, g)
          (add_members-at (result_owners r.files) (members_of r) id (touch r.item_id m)
            ∙ ap (joined (elem id (members_of r)) (elem id (result_owners r.files)))
                (touch-at r.item_id id m)
            ∙ merged (str_eq r.item_id id) (elem id (members_of r))
                (elem id (result_owners r.files)) (m id))
    go (inr e) (inr g) = rw (e, g) (touch-at r.item_id id m ∙ plain (str_eq r.item_id id) (m id))

-- Only a receipt that names an item deletes it.
deletes-names : (id : String) (r : Record) → names id r ≡ false → deletes id r ≡ false
deletes-names id r h = ground arith

any_deletes-names :
    (id : String) (rs : List Record) → any_of (names id) rs ≡ false → any_of (deletes id) rs ≡ false
any_deletes-names id [] h = refl
any_deletes-names id (r ∷ rs) h =
    let parts = ||-eq-false (names id r) (any_of (names id) rs) h in
    rw (deletes-names id r parts.0, any_deletes-names id rs parts.1) refl

joined-joined :
    (n d k e : Bool) (a : Option Bool)
    → (n ≡ false → d ≡ false)
    → (k ≡ false → e ≡ false)
    → joined k e (joined n d a) ≡ joined (n || k) (d || e) a
joined-joined true true true e none h g = refl
joined-joined true true true e (some true) h g = refl
joined-joined true true true e (some false) h g = refl
joined-joined true false true e none h g = refl
joined-joined true false true e (some true) h g = refl
joined-joined true false true e (some false) h g = refl
joined-joined true true false e none h g = refl
joined-joined true true false e (some true) h g = refl
joined-joined true true false e (some false) h g = refl
joined-joined true false false e a h g = rw (g refl) refl
joined-joined false d k e a h g = rw (h refl) refl

read_record-broken :
    (env : Paths) (tree : Tree) (n : String)
    → read_record env tree n (some broken) ≡ raise value_error
unfolding read_record
read_record-broken env tree n = refl

read_record-valid :
    (env : Paths) (tree : Tree) (n : String) (r : Record)
    → is_valid_record env tree n r ≡ true
    → read_record env tree n (some (complete r)) ≡ ok r
unfolding read_record
read_record-valid env tree n r v = rw v refl

read_record-invalid :
    (env : Paths) (tree : Tree) (n : String) (r : Record)
    → is_valid_record env tree n r ≡ false
    → read_record env tree n (some (complete r)) ≡ raise value_error
unfolding read_record
read_record-invalid env tree n r v = rw v refl

same_ok : {m k : Flags} → Path (Result Flags) (ok m) (ok k) → k ≡ m
same_ok h = cc

-- The last word on an item is that of all the receipts together: it has a flag if a receipt names it,
-- and its result is deleted if one of them deletes it. The flags from before count too.
pub committed_flags-receipts :
    (env : Paths) (tree : Tree) (fs : List Folder) (m flags : Flags)
    → committed_flags env tree fs m ≡ ok flags
    → (id : String)
    → flags id ≡ joined (any_of (names id) (receipts fs)) (any_of (deletes id) (receipts fs)) (m id)
unfolding committed_flags
committed_flags-receipts env tree [] m flags h id = ap (λ (k : Flags). k id) (same_ok h)
committed_flags-receipts env tree (f ∷ fs) m flags h id =
    go (λ k e. committed_flags-receipts env tree fs k flags e id) f.committed_file refl
  where
    Rest : Flags → Type 0
    Rest k =
        committed_flags env tree fs k ≡ ok flags
        → flags id
          ≡ joined (any_of (names id) (receipts fs)) (any_of (deletes id) (receipts fs)) (k id)

    go :
        ((k : Flags) → Rest k)
        → (c : Option Content) → f.committed_file ≡ c
        → flags id
          ≡ joined
              (any_of (names id) (receipts (f ∷ fs)))
              (any_of (deletes id) (receipts (f ∷ fs)))
              (m id)
    go again none e = rw e (again m (rw e at h))
    go again (some broken) e = absurd (cc (rw (e, read_record-broken env tree f.name) at h))
    go again (some (complete r)) e = elim (Bool-cases (is_valid_record env tree f.name r)) [
      | inl v ↦ rw e (
          again (add_record r m) (rw (e, read_record-valid env tree f.name r v) at h)
          ∙ ap (joined (any_of (names id) (receipts fs)) (any_of (deletes id) (receipts fs)))
              (add_record-at r id m)
          ∙ joined-joined (names id r) (deletes id r) (any_of (names id) (receipts fs))
              (any_of (deletes id) (receipts fs)) (m id) (deletes-names id r)
              (any_deletes-names id (receipts fs)))
      | inr v ↦ absurd (cc (rw (e, read_record-invalid env tree f.name r v) at h))
    ]
