-- ===== src/History/Recovery/Invariant.antt =====
-- Where the files of a transaction are, and what its folder says, at each point of its life.
use mllm_windows_ai_workbenc.Prelude.{
  ℕ, String, ◌≡◌, ◌∙◌, ◌≢◌, ◌⊎◌, inl, inr, false, Option, none, some, List, arith, str_eq_iff,
}
use mllm_windows_ai_workbenc.History.Record.{Node, file, Entry}
use mllm_windows_ai_workbenc.History.Reading.{Tree}
use mllm_windows_ai_workbenc.History.Local.{Local, write_at, write_bin, take_out, put_back}
use mllm_windows_ai_workbenc.History.Recovery.Entries.{In, Apart, Distinct, same_or_different}

pub write_at_self : (p : String) (v : Option Node) (t : Tree) → write_at p v t p ≡ v
write_at_self p v t = ground (arith, str_eq_iff p p)

pub write_at-ne : (p q : String) (v : Option Node) (t : Tree) → p ≢ q → write_at p v t q ≡ t q
write_at-ne p q v t h = ground (arith, str_eq_iff p q)

pub write_bin_self : (i : ℕ) (v : Option Node) (b : ℕ → Option Node) → write_bin i v b i ≡ v
write_bin_self i v b = ground arith

pub write_bin-ne :
    (i j : ℕ) (v : Option Node) (b : ℕ → Option Node) → i ≢ j → write_bin i v b j ≡ b j
write_bin-ne i j v b h = ground arith

-- The recorded file stands in the tree, or in the folder.
pub record Kept (d : Local) (a : Entry) : Type 0 where
  pub there : d.tree a.source ≡ some (file a.info)
  pub unstaged : d.folder.bins a.staged ≡ none

pub record Staged (d : Local) (a : Entry) : Type 0 where
  pub gone : d.tree a.source ≡ none
  pub held : d.folder.bins a.staged ≡ some (file a.info)

-- A move of one entry leaves the apart ones in place.
pub take_out-Kept : (d : Local) (x a : Entry) → Apart x a → Kept d a → Kept (take_out x d) a
take_out-Kept d x a p k = record {
  there = write_at-ne x.source a.source none d.tree p.sources ∙ k.there;
  unstaged = write_bin-ne x.staged a.staged (d.tree x.source) d.folder.bins p.numbers ∙ k.unstaged;
}

pub take_out-Staged : (d : Local) (x a : Entry) → Apart x a → Staged d a → Staged (take_out x d) a
take_out-Staged d x a p k = record {
  gone = write_at-ne x.source a.source none d.tree p.sources ∙ k.gone;
  held = write_bin-ne x.staged a.staged (d.tree x.source) d.folder.bins p.numbers ∙ k.held;
}

pub take_out_self : (d : Local) (x : Entry) → Kept d x → Staged (take_out x d) x
take_out_self d x k = record {
  gone = write_at_self x.source none d.tree;
  held = write_bin_self x.staged (d.tree x.source) d.folder.bins ∙ k.there;
}

pub put_back-Kept : (d : Local) (x a : Entry) → Apart x a → Kept d a → Kept (put_back x d) a
put_back-Kept d x a p k = record {
  there = write_at-ne x.source a.source (d.folder.bins x.staged) d.tree p.sources ∙ k.there;
  unstaged = write_bin-ne x.staged a.staged none d.folder.bins p.numbers ∙ k.unstaged;
}

pub put_back-Staged : (d : Local) (x a : Entry) → Apart x a → Staged d a → Staged (put_back x d) a
put_back-Staged d x a p k = record {
  gone = write_at-ne x.source a.source (d.folder.bins x.staged) d.tree p.sources ∙ k.gone;
  held = write_bin-ne x.staged a.staged none d.folder.bins p.numbers ∙ k.held;
}

pub put_back_self : (d : Local) (x : Entry) → Staged d x → Kept (put_back x d) x
put_back_self d x k = record {
  there = write_at_self x.source (d.folder.bins x.staged) d.tree ∙ k.held;
  unstaged = write_bin_self x.staged none d.folder.bins;
}

module _ (orig : Tree) (n : String) (files : List Entry) where
  -- Each file is in one place with its identity, and nothing else of the disk has changed.
  pub record Base (d : Local) : Type 0 where
    pub name : d.folder.name ≡ n
    pub clean : d.folder.foreign ≡ false
    pub placed : (a : Entry) → In a files → Kept d a ⊎ Staged d a
    pub others : (p : String) → ((a : Entry) → In a files → a.source ≢ p) → d.tree p ≡ orig p
    pub bins_others : (i : ℕ) → ((a : Entry) → In a files → a.staged ≢ i) → d.folder.bins i ≡ none

module _ (orig : Tree) (n : String) (files : List Entry) (distinct : Distinct files) where
  pub take_out-Base :
      (d : Local) (x : Entry)
      → In x files
      → Kept d x
      → Base orig n files d
      → Base orig n files (take_out x d)
  take_out-Base d x i k b = record {
    name = b.name;
    clean = b.clean;
    placed = λ a j. place a j (same_or_different files x a distinct i j);
    others = λ p h. write_at-ne x.source p none d.tree (h x i) ∙ b.others p h;
    bins_others =
        λ q h. write_bin-ne x.staged q (d.tree x.source) d.folder.bins (h x i) ∙ b.bins_others q h;
  }
    where
      stay :
          (a : Entry)
          → Apart x a
          → Kept d a ⊎ Staged d a
          → Kept (take_out x d) a ⊎ Staged (take_out x d) a
      stay a p (inl u) = inl (take_out-Kept d x a p u)
      stay a p (inr u) = inr (take_out-Staged d x a p u)

      place :
          (a : Entry)
          → In a files
          → (x ≡ a) ⊎ Apart x a
          → Kept (take_out x d) a ⊎ Staged (take_out x d) a
      place a j (inl e) = inr (rw (← e) (take_out_self d x k))
      place a j (inr p) = stay a p (b.placed a j)

  pub put_back-Base :
      (d : Local) (x : Entry)
      → In x files
      → Staged d x
      → Base orig n files d
      → Base orig n files (put_back x d)
  put_back-Base d x i k b = record {
    name = b.name;
    clean = b.clean;
    placed = λ a j. place a j (same_or_different files x a distinct i j);
    others = λ p h. write_at-ne x.source p (d.folder.bins x.staged) d.tree (h x i) ∙ b.others p h;
    bins_others = λ q h. write_bin-ne x.staged q none d.folder.bins (h x i) ∙ b.bins_others q h;
  }
    where
      stay :
          (a : Entry)
          → Apart x a
          → Kept d a ⊎ Staged d a
          → Kept (put_back x d) a ⊎ Staged (put_back x d) a
      stay a p (inl u) = inl (put_back-Kept d x a p u)
      stay a p (inr u) = inr (put_back-Staged d x a p u)

      place :
          (a : Entry)
          → In a files
          → (x ≡ a) ⊎ Apart x a
          → Kept (put_back x d) a ⊎ Staged (put_back x d) a
      place a j (inl e) = inl (rw (← e) (put_back_self d x k))
      place a j (inr p) = stay a p (b.placed a j)
