-- ===== src/Bio/View.antt =====
-- What the cache and the disk together show of each block, and when a change of one buffer keeps the
-- cache well formed.
use os_exp.Base.{
  ℕ, ◌<◌, ◌≡◌, sym, ap, ◌∙◌, ◌⊎◌, inl, inr, Option, none, some, if◌then◌else◌, Option-cases,
}
use os_exp.Block.{Block, Disk}
use os_exp.Bio.{Buf, Bcache, nbuf, find_cached}
use os_exp.Bio.Valid.{rootdev, IsCache, find_cached-some, find_cached-none}

abbrev pub content : Buf → Block → Block
content x on_disk = if x.valid then x.bytes else on_disk

abbrev shown : Bcache → ℕ → Option ℕ → Block
shown s k none = s.disk k
shown s k (some b) = content (s.buf b) (s.disk k)

-- The current contents of block `k`.
abbrev pub view : Bcache → Disk
view s k = shown s k (find_cached rootdev k s.order s.buf)

abbrev pub Has : Bcache → ℕ → ℕ → Type 0
Has s k i = (i < nbuf) × ((s.buf i).dev ≡ rootdev) × ((s.buf i).blockno ≡ k)

pub at_some :
    (s : Bcache) (k i : ℕ) → IsCache s → Has s k i → view s k ≡ content (s.buf i) (s.disk k)
at_some s k i w h = elim (Option-cases (find_cached rootdev k s.order s.buf)) [
  | inl n ↦ absurd (find_cached-none rootdev k s.order s.buf n i ((w.listed i).1 h.0) h.1 h.2)
  | inr (b, e) ↦
      let (m, d, o) = find_cached-some rootdev k s.order s.buf b e in
      let same : b ≡ i = w.unique b i ((w.listed b).0 m) h.0 d h.1 (o ∙ sym h.2) in
      ap (shown s k) e ∙ ap (λ j. content (s.buf j) (s.disk k)) same
]

pub at_none : (s : Bcache) (k : ℕ) → IsCache s → ((i : ℕ) → ¬ (Has s k i)) → view s k ≡ s.disk k
at_none s k w h = elim (Option-cases (find_cached rootdev k s.order s.buf)) [
  | inl n ↦ ap (shown s k) n
  | inr (b, e) ↦
      let (m, d, o) = find_cached-some rootdev k s.order s.buf b e in
      absurd (h b ((w.listed b).0 m, d, o))
]

pub where_is : (s : Bcache) (k : ℕ) → IsCache s → ((i : ℕ) × Has s k i) ⊎ ((i : ℕ) → ¬ (Has s k i))
where_is s k w = elim (Option-cases (find_cached rootdev k s.order s.buf)) [
  | inl n ↦ inr λ i h. find_cached-none rootdev k s.order s.buf n i ((w.listed i).1 h.0) h.1 h.2
  | inr (b, e) ↦
      let (m, d, o) = find_cached-some rootdev k s.order s.buf b e in
      inl (b, ((w.listed b).0 m, d, o))
]
