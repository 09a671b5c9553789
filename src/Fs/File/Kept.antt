-- ===== src/Fs/File/Kept.antt =====
-- What a file keeps when it gets one more block.
use os_exp.Base.{
  sym, ℕ, ◌<◌, ◌≡◌, refl, ap, ◌∙◌, ◌≢◌, ◌⊎◌, inl, inr, true, arith, ◌==◌, Bool-cases, update,
}
use os_exp.Block.{Block}
use os_exp.Fs.{Blocks, Superblock, change, bblock}
use os_exp.Fs.Alloc.{Allocated}
use os_exp.Fs.Inode.{Inode}
use os_exp.Fs.Bitmap.{used}
use os_exp.Fs.Inode.{ndirect}
use os_exp.Fs.File.{maxfile}
use os_exp.Fs.File.Mapping.{block_of, byte_in, IsFile, Grows, kept-contents}

-- Each block that has changed is in the log.
abbrev pub Logs : Blocks → Blocks → Type 0
Logs s t =
    (b : ℕ) → (t.logged b ≡ true) ⊎ ((t.contents b ≡ s.contents b) × (t.logged b ≡ s.logged b))

pub trans-Logs : (s t u : Blocks) → Logs s t → Logs t u → Logs s u
trans-Logs s t u l m b = elim (m b) [
  | inl y ↦ inl y
  | inr (c, g) ↦ elim (l b) [ inl y ↦ inl (g ∙ y) | inr (d, h) ↦ inr (c ∙ d, g ∙ h) ]
]

pub change-Logs : (s : Blocks) (a : ℕ) (x : Block) → Logs s (change a x s)
change-Logs s a x b = elim (Bool-cases (b == a)) [
  | inl y ↦ inl (rw y refl)
  | inr n ↦ inr (rw n (refl, refl))
]

pub kept_bytes :
    (s t : Blocks) (f : ℕ → ℕ) (n : ℕ)
    → (f n ≢ 0 → t.contents (f n) ≡ s.contents (f n))
    → (i : ℕ) → byte_in t (f n) i ≡ byte_in s (f n) i
kept_bytes s t f n kept i = elim (Bool-cases (f n == 0)) [
  | inl y ↦ rw y refl
  | inr e ↦ rw e (ap (λ (c : Block). c i) (kept λ z. ground (arith, e, z)))
]

zero_bytes : (t : Blocks) (r : ℕ) → t.contents r ≡ (λ _. 0) → (i : ℕ) → byte_in t r i ≡ 0
zero_bytes t r z i = elim (Bool-cases (r == 0)) [
  | inl y ↦ rw y refl
  | inr e ↦ rw e (ap (λ (c : Block). c i) z)
]

-- A zeroed block shows the zeros that were there before.
pub new_bytes :
    (s t : Blocks) (f g : ℕ → ℕ) (k r : ℕ)
    → ((n : ℕ) → g n ≡ update f k r n)
    → f k ≡ 0
    → t.contents r ≡ (λ _. 0)
    → (n : ℕ) → (f n ≢ 0 → t.contents (f n) ≡ s.contents (f n))
    → (i : ℕ) → byte_in t (g n) i ≡ byte_in s (f n) i
new_bytes s t f g k r eg z zeroed n kept i = elim (Bool-cases (n == k)) [
  | inl y ↦
      let n_k : n ≡ k = ground arith in
      let g_r : g n ≡ r = eg n ∙ rw y refl in
      let f_0 : f n ≡ 0 = ap f n_k ∙ z in rw (g_r, f_0) (zero_bytes t r zeroed i)
  | inr o ↦ let g_f : g n ≡ f n = eg n ∙ rw o refl in rw g_f (kept_bytes s t f n kept i)
]

-- The block `c` is none of the file's.
abbrev pub Avoids : Inode → Blocks → ℕ → Type 0
Avoids ip s c = ((n : ℕ) → n < maxfile → block_of ip s n ≢ c) × (ip.addrs ndirect ≢ c)

pub avoid-new :
    (f g : ℕ → ℕ) (k r c : ℕ)
    → ((n : ℕ) → g n ≡ update f k r n)
    → c ≢ r
    → ((n : ℕ) → n < maxfile → f n ≢ c)
    → (n : ℕ) → n < maxfile
    → g n ≢ c
avoid-new f g k r c eg ne b n h e = elim (Bool-cases (n == k)) [
  | inl y ↦ ne (sym e ∙ eg n ∙ rw y refl)
  | inr o ↦ b n h (sym (eg n ∙ rw o refl) ∙ e)
]

module _ (sb : Superblock) where
  pub record Kept (s : Blocks) (ip : Inode) (s' : Blocks) (ip' : Inode) : Type 0 where
    pub valid : IsFile sb s' ip'
    pub fields : ip' ≡ record ip { addrs = ip'.addrs }
    pub same :
        (n : ℕ)
        → n < maxfile
        → (i : ℕ) → byte_in s' (block_of ip' s' n) i ≡ byte_in s (block_of ip s n) i
    pub grows : Grows sb s s'
    pub logs : Logs s s'
    pub avoids : (c : ℕ) → c < sb.size → used sb s c ≡ true → Avoids ip s c → Avoids ip' s' c

  pub refl-Kept : (s : Blocks) (ip : Inode) → IsFile sb s ip → Kept s ip s ip
  refl-Kept s ip w = record {
    valid = w;
    fields = refl;
    same = λ n h i. refl;
    grows = λ b h u. u;
    logs = λ b. inr (refl, refl);
    avoids = λ c h u v. v;
  }

  pub trans-Kept :
      {s t u : Blocks} {ip jp kp : Inode} → Kept s ip t jp → Kept t jp u kp → Kept s ip u kp
  trans-Kept {s} {t} {u} {ip} {jp} {kp} k l = record {
    valid = l.valid;
    fields = l.fields ∙ ap (λ (q : Inode). record q { addrs = kp.addrs }) k.fields;
    same = λ n h i. l.same n h i ∙ k.same n h i;
    grows = λ b h e. l.grows b h (k.grows b h e);
    logs = trans-Logs s t u k.logs l.logs;
    avoids = λ c h e v. l.avoids c h (k.grows c h e) (k.avoids c h e v);
  }

  pub Allocated-Logs : {s s' : Blocks} (r : ℕ) → Allocated sb s r s' → Logs s s'
  Allocated-Logs {s} {s'} r a b = elim (Bool-cases (b == r)) [
    | inl y ↦ inl (a.logs b ∙ rw y refl)
    | inr n ↦ elim (Bool-cases (b == bblock r sb)) [
      | inl z ↦ inl (a.logs b ∙ rw (n, z) refl)
      | inr m ↦ inr (
        a.kept b (λ e. ground (arith, n, e)) (λ e. ground (arith, m, e)),
        a.logs b ∙ rw (n, m) refl,
      )
    ]
  ]

  pub mapped-contents :
      {s s' : Blocks} {ip : Inode} (r : ℕ)
      → IsFile sb s ip
      → Allocated sb s r s'
      → (n : ℕ) → n < maxfile
      → block_of ip s n ≢ 0
      → s'.contents (block_of ip s n) ≡ s.contents (block_of ip s n)
  mapped-contents {s} {s'} {ip} r w a n h ne =
      let (d, u) = w.mapping.in_use n h ne in kept-contents sb r (block_of ip s n) a d u
