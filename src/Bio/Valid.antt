-- ===== src/Bio/Valid.antt =====
-- The cache is well formed, and what the searches find.
use os_exp.Base.{
  ℕ, ◌<◌, ◌≡◌, sym, ap, ◌∙◌, ◌≢◌, ◌↔◌, inl, inr, true, none, some, List, [], ◌∷◌, arith, ◌==◌,
  Bool-cases, Option-cases, elem, Distinct,
}
use os_exp.Bio.{Buf, Bcache, nbuf, holds, find_cached, find_unused}

-- The device of the file system.
abbrev pub rootdev : ℕ
rootdev = 1

pub record IsCache (s : Bcache) : Type 0 where
  -- the list has every buffer once
  pub listed : (b : ℕ) → (elem b s.order ≡ true) ↔ (b < nbuf)
  pub once : Distinct s.order
  -- a block is in one buffer at most
  pub unique :
      (i j : ℕ)
      → i < nbuf
      → j < nbuf
      → (s.buf i).dev ≡ rootdev
      → (s.buf j).dev ≡ rootdev
      → (s.buf i).blockno ≡ (s.buf j).blockno
      → i ≡ j
  -- an unused buffer has nothing that the disk has not, and nobody has locked it
  pub settled :
      (b : ℕ)
      → b < nbuf
      → (s.buf b).refcnt ≡ 0
      → (s.buf b).dev ≡ rootdev
      → (s.buf b).valid ≡ true
      → (s.buf b).bytes ≡ s.disk (s.buf b).blockno
  pub unlocked : (b : ℕ) → b < nbuf → (s.buf b).locked ≡ true → 0 < (s.buf b).refcnt

pub find_cached-some :
    (dev k : ℕ) (order : List ℕ) (buf : ℕ → Buf) (b : ℕ)
    → find_cached dev k order buf ≡ some b
    → (elem b order ≡ true) × ((buf b).dev ≡ dev) × ((buf b).blockno ≡ k)
unfolding find_cached
find_cached-some dev k [] buf b e = cc
find_cached-some dev k (x ∷ xs) buf b e = elim (Bool-cases (holds dev k (buf x))) [
  | inl y ↦
      let x_b : x ≡ b = cc (rw y at e) in
      (
        ground (arith, x_b),
        ground (arith, ap (λ i. (buf i).dev) x_b),
        ground (arith, ap (λ i. (buf i).blockno) x_b),
      )
  | inr n ↦ let (m, d, o) = find_cached-some dev k xs buf b (rw n at e) in (ground (arith, m), d, o)
]

pub find_cached-none :
    (dev k : ℕ) (order : List ℕ) (buf : ℕ → Buf)
    → find_cached dev k order buf ≡ none
    → (b : ℕ) → elem b order ≡ true
    → (buf b).dev ≡ dev
    → (buf b).blockno ≢ k
unfolding find_cached
find_cached-none dev k [] buf e b m d o = cc
find_cached-none dev k (x ∷ xs) buf e b m d o = elim (Bool-cases (holds dev k (buf x))) [
  | inl y ↦ cc (rw y at e)
  | inr n ↦ elim (Bool-cases (b == x)) [
    | inl y ↦
        let b_x : b ≡ x = ground arith in
        ground (arith, ap (λ i. (buf i).dev) b_x, ap (λ i. (buf i).blockno) b_x)
    | inr ne ↦ find_cached-none dev k xs buf (rw n at e) b (ground arith) d o
  ]
]

pub find_unused-some :
    (order : List ℕ) (buf : ℕ → Buf) (b : ℕ)
    → find_unused order buf ≡ some b
    → (elem b order ≡ true) × ((buf b).refcnt ≡ 0)
unfolding find_unused
find_unused-some [] buf b e = cc
find_unused-some (x ∷ xs) buf b e = elim (Option-cases (find_unused xs buf)) [
  | inl n ↦ elim (Bool-cases ((buf x).refcnt == 0)) [
    | inl y ↦
        let x_b : x ≡ b = cc (rw (n, y) at e) in
        (ground (arith, x_b), ground (arith, ap (λ i. (buf i).refcnt) x_b))
    | inr f ↦ cc (rw (n, f) at e)
  ]
  | inr (c, h) ↦
      let (m, z) = find_unused-some xs buf c h in
      let c_b : c ≡ b = cc (rw h at e) in
      (ground (arith, m, c_b), ap (λ i. (buf i).refcnt) (sym c_b) ∙ z)
]

pub find_unused-none :
    (order : List ℕ) (buf : ℕ → Buf)
    → find_unused order buf ≡ none
    → (b : ℕ) → elem b order ≡ true
    → 0 < (buf b).refcnt
unfolding find_unused
find_unused-none [] buf e b m = cc
find_unused-none (x ∷ xs) buf e b m = elim (Option-cases (find_unused xs buf)) [
  | inl n ↦ elim (Bool-cases ((buf x).refcnt == 0)) [
    | inl y ↦ cc (rw (n, y) at e)
    | inr f ↦ elim (Bool-cases (b == x)) [
      | inl y ↦ let b_x : b ≡ x = ground arith in ground (arith, ap (λ i. (buf i).refcnt) b_x)
      | inr ne ↦ find_unused-none xs buf n b (ground arith)
    ]
  ]
  | inr (c, h) ↦ cc (rw h at e)
]
