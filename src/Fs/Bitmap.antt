-- ===== src/Fs/Bitmap.antt =====
-- `balloc` and `bfree` keep the bitmap.
use os_exp.Base.{
  ℕ, zero, suc, ◌+◌, ◌-◌, ◌*◌, ◌/◌, ◌%◌, ◌≤◌, ◌<◌, min, ◌≡◌, refl, ap, ◌∙◌, ◌⊎◌, inl, inr, Bool,
  true, false, not, ◌&&◌, ◌||◌, Option, none, some, arith, ltb, ◌==◌, Bool-cases,
}
use os_exp.Block.{Block}
use os_exp.Fs.{
  Blocks, Superblock, change, bpb, bblock, bzero, is_free, mark, unmark, find_free, after,
  balloc_loop,
}
use os_exp.Fs.Bits.{bit_or-clear, bit_and-clear}

abbrev pub IsBytes : Block → Type 0
IsBytes x = (i : ℕ) → x i < 256

pub is_free-mark :
    (x : Block) (i j : ℕ) → IsBytes x → is_free (mark x i) j ≡ (not (j == i) && is_free x j)
is_free-mark x i j w = elim (Bool-cases (j / 8 == i / 8)) [
  | inl y ↦
      let (e, _) =
        bit_or-clear (x (i / 8)) (i % 8) (j % 8) (w (i / 8)) (omega arith) (omega arith) in
      let byte : j / 8 ≡ i / 8 = ground arith in
      let same : (j % 8 == i % 8) ≡ (j == i) = ground arith in rw (y, byte) (e ∙ rw same refl)
  | inr n ↦ let other : (j == i) ≡ false = ground arith in rw (n, other) refl
]

pub is_free-unmark :
    (x : Block) (i j : ℕ) → IsBytes x → is_free (unmark x i) j ≡ ((j == i) || is_free x j)
is_free-unmark x i j w = elim (Bool-cases (j / 8 == i / 8)) [
  | inl y ↦
      let (e, _) =
        bit_and-clear (x (i / 8)) (i % 8) (j % 8) (w (i / 8)) (omega arith) (omega arith) in
      let byte : j / 8 ≡ i / 8 = ground arith in
      let same : (j % 8 == i % 8) ≡ (j == i) = ground arith in rw (y, byte) (e ∙ rw same refl)
  | inr n ↦ let other : (j == i) ≡ false = ground arith in rw (n, other) refl
]

pub mark-IsBytes : (x : Block) (i : ℕ) → IsBytes x → IsBytes (mark x i)
mark-IsBytes x i w j = elim (Bool-cases (j == i / 8)) [
  | inl y ↦
      let (_, lt) = bit_or-clear (x (i / 8)) (i % 8) 0 (w (i / 8)) (omega arith) (omega arith) in
      rw y lt
  | inr n ↦ rw n (w j)
]

pub unmark-IsBytes : (x : Block) (i : ℕ) → IsBytes x → IsBytes (unmark x i)
unmark-IsBytes x i w j = elim (Bool-cases (j == i / 8)) [
  | inl y ↦
      let (_, lt) = bit_and-clear (x (i / 8)) (i % 8) 0 (w (i / 8)) (omega arith) (omega arith) in
      rw y lt
  | inr n ↦ rw n (w j)
]

-- The first free bit among the `k` from `bi` on.
abbrev Found : Block → ℕ → ℕ → Option ℕ → Type 0
Found x k bi none = (j : ℕ) → bi ≤ j → j < bi + k → is_free x j ≡ false
Found x k bi (some c) =
    (bi ≤ c)
    × (c < bi + k)
    × (is_free x c ≡ true)
    × ((j : ℕ) → bi ≤ j → j < c → is_free x j ≡ false)

next-Found :
    (x : Block) (k bi : ℕ) (r : Option ℕ)
    → is_free x bi ≡ false
    → Found x k (bi + 1) r
    → Found x (suc k) bi r
next-Found x k bi none e f = λ j lo hi. elim (Bool-cases (j == bi)) [
  | inl y ↦ let j_b : j ≡ bi = ground arith in ap (is_free x) j_b ∙ e
  | inr n ↦ f j (ground arith) (omega arith)
]
next-Found x k bi (some c) e f = (
  omega arith,
  omega arith,
  f.2,
  λ j lo hi. elim (Bool-cases (j == bi)) [
    | inl y ↦ let j_b : j ≡ bi = ground arith in ap (is_free x) j_b ∙ e
    | inr n ↦ f.3 j (ground arith) hi
  ],
)

find_free-Found : (x : Block) (k bi : ℕ) → Found x k bi (find_free x k bi)
unfolding find_free
find_free-Found x zero bi = λ j lo hi. absurd (omega arith)
find_free-Found x (suc k) bi = elim (Bool-cases (is_free x bi)) [
  | inl y ↦ rw y (omega arith, omega arith, y, λ j lo hi. absurd (omega arith))
  | inr n ↦ rw n (next-Found x k bi (find_free x k (bi + 1)) n (find_free-Found x k (bi + 1)))
]

module _ (sb : Superblock) where
  -- The bitmap says that block `b` is in use.
  abbrev pub used : Blocks → ℕ → Bool
  used s b = not (is_free (s.contents (bblock b sb)) (b % bpb))

  -- What a call of `balloc` that looks at the blocks from `b` on comes to.
  abbrev pub Outcome_ : ℕ → Blocks → ℕ × Blocks → Type 0
  Outcome_ b s (r, s') =
      ((r ≡ 0) × (s' ≡ s) × ((j : ℕ) → b ≤ j → j < sb.size → used s j ≡ true))
      ⊎ ((b ≤ r)
          × (r < sb.size)
          × (used s r ≡ false)
          × ((j : ℕ) → b ≤ j → j < r → used s j ≡ true)
          × (s' ≡ bzero r (change (bblock r sb) (mark (s.contents (bblock r sb)) (r % bpb)) s)))

  in_block :
      (b bi : ℕ) → b % bpb ≡ 0 → bi < bpb → ((b + bi) / bpb ≡ b / bpb) × ((b + bi) % bpb ≡ bi)
  in_block b bi e h = omega arith

  round-used :
      (b : ℕ) (s : Blocks) (j : ℕ)
      → b % bpb ≡ 0
      → b ≤ j
      → j < b + bpb
      → is_free (s.contents (bblock b sb)) (j - b) ≡ false
      → used s j ≡ true
  round-used b s j al lo hi e =
      let block : j / bpb ≡ b / bpb = omega arith in
      let bit : j % bpb ≡ j - b = omega arith in rw (block, bit, e) refl

  more-Outcome :
      (b : ℕ) (s : Blocks) (r : ℕ × Blocks)
      → ((j : ℕ) → b ≤ j → j < b + bpb → j < sb.size → used s j ≡ true)
      → Outcome_ (b + bpb) s r
      → Outcome_ b s r
  more-Outcome b s (r, s') h (inl (z, e, u)) = inl (
    z,
    e,
    λ j lo hi. elim (Bool-cases (ltb j (b + bpb))) [
      | inl y ↦ h j lo (ground arith) hi
      | inr n ↦ u j (ground arith) hi
    ],
  )
  more-Outcome b s (r, s') h (inr (lo', hi', f, u, e)) = inr (
    omega arith,
    hi',
    f,
    (λ j lo hi. elim (Bool-cases (ltb j (b + bpb))) [
      | inl y ↦ h j lo (ground arith) (omega arith)
      | inr n ↦ u j (ground arith) hi
    ]),
    e,
  )

  -- One round of the outer loop.
  after-Outcome :
      (b : ℕ) (s : Blocks) (rest : ℕ × Blocks) (found : Option ℕ)
      → b % bpb ≡ 0
      → b < sb.size
      → Found (s.contents (bblock b sb)) (min bpb (sb.size - b)) 0 found
      → Outcome_ (b + bpb) s rest
      → Outcome_ b s (after sb b s rest found)
  after-Outcome b s rest none al lt f o =
      more-Outcome b s rest
        (λ j lo hi small. round-used b s j al lo hi (f (j - b) (omega arith) (omega arith))) o
  after-Outcome b s rest (some bi) al lt f o =
      let (block, bit) = in_block b bi al (omega (arith, f.1)) in
      inr (
        omega arith,
        omega (arith, f.1),
        rw (block, bit, f.2) refl,
        (λ j lo hi.
            round-used b s j al lo (omega (arith, f.1)) (f.3 (j - b) (omega arith) (omega arith))),
        rw (block, bit) refl,
      )

  pub balloc_loop-Outcome :
      (fuel b : ℕ) (s : Blocks)
      → b % bpb ≡ 0
      → sb.size < b + fuel * bpb
      → Outcome_ b s (balloc_loop sb fuel b s)
  unfolding balloc_loop
  balloc_loop-Outcome zero b s al enough = inl (refl, refl, λ j lo hi. absurd (omega arith))
  balloc_loop-Outcome (suc fuel) b s al enough = elim (Bool-cases (ltb b sb.size)) [
    | inl y ↦ rw y (
        after-Outcome b s (balloc_loop sb fuel (b + bpb) s)
          (find_free (s.contents (bblock b sb)) (min bpb (sb.size - b)) 0) al (ground arith)
          (find_free-Found (s.contents (bblock b sb)) (min bpb (sb.size - b)) 0)
          (balloc_loop-Outcome fuel (b + bpb) s (omega arith) (omega arith)))
    | inr n ↦ rw n (inl (refl, refl, λ j lo hi. absurd (ground arith)))
  ]
