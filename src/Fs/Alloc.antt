-- ===== src/Fs/Alloc.antt =====
-- What `balloc` and `bfree` promise their callers.
use os_exp.Base.{
  ℕ, ◌+◌, ◌/◌, ◌%◌, ◌<◌, ◌≡◌, refl, sym, ap, ◌∙◌, subst, ◌≢◌, ◌↔◌, ◌⊎◌, inl, inr, Bool, true, false,
  not, ◌&&◌, ◌||◌, arith, ◌==◌, if◌then◌else◌, Bool-cases, update_self, update_ne, returned,
  panicked,
}
use os_exp.Fs.{Blocks, Superblock, change, bpb, bblock, bzero, is_free, mark, unmark, balloc, bfree}
use os_exp.Fs.Bitmap.{
  IsBytes, is_free-mark, is_free-unmark, mark-IsBytes, unmark-IsBytes, used, balloc_loop-Outcome,
}

not-and : (a b : Bool) → not (not a && b) ≡ (a || not b)
not-and true b = refl
not-and false b = refl

not-or : (a b : Bool) → not (a || b) ≡ (not a && not b)
not-or true b = refl
not-or false b = refl

either_true : (a b c : Bool) → (if a then true else if b then true else c) ≡ (a || b || c)
either_true true b c = refl
either_true false true c = refl
either_true false false c = refl

module _ (sb : Superblock) where
  -- The bitmap is made of bytes, and has its own blocks and the boot block in use.
  pub record IsBitmap (s : Blocks) : Type 0 where
    pub bytes : (b : ℕ) → b < sb.size → IsBytes (s.contents (bblock b sb))
    pub own : (b : ℕ) → b < sb.size → (bblock b sb < sb.size) × (used sb s (bblock b sb) ≡ true)
    pub boot : used sb s 0 ≡ true

  -- `r` is a block that was free; it is in use now and zeroed.
  pub record Allocated (s : Blocks) (r : ℕ) (s' : Blocks) : Type 0 where
    pub positive : 0 < r
    pub in_range : r < sb.size
    pub was_free : used sb s r ≡ false
    pub now_used : (b : ℕ) → b < sb.size → used sb s' b ≡ ((b == r) || used sb s b)
    pub zeroed : s'.contents r ≡ (λ _. 0)
    pub kept : (b : ℕ) → b ≢ r → b ≢ bblock r sb → s'.contents b ≡ s.contents b
    pub logs : (b : ℕ) → s'.logged b ≡ ((b == r) || (b == bblock r sb) || s.logged b)
    pub valid : IsBitmap s'

  same_bit : (b r : ℕ) → (b / bpb == r / bpb) ≡ true → (b % bpb == r % bpb) ≡ (b == r)
  same_bit b r e = ground arith

  -- A change of one bit shows in the bitmap for one block, whatever else is done to a block that the
  -- bitmap has not in it.
  module _ (s : Blocks) (w : IsBitmap s) (r : ℕ) (hr : r < sb.size) where
    abbrev marked : Blocks
    marked = change (bblock r sb) (mark (s.contents (bblock r sb)) (r % bpb)) s

    abbrev unmarked : Blocks
    unmarked = change (bblock r sb) (unmark (s.contents (bblock r sb)) (r % bpb)) s

    other_block : (b : ℕ) → (b / bpb == r / bpb) ≡ false → (bblock b sb == bblock r sb) ≡ false
    other_block b n = ground arith

    same_block : (b : ℕ) → (b / bpb == r / bpb) ≡ true → (b / bpb ≡ r / bpb)
    same_block b n = ground arith

    used-marked : (b : ℕ) → used sb marked b ≡ ((b == r) || used sb s b)
    used-marked b = elim (Bool-cases (b / bpb == r / bpb)) [
      | inl y ↦
          let block = same_block b y in
          rw
            (
              block,
              update_self s.contents (bblock r sb) (mark (s.contents (bblock r sb)) (r % bpb)),
              is_free-mark (s.contents (bblock r sb)) (r % bpb) (b % bpb) (w.bytes r hr),
              same_bit b r y,
            )
            (not-and (b == r) _)
      | inr n ↦
          let far = other_block b n in
          let differ : (b == r) ≡ false = ground arith in rw (far, differ) refl
    ]

    used-unmarked : (b : ℕ) → used sb unmarked b ≡ (not (b == r) && used sb s b)
    used-unmarked b = elim (Bool-cases (b / bpb == r / bpb)) [
      | inl y ↦
          let block = same_block b y in
          rw
            (
              block,
              update_self s.contents (bblock r sb) (unmark (s.contents (bblock r sb)) (r % bpb)),
              is_free-unmark (s.contents (bblock r sb)) (r % bpb) (b % bpb) (w.bytes r hr),
              same_bit b r y,
            )
            (not-or (b == r) _)
      | inr n ↦
          let far = other_block b n in
          let differ : (b == r) ≡ false = ground arith in rw (far, differ) refl
    ]

    marked-IsBytes : (b : ℕ) → b < sb.size → IsBytes (marked.contents (bblock b sb))
    marked-IsBytes b h = elim (Bool-cases (bblock b sb == bblock r sb)) [
      | inl y ↦ rw y (mark-IsBytes (s.contents (bblock r sb)) (r % bpb) (w.bytes r hr))
      | inr n ↦ rw n (w.bytes b h)
    ]

    unmarked-IsBytes : (b : ℕ) → b < sb.size → IsBytes (unmarked.contents (bblock b sb))
    unmarked-IsBytes b h = elim (Bool-cases (bblock b sb == bblock r sb)) [
      | inl y ↦ rw y (unmark-IsBytes (s.contents (bblock r sb)) (r % bpb) (w.bytes r hr))
      | inr n ↦ rw n (w.bytes b h)
    ]

    not_own : used sb s r ≡ false → (b : ℕ) → b < sb.size → bblock b sb ≢ r
    not_own free b h e = cc ((w.own b h).1, ap (used sb s) e, free)

    used-bzero : (t : Blocks) (b : ℕ) → bblock b sb ≢ r → used sb (bzero r t) b ≡ used sb t b
    unfolding bzero
    used-bzero t b ne = let off = update_ne t.contents r (λ _. 0) (bblock b sb) ne in rw off refl

    claimed : used sb s r ≡ false → 0 < r → Allocated s r (bzero r marked)
    unfolding bzero
    claimed free pos =
        let now : (b : ℕ) → b < sb.size → used sb (bzero r marked) b ≡ ((b == r) || used sb s b) =
          λ b h. used-bzero marked b (not_own free b h) ∙ used-marked b in
        record {
          positive = pos;
          in_range = hr;
          was_free = free;
          now_used = now;
          zeroed = update_self marked.contents r (λ _. 0);
          kept = λ b n m.
              update_ne marked.contents r (λ _. 0) b n ∙ update_ne s.contents (bblock r sb) _ b m;
          logs = λ b. either_true (b == r) (b == bblock r sb) (s.logged b);
          valid = record {
            bytes = λ b h.
                subst IsBytes
                  (sym (update_ne marked.contents r (λ _. 0) (bblock b sb) (not_own free b h)))
                  (marked-IsBytes b h);
            own = λ b h. let (lt, u) = w.own b h in (lt, ground (arith, now (bblock b sb) lt, u));
            boot = ground (arith, now 0 (omega arith), w.boot);
          };
        }

  -- `balloc` finds the first free block, marks it, zeroes it, logs both changed blocks and changes no
  -- other; it returns 0 and changes nothing exactly if every block is in use.
  pub balloc_lem :
      (s : Blocks)
      → IsBitmap s
      → let (r, s') = balloc sb s in
        ((r ≡ 0) × (s' ≡ s) × ((b : ℕ) → b < sb.size → used sb s b ≡ true))
        ⊎ (Allocated s r s' × ((b : ℕ) → b < r → used sb s b ≡ true))
  unfolding balloc
  balloc_lem s w =
      elim (balloc_loop-Outcome sb (sb.size / bpb + 1) 0 s (omega arith) (omega arith)) [
        | inl (z, e, u) ↦ inl (z, e, λ b h. u b (omega arith) h)
        | inr (lo, hi, free, u, e) ↦
            let r = (balloc sb s).0 in
            let positive : 0 < r = elim (Bool-cases (r == 0)) [
              | inl y ↦ let r_0 : r ≡ 0 = ground arith in cc (ap (used sb s) r_0, free, w.boot)
              | inr n ↦ ground arith
            ] in
            inr (
              subst (Allocated s r) (sym e) (claimed s w r hi free positive),
              λ b h. u b (omega arith) h,
            )
      ]

  -- `b` is free now, and nothing else has changed.
  pub record Freed (s : Blocks) (b : ℕ) (s' : Blocks) : Type 0 where
    pub now_used : (c : ℕ) → used sb s' c ≡ (not (c == b) && used sb s c)
    pub kept : (c : ℕ) → c ≢ bblock b sb → s'.contents c ≡ s.contents c
    pub logs : (c : ℕ) → s'.logged c ≡ ((c == bblock b sb) || s.logged c)
    pub valid : IsBitmap s'

  -- A block that may be freed: no boot block and no block of the bitmap.
  abbrev pub IsData : ℕ → Type 0
  IsData b = (0 < b) × (b < sb.size) × ((c : ℕ) → c < sb.size → bblock c sb ≢ b)

  if_true : (a b : Bool) → (if a then true else b) ≡ (a || b)
  if_true true b = refl
  if_true false b = refl

  -- `bfree` of a data block in use clears its bit, logs the block of the bitmap and changes nothing
  -- else.
  pub bfree-Freed :
      (s : Blocks) (b : ℕ)
      → IsBitmap s
      → IsData b
      → used sb s b ≡ true
      → (s' : Blocks) × (bfree sb b s ≡ returned s') × Freed s b s'
  unfolding bfree
  bfree-Freed s b w d u =
      let taken : is_free (s.contents (bblock b sb)) (b % bpb) ≡ false = not_true _ u in
      let now = used-unmarked s w b d.1 in
      (
        unmarked s w b d.1,
        rw taken refl,
        record {
          now_used = now;
          kept = λ c n. update_ne s.contents (bblock b sb) _ c n;
          logs = λ c. if_true (c == bblock b sb) (s.logged c);
          valid = record {
            bytes = unmarked-IsBytes s w b d.1;
            own = λ c h.
                let (lt, own_) = w.own c h in
                let differ : (bblock c sb == b) ≡ false = ground (arith, d.2 c h) in
                (lt, now (bblock c sb) ∙ rw (differ, own_) refl);
            boot = now 0 ∙ ground (arith, w.boot, d.0);
          };
        },
      )
    where
      not_true : (a : Bool) → not a ≡ true → a ≡ false
      not_true true e = cc
      not_true false e = refl

  -- `bfree` panics on a block that is free already.
  pub bfree-panics :
      (s : Blocks) (b : ℕ) → (bfree sb b s ≡ panicked "freeing free block") ↔ (used sb s b ≡ false)
  unfolding bfree
  bfree-panics s b = elim (Bool-cases (is_free (s.contents (bblock b sb)) (b % bpb))) [
    | inl y ↦ rw y ((λ _. refl), λ _. refl)
    | inr n ↦ rw n ((λ e. cc), λ e. cc)
  ]
