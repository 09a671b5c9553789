-- ===== src/Bio/Boot.antt =====
-- `binit` makes a well-formed cache of the zeroed buffers.
use os_exp.Base.{
  ℕ, zero, suc, ◌+◌, ◌<◌, ◌≡◌, inl, inr, true, false, ◌&&◌, ◌||◌, List, [], ◌∷◌, arith, ltb, leb,
  ◌==◌, Bool-cases, elem, Distinct,
}
use os_exp.Block.{Disk}
use os_exp.Bio.{Bcache, nbuf, binit_loop, binit}
use os_exp.Bio.Valid.{IsCache}

elem-binit_loop :
    (a k b : ℕ) (order : List ℕ)
    → elem a (binit_loop k b order) ≡ ((leb b a && ltb a (b + k)) || elem a order)
unfolding binit_loop
elem-binit_loop a zero b order = ground arith
elem-binit_loop a (suc k) b order = ground (arith, elem-binit_loop a k (b + 1) (b ∷ order))

binit_loop-Distinct :
    (k b : ℕ) (order : List ℕ)
    → ((a : ℕ) → elem a order ≡ true → a < b)
    → Distinct order
    → Distinct (binit_loop k b order)
unfolding binit_loop
binit_loop-Distinct zero b order below d = d
binit_loop-Distinct (suc k) b order below d =
    binit_loop-Distinct k (b + 1) (b ∷ order)
      (λ a e. elim (Bool-cases (a == b)) [
        | inl y ↦ ground arith
        | inr n ↦ omega (arith, below a (ground (arith, e, n)))
      ])
      (
        elim (Bool-cases (elem b order)) [ inl y ↦ absurd (omega (arith, below b y)) | inr n ↦ n ],
        d,
      )

-- The buffers are global variables, which are zero at the start.
abbrev pub zeroed : Disk → Bcache
zeroed disk = record {
  order = [];
  buf = λ _. record {
    valid = false;
    dev = 0;
    blockno = 0;
    locked = false;
    refcnt = 0;
    bytes = λ _. 0;
  };
  disk = disk;
}

pub binit-IsCache : (disk : Disk) → IsCache (binit (zeroed disk))
unfolding binit
binit-IsCache disk = record {
  listed = λ b. rw (elem-binit_loop b nbuf 0 []) ((λ e. ground (arith, e)), λ h. ground arith);
  once = binit_loop-Distinct nbuf 0 [] (λ a e. cc) tt;
  unique = λ i j hi hj d. absurd (omega (arith, d));
  settled = λ b h z d. absurd (omega (arith, d));
  unlocked = λ b h l. cc;
}
