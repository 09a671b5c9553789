-- ===== src/Log/Absorb.antt =====
-- `log_write`: a block that an operation has changed is listed once, and the commit will find it.
use os_exp.Base.{
  ℕ, zero, suc, ◌+◌, ◌≤◌, ◌<◌, ◌≡◌, ◌≢◌, inl, inr, refl, sym, ap, ◌∙◌, update_self, false, arith,
  ltb, leb, ◌==◌, update, Bool-cases,
}
use os_exp.Base.Word.{u32_mod}
use os_exp.Block.{Block}
use os_exp.Storage.{Store, M, done, set_data, ◌>>◌}
use os_exp.Log.{Log, log_blocks, log_write, find_block}
use os_exp.Log.Redo.{Outside}
use os_exp.Log.Commit.{Ready}

-- The index found lies in the range, and below its end it holds the block number.
pub find_block_lem :
    (block : ℕ → ℕ) (b k i : ℕ)
    → (i ≤ find_block block b k i)
      × (find_block block b k i ≤ i + k)
      × (find_block block b k i < i + k → block (find_block block b k i) ≡ b)
unfolding find_block
find_block_lem block b zero i = (omega arith, omega arith, λ h. absurd (omega arith))
find_block_lem block b (suc k) i =
    let ih = find_block_lem block b k (i + 1) in
    elim (Bool-cases (block i == b)) [
      | inl e ↦ rw e (omega arith, omega arith, λ h. ground arith)
      | inr n ↦ rw n (omega arith, omega arith, λ h. ih.2 (omega arith))
    ]

-- It is the first of those that are the block.
find_block-first :
    (block : ℕ → ℕ) (b k i j : ℕ) → i ≤ j → j < i + k → block j ≡ b → find_block block b k i ≤ j
unfolding find_block
find_block-first block b zero i j lo hi e = absurd (omega arith)
find_block-first block b (suc k) i j lo hi e = elim (Bool-cases (block i == b)) [
  | inl y ↦ rw y lo
  | inr n ↦
      let ne : i ≢ j = λ same. ground (arith, n, ap block same ∙ e) in
      rw n (find_block-first block b k (i + 1) j (omega arith) (omega arith) e)
]

-- The block is in the log.
abbrev pub IsListed : ℕ → Log → Type 0
IsListed c lg = (i : ℕ) × (i < lg.lh.n) × (lg.lh.block i ≡ c)

-- The header with the block `b` at `j`.
module _ {lg : Log} {s : Store} (r : Ready lg s) (b j n : ℕ) (x : Block) where
  abbrev listed : Log
  listed = record lg { lh = record { n = n; block = update lg.lh.block j b } }

  abbrev changed : (ℕ → ℕ) → Store
  changed pins = record s { cache = update s.cache b x; pins = pins }

  still_listed :
      (c : ℕ)
      → lg.lh.n ≤ n
      → (j < lg.lh.n → lg.lh.block j ≡ b)
      → ((i : ℕ) → i < n → update lg.lh.block j b i ≢ c)
      → (i : ℕ) → i < lg.lh.n
      → lg.lh.block i ≢ c
  still_listed c le same free i h e = elim (Bool-cases (i == j)) [
    | inl t ↦ ground (arith, free i (omega arith), same)
    | inr t ↦ ground (arith, free i (omega arith))
  ]

  still_clean_at :
      (c : ℕ)
      → Outside lg.start c
      → j < n
      → lg.lh.n ≤ n
      → (j < lg.lh.n → lg.lh.block j ≡ b)
      → ((i : ℕ) → i < n → update lg.lh.block j b i ≢ c)
      → update s.cache b x c ≡ s.disk c
  still_clean_at c oc jn le same free =
      ground (arith, free j jn, r.clean c oc (still_listed c le same free))

  listed-Ready :
      (pins : ℕ → ℕ)
      → Outside lg.start b
      → b < u32_mod
      → n ≤ log_blocks
      → j < n
      → lg.lh.n ≤ n
      → ((i : ℕ) → i < n → i ≢ j → i < lg.lh.n)
      → (j < lg.lh.n → lg.lh.block j ≡ b)
      → Ready listed (changed pins)
  listed-Ready pins o w small jn le old same = record {
    empty = r.empty;
    small = small;
    words = λ i h. ground (arith, old i h, r.words i);
    outside = λ i h. elim (Bool-cases (i == j)) [
      | inl e ↦ rw e o
      | inr ne ↦ rw ne (r.outside i (old i h (ground arith)))
    ];
    clean = λ c oc free. still_clean_at c oc jn le same free;
  }

-- The caller's change of a block, then `log_write` (the use that log.c gives as typical).
pub write_block : Log → ℕ → Block → M Log
write_block lg b x = set_data b x >> log_write lg b

pub record Wrote (lg : Log) (s : Store) (b : ℕ) (x : Block) (lg' : Log) (t : Store) : Type 0 where
  pub ready : Ready lg' t
  pub at_most_one : lg'.lh.n ≤ lg.lh.n + 1
  pub same_outstanding : lg'.outstanding ≡ lg.outstanding
  pub same_committing : lg'.committing ≡ lg.committing
  pub same_start : lg'.start ≡ lg.start
  pub seen : t.cache ≡ update s.cache b x
  pub same_disk : t.disk ≡ s.disk
  pub listed_now : IsListed b lg'
  pub listed_still : (c : ℕ) → IsListed c lg → IsListed c lg'
  pub absorbed : IsListed b lg → lg'.lh.n ≡ lg.lh.n

-- Inside a transaction, with room in the log, a change of a block and its `log_write` return: the
-- change is visible in memory and not on the disk, the log has grown by at most one entry, and what
-- is not on the disk is listed.
pub write_block_lem :
    {lg : Log} {s : Store} (b : ℕ) (x : Block)
    → Ready lg s
    → Outside lg.start b
    → b < u32_mod
    → lg.lh.n < log_blocks
    → 1 ≤ lg.outstanding
    → (lg' : Log) × (t : Store) × (write_block lg b x s ≡ done lg' t) × Wrote lg s b x lg' t
unfolding write_block log_write
write_block_lem {lg} {s} b x r o w room op =
    let j = find_block lg.lh.block b lg.lh.n 0 in
    let found = find_block_lem lg.lh.block b lg.lh.n 0 in
    let not_full : leb log_blocks lg.lh.n ≡ false = ground arith in
    let inside : ltb lg.outstanding 1 ≡ false = ground arith in
    rw (not_full, inside)
      (elim (Bool-cases (find_block lg.lh.block b lg.lh.n 0 == lg.lh.n)) [
        | inl new ↦
            let j_eq : j ≡ lg.lh.n = ground arith in
            rw new (
              _,
              _,
              refl,
              record {
                ready =
                    listed-Ready r b j (lg.lh.n + 1) x _ o w (omega arith) (omega arith)
                      (omega arith) (λ i h n. ground arith) (λ h. absurd (omega arith));
                at_most_one = omega arith;
                same_outstanding = refl;
                same_committing = refl;
                same_start = refl;
                seen = refl;
                same_disk = refl;
                listed_now = (j, omega arith, update_self lg.lh.block j b);
                listed_still = λ c (i, h, e).
                    let other : (i == j) ≡ false = ground (arith, h, j_eq) in
                    (i, omega arith, rw other e);
                absorbed = λ (i, h, e). absurd (
                    omega (
                      arith,
                      j_eq,
                      find_block-first lg.lh.block b lg.lh.n 0 i (omega arith) (omega arith) e,
                    ));
              },
            )
        | inr old ↦
            let j_lt : j < lg.lh.n = ground arith in
            rw old (
              _,
              _,
              refl,
              record {
                ready =
                    listed-Ready r b j lg.lh.n x s.pins o w r.small j_lt (omega arith) (λ i h n. h)
                      (λ h. found.2 (omega arith));
                at_most_one = omega arith;
                same_outstanding = refl;
                same_committing = refl;
                same_start = refl;
                seen = refl;
                same_disk = refl;
                listed_now = (j, j_lt, update_self lg.lh.block j b);
                listed_still = λ c (i, h, e). (
                  i,
                  h,
                  elim (Bool-cases (i == j)) [
                    | inl y ↦
                        let same : i ≡ j = ground (arith, y) in
                        let at_j : lg.lh.block j ≡ b = found.2 (omega arith) in
                        rw y (sym at_j ∙ ap lg.lh.block (sym same) ∙ e)
                    | inr n ↦ rw n e
                  ],
                );
                absorbed = λ _. refl;
              },
            )
      ])
