-- ===== src/Log/Redo.antt =====
-- What a disk with a log stands for, and the loop of `install_trans`.
use os_exp.Base.{
  ℕ, zero, suc, ◌+◌, ◌-◌, ◌≤◌, ◌<◌, ◌≡◌, ◌≢◌, ◌⊎◌, inl, inr, refl, sym, ap, ◌∙◌, subst, update_self,
  Bool, true, false, arith, ◌==◌, if◌then◌else◌, update, Bool-cases,
}
use os_exp.Block.{Disk, get_uint}
use os_exp.Storage.{Store, crash}
use os_exp.Storage.Ensures.{Ensures, returns, crashes, mono}
use os_exp.Log.{Log, log_blocks, install_loop}

-- Block `b` is none of the header and the log blocks.
abbrev pub Outside : ℕ → ℕ → Type 0
Outside start b = (b < start) ⊎ (start + log_blocks < b)

-- The disk `d`, with its log applied, holds the blocks `v` outside the log.
pub record Recovers (start : ℕ) (d v : Disk) : Type 0 where
  pub small : get_uint (d start) 0 ≤ log_blocks
  pub outside : (i : ℕ) → i < get_uint (d start) 0 → Outside start (get_uint (d start) (i + 1))
  pub logged :
      (i : ℕ) → i < get_uint (d start) 0 → v (get_uint (d start) (i + 1)) ≡ d (start + i + 1)
  pub rest :
      (b : ℕ)
      → Outside start b
      → ((i : ℕ) → i < get_uint (d start) 0 → get_uint (d start) (i + 1) ≢ b)
      → v b ≡ d b

-- The blocks from `tail` on are still to be installed.
pub record Installing (lg : Log) (v : Disk) (tail : ℕ) (s : Store) : Type 0 where
  pub header_n : get_uint (s.disk lg.start) 0 ≡ lg.lh.n
  pub header_block : (i : ℕ) → i < lg.lh.n → get_uint (s.disk lg.start) (i + 1) ≡ lg.lh.block i
  pub small : lg.lh.n ≤ log_blocks
  pub outside : (i : ℕ) → i < lg.lh.n → Outside lg.start (lg.lh.block i)
  pub logged : (i : ℕ) → i < lg.lh.n → v (lg.lh.block i) ≡ s.disk (lg.start + i + 1)
  pub read_back : (i : ℕ) → i < lg.lh.n → s.cache (lg.start + i + 1) ≡ s.disk (lg.start + i + 1)
  pub rest :
      (b : ℕ)
      → Outside lg.start b
      → ((i : ℕ) → tail ≤ i → i < lg.lh.n → lg.lh.block i ≢ b)
      → (v b ≡ s.disk b) × (s.cache b ≡ s.disk b)

pub Installing-Recovers :
    {lg : Log} {v : Disk} {tail : ℕ} {s : Store}
    → Installing lg v tail s
    → Recovers lg.start s.disk v
Installing-Recovers {lg} w = record {
  small = omega arith;
  outside = λ i h. rw (w.header_block i (omega arith)) (w.outside i (omega arith));
  logged = λ i h. rw (w.header_block i (omega arith)) (w.logged i (omega arith));
  rest = λ b o free. (w.rest b o λ i _ h e. free i (omega arith) (w.header_block i h ∙ e)).0;
}

-- One round: the block at `tail` gets the contents of its log block, in the cache and on the disk.
module _ {lg : Log} {v : Disk} {tail : ℕ} {s : Store} (w : Installing lg v tail s)
    (h : tail < lg.lh.n) where
  still_free :
      (b : ℕ)
      → lg.lh.block tail ≢ b
      → ((i : ℕ) → tail + 1 ≤ i → i < lg.lh.n → lg.lh.block i ≢ b)
      → (i : ℕ) → tail ≤ i
      → i < lg.lh.n
      → lg.lh.block i ≢ b
  still_free b ne free i le lt = elim (Bool-cases (i == tail)) [
    | inl e ↦ let e' : i ≡ tail = ground arith in rw e' ne
    | inr n ↦ free i (ground arith) lt
  ]

  installed :
      (b : ℕ)
      → Outside lg.start b
      → ((i : ℕ) → tail + 1 ≤ i → i < lg.lh.n → lg.lh.block i ≢ b)
      → (v b ≡ update s.disk (lg.lh.block tail) (s.cache (lg.start + tail + 1)) b)
        × (update s.cache (lg.lh.block tail) (s.cache (lg.start + tail + 1)) b
            ≡ update s.disk (lg.lh.block tail) (s.cache (lg.start + tail + 1)) b)
  installed b o free = elim (Bool-cases (b == lg.lh.block tail)) [
    | inl e ↦
        let e' : lg.lh.block tail ≡ b = ground arith in
        rw e (ap v (sym e') ∙ w.logged tail h ∙ sym (w.read_back tail h), refl)
    | inr n ↦
        let ne : lg.lh.block tail ≢ b = ground arith in rw n (w.rest b o (still_free b ne free))
  ]

  step-Installing :
      (t : Store)
      → t.disk ≡ update s.disk (lg.lh.block tail) (s.cache (lg.start + tail + 1))
      → t.cache ≡ update s.cache (lg.lh.block tail) (s.cache (lg.start + tail + 1))
      → Installing lg v (tail + 1) t
  step-Installing t ed ec = record {
    header_n = rw ed (ground (arith, w.outside tail h, w.header_n));
    header_block = λ i hi. rw ed (ground (arith, w.outside tail h, w.header_block i hi));
    small = w.small;
    outside = w.outside;
    logged = λ i hi. rw ed (ground (arith, w.outside tail h, w.logged i hi, w.small));
    read_back = λ i hi. rw (ed, ec) (ground (arith, w.outside tail h, w.read_back i hi, w.small));
    rest = λ b o free. rw (ed, ec) (installed b o free);
  }

abbrev round_pins : Bool → ℕ → Store → ℕ → ℕ
round_pins recovering b s = if recovering then s.pins else update s.pins b (s.pins b - 1)

-- the store after one round
abbrev after_round : Log → Bool → ℕ → Store → Store
after_round lg recovering tail s =
    let b = lg.lh.block tail in
    let x = s.cache (lg.start + tail + 1) in
    record {
      disk = update s.disk b (update s.cache b x b);
      cache = update s.cache b x;
      pins = round_pins recovering b s;
      power = s.power - 1;
    }

install_loop-suc :
    (lg : Log) (recovering : Bool) (k tail : ℕ) (s : Store)
    → install_loop lg recovering (suc k) tail s ≡ (
        if s.power == 0
        then crash s.disk
        else install_loop lg recovering k (tail + 1) (after_round lg recovering tail s))
unfolding install_loop
install_loop-suc lg true k tail s = elim (Bool-cases (s.power == 0)) [
  | inl off ↦ rw off
  | inr on ↦ rw on
]
install_loop-suc lg false k tail s = elim (Bool-cases (s.power == 0)) [
  | inl off ↦ rw off
  | inr on ↦ rw on
]

-- The loop ends with every block installed, or fails with a disk that stands for the same blocks.
pub install_loop-Installing :
    (lg : Log) (v : Disk) (recovering : Bool) (k tail p : ℕ) (s : Store)
    → tail + k ≡ lg.lh.n
    → s.power ≡ p
    → Installing lg v tail s
    → Ensures
        (λ _ t. Installing lg v lg.lh.n t × (t.power + k ≡ p))
        (λ d. Recovers lg.start d v × (p < k))
        (install_loop lg recovering k tail s)
unfolding install_loop
install_loop-Installing lg v recovering zero tail p s e ep w =
    let e' : tail ≡ lg.lh.n = omega arith in
    returns (subst (λ t. Installing lg v t s) e' w, omega arith)
install_loop-Installing lg v recovering (suc k) tail p s e ep w =
    rw (install_loop-suc lg recovering k tail s) (elim (Bool-cases (s.power == 0)) [
      | inl off ↦ rw off (crashes (Installing-Recovers w, ground arith))
      | inr on ↦
          let t = after_round lg recovering tail s in
          let written =
            ap (update s.disk (lg.lh.block tail)) (update_self s.cache (lg.lh.block tail) _) in
          rw on (
            mono
              (install_loop-Installing lg v recovering k (tail + 1) (p - 1) t (omega arith)
                (omega arith) (step-Installing w (omega arith) t written refl))
              (λ _ t q. (q.0, ground arith)) (λ d q. (q.0, ground arith)))
    ])
