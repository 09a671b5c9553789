-- ===== src/Log/Commit.antt =====
-- `commit`: a crash leaves all of the transaction or nothing of it.
use os_exp.Base.{
  ℕ, zero, suc, ◌+◌, ◌-◌, ◌*◌, ◌≤◌, ◌<◌, ◌≡◌, ◌≢◌, ◌⊎◌, inl, inr, refl, sym, ap, subst, true, false,
  arith, ltb, ◌==◌, update, Bool-cases, update_self, ◌%◌,
}
use os_exp.Base.Word.{u32_mod}
use os_exp.Block.{Block, Disk, get_uint, put_uint, get_uint-put_uint}
use os_exp.Storage.{Store}
use os_exp.Storage.Ensures.{Ensures, returns, crashes, bind, mono}
use os_exp.Log.{
  Log, log_blocks, install_trans, write_loop, write_log, write_blocks, write_head, cleared, commit,
}
use os_exp.Log.Header.{get_uint-write_blocks}
use os_exp.Log.Redo.{Outside, Recovers, Installing, install_loop-Installing}
use os_exp.Log.Recovery.{Restored, clear_header}

-- Between commits: the log on the disk is empty, and every block that differs from the disk is
-- listed in memory.
pub record Ready (lg : Log) (s : Store) : Type 0 where
  pub empty : get_uint (s.disk lg.start) 0 ≡ 0
  pub small : lg.lh.n ≤ log_blocks
  pub words : (i : ℕ) → i < lg.lh.n → lg.lh.block i < u32_mod
  pub outside : (i : ℕ) → i < lg.lh.n → Outside lg.start (lg.lh.block i)
  pub clean :
      (b : ℕ)
      → Outside lg.start b
      → ((i : ℕ) → i < lg.lh.n → lg.lh.block i ≢ b)
      → s.cache b ≡ s.disk b

-- An empty log stands for the disk itself.
empty-Recovers :
    {start : ℕ} {d v : Disk}
    → get_uint (d start) 0 ≡ 0
    → ((b : ℕ) → Outside start b → v b ≡ d b)
    → Recovers start d v
empty-Recovers e same = record {
  small = omega arith;
  outside = λ i h. absurd (omega arith);
  logged = λ i h. absurd (omega arith);
  rest = λ b o _. same b o;
}

-- `write_log` has copied the blocks before `tail`; `old` is the store that it started from.
record Logging (lg : Log) (old : Store) (tail : ℕ) (s : Store) : Type 0 where
  empty : get_uint (s.disk lg.start) 0 ≡ 0
  same_disk : (b : ℕ) → Outside lg.start b → s.disk b ≡ old.disk b
  same_cache : (b : ℕ) → Outside lg.start b → s.cache b ≡ old.cache b
  written : (i : ℕ) → i < tail → s.disk (lg.start + i + 1) ≡ old.cache (lg.lh.block i)
  read_back : (i : ℕ) → i < tail → s.cache (lg.start + i + 1) ≡ s.disk (lg.start + i + 1)

abbrev after_copy : Log → ℕ → Store → Store
after_copy lg tail s =
    let b = lg.start + tail + 1 in
    let x = s.cache (lg.lh.block tail) in
    record s {
      disk = update s.disk b (update s.cache b x b);
      cache = update s.cache b x;
      power = s.power - 1;
    }

module _ {lg : Log} {old : Store} (r : Ready lg old) where
  copy-Logging :
      {tail : ℕ} {s : Store}
      → Logging lg old tail s
      → tail < lg.lh.n
      → Logging lg old (tail + 1) (after_copy lg tail s)
  copy-Logging {tail} {s} w h = record {
    empty = ground (arith, w.empty);
    same_disk = λ b o. ground (arith, w.same_disk b o, r.small);
    same_cache = λ b o. ground (arith, w.same_cache b o, r.small);
    written =
        λ i hi. ground (arith, w.written i, w.same_cache (lg.lh.block tail) (r.outside tail h));
    read_back = λ i hi. ground (arith, w.read_back i);
  }

  write_loop-Logging :
      (k tail p : ℕ) (s : Store)
      → tail + k ≡ lg.lh.n
      → s.power ≡ p
      → Logging lg old tail s
      → Ensures
          (λ _ t. Logging lg old lg.lh.n t × (t.power + k ≡ p))
          (λ d. Recovers lg.start d old.disk × (p < k))
          (write_loop lg k tail s)
  unfolding write_loop
  write_loop-Logging zero tail p s e ep w =
      let e' : tail ≡ lg.lh.n = omega arith in
      returns (subst (λ t. Logging lg old t s) e' w, omega arith)
  write_loop-Logging (suc k) tail p s e ep w = elim (Bool-cases (s.power == 0)) [
    | inl off ↦
        rw off (crashes (empty-Recovers w.empty (λ b o. sym (w.same_disk b o)), ground arith))
    | inr on ↦ rw on (
        mono
          (write_loop-Logging k (tail + 1) (p - 1) (after_copy lg tail s) (omega arith)
            (omega arith) (copy-Logging w (omega arith)))
          (λ _ t q. (q.0, ground arith)) (λ d q. (q.0, ground arith)))
  ]

  start-Logging : Logging lg old 0 old
  start-Logging = record {
    empty = r.empty;
    same_disk = λ b o. refl;
    same_cache = λ b o. refl;
    written = λ i h. absurd (omega arith);
    read_back = λ i h. absurd (omega arith);
  }

  abbrev header : Store → Block
  header s = write_blocks lg.lh.block lg.lh.n 0 (put_uint (s.cache lg.start) 0 lg.lh.n)

  header_n : (s : Store) → get_uint (header s) 0 ≡ lg.lh.n
  header_n s = ground (
    arith,
    get_uint-write_blocks lg.lh.block lg.lh.n 0 (put_uint (s.cache lg.start) 0 lg.lh.n) 0,
    get_uint-put_uint (s.cache lg.start) 0 0 lg.lh.n,
    r.small,
  )

  header_block : (s : Store) (i : ℕ) → i < lg.lh.n → get_uint (header s) (i + 1) ≡ lg.lh.block i
  header_block s i h = ground (
    arith,
    get_uint-write_blocks lg.lh.block lg.lh.n 0 (put_uint (s.cache lg.start) 0 lg.lh.n) (i + 1),
    add_sub i,
    mod_word i h,
  )
    where
      add_sub : (i : ℕ) → lg.lh.block (i + 1 - 1) ≡ lg.lh.block i
      add_sub i = ap lg.lh.block (omega arith)

      mod_word : (i : ℕ) → i < lg.lh.n → lg.lh.block i % u32_mod ≡ lg.lh.block i
      mod_word i h = omega (arith, r.words i h)

  write_head-Installing :
      (p : ℕ) (s : Store)
      → s.power ≡ p
      → Logging lg old lg.lh.n s
      → Ensures
          (λ _ t. Installing lg old.cache 0 t × (t.power + 1 ≡ p))
          (λ d. Recovers lg.start d old.disk × (p < 1))
          (write_head lg s)
  unfolding write_head
  write_head-Installing p s e w = elim (Bool-cases (s.power == 0)) [
    | inl off ↦
        rw off (crashes (empty-Recovers w.empty (λ b o. sym (w.same_disk b o)), ground arith))
    | inr on ↦ rw on (
        returns (
          record {
            header_n = rw (update_self, update_self) (header_n s);
            header_block = λ i h. rw (update_self, update_self) (header_block s i h);
            small = r.small;
            outside = r.outside;
            logged = λ i h. ground (arith, w.written i h);
            read_back = λ i h. ground (arith, w.read_back i h);
            rest = λ b o free. (
              ground (arith, w.same_disk b o, r.clean b o (λ i h. free i (omega arith) h)),
              ground (
                arith,
                w.same_disk b o,
                w.same_cache b o,
                r.clean b o (λ i h. free i (omega arith) h),
              ),
            );
          },
          ground arith,
        ))
  ]

  abbrev Committed : Log → Store → Type 0
  Committed lg' t = (lg' ≡ cleared lg) × Restored lg.start old.cache t

  abbrev Interrupted : Disk → Type 0
  Interrupted d =
      (Recovers lg.start d old.disk ⊎ Recovers lg.start d old.cache) × (old.power < 2 * lg.lh.n + 2)

  commit-Committed : ltb 0 lg.lh.n ≡ true → Ensures Committed Interrupted (commit lg old)
  unfolding commit write_log install_trans
  commit-Committed some_ = rw some_ (
      bind
        (mono (write_loop-Logging lg.lh.n 0 old.power old (omega arith) refl start-Logging)
          (λ _ t q. q) (λ d q. (inl q.0, omega arith)))
        (λ _ t (logged, spent).
          bind
            (mono (write_head-Installing t.power t refl logged) (λ _ u q. q)
              (λ d q. (inl q.0, omega arith)))
            (λ _ u (ready, spent').
              bind
                (mono
                  (install_loop-Installing lg old.cache false lg.lh.n 0 u.power u (omega arith) refl
                    ready)
                  (λ _ x q. q) (λ d q. (inr q.0, omega arith)))
                (λ _ x (installed, spent'').
                  bind
                    (mono (clear_header x.power refl installed) (λ _ y q. q)
                      (λ d q. (inr q.0, omega arith)))
                    (λ _ y (restored, _). returns (refl, restored))))))

  nothing_listed : ltb 0 lg.lh.n ≡ false → Restored lg.start old.cache old
  nothing_listed h = record {
    empty = r.empty;
    on_disk = λ b o. sym (r.clean b o (λ i l. absurd (ground arith)));
    in_memory = λ b o. refl;
  }

  pub commit_lem : Ensures Committed Interrupted (commit lg old)
  commit_lem = elim (Bool-cases (ltb 0 lg.lh.n)) [
    | inl some_ ↦ commit-Committed some_
    | inr none_ ↦
        let n0 : lg.lh.n ≡ 0 = ground arith in
        unfold commit in rw none_ (returns (ground arith, nothing_listed none_))
  ]
