-- ===== src/Log/Recovery.antt =====
-- Recovery from a crash: `recover_from_log` restores what the log stands for.
use os_exp.Base.{
  ℕ, ◌+◌, ◌≤◌, ◌<◌, ◌≡◌, inl, inr, refl, sym, ◌∙◌, true, arith, ◌==◌, Bool-cases, update_self,
}
use os_exp.Block.{Block, Disk, get_uint, get_uint-put_uint}
use os_exp.Storage.{Store, boot}
use os_exp.Storage.Ensures.{Ensures, returns, crashes, bind, mono}
use os_exp.Log.{
  Log, log_blocks, install_trans, int_rounds, read_blocks, read_head, write_blocks, write_head,
  cleared, recover_from_log, initlog,
}
use os_exp.Log.Header.{read_blocks_lem}
use os_exp.Log.Redo.{Outside, Recovers, Installing, Installing-Recovers, install_loop-Installing}

-- The blocks outside the log are on the disk and in memory as `v` has them, and the log is empty.
pub record Restored (start : ℕ) (v : Disk) (s : Store) : Type 0 where
  pub empty : get_uint (s.disk start) 0 ≡ 0
  pub on_disk : (b : ℕ) → Outside start b → s.disk b ≡ v b
  pub in_memory : (b : ℕ) → Outside start b → s.cache b ≡ v b

-- An empty log stands for the disk itself.
pub Restored-Recovers :
    {start : ℕ} {v : Disk} {s : Store} → Restored start v s → Recovers start s.disk v
Restored-Recovers r = record {
  small = omega (arith, r.empty);
  outside = λ i h. absurd (omega (arith, r.empty));
  logged = λ i h. absurd (omega (arith, r.empty));
  rest = λ b o _. sym (r.on_disk b o);
}

all_installed :
    {lg : Log} {v : Disk} {s : Store}
    → Installing lg v lg.lh.n s
    → (b : ℕ) → Outside lg.start b
    → (v b ≡ s.disk b) × (s.cache b ≡ s.disk b)
all_installed w b o = w.rest b o λ i le lt _. absurd (omega arith)

-- Writing an empty header ends the installation; if it fails, nothing has changed.
pub clear_header :
    {lg : Log} {v : Disk} {s : Store} (p : ℕ)
    → s.power ≡ p
    → Installing lg v lg.lh.n s
    → Ensures
        (λ _ t. Restored lg.start v t × (t.power + 1 ≡ p))
        (λ d. Recovers lg.start d v × (p < 1))
        (write_head (cleared lg) s)
unfolding write_head write_blocks
clear_header {lg} {v} {s} p e w = elim (Bool-cases (s.power == 0)) [
  | inl off ↦ rw off (crashes (Installing-Recovers w, ground arith))
  | inr on ↦ rw on (
      returns (
        record {
          empty = rw (update_self, update_self) (get_uint-put_uint (s.cache lg.start) 0 0 0);
          on_disk = λ b o. ground (arith, all_installed w b o);
          in_memory = λ b o. ground (arith, all_installed w b o);
        },
        ground arith,
      ))
]

-- `read_head` takes the header as it is on the disk.
abbrev loaded : Log → Block → Log
loaded lg b = record lg {
  lh = record { n = get_uint b 0; block = read_blocks b (int_rounds (get_uint b 0)) 0 lg.lh.block };
}

read_blocks-small :
    (b : Block) (block : ℕ → ℕ) (i : ℕ)
    → get_uint b 0 ≤ log_blocks
    → i < get_uint b 0
    → read_blocks b (int_rounds (get_uint b 0)) 0 block i ≡ get_uint b (i + 1)
read_blocks-small b block i small h =
    ground (arith, read_blocks_lem b (int_rounds (get_uint b 0)) 0 block i)

loaded-Installing :
    (lg : Log) {d v : Disk} (p : ℕ)
    → Recovers lg.start d v
    → Installing (loaded lg (d lg.start)) v 0 (boot d p)
loaded-Installing lg {d} {v} p r = record {
  header_n = refl;
  header_block = λ i h. sym (same i h);
  small = r.small;
  outside = λ i h. rw (same i h) (r.outside i h);
  logged = λ i h. rw (same i h) (r.logged i h);
  read_back = λ i h. refl;
  rest = λ b o free. (r.rest b o (λ i h e. free i (omega arith) h (same i h ∙ e)), refl);
}
  where
    same :
        (i : ℕ)
        → i < get_uint (d lg.start) 0
        → (loaded lg (d lg.start)).lh.block i ≡ get_uint (d lg.start) (i + 1)
    same i h = read_blocks-small (d lg.start) lg.lh.block i r.small h

recover_from_log-Restored :
    (lg : Log) {d v : Disk} (p : ℕ)
    → Recovers lg.start d v
    → Ensures
        (λ lg' t. (lg'.lh.n ≡ 0) × Restored lg.start v t)
        (λ d'. Recovers lg.start d' v × (p < get_uint (d lg.start) 0 + 1))
        (recover_from_log lg (boot d p))
unfolding recover_from_log read_head install_trans
recover_from_log-Restored lg {d} {v} p r =
    bind
      (mono
        (install_loop-Installing (loaded lg (d lg.start)) v true (get_uint (d lg.start) 0) 0 p
          (boot d p) (omega arith) refl (loaded-Installing lg p r))
        (λ _ t q. q) (λ d' q. (q.0, omega arith)))
      (λ _ t (w, spent).
        bind (mono (clear_header t.power refl w) (λ _ u q. q) (λ d' q. (q.0, omega arith)))
          (λ _ u (done_, _). returns (refl, done_)))

-- Whatever the power lasts for, `initlog` after a crash brings the blocks outside the log, on the
-- disk and in memory, to what the crashed disk stood for and empties the log; or the power fails
-- again, before the last of the writes, and leaves a disk that stands for the same blocks.
pub initlog-Restored :
    (start : ℕ) {d v : Disk} (p : ℕ)
    → Recovers start d v
    → Ensures
        (λ lg t. (lg.lh.n ≡ 0) × Restored start v t)
        (λ d'. Recovers start d' v × (p < get_uint (d start) 0 + 1))
        (initlog start (boot d p))
unfolding initlog
initlog-Restored start p r = recover_from_log-Restored _ p r
