-- ===== src/Log/End.antt =====
-- `end_op`: the last operation in progress commits, any other leaves the store alone.
use os_exp.Base.{
  ◌+◌, ◌-◌, ◌≤◌, ◌<◌, ◌≡◌, ◌⊎◌, inl, inr, refl, sym, ◌∙◌, true, false, arith, Bool-cases, ◌==◌,
}
use os_exp.Block.{Disk}
use os_exp.Storage.{Store}
use os_exp.Storage.Ensures.{Ensures, returns, bind, mono}
use os_exp.Log.{Log, leave, end_op}
use os_exp.Log.Redo.{Recovers}
use os_exp.Log.Recovery.{Restored}
use os_exp.Log.Commit.{Ready, commit_lem}

-- What `end_op` leaves: the next operations find a log as before, and one that was the last found
-- its transaction on the disk.
pub record Ended (lg : Log) (s : Store) (lg' : Log) (t : Store) : Type 0 where
  pub ready : Ready lg' t
  pub idle : lg'.committing ≡ false
  pub one_less : lg'.outstanding + 1 ≡ lg.outstanding
  pub no_longer : lg'.lh.n ≤ lg.lh.n
  pub same_start : lg'.start ≡ lg.start
  pub woken : lg'.wakeups ≡ lg.wakeups + 1
  pub last : lg.outstanding ≡ 1 → (lg'.lh.n ≡ 0) × Restored lg.start s.cache t
  pub not_last : 1 < lg.outstanding → t ≡ s

-- A log and a store that differ only in what `Ready` does not read.
pub Ready-same :
    {lg : Log} {s : Store} (lg' : Log)
    → Ready lg s
    → lg'.start ≡ lg.start
    → lg'.lh ≡ lg.lh
    → Ready lg' s
Ready-same {lg} {s} lg' r es eh = record {
  empty = rw es r.empty;
  small = rw eh r.small;
  words = rw eh r.words;
  outside = rw (eh, es) r.outside;
  clean = rw (eh, es) r.clean;
}

pub Restored-Ready :
    {v : Disk} {s : Store} (lg : Log) → Restored lg.start v s → lg.lh.n ≡ 0 → Ready lg s
Restored-Ready lg r e = record {
  empty = r.empty;
  small = omega arith;
  words = λ i h. absurd (omega arith);
  outside = λ i h. absurd (omega arith);
  clean = λ b o _. r.in_memory b o ∙ sym (r.on_disk b o);
}

abbrev fewer : Log → Log
fewer lg = record lg { outstanding = lg.outstanding - 1 }

-- Outside a commit and with an operation in progress, `end_op` does not panic. The last operation
-- commits: its blocks reach the disk and the log is emptied, unless the power fails, which leaves all
-- of the transaction or nothing. Any other leaves the store alone. Waiting operations are woken.
pub end_op-Ended :
    {lg : Log} {s : Store}
    → Ready lg s
    → lg.committing ≡ false
    → 1 ≤ lg.outstanding
    → Ensures
        (Ended lg s)
        (λ d. Recovers lg.start d s.disk ⊎ Recovers lg.start d s.cache)
        (end_op lg s)
unfolding end_op leave
end_op-Ended {lg} {s} r idle op = rw idle (elim (Bool-cases (lg.outstanding - 1 == 0)) [
  | inl last ↦ rw last (
      bind
        (mono (commit_lem (Ready-same (record (fewer lg) { committing = true }) r refl refl))
          (λ lg' t q. q) (λ d q. q.0))
        (λ lg' t (e, restored). rw e (
          returns (record {
            ready = Restored-Ready _ restored refl;
            idle = refl;
            one_less = omega arith;
            no_longer = omega arith;
            same_start = refl;
            woken = refl;
            last = λ _. (refl, restored);
            not_last = λ h. absurd (ground arith);
          }))))
  | inr more ↦ rw more (
      returns (record {
        ready = Ready-same _ r refl refl;
        idle = refl;
        one_less = omega arith;
        no_longer = omega arith;
        same_start = refl;
        woken = refl;
        last = λ h. absurd (ground arith);
        not_last = λ _. refl;
      }))
])
