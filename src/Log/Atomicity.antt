-- ===== src/Log/Atomicity.antt =====
-- What a crash leaves of a transaction, after any number of interrupted recoveries.
use os_exp.Base.{ℕ, ◌+◌, ◌≤◌, ◌≡◌, ◌⊎◌, inl, inr, arith}
use os_exp.Block.{Disk}
use os_exp.Storage.{Store, done, crash, boot}
use os_exp.Storage.Ensures.{of_crash, of_no_crash}
use os_exp.Log.{Log, log_blocks, commit, initlog}
use os_exp.Log.Redo.{Recovers}
use os_exp.Log.Recovery.{Restored, initlog-Restored}
use os_exp.Log.Commit.{Ready, commit_lem}

-- From the disk `d` some restarts, each interrupted again by the power, lead to `d'`.
pub data Restarts (start : ℕ) (d : Disk) : Disk → Type 0 where
  none_yet : Restarts start d d
  again :
      {d' d'' : Disk} (p : ℕ)
      → Restarts start d d'
      → initlog start (boot d' p) ≡ crash d''
      → Restarts start d d''

Restarts-Recovers :
    {start : ℕ} {d d' v : Disk} → Recovers start d v → Restarts start d d' → Recovers start d' v
Restarts-Recovers r none_yet = r
Restarts-Recovers r (again p rs e) = (of_crash (initlog-Restored _ p (Restarts-Recovers r rs)) e).0

-- A restart that makes `log_blocks + 1` writes finishes.
restart_returns :
    {start : ℕ} {d v : Disk} (q : ℕ)
    → Recovers start d v
    → log_blocks + 1 ≤ q
    → (lg : Log) × (t : Store) × (initlog start (boot d q) ≡ done lg t)
      × ((lg.lh.n ≡ 0) × Restored start v t)
restart_returns q r h = of_no_crash (initlog-Restored _ q r) λ d c. omega (arith, c.1, r.small)

-- If the power fails during `commit`, and again during any number of restarts, then a restart with
-- power for `log_blocks + 1` writes returns with an empty log, and the blocks outside the log, on
-- the disk and in memory, are either all as they were on the disk before the commit or all as the
-- operations left them in memory.
pub commit-crash-atomic :
    {lg : Log} {s : Store} {d d' : Disk} (q : ℕ)
    → Ready lg s
    → commit lg s ≡ crash d
    → Restarts lg.start d d'
    → log_blocks + 1 ≤ q
    → (lg' : Log) × (t : Store) × (initlog lg.start (boot d' q) ≡ done lg' t)
      × (lg'.lh.n ≡ 0)
      × (Restored lg.start s.disk t ⊎ Restored lg.start s.cache t)
commit-crash-atomic q ready e rs h = elim (of_crash (commit_lem ready) e).0 [
  | inl old ↦
      let (lg', t, e', nr) = restart_returns q (Restarts-Recovers old rs) h in
      (lg', t, e', nr.0, inl nr.1)
  | inr new ↦
      let (lg', t, e', nr) = restart_returns q (Restarts-Recovers new rs) h in
      (lg', t, e', nr.0, inr nr.1)
]
