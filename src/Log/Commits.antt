-- ===== src/Log/Commits.antt =====
-- A commit in parts is `commit`.
use os_exp.Base.{◌≡◌, refl, sym, true, false, arith, ltb}
use os_exp.Block.{Disk}
use os_exp.Storage.{Store, done}
use os_exp.Storage.Ensures.{of_done}
use os_exp.Log.{Log, cleared, commit, write_log, write_head, install_trans}
use os_exp.Log.Recovery.{Restored}
use os_exp.Log.Commit.{Ready, commit_lem}
use os_exp.Log.Steps.{Phase, idle, copying, heading, installing, clearing, leaving}

-- The commit of `lg` from the store `s0` on has come to the phase.
pub record Copied (lg : Log) (s0 s1 : Store) : Type 0 where
  pub ready : Ready lg s0
  pub some_blocks : ltb 0 lg.lh.n ≡ true
  pub copied : write_log lg s0 ≡ done tt s1

pub record Headed (lg : Log) (s0 s1 s2 : Store) : Type 0 where
  pub before : Copied lg s0 s1
  pub headed : write_head lg s1 ≡ done tt s2

pub record Installed (lg : Log) (s0 s1 s2 s3 : Store) : Type 0 where
  pub before : Headed lg s0 s1 s2
  pub installed : install_trans lg false s2 ≡ done tt s3

abbrev pub Stage : Phase → Log → Store → Type 0
Stage idle lg s = Ready lg s
Stage copying lg s = Ready lg s
Stage heading lg s = (s0 : Store) × Copied lg s0 s
Stage installing lg s = (s0 : Store) × (s1 : Store) × Headed lg s0 s1 s
Stage clearing lg s =
    (lg0 : Log) × (s0 : Store) × (s1 : Store) × (s2 : Store) × (lg ≡ cleared lg0)
    × Installed lg0 s0 s1 s2 s
Stage leaving lg s = (v : Disk) × (lg.lh.n ≡ 0) × Restored lg.start v s

-- After the last call the whole transaction is on the disk.
pub emptied-Restored :
    (lg : Log) (s0 s1 s2 s3 t : Store)
    → Installed lg s0 s1 s2 s3
    → write_head (cleared lg) s3 ≡ done tt t
    → Restored lg.start s0.cache t
emptied-Restored lg s0 s1 s2 s3 t i e = (of_done (commit_lem i.before.before.ready) whole).1
  where
    whole : commit lg s0 ≡ done (cleared lg) t
    whole =
        unfold commit in
        rw (i.before.before.some_blocks, i.before.before.copied, i.before.headed, i.installed, e)
          refl

pub nothing-Restored :
    (lg : Log) (s : Store) → Ready lg s → lg.lh.n ≡ 0 → Restored lg.start s.cache s
nothing-Restored lg s r e = record {
  empty = r.empty;
  on_disk = λ b o. sym (r.clean b o (λ i h. absurd (omega (arith, e))));
  in_memory = λ b o. refl;
}
