-- ===== src/Log/Tests.antt =====
-- The theorems about the log at a small disk, and runs of its functions.
use os_exp.Base.{ℕ, ◌+◌, ◌<◌, ◌≡◌, ◌⊎◌, inr, refl, subst, true, false, [], ◌∷◌, arith, update}
use os_exp.Block.{Block, Disk, get_uint, put_uint}
use os_exp.Storage.{Store, Run, done, crash, panic, boot}
use os_exp.Storage.Ensures.{Ensures}
use os_exp.Log.{
  Log, initlog, commit, begin_op, write_log, write_head, install_trans, read_head, recover_from_log,
}
use os_exp.Log.Redo.{Outside, Recovers}
use os_exp.Log.Recovery.{Restored, initlog-Restored}
use os_exp.Log.Commit.{Ready}
use os_exp.Log.Atomicity.{none_yet, again, commit-crash-atomic}
use os_exp.Log.Absorb.{write_block, Wrote}
use os_exp.Log.Steps.{System, state, idle, copying, Reach, here, next, begin}
use os_exp.Log.Sound.{Sound}
use os_exp.Log.Space.{log_write-has_room}

-- A disk of zeros with the log at block 2, and block 40 changed in memory.
abbrev zeros : Disk
zeros b k = 0

abbrev sevens : Block
sevens k = 7

abbrev log : Log
log = record {
  start = 2;
  outstanding = 1;
  committing = false;
  lh = record { n = 1; block = λ _. 40 };
  wakeups = 0;
}

abbrev store : ℕ → Store
store p = record { disk = zeros; cache = update zeros 40 sevens; pins = λ _. 1; power = p }

zeros_empty : get_uint (zeros 2) 0 ≡ 0
unfolding get_uint
zeros_empty = refl

log-Ready : (p : ℕ) → Ready log (store p)
log-Ready p = record {
  empty = zeros_empty;
  small = omega arith;
  words = λ i h. omega arith;
  outside = λ i h. inr (omega arith);
  clean = λ b o free. ground (arith, free 0 (omega arith));
}

abbrev disk_of : {A : Type 0} → Run A → Disk
disk_of (done a s) = s.disk
disk_of (crash d) = d
disk_of (panic m) = zeros

abbrev half_done : Disk
half_done = disk_of (commit log (store 2))

abbrev half_recovered : Disk
half_recovered = disk_of (initlog 2 (boot half_done 1))

commit_fails : commit log (store 2) ≡ crash half_done
unfolding commit write_log write_head install_trans
commit_fails = refl

restart_fails : initlog 2 (boot half_done 1) ≡ crash half_recovered
unfolding commit write_log write_head install_trans initlog recover_from_log read_head get_uint
    put_uint
restart_fails = refl

-- After the restart block 40 holds the new contents: the header was written.
restarts_to_new : disk_of (initlog 2 (boot half_recovered 31)) 40 5 ≡ 7
unfolding commit write_log write_head install_trans initlog recover_from_log read_head get_uint
    put_uint
restarts_to_new = refl

commit-crash-atomic_example :
    (lg' : Log) × (t : Store) × (initlog 2 (boot half_recovered 31) ≡ done lg' t)
    × (lg'.lh.n ≡ 0)
    × (Restored 2 zeros t ⊎ Restored 2 (store 2).cache t)
commit-crash-atomic_example =
    commit-crash-atomic 31 (log-Ready 2) commit_fails (again 1 none_yet restart_fails) (omega arith)

-- A disk whose log lists block 40, with the contents of block 3.
abbrev logged : Disk
logged = update (update zeros 2 (put_uint (put_uint (zeros 2) 0 1) 1 40)) 3 sevens

logged-Recovers : Recovers 2 logged (update logged 40 sevens)
unfolding get_uint put_uint
logged-Recovers = record {
  small = omega arith;
  outside =
      λ i h. subst (λ j. Outside 2 (get_uint (logged 2) (j + 1))) (first i h) (inr (omega arith));
  logged = λ i h.
      subst (λ j. update logged 40 sevens (get_uint (logged 2) (j + 1)) ≡ logged (2 + j + 1))
        (first i h) refl;
  rest = λ b o free. ground (arith, free 0 (omega arith));
}
  where
    first : (i : ℕ) → i < 1 → 0 ≡ i
    first i h = omega arith

initlog-Restored_example :
    Ensures
      (λ lg t. (lg.lh.n ≡ 0) × Restored 2 (update logged 40 sevens) t)
      (λ d'. Recovers 2 d' (update logged 40 sevens) × (31 < get_uint (logged 2) 0 + 1))
      (initlog 2 (boot logged 31))
initlog-Restored_example = initlog-Restored 2 31 logged-Recovers

-- One operation, which has logged block 40; then a second one begins.
abbrev system : System
system = state log (store 9) ((40 ∷ []) ∷ []) idle

abbrev later_system : System
later_system = state (record log { outstanding = 2 }) (store 9) ([] ∷ (40 ∷ []) ∷ []) idle

system-Sound : Sound system
system-Sound = record {
  exclusive = refl;
  stage = log-Ready 9;
  counted = refl;
  each = (((0, omega arith, refl), tt), tt);
  space = omega arith;
}

Reach-later_system : Reach system later_system
unfolding begin_op
Reach-later_system = next here (begin refl)

-- The first operation logs its block again.
log_write-has_room_example :
    (lg' : Log) × (t : Store) × (write_block later_system.log 40 sevens (store 9) ≡ done lg' t)
    × Wrote later_system.log (store 9) 40 sevens lg' t
log_write-has_room_example =
    log_write-has_room ([] ∷ []) [] (40 ∷ []) 40 sevens system-Sound Reach-later_system refl
      (omega arith) (inr (omega arith)) (omega arith)

-- The first operation ends and commits.
abbrev committing_system : System
committing_system = state (record log { outstanding = 0; committing = true }) (store 9) [] copying
