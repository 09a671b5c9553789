-- ===== src/Proc/Reach.antt =====
-- The steps of the process table, and what holds in every table that they reach.
use os_exp.Base.{ℕ, ◌<◌, ◌≤◌, ◌≡◌, refl, Bool, some, arith, returned}
use os_exp.Proc.{
  used, running, Table, nproc, wakeup, reaped, kwait, kexit, find_unused, allocproc, fork_child,
  dispatch, yield_, go_to_sleep, tidy_up, kkill,
}
use os_exp.Proc.Exit.{wakeup-Woken}
use os_exp.Proc.Table.{IsTable, Keeps-IsTable, set-Keeps, busy-Keeps, Woken-Keeps}
use os_exp.Proc.Operations.{
  kill_loop-IsTable, busy, allocproc-IsTable, allocated-grows, fork_child-IsTable, exit-IsTable,
  kwait-IsTable, dispatch-IsTable,
}

-- What the processes and the scheduler do to the table and to `nextpid`.
pub data Step : ℕ → Table → ℕ → Table → Type 0 where
  allocates :
      {n : ℕ} {t : Table} (frame pages : ℕ)
      → Step n t (allocproc frame pages n t).1 (allocproc frame pages n t).2
  forks :
      {n : ℕ} {t : Table} (copied : Bool) (i j : ℕ)
      → j < nproc
      → (t j).state ≡ used
      → Step n t n (fork_child copied i j t).1
  exits :
      {n : ℕ} {t : Table} (init i status : ℕ) (t' : Table)
      → i < nproc
      → (t i).state ≡ running
      → kexit init i status t ≡ returned t'
      → Step n t n t'
  waits :
      {n : ℕ} {t : Table} (stored : Bool) (i pid xstate : ℕ) (t' : Table)
      → kwait stored i t ≡ reaped pid xstate t'
      → Step n t n t'
  kills : {n : ℕ} {t : Table} (pid : ℕ) → Step n t n (kkill pid t).1
  wakes : {n : ℕ} {t : Table} (chan me : ℕ) → Step n t n (wakeup chan me t)
  dispatches : {n : ℕ} {t : Table} (i : ℕ) (t' : Table) → dispatch i t ≡ some t' → Step n t n t'
  yields : {n : ℕ} {t : Table} (i : ℕ) → (t i).state ≡ running → Step n t n (yield_ i t)
  sleeps :
      {n : ℕ} {t : Table} (chan i : ℕ) → (t i).state ≡ running → Step n t n (go_to_sleep chan i t)
  tidies : {n : ℕ} {t : Table} (i : ℕ) → (t i).state ≡ running → Step n t n (tidy_up i t)

-- Every step of a table that is well formed leads to one.
Step-IsTable :
    {n n' : ℕ} {t t' : Table} → 0 < n → Step n t n' t' → IsTable n t → IsTable n' t' × (n ≤ n')
unfolding kkill yield_ go_to_sleep tidy_up allocproc
Step-IsTable {n} {t} pos (allocates frame pages) w =
    (allocproc-IsTable frame pages pos w, allocated-grows n t frame pages (find_unused nproc 0 t))
Step-IsTable pos (forks copied i j h u) w = (fork_child-IsTable copied i j u w, omega arith)
Step-IsTable pos (exits init i status t' h r e) w =
    (exit-IsTable init i status t' h r e w, omega arith)
Step-IsTable pos (waits stored i pid xstate t' e) w =
    (kwait-IsTable stored i pid xstate t' e w, omega arith)
Step-IsTable {t} pos (kills pid) w = (kill_loop-IsTable pid nproc 0 t w, omega arith)
Step-IsTable {t} pos (wakes chan me) w =
    (Keeps-IsTable _ (λ j h. Woken-Keeps _ _ (wakeup-Woken chan me t j h)) w, omega arith)
Step-IsTable pos (dispatches i t' e) w = (dispatch-IsTable i t' e w, omega arith)
Step-IsTable {t} pos (yields i r) w =
    (set-Keeps i _ (busy-Keeps (t i) _ (busy (t i) r refl) refl refl) w, omega arith)
Step-IsTable {t} pos (sleeps chan i r) w =
    (set-Keeps i _ (busy-Keeps (t i) _ (busy (t i) r refl) refl refl) w, omega arith)
Step-IsTable {t} pos (tidies i r) w =
    (set-Keeps i _ (busy-Keeps (t i) _ (busy (t i) r refl) refl (busy (t i) r refl)) w, omega arith)

-- Any number of steps.
pub data Reach : ℕ → Table → ℕ → Table → Type 0 where
  here : {n : ℕ} {t : Table} → Reach n t n t
  further : {n m k : ℕ} {t u v : Table} → Reach n t m u → Step m u k v → Reach n t k v

reached : {n m : ℕ} {t u : Table} → Reach n t m u → 0 < n → IsTable n t → IsTable m u × (n ≤ m)
reached here pos w = (w, omega arith)
reached {n} (further r s) pos w =
    let (v_, le) = reached r pos w in
    let (w_, le') = Step-IsTable (omega arith) s v_ in (w_, omega arith)

-- In every table that the steps of processes and scheduler reach from a well-formed one, two entries
-- in use with the same pid are one entry, each has a pid that has been given out, and an entry that is
-- not in use has no pid, parent, pages or channel left.
pub Reach-IsTable : {n m : ℕ} {t u : Table} → Reach n t m u → 0 < n → IsTable n t → IsTable m u
Reach-IsTable r pos w = (reached r pos w).0
