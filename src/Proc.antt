-- ===== src/Proc.antt =====
-- The process table, kernel/proc.c. A pointer to `proc[i]` is the number `i + 1`, and 0 is the null
-- pointer; so are the channels that processes sleep on. `wait_lock` and the locks of the processes make
-- each function one step.
pub mod Loops
pub mod Exit
pub mod Wait
pub mod Table
pub mod Operations
pub mod Reach
mod Tests
use os_exp.Base.{
  ℕ, zero, suc, ◌+◌, ◌-◌, ◌<◌, ◌≡◌, Bool, true, false, not, ◌&&◌, ◌||◌, Option, none, some, List,
  [], ◌∷◌, ltb, leb, ◌==◌, if◌then◌else◌, update, Outcome, returned, panicked,
}

-- NPROC
abbrev pub nproc : ℕ
nproc = 64

pub data ProcState : Type 0 where
  unused used sleeping runnable running zombie : ProcState

abbrev pub is_unused : ProcState → Bool
is_unused unused = true
is_unused _ = false

abbrev pub is_sleeping : ProcState → Bool
is_sleeping sleeping = true
is_sleeping _ = false

abbrev pub is_runnable : ProcState → Bool
is_runnable runnable = true
is_runnable _ = false

abbrev pub is_zombie : ProcState → Bool
is_zombie zombie = true
is_zombie _ = false

-- The saved context and the name are left out.
pub record Proc : Type 0 where
  pub state : ProcState
  pub chan : ℕ
  pub killed : Bool
  pub xstate : ℕ
  pub pid : ℕ
  pub parent : ℕ
  pub sz : ℕ
  -- pages, 0 for none
  pub pagetable : ℕ
  pub trapframe : ℕ

abbrev pub Table : Type 0
Table = ℕ → Proc

-- &proc[i]
abbrev pub pointer : ℕ → ℕ
pointer i = i + 1

-- What a process loses in `freeproc`; its pages go back to the allocator.
pub freeproc : Proc → Proc
freeproc p = record {
  state = unused;
  chan = 0;
  killed = false;
  xstate = 0;
  pid = 0;
  parent = 0;
  sz = 0;
  pagetable = 0;
  trapframe = 0;
}

-- The body of the loop of `wakeup`.
pub wake_one : ℕ → Proc → Proc
wake_one chan p =
    if is_sleeping p.state && (p.chan == chan) then record p { state = runnable } else p

-- `wakeup`, called by the process at the pointer `me` (0 if there is none): `k` entries are left.
pub wakeup_loop : (chan me : ℕ) → ℕ → ℕ → Table → Table
wakeup_loop chan me zero i t = t
wakeup_loop chan me (suc k) i t =
    wakeup_loop chan me k (i + 1) (if pointer i == me then t else update t i (wake_one chan (t i)))

pub wakeup : (chan me : ℕ) → Table → Table
unfolding wakeup_loop
wakeup chan me t = wakeup_loop chan me nproc 0 t

-- `kkill`: the result says whether there is such a process.
pub kill_one : Proc → Proc
kill_one p = record p { killed = true; state = if is_sleeping p.state then runnable else p.state }

pub kill_loop : ℕ → ℕ → ℕ → Table → Bool × Table
kill_loop pid zero i t = (false, t)
kill_loop pid (suc k) i t =
    let rest = kill_loop pid k (i + 1) t in
    if (t i).pid == pid then (true, update t i (kill_one (t i))) else rest

pub kkill : ℕ → Table → Bool × Table
unfolding kill_loop
kkill pid t = kill_loop pid nproc 0 t

-- `reparent(p)`, called by `me`, with `init` the pointer `initproc`.
pub reparent_loop : (init me p : ℕ) → ℕ → ℕ → Table → Table
reparent_loop init me p zero i t = t
reparent_loop init me p (suc k) i t =
    reparent_loop init me p k (i + 1) (
      if (t i).parent == p then wakeup init me (update t i (record (t i) { parent = init })) else t)

pub reparent : (init me p : ℕ) → Table → Table
unfolding reparent_loop
reparent init me p t = reparent_loop init me p nproc 0 t

-- `kexit` of the process `i`, from where it takes `wait_lock` on; before that it has closed its files.
pub kexit : (init i status : ℕ) → Table → Outcome Table
kexit init i status t =
    if pointer i == init
    then panicked "init exiting"
    else let t1 = reparent init (pointer i) (pointer i) t in
      let t2 = wakeup (t1 i).parent (pointer i) t1 in
      returned (update t2 i (record (t2 i) { xstate = status; state = zombie }))

-- One scan of `kwait`: a zombie child, or else whether there are children.
pub data Scan : Type 0 where
  child : ℕ → Scan
  nothing : Bool → Scan

pub scan_loop : ℕ → ℕ → ℕ → Bool → Table → Scan
scan_loop p zero i havekids t = nothing havekids
scan_loop p (suc k) i havekids t =
    let kids = havekids || ((t i).parent == p) in
    let rest = scan_loop p k (i + 1) kids t in
    if ((t i).parent == p) && is_zombie (t i).state then child i else rest

-- How `kwait` goes on after a scan: it returns a pid with the exit status that it stored, it returns
-- -1, or it sleeps on the caller's own pointer and scans again when woken.
pub data Waited : Type 0 where
  reaped : (pid xstate : ℕ) → Table → Waited
  failed : Waited
  waits : Waited

-- `stored` says whether the exit status could be stored for the caller (or was not wanted).
abbrev pub after_scan : Bool → Bool → Table → Scan → Waited
after_scan stored killed t (child i) =
    if stored then reaped (t i).pid (t i).xstate (update t i (freeproc (t i))) else failed
after_scan stored killed t (nothing havekids) = if not havekids || killed then failed else waits

pub kwait : Bool → ℕ → Table → Waited
unfolding scan_loop
kwait stored i t = after_scan stored (t i).killed t (scan_loop (pointer i) nproc 0 false t)

-- `allocproc`, with what `kalloc` gives for the trapframe and what `proc_pagetable` gives (0 for a
-- failure): the process found, if it could be set up, and `nextpid`.
pub find_unused : ℕ → ℕ → Table → Option ℕ
find_unused zero i t = none
find_unused (suc k) i t =
    let rest = find_unused k (i + 1) t in if is_unused (t i).state then some i else rest

abbrev pub set_up : (frame pages nextpid : ℕ) → ℕ → Table → Option ℕ × ℕ × Table
set_up frame pages nextpid i t =
    let p = record (t i) { pid = nextpid; state = used; trapframe = frame } in
    if (frame == 0) || (pages == 0)
    then (none, nextpid + 1, update t i (freeproc p))
    else (some i, nextpid + 1, update t i (record p { pagetable = pages }))

abbrev pub allocated : (frame pages nextpid : ℕ) → Table → Option ℕ → Option ℕ × ℕ × Table
allocated frame pages nextpid t none = (none, nextpid, t)
allocated frame pages nextpid t (some i) = set_up frame pages nextpid i t

pub allocproc : (frame pages nextpid : ℕ) → Table → Option ℕ × ℕ × Table
unfolding find_unused
allocproc frame pages nextpid t = allocated frame pages nextpid t (find_unused nproc 0 t)

-- The part of `kfork` after `allocproc`: `copied` says whether the memory of the parent `i` could be
-- copied to the child `j`.
pub fork_child : (copied : Bool) → (i j : ℕ) → Table → Option ℕ × Table
fork_child copied i j t =
    if copied
    then (
      some (t j).pid,
      update t j (record (t j) { sz = (t i).sz; parent = pointer i; state = runnable }),
    )
    else (none, update t j (freeproc (t j)))

-- The scheduler picks a process, a process yields, and one goes to sleep on a channel.
pub dispatch : ℕ → Table → Option Table
dispatch i t =
    if is_runnable (t i).state then some (update t i (record (t i) { state = running })) else none

pub yield_ : ℕ → Table → Table
yield_ i t = update t i (record (t i) { state = runnable })

pub go_to_sleep : (chan i : ℕ) → Table → Table
go_to_sleep chan i t = update t i (record (t i) { chan = chan; state = sleeping })

-- `sleep` after `sched` returned.
pub tidy_up : ℕ → Table → Table
tidy_up i t = update t i (record (t i) { chan = 0 })
