-- ===== src/Proc/Tests.antt =====
-- A table with init in entry 0, which forks a child that exits and is waited for.
use os_exp.Base.{◌≡◌, inr, refl, true, false, some, arith, update, returned}
use os_exp.Proc.{
  Proc, unused, used, sleeping, runnable, running, zombie, Table, reaped, kwait, kexit, freeproc,
  allocproc, fork_child, kkill, kill_one,
}
use os_exp.Proc.Exit.{Exited, kexit-Exited}
use os_exp.Proc.Wait.{WaitResult, kwait_lem}
use os_exp.Proc.Table.{IsTable, set-IsTable}
use os_exp.Proc.Reach.{Reach, here, further, allocates, forks, Reach-IsTable}

abbrev free_entry : Proc
free_entry = record {
  state = unused;
  chan = 0;
  killed = false;
  xstate = 0;
  pid = 0;
  parent = 0;
  sz = 0;
  pagetable = 0;
  trapframe = 0;
}

abbrev init_proc : Proc
init_proc = record free_entry {
  state = running;
  pid = 1;
  sz = 4096;
  pagetable = 12;
  trapframe = 11;
}

abbrev booted : Table
booted = update (λ _. free_entry) 0 init_proc

-- Entry 1 is a child of init, entry 2 a child of entry 1; init waits in `kwait`.
abbrev family : Table
family =
    update
      (update (update booted 0 (record init_proc { state = sleeping; chan = 1 })) 1
        (record init_proc { pid = 2; parent = 1 }))
      2 (record init_proc { pid = 3; parent = 2; state = zombie; xstate = 5 })

empty-IsTable : IsTable 1 (λ _. free_entry)
empty-IsTable = record {
  clear = λ j h u. record {
    no_pid = refl;
    no_parent = refl;
    no_frame = refl;
    no_pages = refl;
    no_chan = refl;
  };
  issued = λ j h u. cc;
  distinct = λ i j hi hj u e. cc;
}

booted-IsTable : IsTable 2 booted
booted-IsTable =
    set-IsTable 0 init_proc (omega arith) empty-IsTable
      (inr (refl, omega arith, omega arith, λ j h ne e. omega arith))

kexit-Exited_example : (t' : Table) × (kexit 1 1 9 family ≡ returned t') × Exited 1 1 9 family t'
kexit-Exited_example = kexit-Exited 1 1 9 family (omega arith) λ e. omega arith

kwait_lem_example : WaitResult true 1 family (kwait true 1 family)
kwait_lem_example = kwait_lem true 1 family

-- The zombie is found, and its entry is free again.
kwait_reaps : kwait true 1 family ≡ reaped 3 5 (update family 2 free_entry)
unfolding kwait freeproc
kwait_reaps = refl

abbrev child : Proc
child = record free_entry { state = used; pid = 2; pagetable = 22; trapframe = 21 }

abbrev forked : Table
forked = update (update booted 1 child) 1 (record child { sz = 4096; parent = 1; state = runnable })

allocate_child : allocproc 21 22 2 booted ≡ (some 1, 3, update booted 1 child)
unfolding allocproc
allocate_child = refl

Reach-forked : Reach 2 booted 3 forked
unfolding allocproc fork_child
Reach-forked = further (further here (allocates 21 22)) (forks true 0 1 (omega arith) refl)

Reach-IsTable_example : IsTable 3 forked
Reach-IsTable_example = Reach-IsTable Reach-forked (omega arith) booted-IsTable

-- `kill(0)` finds an entry that is not in use and reports success, and the process that is next
-- allocated there is killed from the start.
kill_zero : (kkill 0 booted).0 ≡ true
unfolding kkill
kill_zero = refl

born_killed : ((allocproc 21 22 2 (kkill 0 booted).1).2 1).killed ≡ true
unfolding kkill kill_one allocproc
born_killed = refl
