-- ===== src/Spinlock.antt =====
-- Spin locks and the nesting of disabled interrupts, kernel/spinlock.c, on one CPU. A pointer to a CPU is
-- a number, 0 for the null pointer.
pub mod Nesting
mod Tests
use os_exp.Base.{
  ℕ, ◌+◌, ◌-◌, Bool, true, false, not, ◌&&◌, Option, none, some, ltb, ◌==◌, if◌then◌else◌, Outcome,
  returned, panicked, ◌>>=◌,
}

-- The part of `struct cpu` that the locks use, and whether interrupts are enabled.
pub record Cpu : Type 0 where
  pub noff : ℕ
  pub intena : Bool
  pub enabled : Bool

pub record SpinLock : Type 0 where
  pub locked : Bool
  pub cpu : ℕ

pub push_off : Cpu → Cpu
push_off c = record {
  noff = c.noff + 1;
  intena = if c.noff == 0 then c.enabled else c.intena;
  enabled = false;
}

pub pop_off : Cpu → Outcome Cpu
pop_off c =
    if c.enabled
    then panicked "pop_off - interruptible"
    else if ltb c.noff 1
    then panicked "pop_off"
    else let noff = c.noff - 1 in
      returned
        (record c { noff = noff; enabled = if (noff == 0) && c.intena then true else c.enabled })

abbrev pub initlock : SpinLock
initlock = record { locked = false; cpu = 0 }

-- Whether the CPU at `me` holds the lock.
abbrev pub holding : ℕ → SpinLock → Bool
holding me lk = lk.locked && (lk.cpu == me)

-- `none` where the CPU spins, since another one holds the lock.
pub acquire : ℕ → SpinLock → Cpu → Outcome (Option (SpinLock × Cpu))
acquire me lk c =
    let c' = push_off c in
    if holding me lk
    then panicked "acquire"
    else if lk.locked
    then returned none
    else returned (some (record { locked = true; cpu = me }, c'))

pub release : ℕ → SpinLock → Cpu → Outcome (SpinLock × Cpu)
release me lk c =
    if not (holding me lk) then panicked "release" else pop_off c >>= λ c'. returned (initlock, c')
