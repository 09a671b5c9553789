-- ===== src/Sleep.antt =====
-- A process that sleeps until a condition holds, and one that makes it hold: `sleep` and `wakeup` of
-- kernel/proc.c, step by step under the lock `lk` of the condition and the lock of the process. The
-- callers are those of `sleep` everywhere in the kernel, `while(!condition) sleep(chan, lk);`.
pub mod Sound
pub mod Steps
pub mod Lock
pub mod Progress
pub mod Finish
mod Tests
use os_exp.Base.{
  ℕ, ◌+◌, Bool, true, false, not, ◌&&◌, ◌||◌, Option, none, some, ◌==◌, if◌then◌else◌,
}
use os_exp.Proc.{ProcState, running, sleeping, runnable, is_sleeping, is_runnable}

-- Where the sleeper is, named for what it does next.
pub data Sleeper : Type 0 where
  -- acquire(lk)
  enters : Sleeper
  -- while(!condition)
  looks : Sleeper
  -- acquire(&p->lock)
  locks : Sleeper
  -- release(lk)
  releases : Sleeper
  -- p->chan = chan; p->state = SLEEPING
  marks : Sleeper
  -- sched(): the scheduler releases p->lock
  switches : Sleeper
  -- the scheduler waits for it to be RUNNABLE
  off : Sleeper
  -- p->chan = 0
  tidies : Sleeper
  -- release(&p->lock)
  unlocks : Sleeper
  -- past the loop
  finished : Sleeper

pub data Waker : Type 0 where
  -- acquire(lk)
  starts : Waker
  -- condition = true
  sets : Waker
  -- acquire(&p->lock)
  wakes : Waker
  -- if(p->state == SLEEPING && p->chan == chan) p->state = RUNNABLE
  checks : Waker
  -- release(&p->lock)
  drops : Waker
  -- release(lk)
  leaves : Waker
  stopped : Waker

pub record System : Type 0 where
  pub condition : Bool
  -- whether the locks are held
  pub lk : Bool
  pub plock : Bool
  pub state : ProcState
  pub chan : ℕ
  pub sleeper : Sleeper
  pub waker : Waker

module _ (chan : ℕ) where
  abbrev sleeper_at : Sleeper → System → Option System
  sleeper_at enters s = if s.lk then none else some (record s { lk = true; sleeper = looks })
  sleeper_at looks s = some (record s { sleeper = if s.condition then finished else locks })
  sleeper_at locks s =
      if s.plock then none else some (record s { plock = true; sleeper = releases })
  sleeper_at releases s = some (record s { lk = false; sleeper = marks })
  sleeper_at marks s = some (record s { chan = chan; state = sleeping; sleeper = switches })
  sleeper_at switches s = some (record s { plock = false; sleeper = off })
  sleeper_at off s =
      if s.plock || not (is_runnable s.state)
      then none
      else some (record s { plock = true; state = running; sleeper = tidies })
  sleeper_at tidies s = some (record s { chan = 0; sleeper = unlocks })
  sleeper_at unlocks s = some (record s { plock = false; sleeper = enters })
  sleeper_at finished s = none

  -- The next step of the sleeper, or of the scheduler for it: `none` while it waits for a lock or to be
  -- woken, and at the end.
  pub sleeper_step : System → Option System
  sleeper_step s = sleeper_at s.sleeper s

  abbrev woken : System → ProcState
  woken s = if is_sleeping s.state && (s.chan == chan) then runnable else s.state

  abbrev waker_at : Waker → System → Option System
  waker_at starts s = if s.lk then none else some (record s { lk = true; waker = sets })
  waker_at sets s = some (record s { condition = true; waker = wakes })
  waker_at wakes s = if s.plock then none else some (record s { plock = true; waker = checks })
  waker_at checks s = some (record s { state = woken s; waker = drops })
  waker_at drops s = some (record s { plock = false; waker = leaves })
  waker_at leaves s = some (record s { lk = false; waker = stopped })
  waker_at stopped s = none

  pub waker_step : System → Option System
  waker_step s = waker_at s.waker s

-- The sleeper runs, and nobody has a lock.
pub initially : System
initially = record {
  condition = false;
  lk = false;
  plock = false;
  state = running;
  chan = 0;
  sleeper = enters;
  waker = starts;
}
