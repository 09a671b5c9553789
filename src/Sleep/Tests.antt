-- ===== src/Sleep/Tests.antt =====
-- Runs of the sleeper and the waker.
use os_exp.Base.{◌≤◌, ◌≡◌, ◌⊎◌, refl, true}
use os_exp.Proc.{runnable}
use os_exp.Sleep.{finished, stopped, off, drops, System, sleeper_step, waker_step, initially}
use os_exp.Sleep.Lock.{Run, begin, then_, by_sleeper, by_waker, no_lost_wakeup}
use os_exp.Sleep.Progress.{CanStep}
use os_exp.Sleep.Finish.{sleeper-finishes}

-- The sleeper finds the condition false and goes to sleep; then the waker looks for it.
abbrev missed : System
missed = record initially {
  condition = true;
  lk = true;
  plock = true;
  state = runnable;
  chan = 7;
  sleeper = off;
  waker = drops;
}

Run-missed : Run 7 10 missed
unfolding initially sleeper_step waker_step
Run-missed =
    then_
      (then_
        (then_
          (then_
            (then_
              (then_
                (then_
                  (then_ (then_ (then_ begin (by_sleeper refl)) (by_sleeper refl))
                    (by_sleeper refl))
                  (by_sleeper refl))
                (by_sleeper refl))
              (by_sleeper refl))
            (by_waker refl))
          (by_waker refl))
        (by_waker refl))
      (by_waker refl)

no_lost_wakeup_example : missed.state ≡ runnable
no_lost_wakeup_example = no_lost_wakeup Run-missed refl refl

sleeper-finishes_example :
    (10 ≤ 17)
    × (((missed.sleeper ≡ finished) × (missed.waker ≡ stopped) × (missed.condition ≡ true))
        ⊎ CanStep 7 missed)
sleeper-finishes_example = sleeper-finishes Run-missed
