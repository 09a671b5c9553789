-- ===== src/Sleep/Lock.antt =====
-- Who holds the two locks, and what that keeps the sleeper and the waker from.
use os_exp.Base.{ℕ, ◌+◌, ◌≡◌, inl, inr, refl, Bool, true, some, subst}
use os_exp.Proc.{ProcState, runnable}
use os_exp.Sleep.{Sleeper, off, System, sleeper_step, waker_step, initially}
use os_exp.Sleep.Sound.{is_set, is_past, Here, IsSound, Leads}
use os_exp.Sleep.Steps.{sleeper_step-at, waker_step-at}

-- The step of the sleeper, or of the waker.
pub data Step (chan : ℕ) (s t : System) : Type 0 where
  by_sleeper : sleeper_step chan s ≡ some t → Step chan s t
  by_waker : waker_step chan s ≡ some t → Step chan s t

-- `n` steps, in any order of the two.
pub data Run (chan : ℕ) : ℕ → System → Type 0 where
  begin : Run chan 0 initially
  then_ : {n : ℕ} {s t : System} → Run chan n s → Step chan s t → Run chan (n + 1) t

Step-IsSound : {chan : ℕ} {s t : System} → IsSound chan s → Step chan s t → IsSound chan t
unfolding sleeper_step waker_step
Step-IsSound {chan} {s} v (by_sleeper e) =
    subst (Leads chan) e
      (sleeper_step-at chan s.condition s.lk s.plock s.state s.chan s.sleeper s.waker v)
Step-IsSound {chan} {s} v (by_waker e) =
    subst (Leads chan) e
      (waker_step-at chan s.condition s.lk s.plock s.state s.chan s.sleeper s.waker v)

-- Whatever the interleaving, at most one of the two holds each lock, and the condition and the state of
-- the process are what the places of the two say.
pub Run-IsSound : {chan n : ℕ} {s : System} → Run chan n s → IsSound chan s
unfolding initially
Run-IsSound begin = record {
  set_by_waker = refl;
  lk_held = refl;
  lk_once = refl;
  plock_held = refl;
  plock_once = refl;
  where_it_is = tt;
}
Run-IsSound (then_ r st) = Step-IsSound (Run-IsSound r) st

asleep :
    (chan : ℕ) (sl : Sleeper) (set past : Bool) (state : ProcState) (c : ℕ)
    → sl ≡ off
    → past ≡ true
    → Here chan sl set past state c
    → state ≡ runnable
asleep chan sl set past state c e f h = elim (subst (λ x. Here chan x set past state c) e h) [
  | inl w ↦ cc (w.0, f)
  | inr w ↦ w.1
]

-- No wakeup is lost: whatever the interleaving, once the waker has looked for the sleeper, a process
-- that has gone to sleep is runnable again.
pub no_lost_wakeup :
    {chan n : ℕ} {s : System}
    → Run chan n s
    → is_past s.waker ≡ true
    → s.sleeper ≡ off
    → s.state ≡ runnable
no_lost_wakeup {chan} {s} r p e =
    asleep chan s.sleeper (is_set s.waker) (is_past s.waker) s.state s.chan e p
      (Run-IsSound r).where_it_is
