-- ===== src/Sleep/Finish.antt =====
-- The sleeper and the waker come to their ends.
use os_exp.Base.{
  ℕ, ◌+◌, ◌<◌, ◌≤◌, ◌≡◌, ◌⊎◌, inl, inr, ap, ◌∙◌, subst, Bool, true, not, ◌||◌, Option, none, some,
  if◌then◌else◌, arith, Bool-cases,
}
use os_exp.Proc.{ProcState, is_runnable}
use os_exp.Sleep.{
  Sleeper, enters, looks, locks, releases, marks, switches, off, tidies, unlocks, finished, Waker,
  starts, sets, wakes, checks, drops, leaves, stopped, System, sleeper_at, sleeper_step, waker_at,
  waker_step, initially,
}
use os_exp.Sleep.Lock.{Step, by_sleeper, by_waker, Run, begin, then_, Run-IsSound}
use os_exp.Sleep.Steps.{at}
use os_exp.Sleep.Progress.{CanStep, progress}
use os_exp.Sleep.Sound.{is_set, is_past, IsSound, past-set}

-- The steps that a process can still take before its end.
abbrev sleeper_left : (condition : Bool) → Sleeper → ℕ
sleeper_left condition enters = if condition then 2 else 11
sleeper_left condition looks = if condition then 1 else 10
sleeper_left condition locks = 9
sleeper_left condition releases = 8
sleeper_left condition marks = 7
sleeper_left condition switches = 6
sleeper_left condition off = 5
sleeper_left condition tidies = 4
sleeper_left condition unlocks = 3
sleeper_left condition finished = 0

abbrev waker_left : Waker → ℕ
waker_left starts = 6
waker_left sets = 5
waker_left wakes = 4
waker_left checks = 3
waker_left drops = 2
waker_left leaves = 1
waker_left stopped = 0

abbrev left : System → ℕ
left s = sleeper_left s.condition s.sleeper + waker_left s.waker

-- Fewer steps are left after a step that is taken.
abbrev Lowers : ℕ → Option System → Type 0
Lowers n none = Unit {0}
Lowers n (some t) = left t < n

past_set : (w : Waker) → is_past w ≡ true → is_set w ≡ true
past_set w e = elim (Bool-cases (is_set w)) [ inl y ↦ y | inr n ↦ cc (past-set w n, e) ]

set-fewer : (b : Bool) (sl : Sleeper) → sleeper_left true sl ≤ sleeper_left b sl
set-fewer b enters = ground arith
set-fewer b looks = ground arith
set-fewer b locks = omega arith
set-fewer b releases = omega arith
set-fewer b marks = omega arith
set-fewer b switches = omega arith
set-fewer b off = omega arith
set-fewer b tidies = omega arith
set-fewer b unlocks = omega arith
set-fewer b finished = omega arith

module _ (chan : ℕ) (condition lk plock : Bool) (state : ProcState) (c : ℕ) where
  sleeper-Lowers :
      (sl : Sleeper) (w : Waker)
      → IsSound chan (at chan condition lk plock state c sl w)
      → Lowers
          (left (at chan condition lk plock state c sl w))
          (sleeper_at chan sl (at chan condition lk plock state c sl w))
  sleeper-Lowers enters w v = elim (Bool-cases lk) [ inl y ↦ rw y tt | inr n ↦ rw n (ground arith) ]
  sleeper-Lowers looks w v = elim (Bool-cases condition) [
    | inl y ↦ rw y (omega arith)
    | inr n ↦ rw n (omega arith)
  ]
  sleeper-Lowers locks w v = elim (Bool-cases plock) [
    | inl y ↦ rw y tt
    | inr n ↦ rw n (omega arith)
  ]
  sleeper-Lowers releases w v = omega arith
  sleeper-Lowers marks w v = omega arith
  sleeper-Lowers switches w v = omega arith
  sleeper-Lowers off w v = elim (Bool-cases (plock || not (is_runnable state))) [
    | inl y ↦ rw y tt
    | inr n ↦ rw n (omega arith)
  ]
  sleeper-Lowers tidies w v = omega arith
  sleeper-Lowers unlocks w v =
      let true_ : condition ≡ true = v.set_by_waker ∙ past_set w v.where_it_is in
      rw true_ (omega arith)
  sleeper-Lowers finished w v = tt

  waker-Lowers :
      (sl : Sleeper) (w : Waker)
      → Lowers
          (left (at chan condition lk plock state c sl w))
          (waker_at chan w (at chan condition lk plock state c sl w))
  waker-Lowers sl starts = elim (Bool-cases lk) [ inl y ↦ rw y tt | inr n ↦ rw n (omega arith) ]
  waker-Lowers sl sets =
      let le : sleeper_left true sl ≤ sleeper_left condition sl = set-fewer condition sl in
      omega (arith, le)
  waker-Lowers sl wakes = elim (Bool-cases plock) [ inl y ↦ rw y tt | inr n ↦ rw n (omega arith) ]
  waker-Lowers sl checks = omega arith
  waker-Lowers sl drops = omega arith
  waker-Lowers sl leaves = omega arith
  waker-Lowers sl stopped = tt

Step-fewer : {chan : ℕ} {s t : System} → IsSound chan s → Step chan s t → left t < left s
unfolding sleeper_step waker_step
Step-fewer {chan} {s} v (by_sleeper e) =
    subst (Lowers (left s)) e
      (sleeper-Lowers chan s.condition s.lk s.plock s.state s.chan s.sleeper s.waker v)
Step-fewer {chan} {s} v (by_waker e) =
    subst (Lowers (left s)) e
      (waker-Lowers chan s.condition s.lk s.plock s.state s.chan s.sleeper s.waker)

Run-left : {chan n : ℕ} {s : System} → Run chan n s → n + left s ≤ 17
unfolding initially
Run-left begin = omega arith
Run-left (then_ r st) = omega (arith, Run-left r, Step-fewer (Run-IsSound r) st)

-- Whatever the interleaving, a run of the sleeper and the waker has at most 17 steps, and can go on
-- until both are at their ends, with the condition true: the sleeper never sleeps for good.
pub sleeper-finishes :
    {chan n : ℕ} {s : System}
    → Run chan n s
    → (n ≤ 17)
      × (((s.sleeper ≡ finished) × (s.waker ≡ stopped) × (s.condition ≡ true)) ⊎ CanStep chan s)
sleeper-finishes {chan} {s} r = (
  omega (arith, Run-left r),
  elim (progress chan s.condition s.lk s.plock s.state s.chan s.sleeper s.waker (Run-IsSound r)) [
    | inl e ↦ inl (e.0, e.1, (Run-IsSound r).set_by_waker ∙ ap is_set e.1)
    | inr m ↦ inr m
  ],
)
