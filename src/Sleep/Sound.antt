-- ===== src/Sleep/Sound.antt =====
-- What holds at each place that the sleeper and the waker can be at.
use os_exp.Base.{
  ℕ, ◌≡◌, ◌⊎◌, inl, inr, refl, ap, Bool, true, false, not, ◌&&◌, ◌||◌, Option, none, some, ◌==◌,
  if◌then◌else◌, arith, Bool-cases,
}
use os_exp.Proc.{ProcState, sleeping, runnable, is_sleeping, is_runnable}
use os_exp.Sleep.{
  Sleeper, enters, looks, locks, releases, marks, switches, off, tidies, unlocks, finished, Waker,
  starts, sets, wakes, checks, drops, leaves, stopped, System,
}

abbrev pub sleeper_has_lk : Sleeper → Bool
sleeper_has_lk looks = true
sleeper_has_lk locks = true
sleeper_has_lk releases = true
sleeper_has_lk finished = true
sleeper_has_lk _ = false

abbrev pub sleeper_has_plock : Sleeper → Bool
sleeper_has_plock releases = true
sleeper_has_plock marks = true
sleeper_has_plock switches = true
sleeper_has_plock tidies = true
sleeper_has_plock unlocks = true
sleeper_has_plock _ = false

abbrev pub waker_has_lk : Waker → Bool
waker_has_lk starts = false
waker_has_lk stopped = false
waker_has_lk _ = true

abbrev pub waker_has_plock : Waker → Bool
waker_has_plock checks = true
waker_has_plock drops = true
waker_has_plock _ = false

-- The waker has made the condition true, and has looked for the sleeper.
abbrev pub is_set : Waker → Bool
is_set starts = false
is_set sets = false
is_set _ = true

abbrev pub is_past : Waker → Bool
is_past drops = true
is_past leaves = true
is_past stopped = true
is_past _ = false

-- What holds of the process at each place, with whether the waker has set the condition and has looked
-- for the sleeper.
abbrev pub Here : ℕ → Sleeper → (set past : Bool) → ProcState → ℕ → Type 0
Here chan locks set past state c = set ≡ false
Here chan releases set past state c = set ≡ false
Here chan marks set past state c = past ≡ false
Here chan switches set past state c = (past ≡ false) × (state ≡ sleeping) × (c ≡ chan)
Here chan off set past state c =
    ((past ≡ false) × (state ≡ sleeping) × (c ≡ chan)) ⊎ ((past ≡ true) × (state ≡ runnable))
Here chan tidies set past state c = past ≡ true
Here chan unlocks set past state c = past ≡ true
Here chan finished set past state c = set ≡ true
Here chan _ set past state c = Unit {0}

pub record IsSound (chan : ℕ) (s : System) : Type 0 where
  pub set_by_waker : s.condition ≡ is_set s.waker
  pub lk_held : s.lk ≡ (sleeper_has_lk s.sleeper || waker_has_lk s.waker)
  pub lk_once : (sleeper_has_lk s.sleeper && waker_has_lk s.waker) ≡ false
  pub plock_held : s.plock ≡ (sleeper_has_plock s.sleeper || waker_has_plock s.waker)
  pub plock_once : (sleeper_has_plock s.sleeper && waker_has_plock s.waker) ≡ false
  pub where_it_is : Here chan s.sleeper (is_set s.waker) (is_past s.waker) s.state s.chan

-- What a step that is taken leads to.
abbrev pub Leads : ℕ → Option System → Type 0
Leads chan none = Unit {0}
Leads chan (some t) = IsSound chan t

pub past-set : (w : Waker) → is_set w ≡ false → is_past w ≡ false
past-set starts e = refl
past-set sets e = refl
past-set wakes e = refl
past-set checks e = refl
past-set drops e = cc
past-set leaves e = cc
past-set stopped e = cc

pub been_woken :
    (past : Bool) (state : ProcState) (c chan : ℕ)
    → Here chan off true past state c
    → is_runnable state ≡ true
    → past ≡ true
been_woken past state c chan (inl h) e = cc (ap is_runnable h.1, e)
been_woken past state c chan (inr h) e = h.0

pub only_runnable :
    (plock : Bool) (state : ProcState)
    → (plock || not (is_runnable state)) ≡ false
    → (plock ≡ false) × (is_runnable state ≡ true)
only_runnable plock state e = ground (arith, e)

pub true-||true : (b : Bool) → true ≡ (b || true)
true-||true b = elim (Bool-cases b) [ inl y ↦ rw y refl | inr n ↦ rw n refl ]

-- What a `true` to the right of `&&` says.
pub left_false : (b : Bool) → (b && true) ≡ false → b ≡ false
left_false b e = ground (arith, e)

pub free-&& : (held b : Bool) → held ≡ (b || false) → held ≡ false → (b && true) ≡ false
free-&& held b e f = ground (arith, e, f)

pub &&false : (b : Bool) → (b && false) ≡ false
&&false b = ground arith

pub ||false : (b : Bool) → (b || false) ≡ b
||false b = ground arith

-- The condition becomes true, while the sleeper does not hold its lock.
pub set-Here :
    (chan : ℕ) (sl : Sleeper) (state : ProcState) (c : ℕ)
    → sleeper_has_lk sl ≡ false
    → Here chan sl false false state c
    → Here chan sl true false state c
set-Here chan enters state c e h = tt
set-Here chan looks state c e h = tt
set-Here chan locks state c e h = cc
set-Here chan releases state c e h = cc
set-Here chan marks state c e h = h
set-Here chan switches state c e h = h
set-Here chan off state c e h = h
set-Here chan tidies state c e h = h
set-Here chan unlocks state c e h = h
set-Here chan finished state c e h = cc

-- The waker looks for the sleeper, while the sleeper does not hold the lock of the process.
pub woken-Here :
    (chan : ℕ) (sl : Sleeper) (state : ProcState) (c : ℕ)
    → sleeper_has_plock sl ≡ false
    → Here chan sl true false state c
    → Here chan sl true true (if is_sleeping state && (c == chan) then runnable else state) c
woken-Here chan enters state c e h = tt
woken-Here chan looks state c e h = tt
woken-Here chan locks state c e h = cc
woken-Here chan releases state c e h = cc
woken-Here chan marks state c e h = cc
woken-Here chan switches state c e h = cc
woken-Here chan off state c e (inl h) =
    let asleep : is_sleeping state && (c == chan) ≡ true = ground (arith, h.1, h.2) in
    inr (refl, rw asleep refl)
woken-Here chan off state c e (inr h) = cc (h.0)
woken-Here chan tidies state c e h = cc
woken-Here chan unlocks state c e h = cc
woken-Here chan finished state c e h = refl
