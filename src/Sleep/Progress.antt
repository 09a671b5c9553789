-- ===== src/Sleep/Progress.antt =====
-- Before both are at their ends, the sleeper or the waker can take a step.
use os_exp.Base.{ℕ, ◌≡◌, ◌⊎◌, inl, inr, refl, Bool, true, false, some, Bool-cases}
use os_exp.Proc.{ProcState, runnable}
use os_exp.Sleep.{
  Sleeper, enters, looks, locks, releases, marks, switches, off, tidies, unlocks, finished, Waker,
  starts, sets, wakes, checks, drops, leaves, stopped, System, sleeper_at, sleeper_step, waker_at,
  waker_step,
}
use os_exp.Sleep.Lock.{Step, by_sleeper, by_waker}
use os_exp.Sleep.Steps.{at}
use os_exp.Sleep.Sound.{IsSound}

abbrev pub CanStep : ℕ → System → Type 0
CanStep chan s = (t : System) × Step chan s t

module _ (chan : ℕ) (condition lk plock : Bool) (state : ProcState) (c : ℕ) where
  abbrev here : Sleeper → Waker → System
  here = at chan condition lk plock state c

  -- What the next step of the sleeper waits for.
  abbrev Free : Sleeper → Type 0
  Free enters = lk ≡ false
  Free locks = plock ≡ false
  Free off = (plock ≡ false) × (state ≡ runnable)
  Free finished = ⊥
  Free _ = Unit {0}

  sleeper_goes :
      (sl : Sleeper) (w : Waker)
      → Free sl
      → (t : System) × (sleeper_at chan sl (here sl w) ≡ some t)
  sleeper_goes enters w e = rw e (_, refl)
  sleeper_goes looks w e = (_, refl)
  sleeper_goes locks w e = rw e (_, refl)
  sleeper_goes releases w e = (_, refl)
  sleeper_goes marks w e = (_, refl)
  sleeper_goes switches w e = (_, refl)
  sleeper_goes off w e = rw (e.0, e.1) (_, refl)
  sleeper_goes tidies w e = (_, refl)
  sleeper_goes unlocks w e = (_, refl)
  sleeper_goes finished w e = absurd e

  sleeper_moves : (sl : Sleeper) (w : Waker) → Free sl → CanStep chan (here sl w)
  unfolding sleeper_step
  sleeper_moves sl w e = let (t, st) = sleeper_goes sl w e in (t, by_sleeper st)

  waker_goes :
      (sl : Sleeper) → lk ≡ false → (t : System) × (waker_at chan starts (here sl starts) ≡ some t)
  waker_goes sl e = rw e (_, refl)

  waker_goes_on :
      (sl : Sleeper) → plock ≡ false → (t : System) × (waker_at chan wakes (here sl wakes) ≡ some t)
  waker_goes_on sl e = rw e (_, refl)

  -- The sleeper is not in the way of a waker that waits for a lock.
  lk-Free : (sl : Sleeper) → IsSound chan (here sl starts) → lk ≡ true → Free sl
  lk-Free enters v e = cc (v.lk_held, e)
  lk-Free looks v e = tt
  lk-Free locks v e = v.plock_held
  lk-Free releases v e = tt
  lk-Free marks v e = tt
  lk-Free switches v e = tt
  lk-Free off v e = cc (v.lk_held, e)
  lk-Free tidies v e = tt
  lk-Free unlocks v e = tt
  lk-Free finished v e = cc (v.where_it_is)

  plock-Free : (sl : Sleeper) → IsSound chan (here sl wakes) → plock ≡ true → Free sl
  plock-Free enters v e = cc (v.plock_held, e)
  plock-Free looks v e = tt
  plock-Free locks v e = cc (v.plock_held, e)
  plock-Free releases v e = tt
  plock-Free marks v e = tt
  plock-Free switches v e = tt
  plock-Free off v e = cc (v.plock_held, e)
  plock-Free tidies v e = tt
  plock-Free unlocks v e = tt
  plock-Free finished v e = cc (v.plock_held, e)

  -- With the waker gone the sleeper is free, or at its end.
  last-Free : (sl : Sleeper) → IsSound chan (here sl stopped) → (sl ≡ finished) ⊎ Free sl
  last-Free enters v = inr v.lk_held
  last-Free looks v = inr tt
  last-Free locks v = inr v.plock_held
  last-Free releases v = inr tt
  last-Free marks v = inr tt
  last-Free switches v = inr tt
  last-Free off v = elim v.where_it_is [ inl h ↦ cc (h.0) | inr h ↦ inr (v.plock_held, h.1) ]
  last-Free tidies v = inr tt
  last-Free unlocks v = inr tt
  last-Free finished v = inl refl

  pub progress :
      (sl : Sleeper) (w : Waker)
      → IsSound chan (here sl w)
      → ((sl ≡ finished) × (w ≡ stopped)) ⊎ CanStep chan (here sl w)
  unfolding waker_step
  progress sl starts v = elim (Bool-cases lk) [
    | inl y ↦ inr (sleeper_moves sl starts (lk-Free sl v y))
    | inr n ↦ let (t, st) = waker_goes sl n in inr (t, by_waker st)
  ]
  progress sl sets v = inr (_, by_waker refl)
  progress sl wakes v = elim (Bool-cases plock) [
    | inl y ↦ inr (sleeper_moves sl wakes (plock-Free sl v y))
    | inr n ↦ let (t, st) = waker_goes_on sl n in inr (t, by_waker st)
  ]
  progress sl checks v = inr (_, by_waker refl)
  progress sl drops v = inr (_, by_waker refl)
  progress sl leaves v = inr (_, by_waker refl)
  progress sl stopped v = elim (last-Free sl v) [
    | inl e ↦ inl (e, refl)
    | inr f ↦ inr (sleeper_moves sl stopped f)
  ]
