-- ===== src/Sleep/Steps.antt =====
-- A step of the sleeper or the waker keeps what holds at their places.
use os_exp.Base.{ℕ, inl, inr, refl, sym, ◌∙◌, Bool, not, ◌||◌, Bool-cases}
use os_exp.Proc.{ProcState, is_runnable}
use os_exp.Sleep.{
  Sleeper, enters, looks, locks, releases, marks, switches, off, tidies, unlocks, finished, Waker,
  starts, sets, wakes, checks, drops, leaves, stopped, System, sleeper_at, waker_at,
}
use os_exp.Sleep.Sound.{
  sleeper_has_lk, sleeper_has_plock, IsSound, Leads, past-set, been_woken, only_runnable,
  true-||true, left_false, free-&&, &&false, ||false, set-Here, woken-Here,
}

module _ (chan : ℕ) (condition lk plock : Bool) (state : ProcState) (c : ℕ) where
  abbrev pub at : Sleeper → Waker → System
  at sl w = record {
    condition = condition;
    lk = lk;
    plock = plock;
    state = state;
    chan = c;
    sleeper = sl;
    waker = w;
  }

  pub sleeper_step-at :
      (sl : Sleeper) (w : Waker)
      → IsSound chan (at sl w)
      → Leads chan (sleeper_at chan sl (at sl w))
  sleeper_step-at enters w v = elim (Bool-cases lk) [
    | inl y ↦ rw y tt
    | inr n ↦ rw n record {
      set_by_waker = v.set_by_waker;
      lk_held = refl;
      lk_once = sym v.lk_held ∙ n;
      plock_held = v.plock_held;
      plock_once = v.plock_once;
      where_it_is = v.where_it_is;
    }
  ]
  sleeper_step-at looks w v = elim (Bool-cases condition) [
    | inl y ↦ rw y record {
      set_by_waker = sym y ∙ v.set_by_waker;
      lk_held = v.lk_held;
      lk_once = v.lk_once;
      plock_held = v.plock_held;
      plock_once = v.plock_once;
      where_it_is = sym v.set_by_waker ∙ y;
    }
    | inr n ↦ rw n record {
      set_by_waker = sym n ∙ v.set_by_waker;
      lk_held = v.lk_held;
      lk_once = v.lk_once;
      plock_held = v.plock_held;
      plock_once = v.plock_once;
      where_it_is = sym v.set_by_waker ∙ n;
    }
  ]
  sleeper_step-at locks w v = elim (Bool-cases plock) [
    | inl y ↦ rw y tt
    | inr n ↦ rw n record {
      set_by_waker = v.set_by_waker;
      lk_held = v.lk_held;
      lk_once = v.lk_once;
      plock_held = refl;
      plock_once = sym v.plock_held ∙ n;
      where_it_is = v.where_it_is;
    }
  ]
  sleeper_step-at releases w v = record {
    set_by_waker = v.set_by_waker;
    lk_held = sym v.lk_once;
    lk_once = refl;
    plock_held = v.plock_held;
    plock_once = v.plock_once;
    where_it_is = past-set w v.where_it_is;
  }
  sleeper_step-at marks w v = record {
    set_by_waker = v.set_by_waker;
    lk_held = v.lk_held;
    lk_once = v.lk_once;
    plock_held = v.plock_held;
    plock_once = v.plock_once;
    where_it_is = (v.where_it_is, refl, refl);
  }
  sleeper_step-at switches w v = record {
    set_by_waker = v.set_by_waker;
    lk_held = v.lk_held;
    lk_once = v.lk_once;
    plock_held = sym v.plock_once;
    plock_once = refl;
    where_it_is = inl v.where_it_is;
  }
  sleeper_step-at off w v = elim (Bool-cases (plock || not (is_runnable state))) [
    | inl y ↦ rw y tt
    | inr n ↦ rw n record {
      set_by_waker = v.set_by_waker;
      lk_held = v.lk_held;
      lk_once = v.lk_once;
      plock_held = refl;
      plock_once = sym v.plock_held ∙ (only_runnable plock state n).0;
      where_it_is = been_woken _ state c chan v.where_it_is (only_runnable plock state n).1;
    }
  ]
  sleeper_step-at tidies w v = record {
    set_by_waker = v.set_by_waker;
    lk_held = v.lk_held;
    lk_once = v.lk_once;
    plock_held = v.plock_held;
    plock_once = v.plock_once;
    where_it_is = v.where_it_is;
  }
  sleeper_step-at unlocks w v = record {
    set_by_waker = v.set_by_waker;
    lk_held = v.lk_held;
    lk_once = v.lk_once;
    plock_held = sym v.plock_once;
    plock_once = refl;
    where_it_is = tt;
  }
  sleeper_step-at finished w v = tt

  pub waker_step-at :
      (sl : Sleeper) (w : Waker) → IsSound chan (at sl w) → Leads chan (waker_at chan w (at sl w))
  waker_step-at sl starts v = elim (Bool-cases lk) [
    | inl y ↦ rw y tt
    | inr n ↦ rw n record {
      set_by_waker = v.set_by_waker;
      lk_held = true-||true (sleeper_has_lk sl);
      lk_once = free-&& _ _ v.lk_held n;
      plock_held = v.plock_held;
      plock_once = v.plock_once;
      where_it_is = v.where_it_is;
    }
  ]
  waker_step-at sl sets v = record {
    set_by_waker = refl;
    lk_held = v.lk_held;
    lk_once = v.lk_once;
    plock_held = v.plock_held;
    plock_once = v.plock_once;
    where_it_is = set-Here chan sl state c (left_false _ v.lk_once) v.where_it_is;
  }
  waker_step-at sl wakes v = elim (Bool-cases plock) [
    | inl y ↦ rw y tt
    | inr n ↦ rw n record {
      set_by_waker = v.set_by_waker;
      lk_held = v.lk_held;
      lk_once = v.lk_once;
      plock_held = true-||true (sleeper_has_plock sl);
      plock_once = free-&& _ _ v.plock_held n;
      where_it_is = v.where_it_is;
    }
  ]
  waker_step-at sl checks v = record {
    set_by_waker = v.set_by_waker;
    lk_held = v.lk_held;
    lk_once = v.lk_once;
    plock_held = v.plock_held;
    plock_once = v.plock_once;
    where_it_is = woken-Here chan sl state c (left_false _ v.plock_once) v.where_it_is;
  }
  waker_step-at sl drops v = record {
    set_by_waker = v.set_by_waker;
    lk_held = v.lk_held;
    lk_once = v.lk_once;
    plock_held = sym (||false _ ∙ left_false _ v.plock_once);
    plock_once = &&false (sleeper_has_plock sl);
    where_it_is = v.where_it_is;
  }
  waker_step-at sl leaves v = record {
    set_by_waker = v.set_by_waker;
    lk_held = sym (||false _ ∙ left_false _ v.lk_once);
    lk_once = &&false (sleeper_has_lk sl);
    plock_held = v.plock_held;
    plock_once = v.plock_once;
    where_it_is = v.where_it_is;
  }
  waker_step-at sl stopped v = tt
