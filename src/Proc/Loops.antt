-- ===== src/Proc/Loops.antt =====
-- The loops over the process table, entry by entry.
use os_exp.Base.{
  ℕ, zero, suc, ◌+◌, ◌<◌, ◌≡◌, ◌≢◌, refl, false, not, arith, ◌==◌, if◌then◌else◌, update,
  update_self, subst, sym, ap, ◌∙◌, ◌≤◌, ◌⊎◌, Bool-cases, inl, inr,
}
use os_exp.Proc.{Proc, sleeping, runnable, Table, nproc, pointer, wake_one, wakeup_loop, wakeup}

-- One round of `wakeup`.
abbrev round : (chan me i : ℕ) → Table → Table
round chan me i t = if pointer i == me then t else update t i (wake_one chan (t i))

round_self :
    (chan me i : ℕ) (t : Table)
    → round chan me i t i ≡ (if not (pointer i == me) then wake_one chan (t i) else t i)
round_self chan me i t = elim (Bool-cases (pointer i == me)) [
  | inl e ↦ rw e
  | inr n ↦ rw n (update_self t i (wake_one chan (t i)))
]

round_ne : (chan me i : ℕ) (t : Table) (j : ℕ) → j ≢ i → round chan me i t j ≡ t j
round_ne chan me i t j ne = elim (Bool-cases (pointer i == me)) [
  | inl e ↦ rw e
  | inr n ↦ let off : (j == i) ≡ false = ground arith in rw (n, off)
]

wakeup_loop-before :
    (chan me k i : ℕ) (t : Table) (j : ℕ)
    → (j < i) ⊎ (i + k ≤ j)
    → wakeup_loop chan me k i t j ≡ t j
unfolding wakeup_loop
wakeup_loop-before chan me zero i t j h = refl
wakeup_loop-before chan me (suc k) i t j h =
    wakeup_loop-before chan me k (i + 1) (round chan me i t) j (ground arith)
    ∙ round_ne chan me i t j (ground arith)

wakeup_loop-within :
    (chan me k i : ℕ) (t : Table) (j : ℕ)
    → i ≤ j
    → j < i + k
    → wakeup_loop chan me k i t j ≡ (if not (pointer j == me) then wake_one chan (t j) else t j)
unfolding wakeup_loop
wakeup_loop-within chan me zero i t j lo hi = absurd (omega arith)
wakeup_loop-within chan me (suc k) i t j lo hi = elim (Bool-cases (j == i)) [
  | inl e ↦
      let e' : i ≡ j = ground arith in
      wakeup_loop-before chan me k (i + 1) (round chan me i t) j (ground arith)
      ∙ subst
          (λ n. round chan me n t j ≡ (if not (pointer j == me) then wake_one chan (t j) else t j))
          (sym e') (round_self chan me j t)
  | inr n ↦
      let ne : j ≢ i = ground arith in
      wakeup_loop-within chan me k (i + 1) (round chan me i t) j (omega arith) (omega arith)
      ∙ ap (λ p. if not (pointer j == me) then wake_one chan p else p) (round_ne chan me i t j ne)
]

-- `wakeup` makes runnable exactly the processes of the table, other than the caller, that sleep on the
-- channel, and changes nothing else.
pub wakeup_lem :
    (chan me : ℕ) (t : Table) (j : ℕ)
    → j < nproc
    → wakeup chan me t j ≡ (if not (pointer j == me) then wake_one chan (t j) else t j)
unfolding wakeup
wakeup_lem chan me t j h = wakeup_loop-within chan me nproc 0 t j (omega arith) (omega arith)

-- A process that `wakeup` has passed over has lost nothing but its sleep.
pub wake_one_lem :
    (chan : ℕ) (p : Proc)
    → (wake_one chan p ≡ p)
      ⊎ ((p.state ≡ sleeping) × (p.chan ≡ chan) × (wake_one chan p ≡ record p { state = runnable }))
unfolding wake_one
wake_one_lem chan p = ground arith
