-- ===== src/Proc/Exit.antt =====
-- `reparent` and `kexit`: the children of a process that exits go to init.
use os_exp.Base.{
  ℕ, zero, suc, ◌+◌, ◌<◌, ◌≤◌, ◌≡◌, ◌≢◌, ◌⊎◌, inl, inr, refl, sym, ap, ◌∙◌, subst, false, arith,
  ◌==◌, if◌then◌else◌, update, update_self, update_ne, Bool-cases, returned,
}
use os_exp.Proc.{
  Proc, sleeping, runnable, zombie, Table, nproc, pointer, wake_one, wakeup, reparent_loop,
  reparent, kexit,
}
use os_exp.Proc.Loops.{wakeup_lem, wake_one_lem}

-- `q'` is `q`, perhaps woken.
abbrev pub Woken : Proc → Proc → Type 0
Woken q q' = (q' ≡ q) ⊎ ((q.state ≡ sleeping) × (q' ≡ record q { state = runnable }))

Woken-trans : (p q r : Proc) → Woken p q → Woken q r → Woken p r
Woken-trans p q r (inl e) w = rw e at w
Woken-trans p q r (inr h) (inl e) = inr (h.0, e ∙ h.1)
Woken-trans p q r (inr h) (inr k) = cc (ap Proc.state h.1, k.0)

pub wakeup-Woken : (chan me : ℕ) (t : Table) (j : ℕ) → j < nproc → Woken (t j) (wakeup chan me t j)
wakeup-Woken chan me t j h = rw (wakeup_lem chan me t j h) (elim (Bool-cases (pointer j == me)) [
  | inl e ↦ rw e (inl refl)
  | inr n ↦ rw n (elim (wake_one_lem chan (t j)) [ inl e ↦ inl e | inr w ↦ inr (w.0, w.2) ])
])

-- The parent that `reparent` leaves a process with.
abbrev pub adopted : (init p : ℕ) → Proc → Proc
adopted init p q = if q.parent == p then record q { parent = init } else q

abbrev round : (init me p i : ℕ) → Table → Table
round init me p i t =
    if (t i).parent == p then wakeup init me (update t i (record (t i) { parent = init })) else t

round_self :
    (init me p i : ℕ) (t : Table) → i < nproc → Woken (adopted init p (t i)) (round init me p i t i)
round_self init me p i t h = elim (Bool-cases ((t i).parent == p)) [
  | inl e ↦ rw e (
      subst (λ q. Woken q (wakeup init me (update t i (record (t i) { parent = init })) i))
        (update_self t i (record (t i) { parent = init }))
        (wakeup-Woken init me (update t i (record (t i) { parent = init })) i h))
  | inr n ↦ rw n (inl refl)
]

round_ne :
    (init me p i : ℕ) (t : Table) (j : ℕ) → j < nproc → j ≢ i → Woken (t j) (round init me p i t j)
round_ne init me p i t j h ne = elim (Bool-cases ((t i).parent == p)) [
  | inl e ↦
      let off : update t i (record (t i) { parent = init }) j ≡ t j = ground arith in
      rw e (
        subst (λ q. Woken q (wakeup init me (update t i (record (t i) { parent = init })) j)) off
          (wakeup-Woken init me (update t i (record (t i) { parent = init })) j h))
  | inr n ↦ rw n (inl refl)
]

reparent_loop-outside :
    (init me p k i : ℕ) (t : Table) (j : ℕ)
    → i + k ≤ nproc
    → j < nproc
    → (j < i) ⊎ (i + k ≤ j)
    → Woken (t j) (reparent_loop init me p k i t j)
unfolding reparent_loop
reparent_loop-outside init me p zero i t j fits h out = inl refl
reparent_loop-outside init me p (suc k) i t j fits h out =
    Woken-trans (t j) (round init me p i t j) _ (round_ne init me p i t j h (ground arith)) (
      reparent_loop-outside init me p k (i + 1) (round init me p i t) j (omega arith) h
        (ground arith))

Woken-adopted :
    (init p : ℕ) (q q' r : Proc)
    → Woken q q'
    → Woken (adopted init p q') r
    → Woken (adopted init p q) r
Woken-adopted init p q q' r (inl e) w = rw e at w
Woken-adopted init p q q' r (inr (s, e)) w =
    Woken-trans (adopted init p q) (adopted init p q') r
      (elim (Bool-cases (q.parent == p)) [
        | inl y ↦ rw (e, y) (inr (s, refl))
        | inr n ↦ rw (e, n) (inr (s, refl))
      ])
      w

reparent_loop-within :
    (init me p k i : ℕ) (t : Table) (j : ℕ)
    → i + k ≤ nproc
    → i ≤ j
    → j < i + k
    → Woken (adopted init p (t j)) (reparent_loop init me p k i t j)
unfolding reparent_loop
reparent_loop-within init me p zero i t j fits lo hi = absurd (omega arith)
reparent_loop-within init me p (suc k) i t j fits lo hi = elim (Bool-cases (j == i)) [
  | inl e ↦
      let e' : i ≡ j = ground arith in
      subst
        (λ n.
          Woken (adopted init p (t j)) (reparent_loop init me p k (n + 1) (round init me p n t) j))
        (sym e')
        (Woken-trans (adopted init p (t j)) (round init me p j t j) _
          (round_self init me p j t (omega arith))
          (reparent_loop-outside init me p k (j + 1) (round init me p j t) j (omega arith)
            (omega arith) (inl (omega arith))))
  | inr n ↦
      let ne : j ≢ i = ground arith in
      Woken-adopted init p (t j) (round init me p i t j) _
        (round_ne init me p i t j (omega arith) ne)
        (reparent_loop-within init me p k (i + 1) (round init me p i t) j (omega arith)
          (omega arith) (omega arith))
]

-- `reparent(p)` gives the children of `p` to init, wakes nobody that does not sleep, and changes
-- nothing else of any process.
pub reparent_lem :
    (init me p : ℕ) (t : Table) (j : ℕ)
    → j < nproc
    → Woken (adopted init p (t j)) (reparent init me p t j)
unfolding reparent
reparent_lem init me p t j h =
    reparent_loop-within init me p nproc 0 t j (omega arith) (omega arith) (omega arith)

-- What `kexit` of the process `i` with parent `par` leaves of a process.
pub record Exited (init i status : ℕ) (t t' : Table) : Type 0 where
  pub dead : (t' i).state ≡ zombie
  pub recorded : (t' i).xstate ≡ status
  pub same_pid : (t' i).pid ≡ (t i).pid
  pub no_children : (j : ℕ) → j < nproc → (t' j).parent ≢ pointer i
  pub others : (j : ℕ) → j < nproc → j ≢ i → Woken (adopted init (pointer i) (t j)) (t' j)
  pub parent_awake :
      (j : ℕ)
      → j < nproc
      → j ≢ i
      → pointer j ≡ (adopted init (pointer i) (t i)).parent
      → (t' j).chan ≡ pointer j
      → (t' j).state ≢ sleeping

Woken-parent : (q q' : Proc) → Woken q q' → q'.parent ≡ q.parent
Woken-parent q q' (inl e) = ap Proc.parent e
Woken-parent q q' (inr h) = ap Proc.parent h.1

Woken-pid : (q q' : Proc) → Woken q q' → q'.pid ≡ q.pid
Woken-pid q q' (inl e) = ap Proc.pid e
Woken-pid q q' (inr h) = ap Proc.pid h.1

adopted-parent : (init p : ℕ) (q : Proc) → p ≢ init → (adopted init p q).parent ≢ p
adopted-parent init p q ne = ground arith

adopted-pid : (init p : ℕ) (q : Proc) → (adopted init p q).pid ≡ q.pid
adopted-pid init p q = ground arith

wake_one-awake :
    (chan : ℕ) (p : Proc) → (wake_one chan p).chan ≡ chan → (wake_one chan p).state ≢ sleeping
unfolding wake_one
wake_one-awake chan p e s = ground arith

parent-awake :
    (me chan : ℕ) (t : Table) (j : ℕ)
    → j < nproc
    → pointer j ≢ me
    → pointer j ≡ chan
    → (wakeup chan me t j).chan ≡ pointer j
    → (wakeup chan me t j).state ≢ sleeping
parent-awake me chan t j h ne e =
    let other : (pointer j == me) ≡ false = ground arith in
    rw (wakeup_lem chan me t j h, other) λ c. wake_one-awake chan (t j) (c ∙ e)

-- `kexit` of a process other than init succeeds: the process is a zombie with its exit status, it has
-- no children left, its parent does not sleep on in `kwait`, and the others have at most been woken
-- or handed over to init.
pub kexit-Exited :
    (init i status : ℕ) (t : Table)
    → i < nproc
    → pointer i ≢ init
    → (t' : Table) × (kexit init i status t ≡ returned t') × Exited init i status t t'
unfolding kexit
kexit-Exited init i status t h ne =
    let me = pointer i in
    let t1 = reparent init me me t in
    let t2 = wakeup (t1 i).parent me t1 in
    let step1 = reparent_lem init me me t in
    let step2 = wakeup-Woken (t1 i).parent me t1 in
    let both = λ (j : ℕ) (hj : j < nproc). Woken-trans _ (t1 j) (t2 j) (step1 j hj) (step2 j hj) in
    let orphaned = λ (j : ℕ) (hj : j < nproc) (e : (t2 j).parent ≡ me).
      adopted-parent init me (t j) ne (sym (Woken-parent _ _ (both j hj)) ∙ e) in
    let awake =
      λ (j : ℕ) (hj : j < nproc) (nj : j ≢ i) (e : pointer j ≡ (adopted init me (t i)).parent).
        parent-awake me (t1 i).parent t1 j hj (omega arith)
          (e ∙ sym (Woken-parent _ _ (step1 i h))) in
    let other : pointer i == init ≡ false = ground arith in
    (
      update t2 i (record (t2 i) { xstate = status; state = zombie }),
      rw other,
      record {
        dead = ap Proc.state (update_self t2 i (record (t2 i) { xstate = status; state = zombie }));
        recorded =
            ap Proc.xstate (update_self t2 i (record (t2 i) { xstate = status; state = zombie }));
        same_pid =
            ap Proc.pid (update_self t2 i (record (t2 i) { xstate = status; state = zombie }))
            ∙ Woken-pid _ _ (both i h)
            ∙ adopted-pid init me (t i);
        no_children = λ j hj. elim (Bool-cases (j == i)) [
          | inl e ↦ rw e (orphaned i h)
          | inr n ↦ rw n (orphaned j hj)
        ];
        others = λ j hj nj. subst (Woken _) (sym (update_ne t2 i _ j nj)) (both j hj);
        parent_awake = λ j hj nj e.
            subst (λ q. q.chan ≡ pointer j → q.state ≢ sleeping) (sym (update_ne t2 i _ j nj))
              (awake j hj nj e);
      },
    )
