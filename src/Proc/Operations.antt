-- ===== src/Proc/Operations.antt =====
-- What each operation on the process table does to a table that is well formed.
use os_exp.Base.{
  ℕ, zero, suc, ◌+◌, ◌<◌, ◌≤◌, ◌≡◌, inl, inr, refl, sym, ap, ◌∙◌, subst, Bool, true, false, ◌||◌,
  Option, none, some, arith, ◌==◌, if◌then◌else◌, update, Bool-cases, returned, panicked,
}
use os_exp.Proc.{
  Proc, ProcState, unused, used, sleeping, runnable, running, zombie, Table, nproc, pointer,
  is_sleeping, is_unused, is_runnable, reaped, kwait, kexit, find_unused, allocated, allocproc,
  fork_child, dispatch, kill_one, kill_loop,
}
use os_exp.Proc.Exit.{adopted, kexit-Exited}
use os_exp.Proc.Wait.{kwait_lem, WaitResult}
use os_exp.Proc.Table.{
  IsTable, Keeps, Keeps-IsTable, set-Keeps, busy-Keeps, Woken-Keeps, set-IsTable, free-IsTable,
}

awakened-in_use : (s : ProcState) → is_unused (if is_sleeping s then runnable else s) ≡ is_unused s
awakened-in_use unused = refl
awakened-in_use used = refl
awakened-in_use sleeping = refl
awakened-in_use runnable = refl
awakened-in_use running = refl
awakened-in_use zombie = refl

kill_one-Keeps : (p : Proc) → Keeps p (kill_one p)
unfolding kill_one
kill_one-Keeps p = (
  refl,
  awakened-in_use p.state,
  λ _ c. record {
    no_pid = c.no_pid;
    no_parent = c.no_parent;
    no_frame = c.no_frame;
    no_pages = c.no_pages;
    no_chan = c.no_chan;
  },
)

pub kill_loop-IsTable :
    {n : ℕ} (pid k i : ℕ) (t : Table) → IsTable n t → IsTable n (kill_loop pid k i t).1
unfolding kill_loop
kill_loop-IsTable pid zero i t w = w
kill_loop-IsTable pid (suc k) i t w = elim (Bool-cases ((t i).pid == pid)) [
  | inl e ↦ rw e (set-Keeps i (kill_one (t i)) (kill_one-Keeps (t i)) w)
  | inr e ↦ rw e (kill_loop-IsTable pid k (i + 1) t w)
]

pub find_unused_lem :
    (k i : ℕ) (t : Table) (c : ℕ)
    → find_unused k i t ≡ some c
    → (is_unused (t c).state ≡ true) × (c < i + k)
unfolding find_unused
find_unused_lem zero i t c e = cc
find_unused_lem (suc k) i t c e = elim (Bool-cases (is_unused (t i).state)) [
  | inl y ↦
      let same : i ≡ c = cc (rw y at e) in
      (ap (λ j. is_unused (t j).state) (sym same) ∙ y, omega arith)
  | inr n ↦ let (u, lt) = find_unused_lem k (i + 1) t c (rw n at e) in (u, omega arith)
]

pub busy :
    (p : Proc) {s : ProcState} → p.state ≡ s → is_unused s ≡ false → is_unused p.state ≡ false
busy p e v = ap is_unused e ∙ v

allocated-IsTable :
    {n : ℕ} {t : Table} (frame pages : ℕ) (r : Option ℕ)
    → 0 < n
    → ((c : ℕ) → r ≡ some c → (is_unused (t c).state ≡ true) × (c < nproc))
    → IsTable n t
    → IsTable (allocated frame pages n t r).1 (allocated frame pages n t r).2
allocated-IsTable frame pages none pos h w = w
allocated-IsTable {t} frame pages (some c) pos h w =
    elim (Bool-cases ((frame == 0) || (pages == 0))) [
      | inl y ↦ rw y (free-IsTable c _ (omega arith) w)
      | inr e ↦ rw e (
          set-IsTable c _ (omega arith) w (
            inr (
              refl,
              pos,
              omega arith,
              λ j hj ne same. elim (Bool-cases (is_unused (t j).state)) [
                | inl y ↦ omega (arith, (w.clear j hj y).no_pid)
                | inr f ↦ omega (arith, w.issued j hj f)
              ],
            )))
    ]

pub allocproc-IsTable :
    {n : ℕ} {t : Table} (frame pages : ℕ)
    → 0 < n
    → IsTable n t
    → IsTable (allocproc frame pages n t).1 (allocproc frame pages n t).2
unfolding allocproc
allocproc-IsTable {t} frame pages pos w =
    allocated-IsTable frame pages (find_unused nproc 0 t) pos (find_unused_lem nproc 0 t) w

pub allocated-grows :
    (n : ℕ) (t : Table) (frame pages : ℕ) (r : Option ℕ) → n ≤ (allocated frame pages n t r).1
allocated-grows n t frame pages none = omega arith
allocated-grows n t frame pages (some c) = ground arith

pub fork_child-IsTable :
    {n : ℕ} {t : Table} (copied : Bool) (i j : ℕ)
    → (t j).state ≡ used
    → IsTable n t
    → IsTable n (fork_child copied i j t).1
unfolding fork_child
fork_child-IsTable {t} true i j u w =
    set-Keeps j _ (busy-Keeps (t j) _ (busy (t j) u refl) refl refl) w
fork_child-IsTable false i j u w = free-IsTable j _ (omega arith) w

adopted-Keeps :
    {n : ℕ} {t : Table} (init i j : ℕ)
    → j < nproc
    → IsTable n t
    → Keeps (t j) (adopted init (pointer i) (t j))
adopted-Keeps {t} init i j h w = elim (Bool-cases ((t j).parent == pointer i)) [
  | inl y ↦
      let e : (t j).parent ≡ pointer i = ground arith in
      rw y (refl, refl, λ u c. absurd (omega (arith, c.no_parent, e)))
  | inr n ↦ rw n (refl, refl, λ _ c. c)
]

Keeps-trans : (p q r : Proc) → Keeps p q → Keeps q r → Keeps p r
Keeps-trans p q r k l = (l.0 ∙ k.0, l.1 ∙ k.1, λ u c. l.2 (k.1 ∙ u) (k.2 u c))

pub exit-IsTable :
    {n : ℕ} {t : Table} (init i status : ℕ) (t' : Table)
    → i < nproc
    → (t i).state ≡ running
    → kexit init i status t ≡ returned t'
    → IsTable n t
    → IsTable n t'
unfolding kexit
exit-IsTable {t} init i status t' h r e w = elim (Bool-cases (pointer i == init)) [
  | inl y ↦ let stops : panicked "init exiting" ≡ returned t' = rw y at e in cc
  | inr no_ ↦
      let (t'', e'', x) = kexit-Exited init i status t h (ground arith) in
      let same : t'' ≡ t' = cc (e'', e) in
      subst (IsTable _) same (
        Keeps-IsTable t''
          (λ j hj. elim (Bool-cases (j == i)) [
            | inl y ↦
                let k =
                  busy-Keeps (t i) (t'' i) (busy (t i) r refl) x.same_pid
                    (busy (t'' i) x.dead refl) in
                let at_i : j ≡ i = ground arith in subst (λ m. Keeps (t m) (t'' m)) (sym at_i) k
            | inr ne ↦
                Keeps-trans _ _ _ (adopted-Keeps init i j hj w)
                  (Woken-Keeps _ _ (x.others j hj (ground arith)))
          ])
          w)
]

pub kwait-IsTable :
    {n : ℕ} {t : Table} (stored : Bool) (i pid xstate : ℕ) (t' : Table)
    → kwait stored i t ≡ reaped pid xstate t'
    → IsTable n t
    → IsTable n t'
kwait-IsTable {n} {t} stored i pid xstate t' e w =
    let (c, _, _, _, _, _, freed) = subst (WaitResult stored i t) e (kwait_lem stored i t) in
    subst (IsTable n) (sym freed) (free-IsTable c (t c) (omega arith) w)

runnable-in_use : (s : ProcState) → is_runnable s ≡ true → is_unused s ≡ false
runnable-in_use unused e = cc
runnable-in_use used e = refl
runnable-in_use sleeping e = refl
runnable-in_use runnable e = refl
runnable-in_use running e = refl
runnable-in_use zombie e = refl

pub dispatch-IsTable :
    {n : ℕ} {t : Table} (i : ℕ) (t' : Table) → dispatch i t ≡ some t' → IsTable n t → IsTable n t'
unfolding dispatch
dispatch-IsTable {n} {t} i t' e w = elim (Bool-cases (is_runnable (t i).state)) [
  | inl y ↦
      let e' : some (update t i (record (t i) { state = running })) ≡ some t' = rw y at e in
      let same : update t i (record (t i) { state = running }) ≡ t' = cc e' in
      subst (IsTable n) same
        (set-Keeps i _ (busy-Keeps (t i) _ (runnable-in_use (t i).state y) refl refl) w)
  | inr no_ ↦ let e' : none ≡ some t' = rw no_ at e in cc
]
