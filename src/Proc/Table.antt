-- ===== src/Proc/Table.antt =====
-- The process table as a whole: an entry that is not in use is clear, and no two processes have one
-- pid.
use os_exp.Base.{
  ℕ, ◌<◌, ◌≤◌, ◌≡◌, ◌≢◌, ◌⊎◌, inl, inr, refl, sym, ap, ◌∙◌, subst, true, false, arith, ◌==◌, update,
  Bool-cases,
}
use os_exp.Proc.{Proc, Table, nproc, is_unused, freeproc}
use os_exp.Proc.Exit.{Woken}

-- An entry that can be allocated.
pub record IsClear (p : Proc) : Type 0 where
  pub no_pid : p.pid ≡ 0
  pub no_parent : p.parent ≡ 0
  pub no_frame : p.trapframe ≡ 0
  pub no_pages : p.pagetable ≡ 0
  pub no_chan : p.chan ≡ 0

pub record IsTable (nextpid : ℕ) (t : Table) : Type 0 where
  pub clear : (j : ℕ) → j < nproc → is_unused (t j).state ≡ true → IsClear (t j)
  pub issued :
      (j : ℕ) → j < nproc → is_unused (t j).state ≡ false → (0 < (t j).pid) × ((t j).pid < nextpid)
  pub distinct :
      (i j : ℕ)
      → i < nproc
      → j < nproc
      → is_unused (t i).state ≡ false
      → (t i).pid ≡ (t j).pid
      → i ≡ j

update-cases :
    (t : Table) (c : ℕ) (p : Proc) (j : ℕ)
    → ((j ≡ c) × (update t c p j ≡ p)) ⊎ ((j ≢ c) × (update t c p j ≡ t j))
update-cases t c p j = elim (Bool-cases (j == c)) [
  | inl e ↦ inl (ground arith, rw e)
  | inr n ↦ inr (ground arith, rw n)
]

-- An entry that holds the same process as before, or none as before.
abbrev pub Keeps : Proc → Proc → Type 0
Keeps p q =
    (q.pid ≡ p.pid)
    × (is_unused q.state ≡ is_unused p.state)
    × ((is_unused p.state ≡ true) → IsClear p → IsClear q)

pub Keeps-IsTable :
    {nextpid : ℕ} {t : Table} (t' : Table)
    → ((j : ℕ) → j < nproc → Keeps (t j) (t' j))
    → IsTable nextpid t
    → IsTable nextpid t'
Keeps-IsTable {t} t' keep w = record {
  clear = λ j h u. let (_, eu, k) = keep j h in k (sym eu ∙ u) (w.clear j h (sym eu ∙ u));
  issued = λ j h u. let (ep, eu, _) = keep j h in omega (arith, w.issued j h (sym eu ∙ u), ep);
  distinct = λ i j hi hj u e.
      let (ei, ui, _) = keep i hi in
      let (ej, _, _) = keep j hj in w.distinct i j hi hj (sym ui ∙ u) (sym ei ∙ e ∙ ej);
}

-- One entry that keeps its process.
pub set-Keeps :
    {nextpid : ℕ} {t : Table} (c : ℕ) (p : Proc)
    → Keeps (t c) p
    → IsTable nextpid t
    → IsTable nextpid (update t c p)
set-Keeps {t} c p k = Keeps-IsTable (update t c p) λ j _. elim (update-cases t c p j) [
  | inl (e, v) ↦ subst (Keeps (t j)) (sym v) (subst (λ n. Keeps (t n) p) (sym e) k)
  | inr (_, v) ↦ subst (Keeps (t j)) (sym v) (refl, refl, λ _ x. x)
]

-- A process that is in use, and whose pid and use do not change.
pub busy-Keeps :
    (p q : Proc) → is_unused p.state ≡ false → q.pid ≡ p.pid → is_unused q.state ≡ false → Keeps p q
busy-Keeps p q u e v = (e, v ∙ sym u, λ y. cc)

pub Woken-Keeps : (p q : Proc) → Woken p q → Keeps p q
Woken-Keeps p q (inl e) = subst (Keeps p) (sym e) (refl, refl, λ _ x. x)
Woken-Keeps p q (inr (s, e)) = subst (Keeps p) (sym e) (busy-Keeps p _ (ap is_unused s) refl refl)

-- A value that an entry may be given: clear, or with a pid that no other process has.
abbrev pub Fits : (nextpid c : ℕ) → Table → Proc → Type 0
Fits nextpid c t p =
    ((is_unused p.state ≡ true) × IsClear p)
    ⊎ ((is_unused p.state ≡ false)
        × (0 < p.pid)
        × (p.pid < nextpid)
        × ((j : ℕ) → j < nproc → j ≢ c → (t j).pid ≢ p.pid))

module _ {nextpid nextpid' : ℕ} {t : Table} (c : ℕ) (p : Proc) (le : nextpid ≤ nextpid') where
  pub set-IsTable : IsTable nextpid t → Fits nextpid' c t p → IsTable nextpid' (update t c p)
  set-IsTable w f = record {
    clear = λ j h u. elim (update-cases t c p j) [
      | inl (_, e) ↦ elim f [
        | inl (_, k) ↦ subst IsClear (sym e) k
        | inr (no_, _, _, _) ↦ cc (ap (λ (r : Proc). is_unused r.state) e, u, no_)
      ]
      | inr (_, e) ↦
          subst IsClear (sym e) (w.clear j h (sym (ap (λ (r : Proc). is_unused r.state) e) ∙ u))
    ];
    issued = λ j h u. elim (update-cases t c p j) [
      | inl (_, e) ↦ elim f [
        | inl (yes_, _) ↦ cc (ap (λ (r : Proc). is_unused r.state) e, u, yes_)
        | inr (_, lo, hi, _) ↦ omega (arith, ap Proc.pid e)
      ]
      | inr (_, e) ↦
          omega
            (arith, ap Proc.pid e, w.issued j h (sym (ap (λ (r : Proc). is_unused r.state) e) ∙ u))
    ];
    distinct = λ i j hi hj u same. elim (update-cases t c p i) [
      | inl (ic, ei) ↦ elim (update-cases t c p j) [
        | inl (jc, _) ↦ ic ∙ sym jc
        | inr (jn, ej) ↦ elim f [
          | inl (yes_, _) ↦ cc (ap (λ (r : Proc). is_unused r.state) ei, u, yes_)
          | inr (_, _, _, fresh) ↦
              absurd (fresh j hj jn (sym (ap Proc.pid ej) ∙ sym same ∙ ap Proc.pid ei))
        ]
      ]
      | inr (n, ei) ↦
          let ui = sym (ap (λ (r : Proc). is_unused r.state) ei) ∙ u in
          elim (update-cases t c p j) [
            | inl (_, ej) ↦ elim f [
              | inl (_, k) ↦
                  absurd (
                    omega (arith, w.issued i hi ui, ap Proc.pid ei, ap Proc.pid ej, same, k.no_pid))
              | inr (_, _, _, fresh) ↦
                  absurd (fresh i hi n (sym (ap Proc.pid ei) ∙ same ∙ ap Proc.pid ej))
            ]
            | inr (_, ej) ↦ w.distinct i j hi hj ui (sym (ap Proc.pid ei) ∙ same ∙ ap Proc.pid ej)
          ]
    ];
  }

pub freeproc-IsClear : (p : Proc) → (is_unused (freeproc p).state ≡ true) × IsClear (freeproc p)
unfolding freeproc
freeproc-IsClear p = (
  refl,
  record { no_pid = refl; no_parent = refl; no_frame = refl; no_pages = refl; no_chan = refl },
)

-- Freeing a process clears its entry.
pub free-IsTable :
    {nextpid nextpid' : ℕ} {t : Table} (c : ℕ) (p : Proc)
    → nextpid ≤ nextpid'
    → IsTable nextpid t
    → IsTable nextpid' (update t c (freeproc p))
free-IsTable c p le w = set-IsTable c (freeproc p) le w (inl (freeproc-IsClear p))
