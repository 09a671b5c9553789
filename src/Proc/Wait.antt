-- ===== src/Proc/Wait.antt =====
-- `kwait`: what a parent gets of its children.
use os_exp.Base.{
  ℕ, zero, suc, ◌+◌, ◌<◌, ◌≤◌, ◌≡◌, ◌≢◌, ◌⊎◌, inl, inr, refl, ap, Bool, true, false, ◌&&◌, ◌||◌,
  arith, ◌==◌, update, Bool-cases,
}
use os_exp.Proc.{
  Table, nproc, pointer, is_zombie, Scan, child, nothing, scan_loop, Waited, reaped, failed, waits,
  after_scan, kwait, freeproc,
}

-- What a scan of the entries from `i` to `i + k` has seen, with `kids` children seen before.
abbrev Scanned : (p k i : ℕ) → Bool → Table → Scan → Type 0
Scanned p k i kids t (child c) =
    (i ≤ c) × (c < i + k) × ((t c).parent ≡ p) × (is_zombie (t c).state ≡ true)
Scanned p k i kids t (nothing b) =
    ((j : ℕ) → i ≤ j → j < i + k → (t j).parent ≡ p → is_zombie (t j).state ≡ false)
    × ((b ≡ false) → (kids ≡ false) × ((j : ℕ) → i ≤ j → j < i + k → (t j).parent ≢ p))
    × ((b ≡ true) → (kids ≡ true) ⊎ ((j : ℕ) × (j < i + k) × ((t j).parent ≡ p)))

widen :
    (p k i : ℕ) (kids : Bool) (t : Table) (s : Scan)
    → (((t i).parent == p) && is_zombie (t i).state) ≡ false
    → Scanned p k (i + 1) (kids || ((t i).parent == p)) t s
    → Scanned p (suc k) i kids t s
widen p k i kids t (child c) no_ w = (omega arith, omega arith, w.2, w.3)
widen p k i kids t (nothing b) no_ w = (
  λ j lo hi e. elim (Bool-cases (j == i)) [
    | inl y ↦ let y' : j ≡ i = ground arith in ground (arith, ap t y')
    | inr n ↦ w.0 j (ground arith) (omega arith) e
  ],
  λ f. (
    ground (arith, w.1 f),
    λ j lo hi e. elim (Bool-cases (j == i)) [
      | inl y ↦ let y' : j ≡ i = ground arith in ground (arith, ap t y', w.1 f)
      | inr n ↦ (w.1 f).1 j (ground arith) (omega arith) e
    ],
  ),
  λ s. elim (w.2 s) [
    | inl h ↦ elim (Bool-cases ((t i).parent == p)) [
      | inl y ↦ inr (i, omega arith, ground arith)
      | inr n ↦ inl (ground arith)
    ]
    | inr (j, h, e) ↦ inr (j, omega arith, e)
  ],
)

scan_loop-Scanned :
    (p k i : ℕ) (kids : Bool) (t : Table) → Scanned p k i kids t (scan_loop p k i kids t)
unfolding scan_loop
scan_loop-Scanned p zero i kids t =
    ((λ j lo hi. absurd (omega arith)), (λ f. (f, λ j lo hi. absurd (omega arith))), λ s. inl s)
scan_loop-Scanned p (suc k) i kids t =
    elim (Bool-cases (((t i).parent == p) && is_zombie (t i).state)) [
      | inl y ↦ rw y (omega arith, omega arith, ground arith, ground arith)
      | inr n ↦
          rw n
            (widen p k i kids t _ n (scan_loop-Scanned p k (i + 1) (kids || ((t i).parent == p)) t))
    ]

-- The children of the process `i`.
abbrev pub IsChild : ℕ → Table → ℕ → Type 0
IsChild i t j = (j < nproc) × ((t j).parent ≡ pointer i)

abbrev pub NoZombie : ℕ → Table → Type 0
NoZombie i t = (j : ℕ) → IsChild i t j → is_zombie (t j).state ≡ false

-- What each way of going on means.
abbrev pub WaitResult : Bool → ℕ → Table → Waited → Type 0
WaitResult stored i t (reaped pid xstate t') =
    (c : ℕ) × IsChild i t c
    × (is_zombie (t c).state ≡ true)
    × (pid ≡ (t c).pid)
    × (xstate ≡ (t c).xstate)
    × (stored ≡ true)
    × (t' ≡ update t c (freeproc (t c)))
WaitResult stored i t failed =
    ((j : ℕ) → ¬ (IsChild i t j))
    ⊎ (((t i).killed ≡ true) × NoZombie i t)
    ⊎ ((stored ≡ false) × ((c : ℕ) × IsChild i t c × (is_zombie (t c).state ≡ true)))
WaitResult stored i t waits = ((t i).killed ≡ false) × NoZombie i t × ((c : ℕ) × IsChild i t c)

after_scan-WaitResult :
    (stored : Bool) (i : ℕ) (t : Table) (s : Scan)
    → Scanned (pointer i) nproc 0 false t s
    → WaitResult stored i t (after_scan stored (t i).killed t s)
after_scan-WaitResult true i t (child c) w = (c, (omega arith, w.2), w.3, refl, refl, refl, refl)
after_scan-WaitResult false i t (child c) w = inr (inr (refl, (c, (omega arith, w.2), w.3)))
after_scan-WaitResult stored i t (nothing false) w =
    inl λ j c. (w.1 refl).1 j (omega arith) (omega arith) c.1
after_scan-WaitResult stored i t (nothing true) w = elim (Bool-cases (t i).killed) [
  | inl k ↦ rw k (inr (inl (k, λ j c. w.0 j (omega arith) (omega arith) c.1)))
  | inr n ↦ rw n (
    n,
    (λ j c. w.0 j (omega arith) (omega arith) c.1),
    elim (w.2 refl) [ inl no_ ↦ cc | inr (j, h, e) ↦ (j, (h, e)) ],
  )
]

-- `kwait` frees exactly one zombie child and returns its pid and exit status; it returns -1 if there is
-- no child, or the caller is killed and no child is a zombie, or a child is one and its status cannot
-- be stored; it sleeps if there are children, none of them a zombie, and the caller is not killed.
pub kwait_lem : (stored : Bool) (i : ℕ) (t : Table) → WaitResult stored i t (kwait stored i t)
unfolding kwait
kwait_lem stored i t =
    after_scan-WaitResult stored i t (scan_loop (pointer i) nproc 0 false t)
      (scan_loop-Scanned (pointer i) nproc 0 false t)
