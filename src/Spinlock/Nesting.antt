-- ===== src/Spinlock/Nesting.antt =====
-- `push_off` and `pop_off` are matched, and so are `acquire` and `release`.
use os_exp.Base.{
  ℕ, ◌-◌, ◌<◌, ◌≡◌, refl, sym, ◌∙◌, Bool, true, false, ◌&&◌, inl, inr, some, arith, ltb, ◌==◌,
  if◌then◌else◌, Bool-cases, Outcome, returned, panicked, ◌>>=◌,
}
use os_exp.Spinlock.{Cpu, SpinLock, push_off, pop_off, initlock, holding, acquire, release}

-- Inside a section that has disabled interrupts they are off.
pub record IsCpu (c : Cpu) : Type 0 where
  pub off_inside : 0 < c.noff → c.enabled ≡ false

-- As before, but for `intena` outside of any section.
pub record Restored (c c' : Cpu) : Type 0 where
  pub same_depth : c'.noff ≡ c.noff
  pub same_interrupts : c'.enabled ≡ c.enabled
  pub same_memory : 0 < c.noff → c'.intena ≡ c.intena

-- Code with matched calls.
pub data Code : Type 0 where
  straight : Code
  then_ : Code → Code → Code
  section_ : Code → Code

abbrev pub run : Code → Cpu → Outcome Cpu
run straight c = returned c
run (then_ p q) c = run p c >>= run q
run (section_ p) c = run p (push_off c) >>= pop_off

abbrev pub Restores : (c : Cpu) → Outcome Cpu → Type 0
Restores c (returned c') = Restored c c'
Restores c (panicked why) = ⊥

Restored-IsCpu : (c c' : Cpu) → Restored c c' → IsCpu c → IsCpu c'
Restored-IsCpu c c' r w = record {
  off_inside = λ h. r.same_interrupts ∙ w.off_inside (omega (arith, r.same_depth));
}

push_off-IsCpu : (c : Cpu) → IsCpu (push_off c)
unfolding push_off
push_off-IsCpu c = record { off_inside = λ h. refl }

then-Restores :
    (c : Cpu) (o : Outcome Cpu) (rest : Cpu → Outcome Cpu)
    → Restores c o
    → ((c' : Cpu) → Restored c c' → Restores c' (rest c'))
    → Restores c (o >>= rest)
then-Restores c (panicked why) rest r next = r
then-Restores c (returned c') rest r next = go (rest c') (next c' r)
  where
    go : (o : Outcome Cpu) → Restores c' o → Restores c o
    go (panicked why) s = s
    go (returned d) s = record {
      same_depth = s.same_depth ∙ r.same_depth;
      same_interrupts = s.same_interrupts ∙ r.same_interrupts;
      same_memory = λ h. s.same_memory (omega (arith, r.same_depth)) ∙ r.same_memory h;
    }

pop_off-Restores : (c d : Cpu) → IsCpu c → Restored (push_off c) d → Restores c (pop_off d)
unfolding push_off pop_off
pop_off-Restores c d w r =
    let deep : ltb d.noff 1 ≡ false = ground (arith, r.same_depth) in
    let memory : d.intena ≡ (if c.noff == 0 then c.enabled else c.intena) =
      r.same_memory (omega arith) in
    rw (r.same_interrupts, deep)
      (elim (Bool-cases (c.noff == 0)) [
        | inl y ↦
            let outermost : d.noff - 1 == 0 ≡ true = ground (arith, r.same_depth) in
            let restored : d.intena ≡ c.enabled = rw y at memory in
            record {
              same_depth = omega (arith, r.same_depth);
              same_interrupts = rw (outermost, restored) (again c.enabled);
              same_memory = λ h. ground arith;
            }
        | inr n ↦
            let inner : d.noff - 1 == 0 ≡ false = ground (arith, r.same_depth) in
            let same : d.intena ≡ c.intena = rw n at memory in
            record {
              same_depth = omega (arith, r.same_depth);
              same_interrupts = rw inner (sym (w.off_inside (ground arith)));
              same_memory = λ h. same;
            }
      ])
  where
    again : (b : Bool) → (if true && b then true else false) ≡ b
    again true = refl
    again false = refl

run-Restores : (p : Code) (c : Cpu) → IsCpu c → Restores c (run p c)
run-Restores straight c w = record {
  same_depth = refl;
  same_interrupts = refl;
  same_memory = λ h. refl;
}
run-Restores (then_ p q) c w =
    then-Restores c (run p c) (run q) (run-Restores p c w)
      λ c' r. run-Restores q c' (Restored-IsCpu c c' r w)
run-Restores (section_ p) c w =
    close (run p (push_off c)) (run-Restores p (push_off c) (push_off-IsCpu c))
  where
    close : (o : Outcome Cpu) → Restores (push_off c) o → Restores c (o >>= pop_off)
    close (panicked why) r = r
    close (returned d) r = pop_off-Restores c d w r

Restores-returned :
    (c : Cpu) (o : Outcome Cpu) → Restores c o → (c' : Cpu) × (o ≡ returned c') × Restored c c'
Restores-returned c (returned c') r = (c', refl, r)
Restores-returned c (panicked why) r = absurd r

-- On a CPU whose interrupts are off inside sections, code whose calls of `push_off` and `pop_off` are
-- matched, to any depth, does not panic, and it leaves the depth and the interrupts as they were; inside a section that has disabled interrupts also what
-- is to be restored at its end.
pub run-Restored :
    (p : Code) (c : Cpu) → IsCpu c → (c' : Cpu) × (run p c ≡ returned c') × Restored c c'
run-Restored p c w = Restores-returned c (run p c) (run-Restores p c w)

push_off-off : (c : Cpu) → (push_off c).enabled ≡ false
unfolding push_off
push_off-off c = refl

-- On a CPU whose interrupts are off inside sections, `acquire` of a lock that nobody holds gets it, with
-- interrupts off, and its release then succeeds and leaves the lock free and depth and interrupts as
-- they were.
pub acquire-release :
    (me : ℕ) (lk : SpinLock) (c : Cpu)
    → IsCpu c
    → lk.locked ≡ false
    → (lk' : SpinLock) × (c' : Cpu) × (c'' : Cpu) × (acquire me lk c ≡ returned (some (lk', c')))
      × (holding me lk' ≡ true)
      × (c'.enabled ≡ false)
      × (release me lk' c' ≡ returned (initlock, c''))
      × Restored c c''
unfolding acquire release
acquire-release me lk c w free =
    let (c'', e, r) = run-Restored (section_ straight) c w in
    let mine : me == me ≡ true = ground arith in
    (
      record { locked = true; cpu = me },
      push_off c,
      c'',
      rw free refl,
      rw mine refl,
      push_off-off c,
      rw (mine, e) refl,
      r,
    )
