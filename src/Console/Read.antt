-- ===== src/Console/Read.antt =====
-- `consoleread` takes a line.
use os_exp.Base.{
  ℕ, zero, suc, ◌+◌, ◌-◌, ◌%◌, ◌≡◌, refl, sym, ap, ◌∙◌, subst, ◌≢◌, inl, inr, Bool, false, not,
  List, [], ◌∷◌, arith, ltb, ◌==◌, if◌then◌else◌, Bool-cases, take,
}
use os_exp.Base.Word.{u32, diff32}
use os_exp.Console.{
  Cons, input_buf_size, newline, control, Stop, value, failed, asleep, read_loop, consoleread,
}
use os_exp.Console.Ring.{window, typed, ready, IsCons, take-window}

-- The characters that are ready, and the line that is being edited.
abbrev pub arrived : Cons → List ℕ
arrived s = take (ready s) (typed s)

abbrev pub line : Cons → List ℕ
line s = window s.buf s.w (diff32 s.e s.w)

module _ (copyout : ℕ → Bool) (killed : Bool) (target : ℕ) where
  -- The same on the list of the characters that are ready.
  abbrev pub line_taken : (n : ℕ) → List ℕ → List ℕ × Stop × List ℕ
  line_taken zero cs = ([], value target, cs)
  line_taken (suc k) [] = ([], if killed then failed else asleep (suc k), [])
  line_taken (suc k) (c ∷ cs) =
      let (got, stop, left) = line_taken k cs in
      if c == control b'D'
      then ([], value (target - suc k), if ltb (suc k) target then c ∷ cs else cs)
      else if not (copyout (target - suc k))
      then ([], value (target - suc k), cs)
      else if c == newline
      then (c ∷ [], value (target - k), cs)
      else (c ∷ got, stop, left)

  abbrev pub ReadAs : Cons → List ℕ × Stop × Cons → List ℕ × Stop × List ℕ → Type 0
  ReadAs s res ref =
      (res.0 ≡ ref.0)
      × (res.1 ≡ ref.1)
      × IsCons res.2
      × (arrived res.2 ≡ ref.2)
      × (line res.2 ≡ line s)

  arrived-window : (s : Cons) → IsCons s → arrived s ≡ window s.buf s.r (ready s)
  arrived-window s v = take-window s.buf s.r (ready s) (diff32 s.e s.r) v.in_order

  arrived_none : (s : Cons) → IsCons s → s.r ≡ s.w → arrived s ≡ []
  arrived_none s v e =
      let (hr, hw, he) = v.words in let none_left : ready s ≡ 0 = omega arith in rw none_left refl

  next_state : Cons → Cons
  next_state s = record s { r = u32 (s.r + 1) }

  arrived_some :
      (s : Cons)
      → IsCons s
      → s.r ≢ s.w
      → IsCons (next_state s) × (arrived s ≡ s.buf (s.r % input_buf_size) ∷ arrived (next_state s))
  unfolding next_state window
  arrived_some s v ne =
      let (hr, hw, he) = v.words in
      let order = v.in_order in
      let one_less : ready s ≡ suc (ready (next_state s)) = omega arith in
      let v' : IsCons (next_state s) = record {
        words = (omega arith, hw, he);
        in_order = omega arith;
        fits = omega (arith, v.fits);
        one_line = v.one_line;
      } in
      (
        v',
        arrived-window s v
            ∙ ap (λ n. window s.buf s.r n) one_less
            ∙ ap (λ cs. s.buf (s.r % input_buf_size) ∷ cs) (sym (arrived-window (next_state s) v')),
      )

  -- The body of the loop at the character `c`, with what the other rounds give.
  after_char : (k c : ℕ) → (s1 : Cons) → List ℕ × Stop × Cons → List ℕ × Stop × Cons
  after_char k c s1 more =
      if c == control b'D'
      then (
        [],
        value (target - suc k),
        if ltb (suc k) target then record s1 { r = diff32 s1.r 1 } else s1,
      )
      else if not (copyout (target - suc k))
      then ([], value (target - suc k), s1)
      else if c == newline
      then (c ∷ [], value (target - k), s1)
      else (c ∷ more.0, more.1, more.2)

  after_one :
      (k : ℕ) (s : Cons)
      → IsCons s
      → IsCons (next_state s)
      → arrived s ≡ s.buf (s.r % input_buf_size) ∷ arrived (next_state s)
      → ReadAs
          (next_state s)
          (read_loop copyout killed target k (next_state s))
          (line_taken k (arrived (next_state s)))
      → ReadAs s
          (after_char k
            (s.buf (s.r % input_buf_size))
            (next_state s)
            (read_loop copyout killed target k (next_state s)))
          (line_taken (suc k) (s.buf (s.r % input_buf_size) ∷ arrived (next_state s)))
  unfolding next_state after_char
  after_one k s v v1 first (same, stops, v2, left, kept) =
      let (hr, hw, he) = v.words in
      elim (Bool-cases (s.buf (s.r % input_buf_size) == control b'D')) [
        | inl d ↦ elim (Bool-cases (ltb (suc k) target)) [
          | inl t ↦
              let back : diff32 (u32 (s.r + 1)) 1 ≡ s.r = omega arith in
              rw (d, t, back) (refl, refl, v, first, refl)
          | inr t ↦ rw (d, t) (refl, refl, v1, refl, refl)
        ]
        | inr nd ↦ elim (Bool-cases (copyout (target - suc k))) [
          | inr f ↦ rw (nd, f) (refl, refl, v1, refl, refl)
          | inl g ↦ elim (Bool-cases (s.buf (s.r % input_buf_size) == newline)) [
            | inl l ↦ rw (nd, g, l) (refl, refl, v1, refl, refl)
            | inr nl ↦
                rw (nd, g, nl)
                  (ap (λ cs. s.buf (s.r % input_buf_size) ∷ cs) same, stops, v2, left, kept)
          ]
        ]
      ]

  abbrev round : ℕ → Cons → List ℕ × Stop × Cons
  round k s =
      after_char k (s.buf (s.r % input_buf_size)) (next_state s)
        (read_loop copyout killed target k (next_state s))

  read_loop-some :
      (k : ℕ) (s : Cons)
      → (s.r == s.w) ≡ false
      → read_loop copyout killed target (suc k) s ≡ round k s
  unfolding read_loop next_state after_char
  read_loop-some k s o = rw o refl

  read_loop-Taken :
      (n : ℕ) (s : Cons)
      → IsCons s
      → ReadAs s (read_loop copyout killed target n s) (line_taken n (arrived s))
  unfolding read_loop next_state after_char
  read_loop-Taken zero s v = (refl, refl, v, refl, refl)
  read_loop-Taken (suc k) s v = elim (Bool-cases (s.r == s.w)) [
    | inl y ↦
        let nothing = arrived_none s v (ground (arith, y)) in
        rw (y, nothing)
          (elim (Bool-cases killed) [
            | inl z ↦ rw z (refl, refl, v, nothing, refl)
            | inr z ↦ rw z (refl, refl, v, nothing, refl)
          ])
    | inr o ↦
        let (v1, first) = arrived_some s v (λ e. ground (arith, o, e)) in
        subst (λ r. ReadAs s r (line_taken (suc k) (arrived s))) (sym (read_loop-some k s o))
          (subst (λ cs. ReadAs s (round k s) (line_taken (suc k) cs)) (sym first)
            (after_one k s v v1 first (read_loop-Taken k (next_state s) v1)))
  ]

  -- `consoleread` does on the ring what `line_taken` does on the list of the characters that are ready:
  -- the same characters are copied, it stops in the same way, and the same characters are left; the line
  -- that is being edited stays as it is, and the console well formed.
  pub consoleread-Taken :
      (n : ℕ) (s : Cons)
      → IsCons s
      → ReadAs s (consoleread copyout killed target n s) (line_taken n (arrived s))
  unfolding consoleread
  consoleread-Taken n s v = read_loop-Taken n s v
