-- ===== src/Console/Edit.antt =====
-- `consoleintr` edits a line.
use os_exp.Base.{
  ℕ, zero, suc, ◌+◌, ◌-◌, ◌%◌, ◌^◌, ◌≤◌, ◌<◌, ◌≡◌, refl, sym, ap, ◌≢◌, inl, inr, Bool, true, false,
  not, ◌&&◌, ◌||◌, List, [], ◌∷◌, ◌++◌, arith, ltb, leb, ◌==◌, if◌then◌else◌, Bool-cases, length,
  take,
}
use os_exp.Base.Word.{u32, diff32}
use os_exp.Console.{
  Cons, input_buf_size, newline, control, kill_loop, translated, stored, line_ends, commit_line,
  kill_line, erase, type_in, consoleintr,
}
use os_exp.Console.Ring.{typed, ready, IsCons, length-window, window-update, take-window}

-- What is typed and how much of it is ready, after a character.
abbrev ends_line : (c size : ℕ) → Bool
ends_line c size = (c == newline) || (c == control b'D') || (size == input_buf_size)

abbrev pub with_char : (c : ℕ) → List ℕ → (n : ℕ) → List ℕ × ℕ
with_char c t n =
    let t' = t ++ (translated c ∷ []) in
    (t', if ends_line (translated c) (suc (length t)) then suc (length t) else n)

abbrev pub edited : (c : ℕ) → List ℕ → (n : ℕ) → List ℕ × ℕ
edited c t n =
    if c == control b'P'
    then (t, n)
    else if c == control b'U'
    then (take n t, n)
    else if (c == control b'H') || (c == 127)
    then (if length t == n then (t, n) else (take (length t - 1) t, n))
    else if (c == 0) || leb input_buf_size (length t)
    then (t, n)
    else with_char c t n

abbrev pub EditedAs : Cons → List ℕ × ℕ → Type 0
EditedAs s' v = IsCons s' × (typed s' ≡ v.0) × (ready s' ≡ v.1)

length-typed : (s : Cons) → length (typed s) ≡ diff32 s.e s.r
length-typed s = length-window s.buf s.r (diff32 s.e s.r)

-- The last characters of the line are given up.
shorter-Edited :
    (s : Cons) (e' : ℕ)
    → IsCons s
    → e' < 2 ^ 32
    → ready s ≤ diff32 e' s.r
    → diff32 e' s.r ≤ diff32 s.e s.r
    → EditedAs (record s { e = e' }) (take (diff32 e' s.r) (typed s), ready s)
shorter-Edited s e' v h lo hi =
    let (hr, hw, he) = v.words in
    let order = v.in_order in
    (
      record {
        words = (hr, hw, h);
        in_order = lo;
        fits = omega (arith, v.fits);
        one_line = λ i below. v.one_line i (omega arith);
      },
      sym (take-window s.buf s.r (diff32 e' s.r) (diff32 s.e s.r) hi),
      refl,
    )

-- The loop of ^U gives up the whole line.
kill_loop-all :
    (n : ℕ) (s : Cons) → IsCons s → diff32 s.e s.w ≤ n → (kill_loop n s).1 ≡ record s { e = s.w }
unfolding kill_loop
kill_loop-all zero s v h =
    let (hr, hw, he) = v.words in
    let same : s.e ≡ s.w = omega arith in ap (λ i. record s { e = i }) same
kill_loop-all (suc n) s v h = elim (Bool-cases (s.e == s.w)) [
  | inl y ↦ let same : s.e ≡ s.w = ground (arith, y) in rw y (ap (λ i. record s { e = i }) same)
  | inr o ↦
      let (hr, hw, he) = v.words in
      let order = v.in_order in
      let ne : s.e ≢ s.w = ground (arith, o) in
      let back : diff32 s.e 1 ≡ u32 (s.w + (diff32 s.e s.w - 1)) = omega arith in
      let other : (s.buf (diff32 s.e 1 % input_buf_size) == newline) ≡ false =
        let char = v.one_line (diff32 s.e s.w - 1) (omega arith) in
        rw back (ground (arith, char)) in
      let (v', same_typed, same_ready) =
        shorter-Edited s (diff32 s.e 1) v (omega arith) (omega arith) (omega arith) in
      rw (o, other) (kill_loop-all n (record s { e = diff32 s.e 1 }) v' (omega arith))
]

erase-Edited :
    (s : Cons)
    → IsCons s
    → EditedAs (erase s).2 (
        if length (typed s) == ready s
        then (typed s, ready s)
        else (take (length (typed s) - 1) (typed s), ready s))
erase-Edited s v = elim (Bool-cases (s.e == s.w)) [
  | inl y ↦
      let (hr, hw, he) = v.words in
      let same : s.e ≡ s.w = ground (arith, y) in
      let at_end : (length (typed s) == ready s) ≡ true = ground (arith, length-typed s, same) in
      rw (y, at_end) (v, refl, refl)
  | inr o ↦
      let (hr, hw, he) = v.words in
      let order = v.in_order in
      let ne : s.e ≢ s.w = ground (arith, o) in
      let size = length-typed s in
      let inside : (length (typed s) == ready s) ≡ false = ground (arith, size, ne) in
      let fewer : length (typed s) - 1 ≡ diff32 (diff32 s.e 1) s.r = omega (arith, size) in
      rw (o, inside, fewer)
        (shorter-Edited s (diff32 s.e 1) v (omega arith) (omega arith) (omega arith))
]

kill_line-Edited :
    (s : Cons) → IsCons s → EditedAs (kill_line s).2 (take (ready s) (typed s), ready s)
kill_line-Edited s v =
    let (hr, hw, he) = v.words in
    rw (kill_loop-all input_buf_size s v (omega (arith, v.fits, v.in_order)))
      (shorter-Edited s s.w v hw (omega arith) (v.in_order))

-- The state after a character is stored, before the line is looked at.
stored-typed :
    (c : ℕ) (s : Cons)
    → IsCons s
    → c < 256
    → diff32 s.e s.r < input_buf_size
    → typed (stored c s) ≡ typed s ++ (c ∷ [])
stored-typed c s v h room =
    let (hr, hw, he) = v.words in
    let one_more : diff32 (u32 (s.e + 1)) s.r ≡ suc (diff32 s.e s.r) = omega arith in
    let byte : c % 2 ^ 8 ≡ c = omega arith in
    rw (one_more, byte)
      (window-update s.buf c (diff32 s.e s.r) s.r (s.e % input_buf_size) room (omega arith))

-- A character that is no newline does not end the line.
kept_line :
    (c : ℕ) (s : Cons)
    → IsCons s
    → c < 256
    → diff32 s.e s.r < input_buf_size
    → c ≢ newline
    → (i : ℕ) → i < diff32 (u32 (s.e + 1)) s.w
    → (stored c s).buf (u32 (s.w + i) % input_buf_size) ≢ newline
kept_line c s v h room ne i below =
    let (hr, hw, he) = v.words in
    let order = v.in_order in
    elim (Bool-cases (u32 (s.w + i) % input_buf_size == s.e % input_buf_size)) [
      | inl y ↦ let byte : c % 2 ^ 8 ≡ c = omega arith in rw (y, byte) ne
      | inr o ↦
          let before : i < diff32 s.e s.w =
            let apart : u32 (s.w + i) % input_buf_size ≢ s.e % input_buf_size = ground (arith, o) in
            omega arith in
          rw o (v.one_line i before)
    ]

commit_line-Edited :
    (c : ℕ) (s : Cons)
    → IsCons s
    → c < 256
    → diff32 s.e s.r < input_buf_size
    → EditedAs (commit_line c (stored c s)).2 (
      typed s ++ (c ∷ []),
      if ends_line c (suc (length (typed s))) then suc (length (typed s)) else ready s,
    )
commit_line-Edited c s v h room =
    let (hr, hw, he) = v.words in
    let size = length-typed s in
    let one_more : diff32 (u32 (s.e + 1)) s.r ≡ suc (length (typed s)) = omega (arith, size) in
    let same : line_ends c (stored c s) ≡ ends_line c (suc (length (typed s))) = rw one_more refl in
    rw (← same) (elim (Bool-cases (line_ends c (stored c s))) [
      | inl y ↦ rw y (
        record {
          words = (hr, omega arith, omega arith);
          in_order = omega arith;
          fits = omega arith;
          one_line = λ i below. absurd (omega arith);
        },
        stored-typed c s v h room,
        one_more,
      )
      | inr o ↦ rw o (
        record {
          words = (hr, hw, omega arith);
          in_order = omega (arith, v.in_order);
          fits = omega arith;
          one_line = kept_line c s v h room (ground (arith, o));
        },
        stored-typed c s v h room,
        refl,
      )
    ])

type_in-Edited :
    (c : ℕ) (s : Cons)
    → IsCons s
    → c < 256
    → EditedAs (type_in c s).2 (
        if (c == 0) || leb input_buf_size (length (typed s))
        then (typed s, ready s)
        else with_char c (typed s) (ready s))
type_in-Edited c s v h =
    let size = length-typed s in
    elim (Bool-cases ((c == 0) || leb input_buf_size (length (typed s)))) [
      | inl y ↦
          let ignored : (not (c == 0) && ltb (diff32 s.e s.r) input_buf_size) ≡ false =
            ground (arith, y, size) in
          rw (y, ignored) (v, refl, refl)
      | inr o ↦
          let room : diff32 s.e s.r < input_buf_size = ground (arith, o, size) in
          let taken : (not (c == 0) && ltb (diff32 s.e s.r) input_buf_size) ≡ true =
            ground (arith, o, size) in
          let byte : translated c < 256 = ground arith in
          rw (o, taken) (commit_line-Edited (translated c) s v byte room)
    ]

-- `consoleintr` keeps the console well formed, and edits what is typed as a list: ^U gives up the line
-- that has not arrived, backspace and delete its last character, and another character is added, unless
-- the buffer is full, with a newline for a carriage return; a newline, ^D and a full buffer make
-- everything ready to be read.
pub consoleintr-Edited :
    (c : ℕ) (s : Cons)
    → IsCons s
    → c < 256
    → EditedAs (consoleintr c s).2 (edited c (typed s) (ready s))
unfolding consoleintr
consoleintr-Edited c s v h = elim (Bool-cases (c == control b'P')) [
  | inl p ↦ rw p (v, refl, refl)
  | inr np ↦ elim (Bool-cases (c == control b'U')) [
    | inl u ↦ rw (np, u) (kill_line-Edited s v)
    | inr nu ↦ elim (Bool-cases ((c == control b'H') || (c == 127))) [
      | inl d ↦ rw (np, nu, d) (erase-Edited s v)
      | inr nd ↦ rw (np, nu, nd) (type_in-Edited c s v h)
    ]
  ]
]
