-- ===== src/Print/User.antt =====
-- `vprintf` of user/printf.c: the result is the sequence of the bytes written. `string_at` is the memory
-- as strings.
use os_exp.Base.{
  char_at, ℕ, zero, suc, ◌+◌, ◌-◌, ◌%◌, ◌^◌, Bool, true, false, ◌&&◌, List, [], ◌∷◌, ◌++◌, leb,
  ◌==◌, if◌then◌else◌,
}
use os_exp.Print.{digit_loop, ptr_loop, sign_extended, null_text}

-- `x` is a `uint`.
unfoldable pub printint : (xx base : ℕ) → (sgn : Bool) → List ℕ
unfolding digit_loop
printint xx base sgn =
    let neg = sgn && leb (2 ^ 63) xx in
    let x = if neg then (2 ^ 64 - xx) % 2 ^ 32 else xx % 2 ^ 32 in
    let buf = digit_loop 32 b'A' x base [] in if neg then b'-' ∷ buf else buf

pub printptr : ℕ → List ℕ
unfolding ptr_loop
printptr x = b'0' ∷ b'x' ∷ ptr_loop 16 b'A' x

-- What is printed, the state, the next argument, and the characters of the format that are used up
-- besides this one.
abbrev pub Printed : Type 0
Printed = List ℕ × ℕ × ℕ × ℕ

module _ (string_at : ℕ → List ℕ) (args : ℕ → ℕ) where
  abbrev pub text_arg : ℕ → List ℕ
  text_arg next = if args next == 0 then null_text else string_at (args next)

  -- The part of the loop for the state `%`.
  unfoldable pub directive : (c0 c1 c2 next : ℕ) → Printed
  unfolding printint printptr
  directive c0 c1 c2 next =
      if c0 == b'd'
      then (printint (sign_extended (args next)) 10 true, 0, next + 1, 0)
      else if (c0 == b'l') && (c1 == b'd')
      then (printint (args next) 10 true, 0, next + 1, 1)
      else if (c0 == b'l') && (c1 == b'l') && (c2 == b'd')
      then (printint (args next) 10 true, 0, next + 1, 2)
      else if c0 == b'u'
      then (printint (args next % 2 ^ 32) 10 false, 0, next + 1, 0)
      else if (c0 == b'l') && (c1 == b'u')
      then (printint (args next) 10 false, 0, next + 1, 1)
      else if (c0 == b'l') && (c1 == b'l') && (c2 == b'u')
      then (printint (args next) 10 false, 0, next + 1, 2)
      else if c0 == b'x'
      then (printint (args next % 2 ^ 32) 16 false, 0, next + 1, 0)
      else if (c0 == b'l') && (c1 == b'x')
      then (printint (args next) 16 false, 0, next + 1, 1)
      else if (c0 == b'l') && (c1 == b'l') && (c2 == b'x')
      then (printint (args next) 16 false, 0, next + 1, 2)
      else if c0 == b'p'
      then (printptr (args next), 0, next + 1, 0)
      else if c0 == b'c'
      then (args next % 2 ^ 8 ∷ [], 0, next + 1, 0)
      else if c0 == b's'
      then (text_arg next, 0, next + 1, 0)
      else if c0 == b'%'
      then (b'%' ∷ [], 0, next, 0)
      else (b'%' ∷ c0 ∷ [], 0, next, 0)

  -- The body of the loop at the character `c0`, with the rest of the format.
  abbrev pub vprintf_step : (state c0 : ℕ) → List ℕ → ℕ → Printed
  vprintf_step state c0 rest next =
      if state == 0
      then (if c0 == b'%' then ([], b'%', next, 0) else (c0 ∷ [], 0, next, 0))
      else if state == b'%'
      then (let c1 = if c0 == 0 then 0 else char_at rest 0 in
          let c2 = if c1 == 0 then 0 else char_at rest 1 in directive c0 c1 c2 next)
      else ([], state, next, 0)

  -- The loop with `skip` characters to be passed over, as `i += 2` does.
  unfoldable pub vprintf_loop : (state skip : ℕ) → List ℕ → ℕ → List ℕ
  unfolding directive
  vprintf_loop state skip [] next = []
  vprintf_loop state zero (c ∷ cs) next =
      let (out, state', next', skip) = vprintf_step state c cs next in
      out ++ vprintf_loop state' skip cs next'
  vprintf_loop state (suc skip) (c ∷ cs) next = vprintf_loop state skip cs next

  unfoldable pub vprintf : List ℕ → List ℕ
  unfolding vprintf_loop
  vprintf fmt = vprintf_loop 0 0 fmt 0
