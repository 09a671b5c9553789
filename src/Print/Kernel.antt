-- ===== src/Print/Kernel.antt =====
-- `printf` of kernel/printf.c: the result is the sequence of the calls of `consputc`. `string_at` is the
-- memory as strings.
use os_exp.Base.{
  char_at, ℕ, zero, suc, ◌+◌, ◌-◌, ◌%◌, ◌^◌, Bool, true, false, not, ◌&&◌, List, [], ◌∷◌, ◌++◌, leb,
  ◌==◌, if◌then◌else◌,
}
use os_exp.Print.{digit_loop, ptr_loop, sign_extended, null_text}

unfoldable pub printint : (xx base : ℕ) → (sign : Bool) → List ℕ
unfolding digit_loop
printint xx base sign =
    let neg = sign && leb (2 ^ 63) xx in
    let x = if neg then 2 ^ 64 - xx else xx in
    let buf = digit_loop 64 b'a' x base [] in if neg then b'-' ∷ buf else buf

pub printptr : ℕ → List ℕ
unfolding ptr_loop
printptr x = b'0' ∷ b'x' ∷ ptr_loop 16 b'a' x

-- What is printed, the next argument, and the characters of the format that are used up.
abbrev pub Printed : Type 0
Printed = List ℕ × ℕ × ℕ

module _ (string_at : ℕ → List ℕ) (args : ℕ → ℕ) where
  abbrev pub text_arg : ℕ → List ℕ
  text_arg next = if args next == 0 then null_text else string_at (args next)

  -- The part of the loop after a `%`, on the three characters that follow it.
  unfoldable pub directive : (c0 c1 c2 next : ℕ) → Printed
  unfolding printint printptr
  directive c0 c1 c2 next =
      if c0 == b'd'
      then (printint (sign_extended (args next)) 10 true, next + 1, 1)
      else if (c0 == b'l') && (c1 == b'd')
      then (printint (args next) 10 true, next + 1, 2)
      else if (c0 == b'l') && (c1 == b'l') && (c2 == b'd')
      then (printint (args next) 10 true, next + 1, 3)
      else if c0 == b'u'
      then (printint (args next % 2 ^ 32) 10 false, next + 1, 1)
      else if (c0 == b'l') && (c1 == b'u')
      then (printint (args next) 10 false, next + 1, 2)
      else if (c0 == b'l') && (c1 == b'l') && (c2 == b'u')
      then (printint (args next) 10 false, next + 1, 3)
      else if c0 == b'x'
      then (printint (args next % 2 ^ 32) 16 false, next + 1, 1)
      else if (c0 == b'l') && (c1 == b'x')
      then (printint (args next) 16 false, next + 1, 2)
      else if (c0 == b'l') && (c1 == b'l') && (c2 == b'x')
      then (printint (args next) 16 false, next + 1, 3)
      else if c0 == b'p'
      then (printptr (args next), next + 1, 1)
      else if c0 == b'c'
      then (args next % 2 ^ 32 ∷ [], next + 1, 1)
      else if c0 == b's'
      then (text_arg next, next + 1, 1)
      else if c0 == b'%'
      then (b'%' ∷ [], next, 1)
      else if c0 == 0
      then ([], next, 0)
      else (b'%' ∷ c0 ∷ [], next, 1)

  -- The body of the loop at the character `cx`, with the rest of the format.
  abbrev pub printf_step : (cx : ℕ) → List ℕ → ℕ → Printed
  printf_step cx rest next =
      if not (cx == b'%')
      then (cx ∷ [], next, 0)
      else let c0 = char_at rest 0 in
        let c1 = if c0 == 0 then 0 else char_at rest 1 in
        let c2 = if c1 == 0 then 0 else char_at rest 2 in directive c0 c1 c2 next

  -- The loop with `skip` characters to be passed over, as `i++` and `i += 2` do.
  unfoldable pub printf_loop : (skip : ℕ) → List ℕ → ℕ → List ℕ
  unfolding directive
  printf_loop skip [] next = []
  printf_loop zero (c ∷ cs) next =
      let (out, next', skip) = printf_step c cs next in out ++ printf_loop skip cs next'
  printf_loop (suc skip) (c ∷ cs) next = printf_loop skip cs next

  unfoldable pub printf : List ℕ → List ℕ
  unfolding printf_loop
  printf fmt = printf_loop 0 fmt 0
