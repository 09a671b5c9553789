-- ===== src/Print.antt =====
-- Formatted output: `printf` of kernel/printf.c and `vprintf` of user/printf.c, with the digits of both
-- and `atoi` of user/ulib.c. A format is the list of the characters before its 0. The arguments are the
-- words of the argument area, the next of them has the number `next`.
pub mod Kernel
pub mod User
pub mod Pieces
pub mod Formatted
pub mod Number
pub mod Numeral
mod Tests
use os_exp.Base.{
  ℕ, zero, suc, ◌+◌, ◌-◌, ◌*◌, ◌/◌, ◌%◌, ◌^◌, ◌≤◌, ◌<◌, min, ◌≡◌, refl, sym, ap, ◌∙◌, subst,
  fun_ext, ◌≢◌, ◌↔◌, ◌⊎◌, inl, inr, Bool, true, false, not, ◌&&◌, ◌||◌, Option, none, some, List,
  [], ◌∷◌, ◌++◌, map, append-nil, append_assoc, arith, ltb, leb, ◌==◌, if◌then◌else◌, ==_iff,
  Bool-cases, Option-cases, length, length-append, get_elem?, set, take, drop, All, elem, Distinct,
  update, update_self, update_ne, Outcome, returned, panicked, ◌>>=◌,
}

-- `digits[d]`, whose letters begin with `letter`
abbrev pub digit : (letter d : ℕ) → ℕ
digit letter d = if ltb d 10 then b'0' + d else letter + (d - 10)

-- The loop of `printint`: `buf` is the buffer from its last byte down, which is how it is printed.
unfoldable pub digit_loop : (fuel letter x base : ℕ) → List ℕ → List ℕ
digit_loop zero letter x base buf = buf
digit_loop (suc fuel) letter x base buf =
    let more = digit_loop fuel letter (x / base) base (digit letter (x % base) ∷ buf) in
    if x / base == 0 then digit letter (x % base) ∷ buf else more

-- The loop of `printptr`, with `n` digits left: `x <<= 4` drops the high bits.
pub ptr_loop : (n letter x : ℕ) → List ℕ
ptr_loop zero letter x = []
ptr_loop (suc n) letter x = digit letter (x / 2 ^ 60) ∷ ptr_loop n letter (x * 2 ^ 4 % 2 ^ 64)

-- `va_arg` of an `int` as a `long long`, and of a `uint32`
abbrev pub sign_extended : ℕ → ℕ
sign_extended w = if ltb (w % 2 ^ 32) (2 ^ 31) then w % 2 ^ 32 else w % 2 ^ 32 + (2 ^ 64 - 2 ^ 32)

abbrev pub null_text : List ℕ
null_text = b'(' ∷ b'n' ∷ b'u' ∷ b'l' ∷ b'l' ∷ b')' ∷ []

-- `while('0' <= *s && *s <= '9') n = n*10 + *s++ - '0';`
unfoldable pub atoi_loop : (n : ℕ) → List ℕ → ℕ
atoi_loop n [] = n
atoi_loop n (c ∷ cs) =
    let rest = atoi_loop ((n * 10 + (c - b'0')) % 2 ^ 32) cs in
    if leb b'0' c && leb c b'9' then rest else n

unfoldable pub atoi : List ℕ → ℕ
unfolding atoi_loop
atoi s = atoi_loop 0 s
