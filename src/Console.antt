-- ===== src/Console.antt =====
-- The input of the console, kernel/console.c: a ring of 128 characters with the line that is being edited
-- at its end. `consoleintr` gives what it echoes, the calls of `consputc`, and whether it wakes the readers;
-- `procdump` is left out.
pub mod Ring
pub mod Edit
pub mod Read
pub mod Line
mod Tests
use os_exp.Base.{
  ℕ, zero, suc, ◌+◌, ◌-◌, ◌*◌, ◌/◌, ◌%◌, ◌^◌, ◌≤◌, ◌<◌, min, ◌≡◌, refl, sym, ◌∙◌, subst, fun_ext,
  ◌≢◌, ◌↔◌, ◌⊎◌, inl, inr, Bool, true, false, not, ◌&&◌, ◌||◌, Option, none, some, List, [], ◌∷◌,
  ◌++◌, map, append-nil, append_assoc, arith, ltb, leb, ◌==◌, if◌then◌else◌, ==_iff, Bool-cases,
  Option-cases, length, length-append, get_elem?, set, take, drop, All, elem, Distinct, update,
  update_self, update_ne, Outcome, returned, panicked, ◌>>=◌,
}
use os_exp.Base.Word.{u32, diff32}

abbrev pub input_buf_size : ℕ
input_buf_size = 128

abbrev pub backspace : ℕ
backspace = 256

-- C(x)
abbrev pub control : ℕ → ℕ
control x = x - b'@'

abbrev pub newline : ℕ
newline = 10

pub record Cons : Type 0 where
  pub buf : ℕ → ℕ
  -- the read, write and edit index
  pub r : ℕ
  pub w : ℕ
  pub e : ℕ

-- The loop that kills the line, with what it echoes: `n` bounds its rounds.
unfoldable pub kill_loop : (n : ℕ) → Cons → List ℕ × Cons
kill_loop zero s = ([], s)
kill_loop (suc n) s =
    let (echo, s') = kill_loop n (record s { e = diff32 s.e 1 }) in
    if not (s.e == s.w) && not (s.buf (diff32 s.e 1 % input_buf_size) == newline)
    then (backspace ∷ echo, s')
    else ([], s)

-- The character that is stored.
abbrev pub translated : ℕ → ℕ
translated c = if c == 13 then newline else c

abbrev pub stored : ℕ → Cons → Cons
stored c s = record s { buf = update s.buf (s.e % input_buf_size) (c % 2 ^ 8); e = u32 (s.e + 1) }

-- A line has arrived, or the buffer is full.
abbrev pub line_ends : ℕ → Cons → Bool
line_ends c s = (c == newline) || (c == control b'D') || (diff32 s.e s.r == input_buf_size)

-- What is echoed, whether `wakeup` is called, and the new state.
abbrev pub Handled : Type 0
Handled = List ℕ × Bool × Cons

abbrev pub commit_line : ℕ → Cons → Handled
commit_line c s = if line_ends c s then (c ∷ [], true, record s { w = s.e }) else (c ∷ [], false, s)

abbrev pub kill_line : Cons → Handled
kill_line s = let (echo, s') = kill_loop input_buf_size s in (echo, false, s')

abbrev pub erase : Cons → Handled
erase s =
    if not (s.e == s.w)
    then (backspace ∷ [], false, record s { e = diff32 s.e 1 })
    else ([], false, s)

abbrev pub type_in : ℕ → Cons → Handled
type_in c s =
    if not (c == 0) && ltb (diff32 s.e s.r) input_buf_size
    then commit_line (translated c) (stored (translated c) s)
    else ([], false, s)

unfoldable pub consoleintr : ℕ → Cons → Handled
unfolding kill_loop
consoleintr c s =
    if c == control b'P'
    then ([], false, s)
    else if c == control b'U'
    then kill_line s
    else if (c == control b'H') || (c == 127)
    then erase s
    else type_in c s

-- How `consoleread` stops: with its value, with -1, or asleep with `n` characters to go.
pub data Stop : Type 0 where
  value : ℕ → Stop
  failed : Stop
  asleep : ℕ → Stop

module _ (copyout : ℕ → Bool) (killed : Bool) (target : ℕ) where
  -- The loop with `n` characters to go, and the characters that were copied. `copyout i` says whether the
  -- character `i` of the destination can be written.
  unfoldable pub read_loop : (n : ℕ) → Cons → List ℕ × Stop × Cons
  read_loop zero s = ([], value target, s)
  read_loop (suc k) s =
      let s1 = record s { r = u32 (s.r + 1) } in
      let c = s.buf (s.r % input_buf_size) in
      let (got, stop, s') = read_loop k s1 in
      if s.r == s.w
      then (if killed then ([], failed, s) else ([], asleep (suc k), s))
      else if c == control b'D'
      then (
        [],
        value (target - suc k),
        (if ltb (suc k) target then record s1 { r = diff32 s1.r 1 } else s1),
      )
      else if not (copyout (target - suc k))
      then ([], value (target - suc k), s1)
      else if c == newline
      then (c ∷ [], value (target - k), s1)
      else (c ∷ got, stop, s')

  -- `consoleread`, entered with `n` the same as `target`, or woken with `n` characters to go.
  unfoldable pub consoleread : (n : ℕ) → Cons → List ℕ × Stop × Cons
  unfolding read_loop
  consoleread n s = read_loop n s
