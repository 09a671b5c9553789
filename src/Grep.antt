-- ===== src/Grep.antt =====
-- The pattern matcher of user/grep.c. A string is the list of its characters, without the 0 at its end.
-- The loop of `matchstar` has fuel, since it does not always end; `none` says that it ran out.
pub mod Pattern
pub mod Matcher
pub mod Endless
pub mod Lines
mod Tests
use os_exp.Base.{
  ℕ, zero, suc, ◌+◌, ◌-◌, Bool, true, false, not, ◌&&◌, ◌||◌, Option, none, some, List, [], ◌∷◌,
  ◌++◌, ltb, leb, ◌==◌, if◌then◌else◌, length, take, drop, min,
}

abbrev pub dot : ℕ
dot = 46

abbrev pub star : ℕ
star = 42

abbrev pub dollar : ℕ
dollar = 36

abbrev pub caret : ℕ
caret = 94

abbrev pub newline : ℕ
newline = 10

-- What a call returns, or `none` if it does not return.
abbrev pub Answer : Type 0
Answer = Option Bool

abbrev pub otherwise : Answer → Answer → Answer
otherwise none next = none
otherwise (some true) next = some true
otherwise (some false) next = next

pub to_lower : ℕ → ℕ
to_lower c = if leb 65 c && leb c 90 then c + 32 else c

-- The loop of `match`.
pub match_loop : (List ℕ → Answer) → List ℕ → Answer
match_loop here [] = otherwise (here []) (some false)
match_loop here (x ∷ xs) = otherwise (here (x ∷ xs)) (match_loop here xs)

abbrev pub is_empty : List ℕ → Bool
is_empty [] = true
is_empty (x ∷ xs) = false

module _ (ignore_case : Bool) where
  -- The comparison of a character of the pattern with one of the text.
  pub same : ℕ → ℕ → Bool
  same c x = if ignore_case then to_lower c == to_lower x else c == x

  -- The condition of the loop of `matchstar`, and the round after it.
  pub star_next : ℕ → (List ℕ → Answer) → List ℕ → Answer
  star_next c next [] = some false
  star_next c next (x ∷ xs) =
      if c == dot then next (x ∷ xs) else if same x c then next xs else some false

  -- `matchstar(c, re, text)`, with `here` for `matchhere(re, _)`.
  pub matchstar : ℕ → (List ℕ → Answer) → ℕ → List ℕ → Answer
  unfolding star_next
  matchstar c here zero text = none
  matchstar c here (suc fuel) text =
      let rest = star_next c (matchstar c here fuel) text in otherwise (here text) rest

  -- The last test of `matchhere`, and the call after it.
  pub one : ℕ → (List ℕ → Answer) → List ℕ → Answer
  one c next [] = some false
  one c next (x ∷ xs) = if (c == dot) || same c x then next xs else some false

  pub matchhere : ℕ → List ℕ → List ℕ → Answer
  unfolding matchstar one
  matchhere fuel [] text = some true
  matchhere fuel (c ∷ []) text =
      if c == dollar then some (is_empty text) else one c (λ _. some true) text
  matchhere fuel (c ∷ s ∷ re) text =
      let starred = matchstar c (matchhere fuel re) fuel text in
      let plain = one c (matchhere fuel (s ∷ re)) text in if s == star then starred else plain

  pub match : ℕ → List ℕ → List ℕ → Answer
  match fuel [] text = match_loop (matchhere fuel []) text
  match fuel (c ∷ re) text =
      if c == caret then matchhere fuel re text else match_loop (matchhere fuel (c ∷ re)) text

-- `grep`, for the input `fd`. `read` gives at least one byte while there are any and room for one; the
-- `sizes` say how many more it offers each time.
abbrev pub buffer_size : ℕ
buffer_size = 1024

abbrev pub append_out : List ℕ → Option (List ℕ) → Option (List ℕ)
append_out out none = none
append_out out (some more) = some (out ++ more)

-- `n = read(fd, buf+m, sizeof(buf)-m-1)`
abbrev pub bytes_read : (m size : ℕ) → List ℕ → ℕ
bytes_read m size input = min (min (buffer_size - m - 1) (length input)) (size + 1)

-- The loop over the lines in the buffer: what is written, and what is left from the last newline on.
-- `line` is the text from `p` on that `strchr` has passed.
module _ (select : List ℕ → Answer) where
  abbrev pub put_line : List ℕ → Answer → Option (List ℕ × List ℕ) → Option (List ℕ × List ℕ)
  put_line line none rest = none
  put_line line (some b) none = none
  put_line line (some b) (some (out, left)) =
      some (if b then line ++ (newline ∷ out) else out, left)

  -- `strchr` stops at a 0 byte.
  pub scan : List ℕ → List ℕ → Option (List ℕ × List ℕ)
  scan line [] = some ([], line)
  scan line (c ∷ rest) =
      let hit = put_line line (select line) (scan [] rest) in
      let miss = scan (line ++ (c ∷ [])) rest in
      if c == 0 then some ([], line ++ (c ∷ rest)) else if c == newline then hit else miss

  -- `kept` are the `m` bytes at the start of the buffer. The list of sizes ends too early: `none`.
  pub grep : List ℕ → List ℕ → List ℕ → Option (List ℕ)
  unfolding scan
  grep [] kept input = none
  grep (size ∷ sizes) kept input =
      let n = bytes_read (length kept) size input in
      if n == 0 then some [] else elim (scan [] (kept ++ take n input)) [
        | none ↦ none
        | some (out, left) ↦ append_out out (grep sizes left (drop n input))
      ]
