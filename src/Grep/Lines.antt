-- ===== src/Grep/Lines.antt =====
-- `grep` prints the lines that match, however the input is cut into reads.
use os_exp.Base.{
  ℕ, zero, suc, ◌+◌, ◌-◌, ◌<◌, ◌≡◌, refl, sym, ap, ◌∙◌, subst, inl, inr, Bool, true, false, ◌||◌,
  none, some, List, [], ◌∷◌, ◌++◌, append-nil, append_assoc, arith, ◌==◌, if◌then◌else◌, Bool-cases,
  length, take, drop, elem,
}
use os_exp.Grep.Matcher.{Decides, Simple, match-Decides}
use os_exp.Grep.{match, newline, Answer, scan, bytes_read, grep, buffer_size}

-- The lines of the input that pass the test, with their newlines; `line` is the beginning of the first.
-- What follows the last newline is no line.
abbrev pub selected : (List ℕ → Bool) → List ℕ → List ℕ → List ℕ
selected test line [] = []
selected test line (c ∷ rest) =
    if c == newline
    then (if test line then line ++ (newline ∷ selected test [] rest) else selected test [] rest)
    else selected test (line ++ (c ∷ [])) rest

-- The unfinished line at the end.
abbrev unfinished : List ℕ → List ℕ → List ℕ
unfinished line [] = line
unfinished line (c ∷ rest) =
    if c == newline then unfinished [] rest else unfinished (line ++ (c ∷ [])) rest

-- No line fills the buffer.
abbrev pub ShortLines : List ℕ → List ℕ → Type 0
ShortLines line [] = length line + 1 < buffer_size
ShortLines line (c ∷ rest) =
    (length line + 1 < buffer_size)
    × (if c == newline then ShortLines [] rest else ShortLines (line ++ (c ∷ [])) rest)

selected-append :
    (test : List ℕ → Bool) (line xs ys : List ℕ)
    → selected test line (xs ++ ys) ≡ selected test line xs ++ selected test (unfinished line xs) ys
selected-append test line [] ys = refl
selected-append test line (c ∷ xs) ys = elim (Bool-cases (c == newline)) [
  | inl y ↦ elim (Bool-cases (test line)) [
    | inl t ↦
        rw (y, t, append_assoc line (newline ∷ selected test [] xs))
          (ap (λ l. line ++ (newline ∷ l)) (selected-append test [] xs ys))
    | inr f ↦ rw (y, f) (selected-append test [] xs ys)
  ]
  | inr n ↦ rw n (selected-append test (line ++ (c ∷ [])) xs ys)
]

short_now : (line text : List ℕ) → ShortLines line text → length line + 1 < buffer_size
short_now line [] h = h
short_now line (c ∷ rest) h = h.0

ShortLines-append :
    (line xs ys : List ℕ) → ShortLines line (xs ++ ys) → ShortLines (unfinished line xs) ys
ShortLines-append line [] ys h = h
ShortLines-append line (c ∷ xs) ys h = elim (Bool-cases (c == newline)) [
  | inl y ↦ rw y (ShortLines-append [] xs ys (rw y at h.1))
  | inr n ↦ rw n (ShortLines-append (line ++ (c ∷ [])) xs ys (rw n at h.1))
]

elem-snoc : (a : ℕ) (xs : List ℕ) (c : ℕ) → elem a (xs ++ (c ∷ [])) ≡ (elem a xs || (a == c))
elem-snoc a [] c = ground arith
elem-snoc a (x ∷ xs) c = ground (arith, elem-snoc a xs c)

unfinished-newline :
    (line text : List ℕ) → elem newline line ≡ false → elem newline (unfinished line text) ≡ false
unfinished-newline line [] o = o
unfinished-newline line (c ∷ rest) o = elim (Bool-cases (c == newline)) [
  | inl y ↦ rw y (unfinished-newline [] rest refl)
  | inr n ↦
      rw n (
        unfinished-newline (line ++ (c ∷ [])) rest (ground (arith, elem-snoc newline line c, o, n)))
]

unfinished-zero :
    (line text : List ℕ)
    → elem 0 line ≡ false
    → elem 0 text ≡ false
    → elem 0 (unfinished line text) ≡ false
unfinished-zero line [] o z = o
unfinished-zero line (c ∷ rest) o z =
    let z' : elem 0 rest ≡ false = ground (arith, z) in
    elim (Bool-cases (c == newline)) [
      | inl y ↦ rw y (unfinished-zero [] rest refl z')
      | inr n ↦
          rw n
            (unfinished-zero (line ++ (c ∷ [])) rest (ground (arith, elem-snoc 0 line c, o, z)) z')
    ]

elem-take : (a n : ℕ) (xs : List ℕ) → elem a xs ≡ false → elem a (take n xs) ≡ false
elem-take a zero xs h = refl
elem-take a (suc n) [] h = refl
elem-take a (suc n) (x ∷ xs) h =
    let rest : elem a xs ≡ false = ground (arith, h) in ground (arith, h, elem-take a n xs rest)

elem-drop : (a n : ℕ) (xs : List ℕ) → elem a xs ≡ false → elem a (drop n xs) ≡ false
elem-drop a zero xs h = h
elem-drop a (suc n) [] h = refl
elem-drop a (suc n) (x ∷ xs) h = elem-drop a n xs (ground (arith, h))

take-append-drop : (n : ℕ) (xs : List ℕ) → take n xs ++ drop n xs ≡ xs
take-append-drop zero xs = refl
take-append-drop (suc n) [] = refl
take-append-drop (suc n) (x ∷ xs) = ap (◌∷◌ x) (take-append-drop n xs)

length-drop : (n : ℕ) (xs : List ℕ) → length (drop n xs) ≡ length xs - n
length-drop zero xs = omega arith
length-drop (suc n) [] = omega arith
length-drop (suc n) (x ∷ xs) = omega (arith, length-drop n xs)

ShortLines-prefix : (line xs ys : List ℕ) → ShortLines line (xs ++ ys) → ShortLines line xs
ShortLines-prefix line [] ys h = short_now line ys h
ShortLines-prefix line (c ∷ xs) ys h = elim (Bool-cases (c == newline)) [
  | inl y ↦ (h.0, rw y (ShortLines-prefix [] xs ys (rw y at h.1)))
  | inr n ↦ (h.0, rw n (ShortLines-prefix (line ++ (c ∷ [])) xs ys (rw n at h.1)))
]

nothing_read :
    (m size : ℕ) (input : List ℕ)
    → m + 1 < buffer_size
    → (bytes_read m size input == 0) ≡ true
    → input ≡ []
nothing_read m size [] h e = refl
nothing_read m size (x ∷ xs) h e = ground arith

something_read :
    (m size : ℕ) (input : List ℕ)
    → m + 1 < buffer_size
    → (bytes_read m size input == 0) ≡ false
    → (0 < bytes_read m size input) × (0 < length input)
something_read m size [] h e = ground arith
something_read m size (x ∷ xs) h e = (ground arith, omega arith)

module _ (select : List ℕ → Answer) (test : List ℕ → Bool)
    (decided : (l : List ℕ) → length l < buffer_size → select l ≡ some (test l)) where
  scan_lem :
      (line text : List ℕ)
      → ShortLines line text
      → elem 0 text ≡ false
      → scan select line text ≡ some (selected test line text, unfinished line text)
  unfolding scan
  scan_lem line [] short text = refl
  scan_lem line (c ∷ rest) short text =
      let no_end : (c == 0) ≡ false = ground (arith, text) in
      let text' : elem 0 rest ≡ false = ground (arith, text) in
      elim (Bool-cases (c == newline)) [
        | inl y ↦
            rw
              (
                no_end,
                y,
                decided line (omega (arith, short.0)),
                scan_lem [] rest (rw y at short.1) text',
              )
              refl
        | inr n ↦ rw (no_end, n, scan_lem (line ++ (c ∷ [])) rest (rw n at short.1) text') refl
      ]

  scan-append :
      (line xs ys : List ℕ)
      → elem newline xs ≡ false
      → elem 0 xs ≡ false
      → scan select line (xs ++ ys) ≡ scan select (line ++ xs) ys
  unfolding scan
  scan-append line [] ys e z = ap (λ l. scan select l ys) (sym (append-nil line))
  scan-append line (c ∷ xs) ys e z =
      let no_end : (c == 0) ≡ false = ground (arith, z) in
      let z' : elem 0 xs ≡ false = ground (arith, z) in
      let other : (c == newline) ≡ false = ground (arith, e) in
      let rest : elem newline xs ≡ false = ground (arith, e) in
      rw (no_end, other)
        (scan-append (line ++ (c ∷ [])) xs ys rest z'
          ∙ ap (λ l. scan select l ys) (append_assoc line (c ∷ []) xs))

  grep-selected :
      (sizes kept input : List ℕ)
      → length input < length sizes
      → elem newline kept ≡ false
      → elem 0 kept ≡ false
      → elem 0 input ≡ false
      → ShortLines kept input
      → grep select sizes kept input ≡ some (selected test kept input)
  unfolding grep
  grep-selected [] kept input lt o ko text short = absurd (omega arith)
  grep-selected (size ∷ sizes) kept input lt o ko text short =
      let n = bytes_read (length kept) size input in
      let chunk = take n input in
      let whole = take-append-drop n input in
      elim (Bool-cases (n == 0)) [
        | inl y ↦
            let none_left = nothing_read (length kept) size input (short_now kept input short) y in
            rw (y, none_left) refl
        | inr m ↦
            let fewer = something_read (length kept) size input (short_now kept input short) m in
            let cut = subst (ShortLines kept) (sym whole) short in
            let scanned =
              scan-append [] kept chunk o ko
              ∙ scan_lem kept chunk (ShortLines-prefix kept chunk (drop n input) cut)
                  (elem-take 0 n input text) in
            let rest =
              grep-selected sizes (unfinished kept chunk) (drop n input)
                (omega (arith, length-drop n input)) (unfinished-newline kept chunk o)
                (unfinished-zero kept chunk ko (elem-take 0 n input text))
                (elem-drop 0 n input text) (ShortLines-append kept chunk (drop n input) cut) in
            rw (m, scanned, rest)
              (ap some (
                sym (selected-append test kept chunk (drop n input))
                ∙ ap (selected test kept) whole))
      ]

abbrev pub is_true : Answer → Bool
is_true (some true) = true
is_true _ = false

Decides-returns : (G : Type 0) (a : Answer) → Decides G a → a ≡ some (is_true a)
Decides-returns G (some true) d = refl
Decides-returns G (some false) d = refl
Decides-returns G none d = absurd d

-- For a pattern without `.*` and an input without 0 bytes whose lines are shorter than the buffer, `grep` writes exactly
-- the lines that `match` selects, in order, however the input is cut into reads; what follows the
-- last newline it does not write.
pub grep_lem :
    (ignore_case : Bool) (re sizes input : List ℕ)
    → Simple ignore_case re
    → length input < length sizes
    → ShortLines [] input
    → elem 0 input ≡ false
    → grep (match ignore_case buffer_size re) sizes [] input
      ≡ some (selected (λ line. is_true (match ignore_case buffer_size re line)) [] input)
grep_lem ignore_case re sizes input simple enough short text =
    grep-selected (match ignore_case buffer_size re)
      (λ line. is_true (match ignore_case buffer_size re line))
      (λ line lt. Decides-returns _ _ (match-Decides ignore_case buffer_size re line simple lt))
      sizes [] input enough refl refl text short
