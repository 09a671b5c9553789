-- ===== src/Console/Tests.antt =====
-- A console whose indices wrap, with a line `aa` to read and an `a` that is being edited.
use os_exp.Base.{ℕ, ◌-◌, ◌^◌, ◌≡◌, refl, Bool, true, false, List, [], ◌∷◌, All, arith}
use os_exp.Console.Line.{IsPlain, LineRead, entered, consoleread-line}
use os_exp.Console.{Cons, consoleintr, consoleread, newline}
use os_exp.Console.Ring.{typed, ready, IsCons, window}
use os_exp.Console.Edit.{EditedAs, edited, consoleintr-Edited}
use os_exp.Console.Read.{ReadAs, arrived, line_taken, consoleread-Taken}

abbrev sample : Cons
sample = record { buf = λ i. b'a'; r = 2 ^ 32 - 1; w = 1; e = 2 }

sample-IsCons : IsCons sample
sample-IsCons = record {
  words = (omega arith, omega arith, omega arith);
  in_order = omega arith;
  fits = omega arith;
  one_line = λ i h. ground arith;
}

abbrev always : ℕ → Bool
always i = true

edited_by_return : edited 13 (b'a' ∷ []) 0 ≡ (b'a' ∷ newline ∷ [], 2)
edited_by_return = refl

consoleintr-Edited_example :
    EditedAs (consoleintr 13 sample).2 (edited 13 (typed sample) (ready sample))
consoleintr-Edited_example = consoleintr-Edited 13 sample sample-IsCons (omega arith)

consoleread-Taken_example :
    ReadAs always false 3 sample
      (consoleread always false 3 3 sample)
      (line_taken always false 3 3 (arrived sample))
consoleread-Taken_example = consoleread-Taken always false 3 3 sample sample-IsCons

-- An empty console, and the line `hi`.
abbrev quiet : Cons
quiet = record { buf = λ i. 0; r = 2 ^ 32 - 1; w = 2 ^ 32 - 1; e = 2 ^ 32 - 1 }

quiet-IsCons : IsCons quiet
quiet-IsCons = record {
  words = (omega arith, omega arith, omega arith);
  in_order = omega arith;
  fits = omega arith;
  one_line = λ i h. absurd (omega arith);
}

nothing_typed : typed quiet ≡ []
unfolding window
nothing_typed = refl

abbrev hi : List ℕ
hi = b'h' ∷ b'i' ∷ []

hi-IsPlain : All IsPlain hi
hi-IsPlain = ((omega arith, refl), ((omega arith, refl), tt))

consoleread-line_example :
    LineRead
      (λ s'. arrived s' ≡ [])
      3
      (b'h' ∷ b'i' ∷ newline ∷ [])
      (consoleread always false 10 10 (entered hi quiet))
consoleread-line_example =
    consoleread-line always hi quiet 10 (λ i. refl) quiet-IsCons nothing_typed hi-IsPlain
      (omega arith) (omega arith)
