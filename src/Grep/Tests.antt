-- ===== src/Grep/Tests.antt =====
-- `^a*b$`, `b` and `.*x` on short texts.
use os_exp.Base.{ℕ, ◌≡◌, refl, true, false, none, some, List, [], ◌∷◌, arith}
use os_exp.Grep.{to_lower, same, matchstar, matchhere, match_loop, match, grep, buffer_size}
use os_exp.Grep.Matcher.{Decides, Selects, match-Decides}
use os_exp.Grep.Endless.{matchhere-endless}
use os_exp.Grep.Lines.{selected, is_true, grep_lem}

-- ^a*b$
abbrev anchored : List ℕ
anchored = 94 ∷ 97 ∷ 42 ∷ 98 ∷ 36 ∷ []

-- aab
abbrev aab : List ℕ
aab = 97 ∷ 97 ∷ 98 ∷ []

-- aab, xB and a line without an end
abbrev input : List ℕ
input = 97 ∷ 97 ∷ 98 ∷ 10 ∷ 120 ∷ 66 ∷ 10 ∷ 98 ∷ []

finds_aab : match false 9 anchored aab ≡ some true
unfolding match same to_lower matchstar matchhere
finds_aab = refl

ignored_case : match true 9 (66 ∷ []) aab ≡ some true
unfolding match same to_lower match_loop matchhere
ignored_case = refl

match-Decides_example : Decides (Selects false anchored aab) (match false 9 anchored aab)
match-Decides_example = match-Decides false 9 anchored aab (refl, tt) (omega arith)

matchhere-endless_example : matchhere false 50 (46 ∷ 42 ∷ 120 ∷ []) aab ≡ none
unfolding matchhere same
matchhere-endless_example = matchhere-endless false 50 (120 ∷ []) 97 (97 ∷ 98 ∷ []) refl

grep_lem_example :
    grep (match true buffer_size (98 ∷ [])) (0 ∷ 2 ∷ 0 ∷ 9 ∷ 0 ∷ 0 ∷ 0 ∷ 0 ∷ 0 ∷ []) [] input
    ≡ some (selected (λ line. is_true (match true buffer_size (98 ∷ []) line)) [] input)
grep_lem_example =
    grep_lem true (98 ∷ []) (0 ∷ 2 ∷ 0 ∷ 9 ∷ 0 ∷ 0 ∷ 0 ∷ 0 ∷ 0 ∷ []) input tt (omega arith)
      (omega arith) refl

prints_two :
    grep (match true buffer_size (98 ∷ [])) (0 ∷ 2 ∷ 0 ∷ 9 ∷ 0 ∷ []) [] input
    ≡ some (97 ∷ 97 ∷ 98 ∷ 10 ∷ 120 ∷ 66 ∷ 10 ∷ [])
unfolding grep match same to_lower match_loop matchhere
prints_two = refl

-- What follows a 0 byte is not looked at.
stops_at_zero :
    grep (match false buffer_size (98 ∷ [])) (9 ∷ 9 ∷ []) [] (97 ∷ 0 ∷ 98 ∷ 10 ∷ []) ≡ some []
unfolding grep match same to_lower match_loop matchhere
stops_at_zero = refl
