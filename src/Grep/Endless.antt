-- ===== src/Grep/Endless.antt =====
-- `matchstar` for the dot does not advance.
use os_exp.Base.{ℕ, zero, suc, ◌≡◌, refl, Bool, false, none, some, List, ◌∷◌}
use os_exp.Grep.{dot, star, Answer, star_next, matchstar, matchhere}

matchstar-stuck :
    (ignore_case : Bool) (here : List ℕ → Answer) (fuel x : ℕ) (xs : List ℕ)
    → here (x ∷ xs) ≡ some false
    → matchstar ignore_case dot here fuel (x ∷ xs) ≡ none
unfolding matchstar star_next
matchstar-stuck ignore_case here zero x xs e = refl
matchstar-stuck ignore_case here (suc fuel) x xs e =
    rw e (matchstar-stuck ignore_case here fuel x xs e)

-- A pattern that begins with `.*` never returns on a text that is not empty and does not begin with the
-- rest of the pattern: no fuel is enough.
pub matchhere-endless :
    (ignore_case : Bool) (fuel : ℕ) (re : List ℕ) (x : ℕ) (xs : List ℕ)
    → matchhere ignore_case fuel re (x ∷ xs) ≡ some false
    → matchhere ignore_case fuel (dot ∷ star ∷ re) (x ∷ xs) ≡ none
unfolding matchhere
matchhere-endless ignore_case fuel re x xs e =
    matchstar-stuck ignore_case (matchhere ignore_case fuel re) fuel x xs e
