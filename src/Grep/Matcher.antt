-- ===== src/Grep/Matcher.antt =====
-- `matchhere` and `match` decide what the pattern means.
use os_exp.Base.{
  ℕ, zero, suc, ◌<◌, ◌≤◌, ◌≡◌, ◌⊎◌, inl, inr, Bool, true, false, none, some, List, [], ◌∷◌, arith,
  ◌==◌, if◌then◌else◌, length, Bool-cases,
}
use os_exp.Grep.{
  dot, star, dollar, caret, Answer, otherwise, same, star_next, matchstar, one, is_empty, matchhere,
  match_loop, match,
}
use os_exp.Grep.Pattern.{
  Item, char, many, end, items, fits, Matches, nothing, ends, next, leave, again, next_inv, no_next,
  not_end, many_nil_inv, many_inv, same_comm, NoDotStar,
}

-- The call returned, and its answer is right.
abbrev pub Decides : Type 0 → Answer → Type 0
Decides G none = ⊥
Decides G (some true) = G
Decides G (some false) = ¬ G

Decides-otherwise :
    {G A B : Type 0} (a b : Answer)
    → (A → G)
    → (B → G)
    → (¬ A → G → B)
    → Decides A a
    → (¬ A → Decides B b)
    → Decides G (otherwise a b)
Decides-otherwise none b f g h da db = da
Decides-otherwise (some true) b f g h da db = f da
Decides-otherwise (some false) none f g h da db = db da
Decides-otherwise (some false) (some true) f g h da db = g (db da)
Decides-otherwise (some false) (some false) f g h da db = λ x. db da (h da x)

Decides-iff : {G A : Type 0} (a : Answer) → (A → G) → (G → A) → Decides A a → Decides G a
Decides-iff none f g d = d
Decides-iff (some true) f g d = f d
Decides-iff (some false) f g d = λ x. d (g x)

module _ (ignore_case : Bool) where
  abbrev M : List Item → List ℕ → Type 0
  M = Matches ignore_case

  one-Decides :
      (c : ℕ) (p : List Item) (here : List ℕ → Answer) (text : List ℕ)
      → ((t : List ℕ) → length t < length text → Decides (M p t) (here t))
      → Decides (M (char c ∷ p) text) (one ignore_case c here text)
  unfolding one
  one-Decides c p here [] h = no_next ignore_case
  one-Decides c p here (x ∷ xs) h = elim (Bool-cases (fits ignore_case c x)) [
    | inl y ↦
        rw y (Decides-iff (here xs) (next y) (λ m. (next_inv ignore_case m).1) (h xs (omega arith)))
    | inr n ↦ rw n (λ m. cc ((next_inv ignore_case m).0, n))
  ]

  -- `matchstar` for any character but the dot: `here` is right for the rest of the pattern.
  matchstar-Decides :
      (c : ℕ) (p : List Item) (here : List ℕ → Answer) (fuel : ℕ) (text : List ℕ)
      → (c == dot) ≡ false
      → length text < fuel
      → ((t : List ℕ) → length t ≤ length text → Decides (M p t) (here t))
      → Decides (M (many c ∷ p) text) (matchstar ignore_case c here fuel text)
  unfolding matchstar star_next
  matchstar-Decides c p here zero text no_dot lt h = absurd (omega arith)
  matchstar-Decides c p here (suc fuel) [] no_dot lt h =
      Decides-otherwise (here []) (some false) leave (λ (x : ⊥). absurd x)
        (λ no_ m. no_ (many_nil_inv ignore_case m)) (h [] (omega arith)) λ no_ x. x
  matchstar-Decides c p here (suc fuel) (x ∷ xs) no_dot lt h = rw no_dot (
      Decides-otherwise {A = M p (x ∷ xs)} {B = (fits ignore_case c x ≡ true) × M (many c ∷ p) xs}
        (here (x ∷ xs))
        (if same ignore_case x c then matchstar ignore_case c here fuel xs else some false) leave
        (λ m. again m.0 m.1)
        (λ no_ m. elim (many_inv ignore_case m) [ inl a ↦ absurd (no_ a) | inr b ↦ b ])
        (h (x ∷ xs) (omega arith))
        λ _. elim (Bool-cases (same ignore_case x c)) [
          | inl y ↦
              let fit : fits ignore_case c x ≡ true =
                ground (arith, same_comm ignore_case x c, y) in
              rw y (
                Decides-iff (matchstar ignore_case c here fuel xs) (λ m. (fit, m)) (λ m. m.1)
                  (matchstar-Decides c p here fuel xs no_dot (omega arith)
                    λ t le. h t (omega arith)))
          | inr n ↦
              let unfit : fits ignore_case c x ≡ false =
                ground (arith, same_comm ignore_case x c, n) in
              rw n (λ m. cc (m.0, unfit))
        ])

  end-Decides : (text : List ℕ) → Decides (M (end ∷ []) text) (some (is_empty text))
  end-Decides [] = ends
  end-Decides (x ∷ xs) = not_end ignore_case

  matchhere-Decides :
      (fuel : ℕ) (re text : List ℕ)
      → NoDotStar (items re)
      → length text < fuel
      → Decides (M (items re) text) (matchhere ignore_case fuel re text)
  unfolding matchhere
  matchhere-Decides fuel [] text plain lt = nothing
  matchhere-Decides fuel (c ∷ []) text plain lt = elim (Bool-cases (c == dollar)) [
    | inl y ↦ rw y (end-Decides text)
    | inr n ↦ rw n (one-Decides c [] (λ _. some true) text λ t h. nothing)
  ]
  matchhere-Decides fuel (c ∷ s ∷ re) text plain lt = elim (Bool-cases (s == star)) [
    | inl y ↦
        let plain' : NoDotStar (many c ∷ items re) = rw y at plain in
        rw y (
          matchstar-Decides c (items re) (matchhere ignore_case fuel re) fuel text plain'.0 lt
            λ t le. matchhere-Decides fuel re t plain'.1 (omega arith))
    | inr n ↦
        let plain' : NoDotStar (char c ∷ items (s ∷ re)) = rw n at plain in
        rw n (
          one-Decides c (items (s ∷ re)) (matchhere ignore_case fuel (s ∷ re)) text
            λ t lt'. matchhere-Decides fuel (s ∷ re) t plain' (omega arith))
  ]

  -- The items match somewhere in the text.
  pub data Occurs (p : List Item) : List ℕ → Type 0 where
    at_start : {s : List ℕ} → M p s → Occurs p s
    later : {x : ℕ} {s : List ℕ} → Occurs p s → Occurs p (x ∷ s)

  later_inv : {p : List Item} {x : ℕ} {s : List ℕ} → Occurs p (x ∷ s) → M p (x ∷ s) ⊎ Occurs p s
  later_inv (at_start m) = inl m
  later_inv (later o) = inr o

  start_inv : {p : List Item} → Occurs p [] → M p []
  start_inv (at_start m) = m

  match_loop-Decides :
      (p : List Item) (here : List ℕ → Answer) (text : List ℕ)
      → ((t : List ℕ) → length t ≤ length text → Decides (M p t) (here t))
      → Decides (Occurs p text) (match_loop here text)
  unfolding match_loop
  match_loop-Decides p here [] h =
      Decides-otherwise (here []) (some false) at_start (λ (x : ⊥). absurd x)
        (λ no_ o. no_ (start_inv o)) (h [] (omega arith)) λ _ x. x
  match_loop-Decides p here (x ∷ xs) h =
      Decides-otherwise (here (x ∷ xs)) (match_loop here xs) at_start later
        (λ no_ o. elim (later_inv o) [ inl m ↦ absurd (no_ m) | inr l ↦ l ])
        (h (x ∷ xs) (omega arith)) λ _. match_loop-Decides p here xs λ t le. h t (omega arith)

  -- What a whole pattern asks of a line.
  abbrev pub Selects : List ℕ → List ℕ → Type 0
  Selects [] text = Occurs [] text
  Selects (c ∷ re) text = if c == caret then M (items re) text else Occurs (items (c ∷ re)) text

  abbrev pub Simple : List ℕ → Type 0
  Simple [] = Unit {0}
  Simple (c ∷ re) = NoDotStar (if c == caret then items re else items (c ∷ re))

  -- For a pattern without `.*`, `match` returns, with fuel beyond the length of the text, and its answer
  -- says whether the line has what the pattern means: at its start after a `^`, else anywhere.
  pub match-Decides :
      (fuel : ℕ) (re text : List ℕ)
      → Simple re
      → length text < fuel
      → Decides (Selects re text) (match ignore_case fuel re text)
  unfolding match matchhere
  match-Decides fuel [] text simple lt = match_loop-Decides [] _ text λ t le. nothing
  match-Decides fuel (c ∷ re) text simple lt = elim (Bool-cases (c == caret)) [
    | inl y ↦
        let simple' : NoDotStar (items re) = rw y at simple in
        rw y (matchhere-Decides fuel re text simple' lt)
    | inr n ↦
        let simple' : NoDotStar (items (c ∷ re)) = rw n at simple in
        rw n (
          match_loop-Decides (items (c ∷ re)) (matchhere ignore_case fuel (c ∷ re)) text
            λ t le. matchhere-Decides fuel (c ∷ re) t simple' (omega arith))
  ]
