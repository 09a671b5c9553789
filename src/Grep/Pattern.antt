-- ===== src/Grep/Pattern.antt =====
-- What a pattern means, without a search.
use os_exp.Base.{
  ℕ, ◌≡◌, ◌⊎◌, inl, inr, Bool, true, false, ◌||◌, List, [], ◌∷◌, arith, ◌==◌, if◌then◌else◌,
}
use os_exp.Grep.{dot, star, dollar, same}

pub data Item : Type 0 where
  -- one character, or any number of it
  char : ℕ → Item
  many : ℕ → Item
  end : Item

-- The items that a pattern consists of.
abbrev pub items : List ℕ → List Item
items [] = []
items (c ∷ []) = if c == dollar then end ∷ [] else char c ∷ []
items (c ∷ s ∷ re) = if s == star then many c ∷ items re else char c ∷ items (s ∷ re)

module _ (ignore_case : Bool) where
  abbrev pub fits : ℕ → ℕ → Bool
  fits c x = (c == dot) || same ignore_case c x

  -- The items match a beginning of the text.
  pub data Matches : List Item → List ℕ → Type 0 where
    nothing : {s : List ℕ} → Matches [] s
    ends : Matches (end ∷ []) []
    next :
        {c x : ℕ} {p : List Item} {s : List ℕ}
        → fits c x ≡ true
        → Matches p s
        → Matches (char c ∷ p) (x ∷ s)
    leave : {c : ℕ} {p : List Item} {s : List ℕ} → Matches p s → Matches (many c ∷ p) s
    again :
        {c x : ℕ} {p : List Item} {s : List ℕ}
        → fits c x ≡ true
        → Matches (many c ∷ p) s
        → Matches (many c ∷ p) (x ∷ s)

  pub next_inv :
      {c x : ℕ} {p : List Item} {s : List ℕ}
      → Matches (char c ∷ p) (x ∷ s)
      → (fits c x ≡ true) × Matches p s
  next_inv (next f m) = (f, m)

  pub no_next : {c : ℕ} {p : List Item} → ¬ (Matches (char c ∷ p) [])
  no_next m = elim m [ ]

  pub not_end : {x : ℕ} {s : List ℕ} → ¬ (Matches (end ∷ []) (x ∷ s))
  not_end m = elim m [ ]

  pub many_nil_inv : {c : ℕ} {p : List Item} → Matches (many c ∷ p) [] → Matches p []
  many_nil_inv (leave m) = m

  pub many_inv :
      {c x : ℕ} {p : List Item} {s : List ℕ}
      → Matches (many c ∷ p) (x ∷ s)
      → Matches p (x ∷ s) ⊎ ((fits c x ≡ true) × Matches (many c ∷ p) s)
  many_inv (leave m) = inl m
  many_inv (again f m) = inr (f, m)

  pub same_comm : (c x : ℕ) → same ignore_case c x ≡ same ignore_case x c
  unfolding same
  same_comm c x = ground arith

-- No `.*` in the pattern.
abbrev pub NoDotStar : List Item → Type 0
NoDotStar [] = Unit {0}
NoDotStar (char c ∷ p) = NoDotStar p
NoDotStar (many c ∷ p) = ((c == dot) ≡ false) × NoDotStar p
NoDotStar (end ∷ p) = NoDotStar p
