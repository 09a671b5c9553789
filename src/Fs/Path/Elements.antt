-- ===== src/Fs/Path/Elements.antt =====
-- `skipelem` takes the elements of a path off one by one.
use os_exp.Base.{
  ℕ, zero, suc, ◌+◌, ◌≡◌, refl, sym, ap, ◌∙◌, ◌⊎◌, inl, inr, true, false, List, [], ◌∷◌, ◌==◌,
  if◌then◌else◌, Bool-cases, take, drop,
}
use os_exp.Fs.Path.{slash, skip_slashes, element_length}

abbrev on_first : ℕ → List (List ℕ) → List (List ℕ)
on_first c [] = (c ∷ []) ∷ []
on_first c (e ∷ es) = (c ∷ e) ∷ es

-- The parts of the path between the slashes.
pub split : List ℕ → List (List ℕ)
split [] = [] ∷ []
split (c ∷ cs) = let rest = split cs in if c == slash then [] ∷ rest else on_first c rest

abbrev pub keep_part : List ℕ → List (List ℕ) → List (List ℕ)
keep_part [] rest = rest
keep_part (c ∷ cs) rest = (c ∷ cs) ∷ rest

pub nonempty : List (List ℕ) → List (List ℕ)
nonempty [] = []
nonempty (e ∷ es) = keep_part e (nonempty es)

-- The elements of a path: its parts that are not empty.
pub elements : List ℕ → List (List ℕ)
unfolding split nonempty
elements path = nonempty (split path)

-- The string in a buffer of `n` bytes, from `i` on.
unfoldable pub string_in : (ℕ → ℕ) → (n i : ℕ) → List ℕ
string_in name zero i = []
string_in name (suc n) i =
    let rest = string_in name n (i + 1) in if name i == 0 then [] else name i ∷ rest

split-slash : (c : ℕ) (cs : List ℕ) → (c == slash) ≡ true → split (c ∷ cs) ≡ [] ∷ split cs
unfolding split
split-slash c cs y = rw y refl

split-other : (c : ℕ) (cs : List ℕ) → (c == slash) ≡ false → split (c ∷ cs) ≡ on_first c (split cs)
unfolding split
split-other c cs n = rw n refl

pub elements-nil : elements [] ≡ []
unfolding elements split nonempty
elements-nil = refl

-- A slash at the start adds an empty part.
pub elements-skip_slashes : (path : List ℕ) → elements (skip_slashes path) ≡ elements path
unfolding elements skip_slashes
elements-skip_slashes [] = refl
elements-skip_slashes (c ∷ cs) = elim (Bool-cases (c == slash)) [
  | inl y ↦
      let here : skip_slashes (c ∷ cs) ≡ skip_slashes cs = rw y refl in
      ap elements here ∙ elements-skip_slashes cs ∙ sym (ap nonempty (split-slash c cs y))
  | inr n ↦ let here : skip_slashes (c ∷ cs) ≡ c ∷ cs = rw n refl in ap elements here
]

pub skip_slashes-cases :
    (path : List ℕ)
    → (skip_slashes path ≡ [])
      ⊎ ((c : ℕ) × (cs : List ℕ) × (skip_slashes path ≡ c ∷ cs) × ((c == slash) ≡ false))
unfolding skip_slashes
skip_slashes-cases [] = inl refl
skip_slashes-cases (c ∷ cs) = elim (Bool-cases (c == slash)) [
  | inl y ↦ rw y (skip_slashes-cases cs)
  | inr n ↦ rw n (inr (c, cs, refl, n))
]

-- The first part ends where `element_length` says.
split-first :
    (s : List ℕ)
    → (es : List (List ℕ)) × (split s ≡ take (element_length s) s ∷ es)
      × (split (drop (element_length s) s) ≡ [] ∷ es)
unfolding element_length split
split-first [] = ([], refl, refl)
split-first (c ∷ cs) = elim (Bool-cases (c == slash)) [
  | inl y ↦ (split cs, rw y refl, rw y (split-slash c cs y))
  | inr n ↦ let (es, e, e') = split-first cs in (es, rw n (ap (on_first c) e), rw n e')
]

pub elements-first :
    (c : ℕ) (cs : List ℕ)
    → (c == slash) ≡ false
    → let len = element_length (c ∷ cs) in
      elements (c ∷ cs) ≡ take len (c ∷ cs) ∷ elements (drop len (c ∷ cs))
unfolding elements element_length
elements-first c cs n =
    let (es, e, e') = split-first (c ∷ cs) in
    ap nonempty e
    ∙ rw n refl
    ∙ ap (λ r. take (element_length (c ∷ cs)) (c ∷ cs) ∷ r) (sym (ap nonempty e'))
