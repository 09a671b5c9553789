-- ===== src/Fs/Path/Skip.antt =====
-- What `skipelem` gives.
use os_exp.Base.{
  char_at, ℕ, zero, suc, ◌+◌, ◌-◌, ◌≤◌, ◌<◌, ◌≡◌, refl, sym, ap, ◌∙◌, subst, ◌≢◌, ◌↔◌, inl, inr,
  true, false, Option, none, some, List, [], ◌∷◌, arith, ltb, leb, ◌==◌, Bool-cases, length, take,
  drop, All, update_self,
}
use os_exp.Fs.Path.{
  dirsiz, slash, skip_slashes, element_length, move_name, set_name, after_slashes, skipelem,
}
use os_exp.Fs.Path.Elements.{
  elements, string_in, elements-first, elements-skip_slashes, skip_slashes-cases, elements-nil,
}

abbrev pub IsText : List ℕ → Type 0
IsText = All (λ (c : ℕ). c ≢ 0)

-- What `string_in` reads back.
string_in-text :
    (n i : ℕ) (f : ℕ → ℕ) (e : List ℕ)
    → ((k : ℕ) → k < n → k < length e → f (i + k) ≡ char_at e k)
    → (length e < n → f (i + length e) ≡ 0)
    → IsText e
    → string_in f n i ≡ take n e
unfolding string_in
string_in-text zero i f e at ends text = refl
string_in-text (suc n) i f [] at ends text =
    let here : f i ≡ 0 = ap f (omega arith) ∙ ends (omega arith) in rw here refl
string_in-text (suc n) i f (c ∷ cs) at ends text =
    let start : i + 0 ≡ i = omega arith in
    let here : f i ≡ c = sym (ap f start) ∙ at 0 (omega arith) (omega arith) in
    let some_c : (c == 0) ≡ false = ground (arith, text.0) in
    let rest =
      string_in-text n (i + 1) f cs
        (λ k h h'.
          let next : i + 1 + k ≡ i + suc k = omega arith in
          ap f next ∙ at (suc k) (omega arith) (omega arith))
        (λ h.
          let next : i + 1 + length cs ≡ i + suc (length cs) = omega arith in
          ap f next ∙ ends (omega arith))
        text.1 in
    rw (here, some_c) (ap (λ r. c ∷ r) rest)

char_at-take : (n k : ℕ) (s : List ℕ) → k < n → char_at (take n s) k ≡ char_at s k
char_at-take zero k s h = absurd (omega arith)
char_at-take (suc n) k [] h = refl
char_at-take (suc n) zero (c ∷ cs) h = refl
char_at-take (suc n) (suc k) (c ∷ cs) h = char_at-take n k cs (omega arith)

length-take : (n : ℕ) (s : List ℕ) → n ≤ length s → length (take n s) ≡ n
length-take zero s h = refl
length-take (suc n) [] h = absurd (omega arith)
length-take (suc n) (c ∷ cs) h = ap suc (length-take n cs (omega arith))

element_length-le : (s : List ℕ) → element_length s ≤ length s
unfolding element_length
element_length-le [] = omega arith
element_length-le (c ∷ cs) = ground (arith, element_length-le cs)

IsText-take : (n : ℕ) (s : List ℕ) → IsText s → IsText (take n s)
IsText-take zero s t = tt
IsText-take (suc n) [] t = tt
IsText-take (suc n) (c ∷ cs) t = (t.0, IsText-take n cs t.1)

IsText-drop : (n : ℕ) (s : List ℕ) → IsText s → IsText (drop n s)
IsText-drop zero s t = t
IsText-drop (suc n) [] t = tt
IsText-drop (suc n) (c ∷ cs) t = IsText-drop n cs t.1

IsText-skip_slashes : (s : List ℕ) → IsText s → IsText (skip_slashes s)
unfolding skip_slashes
IsText-skip_slashes [] t = tt
IsText-skip_slashes (c ∷ cs) t = elim (Bool-cases (c == slash)) [
  | inl y ↦ rw y (IsText-skip_slashes cs t.1)
  | inr n ↦ rw n t
]

length-skip_slashes : (s : List ℕ) → length (skip_slashes s) ≤ length s
unfolding skip_slashes
length-skip_slashes [] = omega arith
length-skip_slashes (c ∷ cs) = ground (arith, length-skip_slashes cs)

length-drop : (n : ℕ) (s : List ℕ) → length (drop n s) ≤ length s - n
length-drop zero s = omega arith
length-drop (suc n) [] = omega arith
length-drop (suc n) (c ∷ cs) = omega (arith, length-drop n cs)

-- The name is the element, cut off after DIRSIZ characters.
set_name-text :
    (name : ℕ → ℕ) (s : List ℕ)
    → IsText s
    → string_in (set_name name s (element_length s)) dirsiz 0
      ≡ take dirsiz (take (element_length s) s)
set_name-text name s t =
    let len = element_length s in
    let size = length-take len s (element_length-le s) in
    string_in-text dirsiz 0 (set_name name s len) (take len s)
      (λ k h h'. elim (Bool-cases (leb dirsiz len)) [
        | inl y ↦
            let k_at : 0 + k ≡ k = omega arith in
            let inside : ltb k dirsiz ≡ true = ground arith in
            rw (y, k_at, inside) (sym (char_at-take len k s (ground (arith, y))))
        | inr n ↦
            let k_at : 0 + k ≡ k = omega arith in
            let inside : ltb k len ≡ true = ground (arith, size) in
            let before : (k == len) ≡ false = ground (arith, size) in
            rw (n, k_at, before, inside) (sym (char_at-take len k s (omega (arith, size))))
      ])
      (λ h.
        let short : leb dirsiz len ≡ false = ground (arith, size) in
        let at_end : 0 + length (take len s) ≡ len = omega (arith, size) in
        rw (short, at_end) (update_self (move_name name s len) len 0))
      (IsText-take len s t)

-- `none` exactly for a path without elements; otherwise the first element, cut off after DIRSIZ
-- characters, and a shorter path of the others, without slashes at its start.
abbrev pub SkipResult : List ℕ → Option (List ℕ × (ℕ → ℕ)) → Type 0
SkipResult path none = elements path ≡ []
SkipResult path (some (rest, name)) =
    (e : List ℕ) × (elements path ≡ e ∷ elements rest)
    × (string_in name dirsiz 0 ≡ take dirsiz e)
    × (length rest < length path)
    × IsText rest
    × ((elements rest ≡ []) ↔ (rest ≡ []))

-- After the slashes there is an element or the end.
elements-at_end : (s : List ℕ) → (elements (skip_slashes s) ≡ []) ↔ (skip_slashes s ≡ [])
elements-at_end s = (
  (λ h. elim (skip_slashes-cases s) [
    | inl e ↦ e
    | inr (c, cs, e, n) ↦ let first = elements-first c cs n in let all = ap elements e in cc
  ]),
  (λ h. ap elements h ∙ elements-nil),
)

-- The first element has a character.
length-after :
    (c : ℕ) (cs : List ℕ)
    → (c == slash) ≡ false
    → length (drop (element_length (c ∷ cs)) (c ∷ cs)) < length (c ∷ cs)
unfolding element_length
length-after c cs n = rw n (omega (arith, length-drop (element_length cs) cs))

-- A path that starts at an element.
after_slashes-first :
    (c : ℕ) (cs : List ℕ) (name : ℕ → ℕ)
    → (c == slash) ≡ false
    → IsText (c ∷ cs)
    → SkipResult (c ∷ cs) (after_slashes (c ∷ cs) name)
unfolding after_slashes
after_slashes-first c cs name n t =
    let len = element_length (c ∷ cs) in
    let rest = drop len (c ∷ cs) in
    (
      take len (c ∷ cs),
      elements-first c cs n ∙ ap (λ r. take len (c ∷ cs) ∷ r) (sym (elements-skip_slashes rest)),
      set_name-text name (c ∷ cs) t,
      omega (arith, length-skip_slashes rest, length-after c cs n),
      IsText-skip_slashes rest (IsText-drop len (c ∷ cs) t),
      elements-at_end rest,
    )

-- What `skipelem` does on every path.
pub skipelem_lem :
    (path : List ℕ) (name : ℕ → ℕ) → IsText path → SkipResult path (skipelem path name)
unfolding skipelem
skipelem_lem path name t = elim (skip_slashes-cases path) [
  | inl e ↦ rw e (sym (elements-skip_slashes path) ∙ ap elements e ∙ elements-nil)
  | inr (c, cs, e, n) ↦
      let text = subst (λ s. IsText s) e (IsText-skip_slashes path t) in
      let (part, first, copied, shorter, rest_text, ends) = after_slashes-first c cs name n text in
      let same = sym (elements-skip_slashes path) ∙ ap elements e in
      let size = sym (ap length e) in
      rw e (
        part,
        same ∙ first,
        copied,
        omega (arith, shorter, size, length-skip_slashes path),
        rest_text,
        ends,
      )
]
