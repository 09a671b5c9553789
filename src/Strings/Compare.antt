-- ===== src/Strings/Compare.antt =====
-- `memcmp` and `strncmp` tell whether two ranges or strings are the same.
use os_exp.Base.{
  ℕ, zero, suc, ◌+◌, ◌-◌, ◌<◌, ◌≤◌, ◌≡◌, ◌≢◌, ◌⊎◌, ◌↔◌, inl, inr, refl, sym, ap, ◌∙◌, subst, true,
  false, not, ◌&&◌, arith, ◌==◌, Bool-cases,
}
use os_exp.Base.Word.{diff32}
use os_exp.Strings.{Memory, memcmp, strncmp}

-- Every address holds a byte.
abbrev pub IsBytes : Memory → Type 0
IsBytes mem = (a : ℕ) → mem a < 256

diff32-zero : (x y : ℕ) → x < 256 → y < 256 → diff32 x y ≡ 0 → x ≡ y
diff32-zero x y hx hy e = omega arith

diff32_self : (x : ℕ) → x < 256 → diff32 x x ≡ 0
diff32_self x h = omega arith

-- The ranges of `n` bytes at `v1` and `v2` agree, address for address.
abbrev Same : (v1 v2 n : ℕ) → Memory → Type 0
Same v1 v2 n mem = (a b : ℕ) → v1 ≤ a → a < v1 + n → a + v2 ≡ b + v1 → mem a ≡ mem b

memcmp-Same : (v1 v2 n : ℕ) (mem : Memory) → IsBytes mem → memcmp v1 v2 n mem ≡ 0 → Same v1 v2 n mem
unfolding memcmp
memcmp-Same v1 v2 zero mem bytes e = λ a b lo hi. absurd (omega arith)
memcmp-Same v1 v2 (suc n) mem bytes e = λ a b lo hi s. elim (Bool-cases (not (mem v1 == mem v2))) [
  | inl y ↦
      let differ : diff32 (mem v1) (mem v2) ≡ 0 = rw y at e in
      let same = diff32-zero (mem v1) (mem v2) (bytes v1) (bytes v2) differ in ground (arith, same)
  | inr m ↦
      let rest = memcmp-Same (v1 + 1) (v2 + 1) n mem bytes (rw m at e) in
      elim (Bool-cases (a == v1)) [
        | inl y ↦
            let a_v : a ≡ v1 = ground arith in
            let b_v : v2 ≡ b = omega arith in
            let same : mem v1 ≡ mem v2 = ground arith in ap mem a_v ∙ same ∙ ap mem b_v
        | inr k ↦ rest a b (ground arith) (omega arith) (omega arith)
      ]
]

Same-memcmp : (v1 v2 n : ℕ) (mem : Memory) → Same v1 v2 n mem → memcmp v1 v2 n mem ≡ 0
unfolding memcmp
Same-memcmp v1 v2 zero mem w = refl
Same-memcmp v1 v2 (suc n) mem w =
    let same : mem v1 ≡ mem v2 = w v1 v2 (omega arith) (omega arith) (omega arith) in
    let equal : not (mem v1 == mem v2) ≡ false = ground (arith, same) in
    rw equal (
      Same-memcmp (v1 + 1) (v2 + 1) n mem
        λ a b lo hi e. w a b (omega arith) (omega arith) (omega arith))

-- On a memory of bytes `memcmp` returns 0 exactly if the two ranges hold the same bytes.
pub memcmp_iff :
    (v1 v2 n : ℕ) (mem : Memory)
    → IsBytes mem
    → (memcmp v1 v2 n mem ≡ 0) ↔ ((i : ℕ) → i < n → mem (v1 + i) ≡ mem (v2 + i))
memcmp_iff v1 v2 n mem bytes = (
  λ e i h.
      memcmp-Same v1 v2 n mem bytes e (v1 + i) (v2 + i) (omega arith) (omega arith) (omega arith),
  λ w. Same-memcmp v1 v2 n mem λ a b lo hi e.
      let a_v : v1 + (a - v1) ≡ a = omega arith in
      let b_v : v2 + (a - v1) ≡ b = omega arith in
      subst (λ x. mem x ≡ mem b) a_v
        (subst (λ y. mem (v1 + (a - v1)) ≡ mem y) b_v (w (a - v1) (omega arith))),
)

-- The strings at `p` and `q` agree up to the end of the first, or on `n` bytes.
abbrev SameText : (p q n : ℕ) → Memory → Type 0
SameText p q n mem =
    (a b : ℕ)
    → p ≤ a
    → a < p + n
    → a + q ≡ b + p
    → ((x : ℕ) → p ≤ x → x < a → mem x ≢ 0)
    → mem a ≡ mem b

stops : (x y : ℕ) → (not (x == 0) && (x == y)) ≡ false → (x ≡ 0) ⊎ (x ≢ y)
stops x y e = ground arith

goes_on : (x y : ℕ) → (not (x == 0) && (x == y)) ≡ true → (x ≢ 0) × (x ≡ y)
goes_on x y e = ground arith

strncmp-SameText :
    (p q n : ℕ) (mem : Memory) → IsBytes mem → strncmp p q n mem ≡ 0 → SameText p q n mem
unfolding strncmp
strncmp-SameText p q zero mem bytes e = λ a b lo hi. absurd (omega arith)
strncmp-SameText p q (suc n) mem bytes e = λ a b lo hi s text. elim (Bool-cases (a == p)) [
  | inl y ↦
      let a_p : a ≡ p = ground arith in
      let b_q : q ≡ b = omega arith in ap mem a_p ∙ first_same ∙ ap mem b_q
  | inr k ↦ elim (Bool-cases (not (mem p == 0) && (mem p == mem q))) [
    | inl y ↦
        strncmp-SameText (p + 1) (q + 1) n mem bytes (rw y at e) a b (ground arith) (omega arith)
          (omega arith) λ x lo' hi'. text x (omega arith) hi'
    | inr m ↦ elim (stops (mem p) (mem q) m) [
      | inl z ↦ absurd (text p (omega arith) (ground arith) z)
      | inr ne ↦ absurd (ne first_same)
    ]
  ]
]
  where
    first_same : mem p ≡ mem q
    first_same = elim (Bool-cases (not (mem p == 0) && (mem p == mem q))) [
      | inl y ↦ (goes_on (mem p) (mem q) y).1
      | inr m ↦ diff32-zero (mem p) (mem q) (bytes p) (bytes q) (rw m at e)
    ]

SameText-strncmp :
    (p q n : ℕ) (mem : Memory) → IsBytes mem → SameText p q n mem → strncmp p q n mem ≡ 0
unfolding strncmp
SameText-strncmp p q zero mem bytes w = refl
SameText-strncmp p q (suc n) mem bytes w =
    let same : mem p ≡ mem q =
      w p q (omega arith) (omega arith) (omega arith) λ x lo hi. absurd (omega arith) in
    elim (Bool-cases (not (mem p == 0) && (mem p == mem q))) [
      | inl y ↦ rw y (
          SameText-strncmp (p + 1) (q + 1) n mem bytes λ a b lo hi e text.
            w a b (omega arith) (omega arith) (omega arith) λ x lo' hi'.
              elim (Bool-cases (x == p)) [
                | inl z ↦
                    let x_p : x ≡ p = ground arith in
                    λ zero_. (goes_on (mem p) (mem q) y).0 (ap mem (sym x_p) ∙ zero_)
                | inr k ↦ text x (ground arith) hi'
              ])
      | inr m ↦ rw (m, same) (diff32_self (mem q) (bytes q))
    ]

-- On a memory of bytes `strncmp` returns 0 exactly if the two strings agree on the first `n` bytes, or
-- up to and with the end of the first one.
pub strncmp_iff :
    (p q n : ℕ) (mem : Memory)
    → IsBytes mem
    → (strncmp p q n mem ≡ 0)
      ↔ ((i : ℕ) → i < n → ((j : ℕ) → j < i → mem (p + j) ≢ 0) → mem (p + i) ≡ mem (q + i))
strncmp_iff p q n mem bytes = (
  λ e i h text.
      strncmp-SameText p q n mem bytes e (p + i) (q + i) (omega arith) (omega arith) (omega arith)
        λ x lo hi.
          let x_p : p + (x - p) ≡ x = omega arith in
          subst (λ y. mem y ≢ 0) x_p (text (x - p) (omega arith)),
  λ w. SameText-strncmp p q n mem bytes λ a b lo hi e text.
      let a_p : p + (a - p) ≡ a = omega arith in
      let b_q : q + (a - p) ≡ b = omega arith in
      subst (λ x. mem x ≡ mem b) a_p
        (subst (λ y. mem (p + (a - p)) ≡ mem y) b_q
          (w (a - p) (omega arith) λ j h. text (p + j) (omega arith) (omega arith))),
)
