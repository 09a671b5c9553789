-- ===== src/Print/Number.antt =====
-- The digits that `printint` prints and their value.
use os_exp.Base.{
  char_at, ℕ, zero, suc, ◌+◌, ◌-◌, ◌*◌, ◌/◌, ◌%◌, ◌≤◌, ◌<◌, ◌≡◌, refl, sym, ap, ◌∙◌, subst, ◌≢◌,
  ◌⊎◌, inl, inr, true, List, [], ◌∷◌, arith, leb, ◌==◌, if◌then◌else◌, Bool-cases, length, All,
}
use os_exp.Print.{digit, digit_loop}

abbrev pub IsBase : ℕ → Type 0
IsBase base = (base ≡ 10) ⊎ (base ≡ 16)

abbrev pub IsLetter : ℕ → Type 0
IsLetter letter = (letter ≡ b'a') ⊎ (letter ≡ b'A')

-- The number that a character stands for.
abbrev pub digit_value : (letter c : ℕ) → ℕ
digit_value letter c = if leb c b'9' then c - b'0' else c - letter + 10

-- The value of a numeral after digits of the value `acc`.
unfoldable pub value_after : (base letter acc : ℕ) → List ℕ → ℕ
value_after base letter acc [] = acc
value_after base letter acc (c ∷ cs) =
    value_after base letter (acc * base + digit_value letter c) cs

-- The numbers of at most `n + 1` digits.
abbrev pub digits_bound : ℕ → ℕ
digits_bound zero = 10
digits_bound (suc n) = 10 * digits_bound n

-- The quotient is smaller.
div-less : (base x m : ℕ) → IsBase base → x < 10 * m → x / base < m
div-less base x m (inl e) h = rw e (omega arith)
div-less base x m (inr e) h = rw e (omega arith)

div-mod : (base x : ℕ) → IsBase base → x / base * base + x % base ≡ x
div-mod base x (inl e) = rw e (omega arith)
div-mod base x (inr e) = rw e (omega arith)

digit_value-digit :
    (base letter x : ℕ)
    → IsBase base
    → IsLetter letter
    → digit_value letter (digit letter (x % base)) ≡ x % base
digit_value-digit base letter x b l =
    let small : x % base < 16 = elim b [
      | inl e ↦ rw e (omega arith)
      | inr e ↦ rw e (omega arith)
    ] in
    elim l [ inl e ↦ rw e (ground (arith, small)) | inr e ↦ rw e (ground (arith, small)) ]

abbrev pub IsDigit : (base letter : ℕ) → ℕ → Type 0
IsDigit base letter c = (d : ℕ) × (d < base) × (c ≡ digit letter d)

module _ (base letter : ℕ) (b : IsBase base) (l : IsLetter letter) where
  quotient : (x : ℕ) → x < 10 → x / base ≡ 0
  quotient x h = omega (arith, div-less base x 1 b h)

  step-value :
      (x : ℕ) (buf : List ℕ)
      → value_after base letter (x / base * base + digit_value letter (digit letter (x % base))) buf
        ≡ value_after base letter x buf
  step-value x buf =
      ap (λ v. value_after base letter v buf)
        (ap (λ d. x / base * base + d) (digit_value-digit base letter x b l) ∙ div-mod base x b)

  last-value :
      (x : ℕ) (buf : List ℕ)
      → x / base ≡ 0
      → value_after base letter 0 (digit letter (x % base) ∷ buf) ≡ value_after base letter x buf
  unfolding value_after
  last-value x buf q =
      ap
        (λ v. value_after base letter (v * base + digit_value letter (digit letter (x % base))) buf)
        (sym q)
      ∙ step-value x buf

  -- The value of what the loop prints for a number of at most `n + 1` digits.
  pub value-digit_loop :
      (n x : ℕ) (buf : List ℕ)
      → x < digits_bound n
      → value_after base letter 0 (digit_loop (suc n) letter x base buf)
        ≡ value_after base letter x buf
  unfolding digit_loop value_after
  value-digit_loop zero x buf h =
      let q : x / base ≡ 0 = quotient x h in
      let at_end : (x / base == 0) ≡ true = ground (arith, q) in rw at_end (last-value x buf q)
  value-digit_loop (suc n) x buf h = elim (Bool-cases (x / base == 0)) [
    | inl y ↦ let q : x / base ≡ 0 = ground (arith, y) in rw y (last-value x buf q)
    | inr o ↦
        let rest =
          value-digit_loop n (x / base) (digit letter (x % base) ∷ buf)
            (div-less base x (digits_bound n) b h) in
        rw o (rest ∙ step-value x buf)
  ]

  leading : (x : ℕ) → x / base ≡ 0 → x ≢ 0 → digit letter (x % base) ≢ b'0'
  leading x q some_x zero_digit =
      let all : 0 * base + x % base ≡ x =
        ap (λ v. v * base + x % base) (sym q) ∙ div-mod base x b in
      let none_left : x % base ≡ 0 = elim l [
        | inl e ↦ ground (arith, subst (λ v. digit v (x % base) ≡ b'0') e zero_digit)
        | inr e ↦ ground (arith, subst (λ v. digit v (x % base) ≡ b'0') e zero_digit)
      ] in
      some_x (omega (arith, all, none_left))

  last-IsDigit : (x : ℕ) → IsDigit base letter (digit letter (x % base))
  last-IsDigit x =
      let below : x % base < base = elim b [
        | inl e ↦ rw e (omega arith)
        | inr e ↦ rw e (omega arith)
      ] in
      (x % base, below, refl)

  pub digit_loop-IsDigit :
      (n x : ℕ) (buf : List ℕ)
      → All (IsDigit base letter) buf
      → All (IsDigit base letter) (digit_loop n letter x base buf)
  unfolding digit_loop
  digit_loop-IsDigit zero x buf h = h
  digit_loop-IsDigit (suc n) x buf h = elim (Bool-cases (x / base == 0)) [
    | inl y ↦ rw y (last-IsDigit x, h)
    | inr o ↦
        rw o (digit_loop-IsDigit n (x / base) (digit letter (x % base) ∷ buf) (last-IsDigit x, h))
  ]

  pub length-digit_loop :
      (n k x : ℕ) (buf : List ℕ)
      → x < digits_bound k
      → length (digit_loop n letter x base buf) ≤ length buf + suc k
  unfolding digit_loop
  length-digit_loop zero k x buf h = omega arith
  length-digit_loop (suc n) zero x buf h =
      let q : x / base ≡ 0 = quotient x h in
      let at_end : (x / base == 0) ≡ true = ground (arith, q) in rw at_end (omega arith)
  length-digit_loop (suc n) (suc k) x buf h = elim (Bool-cases (x / base == 0)) [
    | inl y ↦ rw y (omega arith)
    | inr o ↦ rw o (
        omega (
          arith,
          length-digit_loop n k (x / base) (digit letter (x % base) ∷ buf)
              (div-less base x (digits_bound k) b h),
        ))
  ]

  -- No zero stands in front.
  pub leading-digit_loop :
      (n x : ℕ) (buf : List ℕ)
      → x < digits_bound n
      → x ≢ 0
      → char_at (digit_loop (suc n) letter x base buf) 0 ≢ b'0'
  unfolding digit_loop
  leading-digit_loop zero x buf h some_x =
      let q : x / base ≡ 0 = quotient x h in
      let at_end : (x / base == 0) ≡ true = ground (arith, q) in rw at_end (leading x q some_x)
  leading-digit_loop (suc n) x buf h some_x = elim (Bool-cases (x / base == 0)) [
    | inl y ↦ let q : x / base ≡ 0 = ground (arith, y) in rw y (leading x q some_x)
    | inr o ↦ rw o (
        leading-digit_loop n (x / base) (digit letter (x % base) ∷ buf)
          (div-less base x (digits_bound n) b h) (λ z. ground (arith, o, z)))
  ]
