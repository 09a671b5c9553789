-- ===== src/Print/Numeral.antt =====
-- What `printint` of the kernel and of the user library print, and reading it back by `atoi`.
use os_exp.Base.{
  char_at, ℕ, suc, ◌+◌, ◌-◌, ◌*◌, ◌%◌, ◌^◌, ◌≤◌, ◌<◌, ◌≡◌, refl, ◌∙◌, ◌≢◌, inl, inr, Bool, true,
  false, ◌&&◌, List, [], ◌∷◌, ◌++◌, arith, ltb, leb, if◌then◌else◌, Bool-cases, length, All,
}
use os_exp.Print.{digit_loop, atoi, atoi_loop}
use os_exp.Print.Number.{
  IsBase, IsLetter, digits_bound, digit_value, IsDigit, value_after, value-digit_loop,
  digit_loop-IsDigit, length-digit_loop, leading-digit_loop,
}
use os_exp.Print.Kernel
use os_exp.Print.User

-- `out` is the numeral of `x`, with a minus sign if `neg`, and fits a buffer of 20 bytes.
pub record Numeral (base letter x : ℕ) (neg : Bool) (out : List ℕ) : Type 0 where
  pub numerals : List ℕ
  pub sign : out ≡ (if neg then b'-' ∷ numerals else numerals)
  pub digit_each : All (IsDigit base letter) numerals
  pub read_back : value_after base letter 0 numerals ≡ x
  pub no_zeros : x ≢ 0 → char_at numerals 0 ≢ b'0'
  pub fits : length out ≤ 20

module _ (base letter : ℕ) (b : IsBase base) (l : IsLetter letter) where
  digit_loop-Numeral :
      (n k x : ℕ) (neg : Bool)
      → x < digits_bound n
      → x < digits_bound k
      → (if neg then 1 else 0) + suc k ≤ 20
      → Numeral base letter x neg
          (let buf = digit_loop (suc n) letter x base [] in if neg then b'-' ∷ buf else buf)
  unfolding value_after
  digit_loop-Numeral n k x neg h small room = record {
    numerals = digit_loop (suc n) letter x base [];
    sign = refl;
    digit_each = digit_loop-IsDigit base letter b l (suc n) x [] tt;
    read_back = value-digit_loop base letter b l n x [] h;
    no_zeros = leading-digit_loop base letter b l n x [] h;
    fits =
        let size = length-digit_loop base letter b l (suc n) k x [] small in
        elim (Bool-cases neg) [
          | inl y ↦
              let plus_one : ◌≡◌ {A = ℕ} (if neg then 1 else 0) 1 = rw y refl in
              rw y (omega (arith, size, room, plus_one))
          | inr o ↦
              let no_more : ◌≡◌ {A = ℕ} (if neg then 1 else 0) 0 = rw o refl in
              rw o (omega (arith, size, room, no_more))
        ];
  }

-- The kernel's `printint` in base 10 or 16 prints the numeral of its argument: digits of the base without
-- zeros in front, whose value is that of the number of 64 bits, which is taken as signed if `sign` is set,
-- with a minus sign before them exactly for a negative number; the numeral is no longer than the buffer.
pub printint-Numeral :
    (xx base : ℕ) (sign : Bool)
    → IsBase base
    → xx < 2 ^ 64
    → let neg = sign && leb (2 ^ 63) xx in
      Numeral base b'a' (if neg then 2 ^ 64 - xx else xx) neg (Kernel.printint xx base sign)
unfolding Kernel.printint
printint-Numeral xx base sign b h = elim (Bool-cases (sign && leb (2 ^ 63) xx)) [
  | inl y ↦
      let big : 2 ^ 63 ≤ xx = ground (arith, y) in
      rw y (
        digit_loop-Numeral base b'a' b (inl refl) 63 18 (2 ^ 64 - xx) true (omega arith)
          (omega arith) (omega arith))
  | inr o ↦ rw o (
      digit_loop-Numeral base b'a' b (inl refl) 63 19 xx false (omega arith) (omega arith)
        (omega arith))
]

-- `printint` of the user library prints, in the same way, the numeral of the low 32 bits of the absolute
-- value of its argument.
user_printint-Numeral :
    (xx base : ℕ) (sgn : Bool)
    → IsBase base
    → xx < 2 ^ 64
    → let neg = sgn && leb (2 ^ 63) xx in
      Numeral base b'A'
        (if neg then (2 ^ 64 - xx) % 2 ^ 32 else xx % 2 ^ 32)
        neg
        (User.printint xx base sgn)
unfolding User.printint
user_printint-Numeral xx base sgn b h = elim (Bool-cases (sgn && leb (2 ^ 63) xx)) [
  | inl y ↦ rw y (
      digit_loop-Numeral base b'A' b (inr refl) 31 9 ((2 ^ 64 - xx) % 2 ^ 32) true (omega arith)
        (omega arith) (omega arith))
  | inr o ↦ rw o (
      digit_loop-Numeral base b'A' b (inr refl) 31 9 (xx % 2 ^ 32) false (omega arith) (omega arith)
        (omega arith))
]

value_after-grows : (letter acc : ℕ) (s : List ℕ) → acc ≤ value_after 10 letter acc s
unfolding value_after
value_after-grows letter acc [] = omega arith
value_after-grows letter acc (c ∷ cs) =
    omega (arith, value_after-grows letter (acc * 10 + digit_value letter c) cs)

-- `atoi` reads the digits up to the first other character.
atoi_loop-value :
    (letter acc : ℕ) (s rest : List ℕ)
    → All (IsDigit 10 letter) s
    → value_after 10 letter acc s < 2 ^ 32
    → (leb b'0' (char_at rest 0) && leb (char_at rest 0) b'9') ≡ false
    → atoi_loop acc (s ++ rest) ≡ value_after 10 letter acc s
unfolding atoi_loop value_after
atoi_loop-value letter acc [] [] h small stops = refl
atoi_loop-value letter acc [] (r ∷ rest) h small stops = rw stops refl
atoi_loop-value letter acc (c ∷ cs) rest ((d, less, e), h) small stops =
    let low : ltb d 10 ≡ true = ground arith in
    let is_d : c ≡ b'0' + d = e ∙ rw low refl in
    let is_digit : (leb b'0' c && leb c b'9') ≡ true = ground (arith, is_d) in
    let plain : digit_value letter c ≡ c - b'0' = ground (arith, is_d) in
    let step = value_after-grows letter (acc * 10 + digit_value letter c) cs in
    let no_wrap : (acc * 10 + (c - b'0')) % 2 ^ 32 ≡ acc * 10 + digit_value letter c =
      omega (arith, plain, step, small) in
    rw (is_digit, no_wrap)
      (atoi_loop-value letter (acc * 10 + digit_value letter c) cs rest h small stops)

-- `atoi` reads back what `printint` of the user library prints of an `int` that is not negative, whatever
-- follows it that is not a digit.
pub atoi-printint :
    (x : ℕ) (rest : List ℕ)
    → x < 2 ^ 31
    → (leb b'0' (char_at rest 0) && leb (char_at rest 0) b'9') ≡ false
    → atoi (User.printint x 10 true ++ rest) ≡ x
unfolding atoi
atoi-printint x rest h stops =
    let not_neg : leb (2 ^ 63) x ≡ false = ground arith in
    let num = user_printint-Numeral x 10 true (inl refl) (omega arith) in
    let printed : User.printint x 10 true ≡ num.numerals = num.sign ∙ rw not_neg refl in
    let low : x % 2 ^ 32 ≡ x = omega arith in
    let reads : value_after 10 b'A' 0 num.numerals ≡ x = num.read_back ∙ rw not_neg low in
    rw printed
      (atoi_loop-value b'A' 0 num.numerals rest num.digit_each (omega (arith, reads)) stops ∙ reads)
