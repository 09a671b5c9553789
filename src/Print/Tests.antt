-- ===== src/Print/Tests.antt =====
-- The format `n=%lx %s%!` and some numbers.
use os_exp.Base.{ℕ, ◌+◌, ◌-◌, ◌^◌, ◌≡◌, refl, inl, true, List, [], ◌∷◌, ◌++◌, arith, All}
use os_exp.Print.{atoi, digit_loop}
use os_exp.Print.Kernel
use os_exp.Print.User
use os_exp.Print.Number.{IsBase}
use os_exp.Print.Pieces.{
  Piece, plain, number, text, other, long, hexadecimal, IsPiece, format, all_rendered, spelled,
  number_spelled, letter_of,
}
use os_exp.Print.Formatted.{kernel_printer, user_printer, printf-vprintf}
use os_exp.Print.Numeral.{Numeral, printint-Numeral, atoi-printint}

abbrev sample : List Piece
sample = plain b'n' ∷ plain b'=' ∷ number long hexadecimal ∷ text ∷ other b'!' ∷ []

abbrev sample_args : ℕ → ℕ
sample_args i = 2 ^ 36 + 10 + i

abbrev sample_strings : ℕ → List ℕ
sample_strings a = b'o' ∷ b'k' ∷ []

sample-IsPiece : All IsPiece sample
sample-IsPiece = (
  refl,
  (
    refl,
    (tt, (tt, ((refl, (refl, (refl, (refl, (refl, (refl, (refl, (refl, (refl, tt))))))))), tt))),
  ),
)

-- The user library loses the high half of the number.
printed_by_kernel :
    Kernel.printf sample_strings sample_args (format sample)
    ≡ b'n' ∷ b'=' ∷ b'1' ∷ b'0' ∷ b'0' ∷ b'0' ∷ b'0' ∷ b'0' ∷ b'0' ∷ b'0' ∷ b'0' ∷ b'a' ∷ b'o'
      ∷ b'k' ∷ b'%' ∷ b'!' ∷ []
unfolding Kernel.printf Kernel.printf_loop Kernel.directive Kernel.printint digit_loop format
    spelled number_spelled letter_of
printed_by_kernel = refl

printed_by_user :
    User.vprintf sample_strings sample_args (format sample)
    ≡ b'n' ∷ b'=' ∷ b'A' ∷ b'o' ∷ b'k' ∷ b'%' ∷ b'!' ∷ []
unfolding User.vprintf User.vprintf_loop User.directive User.printint digit_loop format spelled
    number_spelled letter_of
printed_by_user = refl

printf-vprintf_example :
    (Kernel.printf sample_strings sample_args (format sample)
      ≡ all_rendered kernel_printer sample_strings sample_args sample 0)
    × (User.vprintf sample_strings sample_args (format sample)
        ≡ all_rendered user_printer sample_strings sample_args sample 0)
printf-vprintf_example = printf-vprintf sample_strings sample_args sample sample-IsPiece

ten-IsBase : IsBase 10
ten-IsBase = inl refl

-- -5
printint-Numeral_example : Numeral 10 b'a' 5 true (Kernel.printint (2 ^ 64 - 5) 10 true)
printint-Numeral_example = printint-Numeral (2 ^ 64 - 5) 10 true ten-IsBase (omega arith)

atoi-printint_example : atoi (User.printint 205 10 true ++ b' ' ∷ []) ≡ 205
atoi-printint_example = atoi-printint 205 (b' ' ∷ []) (omega arith) refl
