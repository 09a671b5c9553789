-- ===== src/Print/Pieces.antt =====
-- What a format says: its pieces, how they are spelled, and what stands for them in the output.
use os_exp.Base.{
  ℕ, ◌+◌, ◌%◌, ◌^◌, ◌≡◌, Bool, true, false, List, [], ◌∷◌, ◌++◌, ◌==◌, if◌then◌else◌, All,
}
use os_exp.Print.{sign_extended, null_text}

pub data Size : Type 0 where
  int : Size
  long : Size
  long_long : Size

pub data Style : Type 0 where
  signed : Style
  unsigned : Style
  hexadecimal : Style

pub data Piece : Type 0 where
  plain : (c : ℕ) → Piece
  number : (size : Size) (style : Style) → Piece
  pointer : Piece
  character : Piece
  text : Piece
  percent : Piece
  -- a `%` with a character that means nothing
  other : (c : ℕ) → Piece

unfoldable pub letter_of : Style → ℕ
letter_of signed = b'd'
letter_of unsigned = b'u'
letter_of hexadecimal = b'x'

unfoldable pub number_spelled : Size → ℕ → List ℕ
number_spelled int c = c ∷ []
number_spelled long c = b'l' ∷ c ∷ []
number_spelled long_long c = b'l' ∷ b'l' ∷ c ∷ []

unfoldable pub spelled : Piece → List ℕ
unfolding letter_of number_spelled
spelled (plain c) = c ∷ []
spelled (number size style) = b'%' ∷ number_spelled size (letter_of style)
spelled pointer = b'%' ∷ b'p' ∷ []
spelled character = b'%' ∷ b'c' ∷ []
spelled text = b'%' ∷ b's' ∷ []
spelled percent = b'%' ∷ b'%' ∷ []
spelled (other c) = b'%' ∷ c ∷ []

unfoldable pub format : List Piece → List ℕ
unfolding spelled
format [] = []
format (p ∷ ps) = spelled p ++ format ps

abbrev known : List ℕ
known = b'd' ∷ b'l' ∷ b'u' ∷ b'x' ∷ b'p' ∷ b'c' ∷ b's' ∷ b'%' ∷ 0 ∷ []

abbrev pub IsPiece : Piece → Type 0
IsPiece (plain c) = (c == b'%') ≡ false
IsPiece (number size style) = Unit
IsPiece pointer = Unit
IsPiece character = Unit
IsPiece text = Unit
IsPiece percent = Unit
IsPiece (other c) = All (λ k. (c == k) ≡ false) known

-- The value that a conversion takes from an argument word.
abbrev pub value : Size → Style → ℕ → ℕ
value int signed w = sign_extended w
value int unsigned w = w % 2 ^ 32
value int hexadecimal w = w % 2 ^ 32
value long style w = w
value long_long style w = w

abbrev pub base_of : Style → ℕ
base_of signed = 10
base_of unsigned = 10
base_of hexadecimal = 16

abbrev pub is_signed : Style → Bool
is_signed signed = true
is_signed unsigned = false
is_signed hexadecimal = false

-- How numbers, pointers and characters are printed.
pub record Printer : Type 0 where
  pub number_out : (xx base : ℕ) → Bool → List ℕ
  pub pointer_out : ℕ → List ℕ
  pub char_out : ℕ → ℕ

-- The number of the argument after the piece.
abbrev pub arg_after : Piece → ℕ → ℕ
arg_after (plain c) next = next
arg_after (number size style) next = next + 1
arg_after pointer next = next + 1
arg_after character next = next + 1
arg_after text next = next + 1
arg_after percent next = next
arg_after (other c) next = next

module _ (printer : Printer) (string_at : ℕ → List ℕ) where
  abbrev pub rendered : Piece → ℕ → List ℕ
  rendered (plain c) w = c ∷ []
  rendered (number size style) w =
      printer.number_out (value size style w) (base_of style) (is_signed style)
  rendered pointer w = printer.pointer_out w
  rendered character w = printer.char_out w ∷ []
  rendered text w = if w == 0 then null_text else string_at w
  rendered percent w = b'%' ∷ []
  rendered (other c) w = b'%' ∷ c ∷ []

  -- The pieces one after the other, each with its own argument.
  unfoldable pub all_rendered : (args : ℕ → ℕ) → List Piece → (next : ℕ) → List ℕ
  all_rendered args [] next = []
  all_rendered args (p ∷ ps) next =
      rendered p (args next) ++ all_rendered args ps (arg_after p next)
