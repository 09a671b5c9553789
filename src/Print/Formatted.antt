-- ===== src/Print/Formatted.antt =====
-- `printf` of the kernel and `vprintf` print a format piece by piece.
use os_exp.Base.{ap, ℕ, ◌%◌, ◌^◌, ◌≡◌, refl, ◌∙◌, List, [], ◌∷◌, ◌++◌, All}
use os_exp.Print.Pieces.{
  int, long, long_long, signed, unsigned, hexadecimal, Piece, plain, number, pointer, character,
  text, percent, other, spelled, format, IsPiece, Printer, arg_after, rendered, all_rendered,
}
use os_exp.Print.Kernel
use os_exp.Print.User

abbrev pub kernel_printer : Printer
kernel_printer = record {
  number_out = Kernel.printint;
  pointer_out = Kernel.printptr;
  char_out = λ w. w % 2 ^ 32;
}

abbrev pub user_printer : Printer
user_printer = record {
  number_out = User.printint;
  pointer_out = User.printptr;
  char_out = λ w. w % 2 ^ 8;
}

module _ (string_at : ℕ → List ℕ) (args : ℕ → ℕ) where
  printf_loop-piece :
      (p : Piece) (rest : List ℕ) (next : ℕ)
      → IsPiece p
      → Kernel.printf_loop string_at args 0 (spelled p ++ rest) next
        ≡ rendered kernel_printer string_at p (args next)
          ++ Kernel.printf_loop string_at args 0 rest (arg_after p next)
  unfolding Kernel.printf_loop Kernel.directive spelled
  printf_loop-piece (plain c) rest next h = rw h refl
  printf_loop-piece (number int signed) rest next h = refl
  printf_loop-piece (number int unsigned) rest next h = refl
  printf_loop-piece (number int hexadecimal) rest next h = refl
  printf_loop-piece (number long signed) rest next h = refl
  printf_loop-piece (number long unsigned) rest next h = refl
  printf_loop-piece (number long hexadecimal) rest next h = refl
  printf_loop-piece (number long_long signed) rest next h = refl
  printf_loop-piece (number long_long unsigned) rest next h = refl
  printf_loop-piece (number long_long hexadecimal) rest next h = refl
  printf_loop-piece pointer rest next h = refl
  printf_loop-piece character rest next h = refl
  printf_loop-piece text rest next h = refl
  printf_loop-piece percent rest next h = refl
  printf_loop-piece (other c) rest next (d, (l, (u, (x, (p, (k, (s, (m, (z, e))))))))) =
      rw (d, l, u, x, p, k, s, m, z) refl

  vprintf_loop-piece :
      (p : Piece) (rest : List ℕ) (next : ℕ)
      → IsPiece p
      → User.vprintf_loop string_at args 0 0 (spelled p ++ rest) next
        ≡ rendered user_printer string_at p (args next)
          ++ User.vprintf_loop string_at args 0 0 rest (arg_after p next)
  unfolding User.vprintf_loop User.directive spelled
  vprintf_loop-piece (plain c) rest next h = rw h refl
  vprintf_loop-piece (number int signed) rest next h = refl
  vprintf_loop-piece (number int unsigned) rest next h = refl
  vprintf_loop-piece (number int hexadecimal) rest next h = refl
  vprintf_loop-piece (number long signed) rest next h = refl
  vprintf_loop-piece (number long unsigned) rest next h = refl
  vprintf_loop-piece (number long hexadecimal) rest next h = refl
  vprintf_loop-piece (number long_long signed) rest next h = refl
  vprintf_loop-piece (number long_long unsigned) rest next h = refl
  vprintf_loop-piece (number long_long hexadecimal) rest next h = refl
  vprintf_loop-piece pointer rest next h = refl
  vprintf_loop-piece character rest next h = refl
  vprintf_loop-piece text rest next h = refl
  vprintf_loop-piece percent rest next h = refl
  vprintf_loop-piece (other c) rest next (d, (l, (u, (x, (p, (k, (s, (m, (z, e))))))))) =
      rw (d, l, u, x, p, k, s, m) refl

  printf_loop-format :
      (ps : List Piece) (next : ℕ)
      → All IsPiece ps
      → Kernel.printf_loop string_at args 0 (format ps) next
        ≡ all_rendered kernel_printer string_at args ps next
  unfolding format all_rendered Kernel.printf_loop
  printf_loop-format [] next h = refl
  printf_loop-format (p ∷ ps) next (h, hs) =
      printf_loop-piece p (format ps) next h
      ∙ ap (λ r. rendered kernel_printer string_at p (args next) ++ r)
          (printf_loop-format ps (arg_after p next) hs)

  vprintf_loop-format :
      (ps : List Piece) (next : ℕ)
      → All IsPiece ps
      → User.vprintf_loop string_at args 0 0 (format ps) next
        ≡ all_rendered user_printer string_at args ps next
  unfolding format all_rendered User.vprintf_loop
  vprintf_loop-format [] next h = refl
  vprintf_loop-format (p ∷ ps) next (h, hs) =
      vprintf_loop-piece p (format ps) next h
      ∙ ap (λ r. rendered user_printer string_at p (args next) ++ r)
          (vprintf_loop-format ps (arg_after p next) hs)

  -- The kernel's `printf`, on a format of well-formed pieces, prints the pieces one after the other, each
  -- with its own argument, its numbers by `printint` and its pointers by `printptr`.
  printf-Pieces :
      (ps : List Piece)
      → All IsPiece ps
      → Kernel.printf string_at args (format ps) ≡ all_rendered kernel_printer string_at args ps 0
  unfolding Kernel.printf
  printf-Pieces ps h = printf_loop-format ps 0 h

  -- `vprintf` prints the same pieces in the same order with the same arguments, with its own `printint` and
  -- `printptr`.
  vprintf-Pieces :
      (ps : List Piece)
      → All IsPiece ps
      → User.vprintf string_at args (format ps) ≡ all_rendered user_printer string_at args ps 0
  unfolding User.vprintf
  vprintf-Pieces ps h = vprintf_loop-format ps 0 h

  -- On a format of well-formed pieces the kernel's `printf` and the user library's `vprintf` print the same
  -- pieces in the same order, each with the same argument; they differ only in the `printint` and
  -- `printptr` that they call and in how far a character is cut.
  pub printf-vprintf :
      (ps : List Piece)
      → All IsPiece ps
      → (Kernel.printf string_at args (format ps) ≡ all_rendered kernel_printer string_at args ps 0)
        × (User.vprintf string_at args (format ps) ≡ all_rendered user_printer string_at args ps 0)
  printf-vprintf ps h = (printf-Pieces ps h, vprintf-Pieces ps h)
