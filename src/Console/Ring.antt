-- ===== src/Console/Ring.antt =====
-- The characters in the ring as a list, and what the steps on the indices do to it.
use os_exp.Base.{
  ℕ, zero, suc, ◌+◌, ◌%◌, ◌^◌, ◌≤◌, ◌<◌, ◌≡◌, refl, ap, ◌≢◌, false, List, [], ◌∷◌, ◌++◌, arith,
  ◌==◌, length, take, update, update_self,
}
use mathlib.Core.Path.{ap₂}
use os_exp.Base.Word.{u32, diff32}
use os_exp.Console.{Cons, input_buf_size}

-- The `n` characters from index `r` on.
unfoldable pub window : (ℕ → ℕ) → (r n : ℕ) → List ℕ
window buf r zero = []
window buf r (suc n) = buf (r % input_buf_size) ∷ window buf (u32 (r + 1)) n

-- What has been typed and not read, the oldest first, and how much of it is ready to be read.
abbrev pub typed : Cons → List ℕ
typed s = window s.buf s.r (diff32 s.e s.r)

abbrev pub ready : Cons → ℕ
ready s = diff32 s.w s.r

-- A line that has not arrived has no newline in it.
pub record IsCons (s : Cons) : Type 0 where
  pub words : (s.r < 2 ^ 32) × (s.w < 2 ^ 32) × (s.e < 2 ^ 32)
  pub in_order : ready s ≤ diff32 s.e s.r
  pub fits : diff32 s.e s.r ≤ input_buf_size
  pub one_line : (i : ℕ) → i < diff32 s.e s.w → s.buf (u32 (s.w + i) % input_buf_size) ≢ 10

pub length-window : (buf : ℕ → ℕ) (r n : ℕ) → length (window buf r n) ≡ n
unfolding window
length-window buf r zero = refl
length-window buf r (suc n) = ap suc (length-window buf (u32 (r + 1)) n)

-- A character written just past a window extends it.
pub window-update :
    (buf : ℕ → ℕ) (c n r i : ℕ)
    → n < input_buf_size
    → i ≡ (r + n) % input_buf_size
    → window (update buf i c) r (suc n) ≡ window buf r n ++ (c ∷ [])
unfolding window
window-update buf c zero r i h e =
    let e' : i ≡ r % input_buf_size = omega arith in
    rw (← e') (ap (λ c. c ∷ []) (update_self buf i c))
window-update buf c (suc n) r i h e =
    let ne : r % input_buf_size ≢ i = omega arith in
    let apart : (r % input_buf_size == i) ≡ false = ground arith in
    ap₂ ◌∷◌ (rw apart refl) (window-update buf c n (u32 (r + 1)) i (omega arith) (omega arith))

-- A shorter window is the first part of a longer one.
pub take-window : (buf : ℕ → ℕ) (r k n : ℕ) → k ≤ n → take k (window buf r n) ≡ window buf r k
unfolding window
take-window buf r zero n h = refl
take-window buf r (suc k) zero h = absurd (omega arith)
take-window buf r (suc k) (suc n) h =
    ap (λ s. buf (r % input_buf_size) ∷ s) (take-window buf (u32 (r + 1)) k n (omega arith))
