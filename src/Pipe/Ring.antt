-- ===== src/Pipe/Ring.antt =====
-- A pipe's ring of bytes as a queue of at most `pipesize` bytes, with 32-bit counters that wrap.
use os_exp.Base.{
  ℕ, zero, suc, ◌+◌, ◌-◌, ◌%◌, ◌≤◌, ◌<◌, ◌≡◌, ◌≢◌, ◌↔◌, refl, ◌∙◌, sym, ap, true, false, List, [],
  ◌∷◌, ◌++◌, arith, ◌==◌, update, update_self, ==_iff, length,
}
use mathlib.Core.Path.{ap₂}
use os_exp.Base.Word.{u32, u32_mod, diff32}
use os_exp.Pipe.{Pipe, pipesize, full, empty, put, next_byte, advance}

-- The `n` bytes from index `r` on.
abbrev pub window : (ℕ → ℕ) → ℕ → ℕ → List ℕ
window bytes r zero = []
window bytes r (suc n) = bytes (r % pipesize) ∷ window bytes (u32 (r + 1)) n

abbrev pub used : Pipe → ℕ
used pi = diff32 pi.nwrite pi.nread

-- The bytes in the pipe, the oldest first.
abbrev pub contents : Pipe → List ℕ
contents pi = window pi.bytes pi.nread (used pi)

pub record IsValid (pi : Pipe) : Type 0 where
  pub read_word : pi.nread < u32_mod
  pub write_word : pi.nwrite < u32_mod
  pub fits : used pi ≤ pipesize

length-window : (bytes : ℕ → ℕ) (r n : ℕ) → length (window bytes r n) ≡ n
length-window bytes r zero = refl
length-window bytes r (suc n) = ap suc (length-window bytes (u32 (r + 1)) n)

pub length-contents : (pi : Pipe) → length (contents pi) ≡ used pi
length-contents pi = length-window pi.bytes pi.nread (used pi)

window_cons :
    (bytes : ℕ → ℕ) (r n : ℕ)
    → 0 < n
    → window bytes r n ≡ bytes (r % pipesize) ∷ window bytes (u32 (r + 1)) (n - 1)
window_cons bytes r zero h = absurd (omega arith)
window_cons bytes r (suc n) h = ap (λ k. window bytes r (suc k)) (omega arith)

-- A byte written just past a window extends it.
window-update :
    (bytes : ℕ → ℕ) (x n r i : ℕ)
    → n < pipesize
    → i ≡ (r + n) % pipesize
    → window (update bytes i x) r (suc n) ≡ window bytes r n ++ (x ∷ [])
window-update bytes x zero r i h e =
    let e' : i ≡ r % pipesize = omega arith in rw (← e') (ap (λ c. c ∷ []) (update_self bytes i x))
window-update bytes x (suc n) r i h e =
    ap₂ ◌∷◌ kept (window-update bytes x n (u32 (r + 1)) i (omega arith) (omega arith))
  where
    apart : (r % pipesize == i) ≡ false
    apart = let ne : r % pipesize ≢ i = omega arith in ground arith

    kept : update bytes i x (r % pipesize) ≡ bytes (r % pipesize)
    kept = rw apart

used_full :
    {pi : Pipe} → IsValid pi → (pi.nwrite ≡ u32 (pi.nread + pipesize)) ↔ (used pi ≡ pipesize)
used_full v = ((λ e. omega arith), λ e. omega arith)

used_empty : {pi : Pipe} → IsValid pi → (pi.nread ≡ pi.nwrite) ↔ (used pi ≡ 0)
used_empty v = ((λ e. omega arith), λ e. omega arith)

-- The test `nwrite == nread + PIPESIZE` holds exactly when `pipesize` bytes are in the pipe.
pub full_iff : {pi : Pipe} → IsValid pi → (full pi ≡ true) ↔ (length (contents pi) ≡ pipesize)
full_iff {pi} v =
    rw (length-contents pi)
      ((λ h. (used_full v).0 ((==_iff _ _).0 h)), λ h. (==_iff _ _).1 ((used_full v).1 h))

-- The test `nread == nwrite` holds exactly when no byte is in the pipe.
pub empty_iff : {pi : Pipe} → IsValid pi → (empty pi ≡ true) ↔ (contents pi ≡ [])
empty_iff {pi} v = (
  (λ h.
      let none_ : used pi ≡ 0 = (used_empty v).0 ((==_iff _ _).0 h) in
      ap (window pi.bytes pi.nread) none_),
  λ h. (==_iff _ _).1 ((used_empty v).1 (sym (length-contents pi) ∙ ap (length {A = ℕ}) h)),
)

module _ {pi : Pipe} (v : IsValid pi) where
  room_left : full pi ≡ false → used pi < pipesize
  room_left room =
      let ne : used pi ≢ pipesize = λ e. ground (arith, (==_iff _ _).1 ((used_full v).1 e)) in
      omega (arith, v.fits)

  some_left : empty pi ≡ false → 0 < used pi
  some_left some_ =
      let ne : used pi ≢ 0 = λ e. ground (arith, (==_iff _ _).1 ((used_empty v).1 e)) in omega arith

  used-put : (ch : ℕ) → used pi < pipesize → used (put pi ch) ≡ suc (used pi)
  used-put ch h = omega arith

  used-advance : 0 < used pi → used (advance pi) ≡ used pi - 1
  used-advance h = omega arith

  pub put-contents :
      (ch : ℕ)
      → full pi ≡ false
      → IsValid (put pi ch) × (contents (put pi ch) ≡ contents pi ++ (ch ∷ []))
  put-contents ch room =
      let h = room_left room in
      let e = used-put ch h in
      (
        record { read_word = v.read_word; write_word = omega arith; fits = omega (arith, e) },
        ap (window (put pi ch).bytes pi.nread) e
            ∙ window-update pi.bytes ch (used pi) pi.nread (pi.nwrite % pipesize) h (omega arith),
      )

  pub advance-contents :
      empty pi ≡ false → IsValid (advance pi) × (contents pi ≡ next_byte pi ∷ contents (advance pi))
  advance-contents some_ =
      let h = some_left some_ in
      let e = used-advance h in
      (
        record {
          read_word = omega arith;
          write_word = v.write_word;
          fits = omega (arith, e, v.fits);
        },
        window_cons pi.bytes pi.nread (used pi) h
            ∙ ap (λ n. next_byte pi ∷ window pi.bytes (u32 (pi.nread + 1)) n) (sym e),
      )
