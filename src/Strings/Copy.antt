-- ===== src/Strings/Copy.antt =====
-- `strncpy` and `safestrcpy` between ranges that do not overlap.
use os_exp.Base.{
  ℕ, zero, suc, ◌+◌, ◌<◌, ◌≤◌, ◌≡◌, ◌≢◌, ◌⊎◌, inl, inr, refl, sym, ap, ◌∙◌, subst, not, arith, ◌==◌,
  update, update_self, update_ne, Bool-cases,
}
use os_exp.Strings.{Memory, pad, strncpy}

abbrev pub Apart : (s t n : ℕ) → Type 0
Apart s t n = (s + n ≤ t) ⊎ (t + n ≤ s)

-- No byte from `t` to before `b` ends the string.
abbrev pub IsText : (t b : ℕ) → Memory → Type 0
IsText t b mem = (x : ℕ) → t ≤ x → x < b → mem x ≢ 0

-- `n` bytes at `s` hold the string at `t`, filled up with zeros; `a` and `b` belong together.
pub record Copied (s t n : ℕ) (old new : Memory) : Type 0 where
  pub text : (a b : ℕ) → s ≤ a → a < s + n → a + t ≡ b + s → IsText t b old → new a ≡ old b
  pub filled :
      (a b x : ℕ) → s ≤ a → a < s + n → a + t ≡ b + s → t ≤ x → x < b → old x ≡ 0 → new a ≡ 0
  pub kept : (a : ℕ) → (a < s) ⊎ (s + n ≤ a) → new a ≡ old a

pad-kept : (s n : ℕ) (mem : Memory) (a : ℕ) → (a < s) ⊎ (s + n ≤ a) → pad s n mem a ≡ mem a
unfolding pad
pad-kept s zero mem a h = refl
pad-kept s (suc n) mem a h =
    pad-kept (s + 1) n _ a (ground arith) ∙ update_ne mem s 0 a (ground arith)

pad-zero : (s n : ℕ) (mem : Memory) (a : ℕ) → s ≤ a → a < s + n → pad s n mem a ≡ 0
unfolding pad
pad-zero s zero mem a lo hi = absurd (omega arith)
pad-zero s (suc n) mem a lo hi = elim (Bool-cases (a == s)) [
  | inl y ↦
      let a_s : a ≡ s = ground arith in
      pad-kept (s + 1) n (update mem s 0) a (ground arith)
      ∙ subst (λ x. update mem s 0 x ≡ 0) (sym a_s) (update_self mem s 0)
  | inr m ↦ pad-zero (s + 1) n (update mem s 0) a (ground arith) (omega arith)
]

pub first-same : (mem : Memory) (s v a : ℕ) → a ≡ s → update mem s v a ≡ v
first-same mem s v a e = subst (λ x. update mem s v x ≡ v) (sym e) (update_self mem s v)

-- Where the ranges do not overlap, `strncpy` puts the string at `t` into the `n` bytes at `s`, cut off
-- there if it is longer and filled up with zeros if it is shorter, and changes no other memory.
pub strncpy-Copied : (s t n : ℕ) (mem : Memory) → Apart s t n → Copied s t n mem (strncpy s t n mem)
unfolding strncpy
strncpy-Copied s t zero mem far = record {
  text = λ a b lo hi. absurd (omega arith);
  filled = λ a b x lo hi. absurd (omega arith);
  kept = λ a h. refl;
}
strncpy-Copied s t (suc n) mem far =
    let mem' = update mem s (mem t) in
    let read =
      λ (x : ℕ) (lo : t ≤ x) (hi : x < t + suc n). update_ne mem s (mem t) x (ground arith) in
    elim (Bool-cases (not (mem t == 0))) [
      | inl y ↦
          let w = strncpy-Copied (s + 1) (t + 1) n mem' (ground arith) in
          rw y (record {
            text = λ a b lo hi e no_. elim (Bool-cases (a == s)) [
              | inl z ↦
                  let b_t : t ≡ b = ground arith in
                  w.kept a (ground arith) ∙ first-same mem s (mem t) a (ground arith) ∙ ap mem b_t
              | inr m ↦
                  w.text a b (ground arith) (omega arith) (omega arith) (λ x lo' hi' z.
                    no_ x (omega arith) hi' (sym (read x (omega arith) (ground arith)) ∙ z))
                  ∙ read b (ground arith) (omega arith)
            ];
            filled = λ a b x lo hi e lo' hi' z. elim (Bool-cases (x == t)) [
              | inl u ↦ let x_t : x ≡ t = ground arith in ground (arith, ap mem x_t)
              | inr m ↦
                  w.filled a b x (omega arith) (omega arith) (omega arith) (ground arith) hi'
                    (read x lo' (omega arith) ∙ z)
            ];
            kept = λ a h. w.kept a (ground arith) ∙ update_ne mem s (mem t) a (ground arith);
          })
      | inr z0 ↦
          let ends : mem t ≡ 0 = ground arith in
          rw z0 (record {
            text = λ a b lo hi e no_. elim (Bool-cases (a == s)) [
              | inl z ↦
                  let b_t : t ≡ b = ground arith in
                  pad-kept (s + 1) n mem' a (ground arith)
                  ∙ first-same mem s (mem t) a (ground arith)
                  ∙ ap mem b_t
              | inr m ↦ absurd (no_ t (omega arith) (ground arith) ends)
            ];
            filled =
                λ a b x lo hi e lo' hi' z. pad-zero (s + 1) n mem' a (omega arith) (omega arith);
            kept = λ a h.
                pad-kept (s + 1) n mem' a (ground arith) ∙ update_ne mem s (mem t) a (ground arith);
          })
    ]
