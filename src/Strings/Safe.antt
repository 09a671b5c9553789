-- ===== src/Strings/Safe.antt =====
-- `safestrcpy` between ranges that do not overlap.
use os_exp.Base.{
  ℕ, zero, suc, ◌+◌, ◌<◌, ◌≤◌, ◌≡◌, ◌⊎◌, inl, inr, sym, ap, ◌∙◌, false, not, arith, ◌==◌, update,
  update_self, update_ne, Bool-cases,
}
use os_exp.Strings.{Memory, safe_loop, safestrcpy}
use os_exp.Strings.Copy.{Apart, IsText, first-same}

-- `n` bytes at `s` have an end among them, and before the last one they hold the string at `t`.
pub record SafelyCopied (s t n : ℕ) (old new : Memory) : Type 0 where
  pub text : (a b : ℕ) → s ≤ a → a + 1 < s + n → a + t ≡ b + s → IsText t b old → new a ≡ old b
  pub ends : (a : ℕ) × (s ≤ a) × (a < s + n) × (new a ≡ 0)
  pub kept : (a : ℕ) → (a < s) ⊎ (s + n ≤ a) → new a ≡ old a

safe_loop-SafelyCopied :
    (s t n : ℕ) (mem : Memory)
    → Apart s t (suc n)
    → SafelyCopied s t (suc n) mem (safe_loop s t (suc n) mem)
unfolding safe_loop
safe_loop-SafelyCopied s t zero mem far = record {
  text = λ a b lo hi. absurd (omega arith);
  ends = (s, omega arith, omega arith, update_self mem s 0);
  kept = λ a h. update_ne mem s 0 a (ground arith);
}
safe_loop-SafelyCopied s t (suc n) mem far =
    let mem' = update mem s (mem t) in
    let read =
      λ (x : ℕ) (lo : t ≤ x) (hi : x < t + suc (suc n)). update_ne mem s (mem t) x (ground arith) in
    elim (Bool-cases (not (mem t == 0))) [
      | inl y ↦
          let w = safe_loop-SafelyCopied (s + 1) (t + 1) n mem' (ground arith) in
          rw y (record {
            text = λ a b lo hi e no_. elim (Bool-cases (a == s)) [
              | inl z ↦
                  let b_t : t ≡ b = ground arith in
                  w.kept a (ground arith) ∙ first-same mem s (mem t) a (ground arith) ∙ ap mem b_t
              | inr m ↦
                  w.text a b (ground arith) (omega arith) (omega arith) (λ x lo' hi' z.
                    no_ x (omega arith) hi' (sym (read x (omega arith) (ground arith)) ∙ z))
                  ∙ read b (ground arith) (omega arith)
            ];
            ends = let (a, lo, hi, e) = w.ends in (a, omega arith, omega arith, e);
            kept = λ a h. w.kept a (ground arith) ∙ update_ne mem s (mem t) a (ground arith);
          })
      | inr z0 ↦
          let stop : mem t ≡ 0 = ground arith in
          rw z0 (record {
            text = λ a b lo hi e no_. elim (Bool-cases (a == s)) [
              | inl z ↦
                  let b_t : t ≡ b = ground arith in
                  update_ne mem' (s + 1) 0 a (ground arith)
                  ∙ first-same mem s (mem t) a (ground arith)
                  ∙ ap mem b_t
              | inr m ↦ absurd (no_ t (omega arith) (ground arith) stop)
            ];
            ends = (s + 1, omega arith, omega arith, update_self mem' (s + 1) 0);
            kept = λ a h.
                update_ne mem' (s + 1) 0 a (ground arith)
                ∙ update_ne mem s (mem t) a (ground arith);
          })
    ]

-- With room for at least one byte and ranges that do not overlap, `safestrcpy` leaves a string that ends
-- within the `n` bytes at `s`; all but the last of them hold the string at `t` up to its end; and no
-- other memory is changed.
pub safestrcpy-SafelyCopied :
    (s t n : ℕ) (mem : Memory) → 0 < n → Apart s t n → SafelyCopied s t n mem (safestrcpy s t n mem)
unfolding safestrcpy
safestrcpy-SafelyCopied s t zero mem pos far = absurd (omega arith)
safestrcpy-SafelyCopied s t (suc n) mem pos far =
    let some_ : (suc n == 0) ≡ false = ground arith in
    rw some_ (safe_loop-SafelyCopied s t n mem far)
