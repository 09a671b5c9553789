-- ===== src/Strings/Move.antt =====
-- `memmove` copies, also where the two ranges overlap.
use os_exp.Base.{
  ℕ, zero, suc, ◌+◌, ◌-◌, ◌<◌, ◌≤◌, ◌≡◌, ◌⊎◌, inl, inr, refl, sym, ap, ◌∙◌, subst, ◌&&◌, arith, ltb,
  ◌==◌, update, update_self, update_ne, Bool-cases,
}
use os_exp.Strings.{Memory, move_down, move_up, memmove}

-- `new` has at `dst` the `n` bytes that `old` has at `src`, and is `old` elsewhere.
pub record Moved (dst src n : ℕ) (old new : Memory) : Type 0 where
  pub moved : (i : ℕ) → i < n → new (dst + i) ≡ old (src + i)
  pub kept : (a : ℕ) → (a < dst) ⊎ (dst + n ≤ a) → new a ≡ old a

-- The same, with the addresses `a` and `b` that belong together.
record Shifted (d s n : ℕ) (old new : Memory) : Type 0 where
  moved : (a b : ℕ) → d ≤ a → a < d + n → a + s ≡ b + d → new a ≡ old b
  kept : (a : ℕ) → (a < d) ⊎ (d + n ≤ a) → new a ≡ old a

move_up-Shifted :
    (d s n : ℕ) (mem : Memory) → (d ≤ s) ⊎ (s + n ≤ d) → Shifted d s n mem (move_up d s n mem)
unfolding move_up
move_up-Shifted d s zero mem far = record {
  moved = λ a b lo hi. absurd (omega arith);
  kept = λ a h. refl;
}
move_up-Shifted d s (suc n) mem far =
    let w = move_up-Shifted (d + 1) (s + 1) n (update mem d (mem s)) (ground arith) in
    record {
      moved = λ a b lo hi e. elim (Bool-cases (a == d)) [
        | inl y ↦
            let a_d : a ≡ d = ground arith in
            let s_b : s ≡ b = omega arith in
            w.kept a (ground arith)
            ∙ subst (λ x. update mem d (mem s) x ≡ mem b) (sym a_d)
                (update_self mem d (mem s) ∙ ap mem s_b)
        | inr n_ ↦
            w.moved a b (ground arith) (omega arith) (omega arith)
            ∙ update_ne mem d (mem s) b (ground arith)
      ];
      kept = λ a h. w.kept a (ground arith) ∙ update_ne mem d (mem s) a (ground arith);
    }

move_down-Shifted :
    (d s n d' s' : ℕ) (mem : Memory)
    → s ≤ d
    → d' ≡ d + n
    → s' ≡ s + n
    → Shifted d s n mem (move_down d' s' n mem)
unfolding move_down
move_down-Shifted d s zero d' s' mem le ed es = record {
  moved = λ a b lo hi. absurd (omega arith);
  kept = λ a h. refl;
}
move_down-Shifted d s (suc n) d' s' mem le ed es =
    let stored = update mem (d' - 1) (mem (s' - 1)) in
    let w = move_down-Shifted d s n (d' - 1) (s' - 1) stored le (omega arith) (omega arith) in
    record {
      moved = λ a b lo hi e. elim (Bool-cases (a == d' - 1)) [
        | inl y ↦
            let a_d : a ≡ d' - 1 = ground arith in
            let s_b : s' - 1 ≡ b = omega arith in
            w.kept a (ground arith)
            ∙ subst (λ x. stored x ≡ mem b) (sym a_d)
                (update_self mem (d' - 1) (mem (s' - 1)) ∙ ap mem s_b)
        | inr n_ ↦
            w.moved a b lo (ground arith) e ∙ update_ne mem (d' - 1) (mem (s' - 1)) b (ground arith)
      ];
      kept =
          λ a h. w.kept a (ground arith) ∙ update_ne mem (d' - 1) (mem (s' - 1)) a (ground arith);
    }

Shifted-Moved :
    {d s n : ℕ} {old : Memory} (new : Memory) → Shifted d s n old new → Moved d s n old new
Shifted-Moved {d} {s} new w = record {
  moved = λ i h. w.moved (d + i) (s + i) (omega arith) (omega arith) (omega arith);
  kept = w.kept;
}

-- After `memmove` the `n` bytes at `dst` are those that were at `src`, also where the two ranges
-- overlap in either direction, and all other memory is as before.
pub memmove-Moved : (dst src n : ℕ) (mem : Memory) → Moved dst src n mem (memmove dst src n mem)
unfolding memmove
memmove-Moved dst src n mem = Shifted-Moved (memmove dst src n mem) (elim (Bool-cases (n == 0)) [
  | inl y ↦ rw y (record { moved = λ a b lo hi. absurd (ground arith); kept = λ a h. refl })
  | inr m ↦ rw m (elim (Bool-cases (ltb src dst && ltb dst (src + n))) [
    | inl y ↦ rw y (move_down-Shifted dst src n (dst + n) (src + n) mem (ground arith) refl refl)
    | inr no_ ↦ rw no_ (move_up-Shifted dst src n mem (ground arith))
  ])
])
