-- ===== src/Bio/Counted.antt =====
-- The reference counts: each is the number of the references that somebody holds to the block.
use os_exp.Base.{ℕ, ◌+◌, ◌≡◌, sym, ap, ◌∙◌, ◌≢◌, inl, inr, arith, ◌==◌, Bool-cases}
use os_exp.Bio.{Buf, Bcache}
use os_exp.Bio.Valid.{IsCache}
use os_exp.Bio.View.{Has, where_is}
use os_exp.Bio.Read.{Taken}

-- `f k` references to each block `k`, and none to a block that is in no buffer.
pub record Counted (s : Bcache) (f : ℕ → ℕ) : Type 0 where
  pub cached : (i k : ℕ) → Has s k i → (s.buf i).refcnt ≡ f k
  pub uncached : (k : ℕ) → ((i : ℕ) → ¬ (Has s k i)) → f k ≡ 0

-- A step that keeps the block of every buffer and changes the references to one block.
pub recounted :
    (s t : Bcache) (f g : ℕ → ℕ) (b k : ℕ)
    → IsCache s
    → Has s k b
    → ((i : ℕ) → ((t.buf i).dev ≡ (s.buf i).dev) × ((t.buf i).blockno ≡ (s.buf i).blockno))
    → ((i : ℕ) → i ≢ b → (t.buf i).refcnt ≡ (s.buf i).refcnt)
    → ((j : ℕ) → j ≢ k → g j ≡ f j)
    → (t.buf b).refcnt ≡ g k
    → Counted s f
    → Counted t g
recounted s t f g b k w h kept others elsewhere here c = record {
  cached = λ i j (hi, di, oi).
      let was : Has s j i = (hi, sym (kept i).0 ∙ di, sym (kept i).1 ∙ oi) in
      elim (Bool-cases (i == b)) [
        | inl e ↦
            let i_b : i ≡ b = ground arith in
            let j_k : j ≡ k = sym was.2 ∙ ap (λ m. (s.buf m).blockno) i_b ∙ h.2 in
            ap (λ m. (t.buf m).refcnt) i_b ∙ here ∙ ap g (sym j_k)
        | inr n ↦
            let ne : i ≢ b = ground arith in
            others i ne
            ∙ c.cached i j was
            ∙ sym (elsewhere j λ e. ne (w.unique i b hi h.0 was.1 h.1 (was.2 ∙ e ∙ sym h.2)))
      ];
  uncached = λ j none_.
      elsewhere j (λ e. none_ b (h.0, (kept b).0 ∙ h.1, (kept b).1 ∙ h.2 ∙ sym e))
      ∙ c.uncached j (λ i m. none_ i (m.0, (kept i).0 ∙ m.1, (kept i).1 ∙ m.2));
}

-- A buffer that is taken has one reference more.
pub Taken-Counted :
    (s t : Bcache) (f g : ℕ → ℕ) (n b : ℕ)
    → IsCache s
    → Taken s n b t
    → ((j : ℕ) → j ≢ n → g j ≡ f j)
    → g n ≡ f n + 1
    → Counted s f
    → Counted t g
Taken-Counted s t f g n b w k elsewhere more c = record {
  cached = λ i j m. elim (Bool-cases (i == b)) [
    | inl e ↦
        let i_b : i ≡ b = ground arith in
        let j_n : j ≡ n = sym m.2 ∙ ap (λ m. (t.buf m).blockno) i_b ∙ k.has.2 in
        ap (λ m. (t.buf m).refcnt) i_b ∙ now ∙ ap g (sym j_n)
    | inr d ↦
        let ne : i ≢ b = ground arith in
        let same = k.others i ne in
        let was : Has s j i = (m.0, sym (ap Buf.dev same) ∙ m.1, sym (ap Buf.blockno same) ∙ m.2) in
        ap Buf.refcnt same
        ∙ c.cached i j was
        ∙ sym (
            elsewhere j
              λ e. ne (k.same.valid.unique i b m.0 k.has.0 m.1 k.has.1 (m.2 ∙ e ∙ sym k.has.2)))
  ];
  uncached = λ j none_.
      let ne : j ≢ n = λ e. none_ b (k.has.0, k.has.1, k.has.2 ∙ sym e) in
      elsewhere j ne ∙ elim (where_is s j w) [
        | inr nowhere ↦ c.uncached j nowhere
        | inl (i, m) ↦ elim (Bool-cases (i == b)) [
          | inr d ↦
              let same = k.others i (ground arith) in
              absurd (none_ i (m.0, ap Buf.dev same ∙ m.1, ap Buf.blockno same ∙ m.2))
          | inl e ↦
              let i_b : i ≡ b = ground arith in
              let was : (s.buf b).blockno ≡ j = ap (λ m. (s.buf m).blockno) (sym i_b) ∙ m.2 in
              elim k.found [
                | inl h ↦ absurd (ne (sym was ∙ h.2))
                | inr (free, _) ↦ sym (c.cached i j m) ∙ ap (λ m. (s.buf m).refcnt) i_b ∙ free
              ]
        ]
      ];
}
  where
    now : (t.buf b).refcnt ≡ g n
    now = k.counted ∙ elim k.found [
      | inl h ↦ ap (λ m. m + 1) (c.cached b n h) ∙ sym more
      | inr (free, none_) ↦ omega (arith, free, c.uncached n none_, more)
    ]
