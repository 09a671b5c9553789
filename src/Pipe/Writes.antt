-- ===== src/Pipe/Writes.antt =====
-- What one call of `pipewrite` does to the queue of bytes in the pipe.
use os_exp.Base.{
  ℕ, zero, suc, ◌+◌, ◌-◌, ◌≤◌, ◌<◌, ◌≡◌, ◌⊎◌, inl, inr, refl, sym, ap, ◌∙◌, Bool, true, false, not,
  ◌||◌, Option, none, some, List, [], ◌∷◌, ◌++◌, append_assoc, append-nil, arith, length,
  Bool-cases, Option-cases,
}
use os_exp.Pipe.{Pipe, Stop, value, failed, asleep, full, put, write_loop, pipewrite, wake_reader}
use os_exp.Pipe.Ring.{IsValid, contents, put-contents}
use native.Mathlib.Nat.{add-zero}

-- The `m` bytes of the caller from index `i` on.
abbrev pub sent : (ℕ → Option ℕ) → ℕ → ℕ → List ℕ
sent copyin i zero = []
sent copyin i (suc m) = elim (copyin i) [ none ↦ [] | some ch ↦ ch ∷ sent copyin (i + 1) m ]

-- Why a write of `k` bytes, from `i` on, stopped after `m` of them.
abbrev pub WhyWrite : Bool → (ℕ → Option ℕ) → ℕ → ℕ → ℕ → Pipe → Stop → Type 0
WhyWrite killed copyin i k m pi (value j) = (j ≡ i + m) × ((m ≡ k) ⊎ (copyin (i + m) ≡ none))
WhyWrite killed copyin i k m pi (asleep j) = (j ≡ i + m) × (m < k) × (full pi ≡ true)
WhyWrite killed copyin i k m pi failed = (m < k) × ((pi.readopen ≡ false) ⊎ (killed ≡ true))

-- A write that moved the bytes `moved`, `m` of the `k` from index `i` on.
pub record Written (killed : Bool) (copyin : ℕ → Option ℕ) (i k : ℕ) (pi : Pipe) (s : Stop)
    (pi' : Pipe) : Type 0 where
  pub m : ℕ
  pub valid : IsValid pi'
  pub within : m ≤ k
  pub appended : contents pi' ≡ contents pi ++ sent copyin i m
  pub all_read : length (sent copyin i m) ≡ m
  pub same_nread : pi'.nread ≡ pi.nread
  pub same_ends : (pi'.readopen ≡ pi.readopen) × (pi'.writeopen ≡ pi.writeopen)
  pub why : WhyWrite killed copyin i k m pi' s

sent-suc :
    (copyin : ℕ → Option ℕ) (i m ch : ℕ)
    → copyin i ≡ some ch
    → sent copyin i (suc m) ≡ ch ∷ sent copyin (i + 1) m
sent-suc copyin i m ch got = rw (got, sent)

reader-IsValid : {pi : Pipe} → IsValid pi → IsValid (wake_reader pi)
reader-IsValid v = record { read_word = v.read_word; write_word = v.write_word; fits = v.fits }

module _ (killed : Bool) (copyin : ℕ → Option ℕ) where
  -- No byte has moved.
  unmoved :
      (k i : ℕ) {pi : Pipe} (s : Stop) (pi' : Pipe)
      → IsValid pi'
      → contents pi' ≡ contents pi
      → pi'.nread ≡ pi.nread
      → (pi'.readopen ≡ pi.readopen) × (pi'.writeopen ≡ pi.writeopen)
      → WhyWrite killed copyin i k 0 pi' s
      → Written killed copyin i k pi s pi'
  unmoved k i {pi} s pi' v e r same w = record {
    m = 0;
    valid = v;
    within = omega arith;
    appended = e ∙ sym (append-nil (contents pi));
    all_read = refl;
    same_nread = r;
    same_ends = same;
    why = w;
  }

  why-suc :
      (k i m : ℕ) (pi : Pipe) (s : Stop)
      → WhyWrite killed copyin (i + 1) k m pi s
      → WhyWrite killed copyin i (suc k) (suc m) pi s
  why-suc k i m pi (value j) (e, inl all) = (omega arith, inl (omega arith))
  why-suc k i m pi (value j) (e, inr bad) =
      let shift : i + suc m ≡ i + 1 + m = omega arith in (omega arith, inr (rw shift bad))
  why-suc k i m pi failed (h, w) = (omega arith, w)
  why-suc k i m pi (asleep j) (e, h, f) = (omega arith, omega arith, f)

  -- The first byte has moved, and the rest went on as known.
  moved_one :
      (k i ch : ℕ) {pi : Pipe} (s : Stop) (pi' : Pipe)
      → copyin i ≡ some ch
      → contents (put pi ch) ≡ contents pi ++ (ch ∷ [])
      → Written killed copyin (i + 1) k (put pi ch) s pi'
      → Written killed copyin i (suc k) pi s pi'
  moved_one k i ch {pi} s pi' got e w = record {
    m = suc w.m;
    valid = w.valid;
    within = omega (arith, w.within);
    appended =
        w.appended
        ∙ ap (λ c. c ++ sent copyin (i + 1) w.m) e
        ∙ append_assoc (contents pi) (ch ∷ []) (sent copyin (i + 1) w.m)
        ∙ ap (λ c. contents pi ++ c) (sym (sent-suc copyin i w.m ch got));
    all_read = ap (length {A = ℕ}) (sent-suc copyin i w.m ch got) ∙ ap suc w.all_read;
    same_nread = w.same_nread;
    same_ends = w.same_ends;
    why = why-suc k i w.m pi' s w.why;
  }

  write_loop-Written :
      (k i : ℕ) {pi : Pipe}
      → IsValid pi
      → let (s, pi') = write_loop killed copyin k i pi in Written killed copyin i k pi s pi'
  unfolding write_loop
  write_loop-Written zero i {pi} v =
      unmoved 0 i (value i) (wake_reader pi) (reader-IsValid v) refl refl (refl, refl)
        (omega arith, inl refl)
  write_loop-Written (suc k) i {pi} v = elim (Bool-cases (not pi.readopen || killed)) [
    | inl gone ↦
        rw gone (unmoved (suc k) i failed pi v refl refl (refl, refl) (omega arith, ground arith))
    | inr there ↦ elim (Bool-cases (full pi)) [
      | inl f ↦
          rw (there, f)
            (unmoved (suc k) i (asleep i) (wake_reader pi) (reader-IsValid v) refl refl (refl, refl)
              (omega arith, omega arith, f))
      | inr room ↦ elim (Option-cases (copyin i)) [
        | inl bad ↦
            rw (there, room, bad)
              (unmoved (suc k) i (value i) (wake_reader pi) (reader-IsValid v) refl refl
                (refl, refl) (omega arith, inr (rw add-zero bad)))
        | inr (ch, got) ↦
            let (v', e) = put-contents v ch room in
            rw (there, room, got) (moved_one k i ch _ _ got e (write_loop-Written k (i + 1) v'))
      ]
    ]
  ]

  -- A call of `pipewrite` appends to the pipe's queue the next `m` bytes of the caller, in order and
  -- never beyond `pipesize`, keeps both ends as they are, and stops for one of these reasons: it
  -- returns how many bytes it wrote, all of them or up to one that could not be read; it returns -1,
  -- since the reading end is closed or the process killed; it sleeps on a full pipe.
  pub pipewrite-Written :
      (n i : ℕ) {pi : Pipe}
      → IsValid pi
      → let (s, pi') = pipewrite killed copyin n i pi in Written killed copyin i (n - i) pi s pi'
  unfolding pipewrite
  pipewrite-Written n i v = write_loop-Written (n - i) i v
