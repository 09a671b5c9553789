-- ===== src/Pipe/Reads.antt =====
-- What one call of `piperead` does to the queue of bytes in the pipe.
use os_exp.Base.{
  ℕ, zero, suc, ◌+◌, ◌≤◌, ◌≡◌, ◌≢◌, ◌⊎◌, inl, inr, refl, sym, subst, ap, ◌∙◌, Bool, true, false,
  ◌&&◌, List, [], ◌∷◌, ◌++◌, arith, length, Bool-cases,
}
use os_exp.Pipe.{
  Pipe, Stop, value, failed, asleep, empty, next_byte, read_loop, piperead, wake_writer,
}
use os_exp.Pipe.Ring.{IsValid, contents, advance-contents, empty_iff}

writer-IsValid : {pi : Pipe} → IsValid pi → IsValid (wake_writer pi)
writer-IsValid v = record { read_word = v.read_word; write_word = v.write_word; fits = v.fits }

ready :
    {pi : Pipe}
    → IsValid pi
    → (empty pi && pi.writeopen) ≡ false
    → (contents pi ≢ []) ⊎ (pi.writeopen ≡ false)
ready {pi} v reads = elim (Bool-cases (empty pi)) [
  | inl none_ ↦ inr (ground arith)
  | inr some_ ↦ inl λ e. cc ((empty_iff v).1 e)
]

-- What the second loop of a read, from index `i` on with `k` bytes to go, leaves of the queue.
record Got (copyout : ℕ → Bool) (i k : ℕ) (pi : Pipe) (got : List ℕ) (j : ℕ) (pi' : Pipe)
    : Type 0 where
  lost : List ℕ
  valid : IsValid pi'
  queue : contents pi ≡ got ++ (lost ++ contents pi')
  counted : j ≡ i + length got
  within : length got ≤ k
  stopped :
      ((lost ≡ []) × ((length got ≡ k) ⊎ (contents pi' ≡ [])))
      ⊎ ((length lost ≡ 1) × (copyout j ≡ false))
  same_ends : (pi'.readopen ≡ pi.readopen) × (pi'.writeopen ≡ pi.writeopen)

module _ (killed : Bool) (copyout : ℕ → Bool) where
  read_loop-Got :
      (k i : ℕ) {pi : Pipe}
      → IsValid pi
      → let (got, j, pi') = read_loop killed copyout k i pi in Got copyout i k pi got j pi'
  unfolding read_loop
  read_loop-Got zero i {pi} v = record {
    lost = [];
    valid = v;
    queue = refl;
    counted = omega arith;
    within = omega arith;
    stopped = inl (refl, inl refl);
    same_ends = (refl, refl);
  }
  read_loop-Got (suc k) i {pi} v = elim (Bool-cases (empty pi)) [
    | inl none_ ↦ rw none_ (record {
      lost = [];
      valid = v;
      queue = refl;
      counted = omega arith;
      within = omega arith;
      stopped = inl (refl, inr ((empty_iff v).0 none_));
      same_ends = (refl, refl);
    })
    | inr some_ ↦
        let (v', e) = advance-contents v some_ in
        elim (Bool-cases (copyout i)) [
          | inl stored ↦
              let g = read_loop-Got k (i + 1) v' in
              rw (some_, stored)
                (record {
                  lost = g.lost;
                  valid = g.valid;
                  queue = e ∙ ap (λ c. next_byte pi ∷ c) g.queue;
                  counted = omega (arith, g.counted);
                  within = omega (arith, g.within);
                  stopped = ground (arith, g.stopped);
                  same_ends = g.same_ends;
                })
          | inr bad ↦
              rw (some_, bad)
                (record {
                  lost = next_byte pi ∷ [];
                  valid = v';
                  queue = e;
                  counted = omega arith;
                  within = omega arith;
                  stopped = inr (refl, bad);
                  same_ends = (refl, refl);
                })
        ]
  ]

  -- Why a read of `n` bytes stopped with the bytes `got`.
  abbrev WhyRead : ℕ → Pipe → List ℕ → Pipe → Stop → Type 0
  WhyRead n pi got pi' (value j) =
      (j ≡ length got) × (j ≤ n) × ((contents pi ≢ []) ⊎ (pi.writeopen ≡ false))
  WhyRead n pi got pi' failed =
      (got ≡ []) × (pi' ≡ pi) × (contents pi ≡ []) × (pi.writeopen ≡ true) × (killed ≡ true)
  WhyRead n pi got pi' (asleep j) =
      (got ≡ []) × (pi' ≡ pi) × (contents pi ≡ []) × (pi.writeopen ≡ true) × (killed ≡ false)

  -- What a read has done: the bytes that it got are the first of the queue, and at most one byte
  -- after them is lost.
  pub record Read (n : ℕ) (pi : Pipe) (got : List ℕ) (s : Stop) (pi' : Pipe) : Type 0 where
    pub lost : List ℕ
    pub valid : IsValid pi'
    pub queue : contents pi ≡ got ++ (lost ++ contents pi')
    pub nothing_lost : ((j : ℕ) → copyout j ≡ true) → lost ≡ []
    pub drained : (j : ℕ) → s ≡ value j → lost ≡ [] → (length got ≡ n) ⊎ (contents pi' ≡ [])
    pub same_ends : (pi'.readopen ≡ pi.readopen) × (pi'.writeopen ≡ pi.writeopen)
    pub why : WhyRead n pi got pi' s

  unread :
      (n : ℕ) {pi : Pipe} (s : Stop)
      → IsValid pi
      → WhyRead n pi [] pi s
      → ((j : ℕ) → s ≡ value j → ⊥)
      → Read n pi [] s pi
  unread n s v w no_value = record {
    lost = [];
    valid = v;
    queue = refl;
    nothing_lost = λ _. refl;
    drained = λ j e _. absurd (no_value j e);
    same_ends = (refl, refl);
    why = w;
  }

  -- A call of `piperead` takes the first bytes of the pipe's queue, in order. Where every byte can be
  -- stored none is lost, and the call has then got all that it asked for or all there was. It returns
  -- their number, with the queue not empty or the writing end closed before; on an empty queue with
  -- the writing end open it changes nothing, and returns -1 if the process is killed, else sleeps.
  pub piperead-Read :
      (n : ℕ) {pi : Pipe}
      → IsValid pi
      → let (got, s, pi') = piperead killed copyout n pi in Read n pi got s pi'
  unfolding piperead
  piperead-Read n {pi} v = elim (Bool-cases (empty pi && pi.writeopen)) [
    | inl waits ↦
        let none_ : contents pi ≡ [] = (empty_iff v).0 (ground arith) in
        let open_ : pi.writeopen ≡ true = ground arith in
        elim (Bool-cases killed) [
          | inl k ↦
              let stop : piperead killed copyout n pi ≡ ([], failed, pi) = rw (waits, k) in
              subst (λ r. Read n pi r.0 r.1 r.2) (sym stop)
                (unread n failed v (refl, refl, none_, open_, k) (λ j e. cc))
          | inr k ↦
              let stop : piperead killed copyout n pi ≡ ([], asleep 0, pi) = rw (waits, k) in
              subst (λ r. Read n pi r.0 r.1 r.2) (sym stop)
                (unread n (asleep 0) v (refl, refl, none_, open_, k) (λ j e. cc))
        ]
    | inr reads ↦
        let g = read_loop-Got n 0 v in
        rw reads (record {
          lost = g.lost;
          valid = writer-IsValid g.valid;
          queue = g.queue;
          nothing_lost = λ all. elim g.stopped [ inl s ↦ s.0 | inr s ↦ cc (all _, s.1) ];
          drained = λ j e none_. elim g.stopped [
            | inl s ↦ s.1
            | inr s ↦ absurd (omega (arith, s.0, ap (length {A = ℕ}) none_))
          ];
          same_ends = g.same_ends;
          why = (omega (arith, g.counted), omega (arith, g.counted, g.within), ready v reads);
        })
  ]
