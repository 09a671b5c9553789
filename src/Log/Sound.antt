-- ===== src/Log/Sound.antt =====
-- What concurrent operations keep: the space reserved for them, and the log for itself while there is a
-- commit.
use os_exp.Base.{
  ℕ, suc, ◌+◌, ◌-◌, ◌*◌, ◌≤◌, ◌<◌, ◌≡◌, inl, inr, refl, ap, sym, ◌∙◌, subst, Bool, true, false,
  some, List, [], ◌∷◌, ◌++◌, arith, length, length-append, All, elem, ◌==◌, if◌then◌else◌,
  Bool-cases, Outcome, returned,
}
use os_exp.Base.Word.{u32_mod}
use os_exp.Block.{Block}
use os_exp.Storage.{Store, done}
use os_exp.Log.{Log, log_blocks, max_op_blocks, begin_op, leave}
use os_exp.Log.Redo.{Outside}
use os_exp.Log.Commits.{Stage}
use os_exp.Log.End.{Ready-same}
use os_exp.Log.Absorb.{write_block, write_block_lem, Wrote, IsListed}
use os_exp.Log.Steps.{
  Phase, idle, copying, heading, installing, clearing, leaving, System, state, with_block,
  after_end,
}

-- The different blocks that the operations may still log.
abbrev pub total : List (List ℕ) → ℕ
total [] = 0
total (blocks ∷ ops) = max_op_blocks - length blocks + total ops

total-append : (xs ys : List (List ℕ)) → total (xs ++ ys) ≡ total xs + total ys
total-append [] ys = omega arith
total-append (x ∷ xs) ys = omega (arith, total-append xs ys)

total-length : (ops : List (List ℕ)) → total ops ≤ length ops * max_op_blocks
total-length [] = omega arith
total-length (k ∷ ops) = omega (arith, total-length ops)

-- What an operation has logged is in the log.
abbrev pub Logged : Log → List (List ℕ) → Type 0
Logged lg = All (All (λ b. IsListed b lg))

elem-IsListed :
    (lg : Log) (b : ℕ) (bs : List ℕ)
    → All (λ c. IsListed c lg) bs
    → elem b bs ≡ true
    → IsListed b lg
elem-IsListed lg b [] all e = cc
elem-IsListed lg b (x ∷ xs) all e = elim (Bool-cases (b == x)) [
  | inl y ↦ let same : b ≡ x = ground (arith, y) in subst (λ c. IsListed c lg) (sym same) all.0
  | inr n ↦ elem-IsListed lg b xs all.1 (ground (arith, n, e))
]

module _ (lg lg' : Log) (still : (c : ℕ) → IsListed c lg → IsListed c lg') where
  blocks_still : (bs : List ℕ) → All (λ c. IsListed c lg) bs → All (λ c. IsListed c lg') bs
  blocks_still [] all = tt
  blocks_still (b ∷ bs) all = (still b all.0, blocks_still bs all.1)

  Logged-still : (ops : List (List ℕ)) → Logged lg ops → Logged lg' ops
  Logged-still [] all = tt
  Logged-still (bs ∷ ops) all = (blocks_still bs all.0, Logged-still ops all.1)

Logged-middle :
    (lg : Log) (xs ys : List (List ℕ)) (bs : List ℕ)
    → Logged lg (xs ++ (bs ∷ ys))
    → All (λ c. IsListed c lg) bs
Logged-middle lg [] ys bs all = all.0
Logged-middle lg (x ∷ xs) ys bs all = Logged-middle lg xs ys bs all.1

Logged-put :
    (lg : Log) (xs ys : List (List ℕ)) (bs cs : List ℕ)
    → All (λ c. IsListed c lg) cs
    → Logged lg (xs ++ (bs ∷ ys))
    → Logged lg (xs ++ (cs ∷ ys))
Logged-put lg [] ys bs cs new all = (new, all.1)
Logged-put lg (x ∷ xs) ys bs cs new all = (all.0, Logged-put lg xs ys bs cs new all.1)

Logged-remove :
    (lg : Log) (xs ys : List (List ℕ)) (bs : List ℕ)
    → Logged lg (xs ++ (bs ∷ ys))
    → Logged lg (xs ++ ys)
Logged-remove lg [] ys bs all = all.1
Logged-remove lg (x ∷ xs) ys bs all = (all.0, Logged-remove lg xs ys bs all.1)

-- While there is a commit no operation is in progress, and `committing` says so.
abbrev pub Exclusive : Phase → Log → List (List ℕ) → Type 0
Exclusive idle lg ops = lg.committing ≡ false
Exclusive _ lg ops = (lg.committing ≡ true) × (ops ≡ [])

pub record Sound (sys : System) : Type 0 where
  pub exclusive : Exclusive sys.phase sys.log sys.ops
  pub stage : Stage sys.phase sys.log sys.store
  pub counted : sys.log.outstanding ≡ length sys.ops
  pub each : Logged sys.log sys.ops
  pub space : sys.log.lh.n + total sys.ops ≤ log_blocks

not_committing :
    (ph : Phase) (lg : Log) (ops : List (List ℕ))
    → Exclusive ph lg ops
    → lg.committing ≡ false
    → ph ≡ idle
not_committing idle lg ops x e = refl
not_committing copying lg ops x e = cc
not_committing heading lg ops x e = cc
not_committing installing lg ops x e = cc
not_committing clearing lg ops x e = cc
not_committing leaving lg ops x e = cc

pub in_progress :
    (ph : Phase) (lg : Log) (ops : List (List ℕ)) → Exclusive ph lg ops → 0 < length ops → ph ≡ idle
in_progress idle lg ops x h = refl
in_progress copying lg ops x h = absurd (omega (arith, ap (length {A = List ℕ}) x.1))
in_progress heading lg ops x h = absurd (omega (arith, ap (length {A = List ℕ}) x.1))
in_progress installing lg ops x h = absurd (omega (arith, ap (length {A = List ℕ}) x.1))
in_progress clearing lg ops x h = absurd (omega (arith, ap (length {A = List ℕ}) x.1))
in_progress leaving lg ops x h = absurd (omega (arith, ap (length {A = List ℕ}) x.1))

-- What `begin_op` lets in: an operation for which there is room.
pub begin_op_lem :
    (lg : Log) {lg' : Log}
    → begin_op lg ≡ some lg'
    → (lg.committing ≡ false)
      × (lg.lh.n + (lg.outstanding + 1) * max_op_blocks ≤ log_blocks)
      × (lg' ≡ record lg { outstanding = lg.outstanding + 1 })
unfolding begin_op
begin_op_lem lg e = ground arith

pub begin-Sound :
    {lg lg' : Log} {s : Store} {ops : List (List ℕ)} {ph : Phase}
    → begin_op lg ≡ some lg'
    → Sound (state lg s ops ph)
    → Sound (state lg' s ([] ∷ ops) ph)
begin-Sound {lg} {lg'} {s} {ops} {ph} e w0 =
    let (free, room, e') = begin_op_lem lg e in
    let at_idle = not_committing ph lg ops w0.exclusive free in
    let w = subst (λ p. Sound (state lg s ops p)) at_idle w0 in
    rw (e', at_idle)
      (record {
        exclusive = free;
        stage = Ready-same _ w.stage refl refl;
        counted = omega (arith, w.counted);
        each = (tt, w.each);
        space = omega (arith, w.counted, total-length ops);
      })

-- The section of `end_op` before the commit.
pub leave_lem :
    (lg : Log)
    → lg.committing ≡ false
    → leave lg ≡ (
        if lg.outstanding - 1 == 0
        then returned (true, record lg { outstanding = lg.outstanding - 1; committing = true })
        else returned
            (false, record lg { outstanding = lg.outstanding - 1; wakeups = lg.wakeups + 1 }))
unfolding leave
leave_lem lg e = rw e refl

-- A run that ended as known.
done-eq : {A : Type 0} {a b : A} {s t : Store} → done a s ≡ done b t → (a ≡ b) × (s ≡ t)
done-eq e = (cc, cc)

pub returned-eq :
    {a b : Bool} {lg lg' : Log}
    → ◌≡◌ {A = Outcome (Bool × Log)} (returned (a, lg)) (returned (b, lg'))
    → (a ≡ b) × (lg ≡ lg')
returned-eq e = (cc, cc)

abbrev pub Sizes : (earlier later : List (List ℕ)) (bs : List ℕ) → Type 0
Sizes earlier later bs =
    (length (earlier ++ (bs ∷ later)) ≡ length earlier + suc (length later))
    × (total (earlier ++ (bs ∷ later)) ≡ total earlier + (max_op_blocks - length bs + total later))

pub sizes_lem : (earlier later : List (List ℕ)) (bs : List ℕ) → Sizes earlier later bs
sizes_lem earlier later bs = (length-append earlier _, total-append earlier _)

module _ (lg lg' : Log) (s t : Store) (earlier later : List (List ℕ)) (bs : List ℕ) where
  -- A block that the operation has logged before takes no space.
  space_after :
      (b : ℕ)
      → length bs < max_op_blocks
      → All (λ c. IsListed c lg) bs
      → lg'.lh.n ≤ lg.lh.n + 1
      → (IsListed b lg → lg'.lh.n ≡ lg.lh.n)
      → lg.lh.n + total (earlier ++ (bs ∷ later)) ≤ log_blocks
      → lg'.lh.n + total (earlier ++ (with_block b bs ∷ later)) ≤ log_blocks
  space_after b few all one absorbed space = elim (Bool-cases (elem b bs)) [
    | inl y ↦ rw y (let same = absorbed (elem-IsListed lg b bs all y) in omega (arith, same, space))
    | inr n ↦ rw n (
        omega (
          arith,
          few,
          one,
          space,
          (sizes_lem earlier later bs).1,
          (sizes_lem earlier later (b ∷ bs)).1,
        ))
  ]

  with_block_lem :
      (b : ℕ)
      → IsListed b lg'
      → All (λ c. IsListed c lg') bs
      → All (λ c. IsListed c lg') (with_block b bs)
  with_block_lem b now all = elim (Bool-cases (elem b bs)) [
    | inl y ↦ rw y all
    | inr n ↦ rw n (now, all)
  ]

  pub write-Sound :
      (b : ℕ) (x : Block) (ph : Phase)
      → length bs < max_op_blocks
      → Outside lg.start b
      → b < u32_mod
      → write_block lg b x s ≡ done lg' t
      → Sound (state lg s (earlier ++ (bs ∷ later)) ph)
      → Sound (state lg' t (earlier ++ (with_block b bs ∷ later)) ph)
  write-Sound b x ph few o small e w0 =
      let ops = earlier ++ (bs ∷ later) in
      let (len, tot) = sizes_lem earlier later bs in
      let at_idle = in_progress ph lg ops w0.exclusive (omega (arith, len)) in
      let w = subst (λ p. Sound (state lg s ops p)) at_idle w0 in
      let (lg1, t1, e1, wrote1) =
        write_block_lem b x w.stage o small (omega (arith, w.space, tot, few))
          (omega (arith, w.counted, len)) in
      let (same_lg, same_t) = done-eq (sym e1 ∙ e) in
      let wrote =
        subst (λ l. Wrote lg s b x l t) same_lg (subst (Wrote lg s b x lg1) same_t wrote1) in
      let still = Logged-still lg lg' wrote.listed_still ops w.each in
      rw at_idle (record {
        exclusive = wrote.same_committing ∙ w.exclusive;
        stage = wrote.ready;
        counted = omega (
          arith,
          wrote.same_outstanding,
          w.counted,
          len,
          (sizes_lem earlier later (with_block b bs)).0,
        );
        each =
            Logged-put lg' earlier later bs (with_block b bs)
              (with_block_lem b wrote.listed_now (Logged-middle lg' earlier later bs still)) still;
        space =
            space_after b few (Logged-middle lg earlier later bs w.each) wrote.at_most_one
              wrote.absorbed w.space;
      })

  pub finish-Sound :
      (ph : Phase) (commits : Bool)
      → leave lg ≡ returned (commits, lg')
      → Sound (state lg s (earlier ++ (bs ∷ later)) ph)
      → Sound (state lg' s (earlier ++ later) (after_end commits ph))
  finish-Sound ph commits e w0 =
      let ops = earlier ++ (bs ∷ later) in
      let (len, tot) = sizes_lem earlier later bs in
      let at_idle = in_progress ph lg ops w0.exclusive (omega (arith, len)) in
      let w = subst (λ p. Sound (state lg s ops p)) at_idle w0 in
      let left = leave_lem lg w.exclusive in
      let fewer = length-append earlier later in
      let less = total-append earlier later in
      elim (Bool-cases (lg.outstanding - 1 == 0)) [
        | inl y ↦
            let (is_true, same) = returned-eq (sym (rw y at left) ∙ e) in
            let none_left : length (earlier ++ later) ≡ 0 =
              ground (arith, y, w.counted, len, fewer) in
            rw (← is_true, ← same)
              (record {
                exclusive = (refl, no_ops (earlier ++ later) none_left);
                stage = Ready-same _ w.stage refl refl;
                counted = omega (arith, w.counted, len, fewer);
                each = Logged-remove lg earlier later bs w.each;
                space = omega (arith, w.space, tot, less);
              })
        | inr n ↦
            let (is_false, same) = returned-eq (sym (rw n at left) ∙ e) in
            rw (← is_false, ← same, at_idle)
              (record {
                exclusive = w.exclusive;
                stage = Ready-same _ w.stage refl refl;
                counted = omega (arith, w.counted, len, fewer);
                each = Logged-remove lg earlier later bs w.each;
                space = omega (arith, w.space, tot, less);
              })
      ]
    where
      no_ops : (ops : List (List ℕ)) → length ops ≡ 0 → ops ≡ []
      no_ops [] h = refl
      no_ops (o ∷ os) h = absurd (omega (arith, h))
