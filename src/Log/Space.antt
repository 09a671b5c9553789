-- ===== src/Log/Space.antt =====
-- Concurrent operations: the space that `begin_op` reserves is enough, so the log never overflows, and a
-- commit has the log for itself.
use os_exp.Base.{
  ℕ, ◌≤◌, ◌<◌, ◌≡◌, ◌≢◌, ◌⊎◌, refl, ap, sym, ◌∙◌, subst, true, false, List, [], ◌∷◌, ◌++◌, arith,
  length, ◌==◌, returned, ltb,
}
use os_exp.Base.Word.{u32_mod}
use os_exp.Block.{Block, Disk}
use os_exp.Storage.{Store, done}
use os_exp.Storage.Ensures.{Ensures}
use os_exp.Log.{Log, max_op_blocks, leave, finished, commit, cleared, write_head}
use os_exp.Log.Redo.{Outside, Recovers}
use os_exp.Log.Recovery.{Restored}
use os_exp.Log.Commits.{Stage, emptied-Restored, nothing-Restored}
use os_exp.Log.End.{Restored-Ready}
use os_exp.Log.Absorb.{write_block, write_block_lem, Wrote}
use os_exp.Log.Steps.{
  Phase, idle, copying, heading, installing, clearing, leaving, System, state, Step, begin, write,
  finish, nothing, copied, headed, installed, emptied, release, Reach, here, next,
}
use os_exp.Log.Sound.{
  total, Exclusive, Sound, begin-Sound, write-Sound, finish-Sound, in_progress, sizes_lem,
}

-- While there is a commit only its parts change anything.
commit-Sound :
    {lg : Log} {s : Store} {ops : List (List ℕ)} {ph : Phase} (lg' : Log) (t : Store) (ph' : Phase)
    → (lg.committing ≡ true) × (ops ≡ [])
    → lg'.outstanding ≡ lg.outstanding
    → lg'.lh.n ≤ lg.lh.n
    → Exclusive ph' lg' []
    → Stage ph' lg' t
    → Sound (state lg s ops ph)
    → Sound (state lg' t ops ph')
commit-Sound lg' t ph' (busy, none_) same less x stage w = rw none_ (record {
  exclusive = x;
  stage = stage;
  counted = same ∙ w.counted ∙ ap (length {A = List ℕ}) none_;
  each = tt;
  space = omega (arith, w.space, less);
})

pub Step-Sound : {sys sys' : System} → Step sys sys' → Sound sys → Sound sys'
Step-Sound (begin e) w = begin-Sound e w
Step-Sound (write {lg} {lg'} {s} {t} {ph} earlier later ops ops' bs b x before after few o small e)
      w =
    rw after (write-Sound lg lg' s t earlier later bs b x ph few o small e (rw before at w))
Step-Sound (finish {lg} {lg'} {s} {ph} earlier later ops ops' bs commits before after e) w =
    rw after (finish-Sound lg lg' s s earlier later bs ph commits e (rw before at w))
Step-Sound (nothing {lg} {s} n) w =
    commit-Sound lg s leaving w.exclusive refl (omega arith) (w.exclusive.0, refl)
      (s.cache, n, nothing-Restored lg s w.stage n) w
Step-Sound (copied {lg} {s} {t} some_ e) w =
    let has_blocks : ltb 0 lg.lh.n ≡ true = ground arith in
    commit-Sound lg t heading w.exclusive refl (omega arith) (w.exclusive.0, refl)
      (s, record { ready = w.stage; some_blocks = has_blocks; copied = e }) w
Step-Sound (headed {lg} {s} {t} e) w =
    let (s0, c) = w.stage in
    commit-Sound lg t installing w.exclusive refl (omega arith) (w.exclusive.0, refl)
      (s0, s, record { before = c; headed = e }) w
Step-Sound (installed {lg} {s} {t} e) w =
    let (s0, s1, c) = w.stage in
    commit-Sound (cleared lg) t clearing w.exclusive refl (omega arith) (w.exclusive.0, refl)
      (lg, s0, s1, s, refl, record { before = c; installed = e }) w
Step-Sound (emptied {lg} {s} {t} e) w =
    let (lg0, s0, s1, s2, same, c) = w.stage in
    let start : lg0.start ≡ lg.start = ap Log.start (sym same) in
    let empty : lg.lh.n ≡ 0 = ap (λ (l : Log). l.lh.n) same in
    let restored =
      emptied-Restored lg0 s0 s1 s2 s t c (subst (λ l. write_head l s ≡ done tt t) same e) in
    commit-Sound lg t leaving w.exclusive refl (omega arith) (w.exclusive.0, refl)
      (s0.cache, empty, subst (λ k. Restored k s0.cache t) start restored) w
Step-Sound (release {lg} {s}) w =
    let (v, empty, restored) = w.stage in
    commit-Sound (finished lg) s idle w.exclusive refl (omega arith) refl
      (Restored-Ready (finished lg) restored empty) w

pub Reach-Sound : {sys sys' : System} → Reach sys sys' → Sound sys → Sound sys'
Reach-Sound here w = w
Reach-Sound (next r st) w = Step-Sound st (Reach-Sound r w)

-- After a restart no operation is in progress, and the log is sound.
pub Restored-Sound :
    {v : Disk} (lg : Log) {s : Store}
    → Restored lg.start v s
    → lg.lh.n ≡ 0
    → lg.committing ≡ false
    → lg.outstanding ≡ 0
    → Sound (state lg s [] idle)
Restored-Sound lg r n free none_ = record {
  exclusive = free;
  stage = Restored-Ready lg r n;
  counted = none_;
  each = tt;
  space = omega arith;
}

-- From a sound system, however the operations begin, log and end and a commit goes on, an operation that
-- has logged fewer than `max_op_blocks` different blocks can log another block, or one of them again:
-- `log_write` does not panic, for lack of space or outside of a transaction, and the change is visible in
-- memory and not yet on the disk.
pub log_write-has_room :
    {start sys : System} (earlier later : List (List ℕ)) (bs : List ℕ) (b : ℕ) (x : Block)
    → Sound start
    → Reach start sys
    → sys.ops ≡ earlier ++ (bs ∷ later)
    → length bs < max_op_blocks
    → Outside sys.log.start b
    → b < u32_mod
    → (lg' : Log) × (t : Store) × (write_block sys.log b x sys.store ≡ done lg' t)
      × Wrote sys.log sys.store b x lg' t
log_write-has_room {sys} earlier later bs b x w r e few o small =
    let v = Reach-Sound r w in
    let (len, tot) = sizes_lem earlier later bs in
    let size = ap (length {A = List ℕ}) e in
    let at_idle = in_progress sys.phase sys.log sys.ops v.exclusive (omega (arith, size, len)) in
    write_block_lem b x (subst (λ p. Stage p sys.log sys.store) at_idle v.stage) o small
      (omega (arith, v.space, ap total e, tot, few)) (omega (arith, v.counted, size, len))

-- What ending an operation and a commit come to.
pub record Ends (sys : System) : Type 0 where
  pub leaves :
      (earlier later : List (List ℕ)) (bs : List ℕ)
      → sys.ops ≡ earlier ++ (bs ∷ later)
      → (lg' : Log) × (leave sys.log ≡ returned (length (earlier ++ later) == 0, lg'))
  pub alone : sys.phase ≢ idle → sys.ops ≡ []
  pub commits :
      sys.phase ≡ copying
      → Ensures
          (λ lg' t. (lg'.lh.n ≡ 0) × Restored sys.log.start sys.store.cache t)
          (λ d. Recovers sys.log.start d sys.store.disk ⊎ Recovers sys.log.start d sys.store.cache)
          (commit sys.log sys.store)
  pub committed :
      sys.phase ≡ leaving
      → (sys.log.lh.n ≡ 0)
        × ((b : ℕ) → Outside sys.log.start b → sys.store.disk b ≡ sys.store.cache b)
