-- ===== src/Log/Steps.antt =====
-- Concurrent operations, and the commit of the last of them, which runs without the lock of the log.
use os_exp.Base.{
  ℕ, ◌<◌, ◌≡◌, Bool, false, some, List, [], ◌∷◌, ◌++◌, length, elem, if◌then◌else◌, returned,
}
use os_exp.Base.Word.{u32_mod}
use os_exp.Block.{Block}
use os_exp.Storage.{Store, done}
use os_exp.Log.{
  Log, cleared, max_op_blocks, begin_op, leave, finished, write_log, write_head, install_trans,
}
use os_exp.Log.Redo.{Outside}
use os_exp.Log.Absorb.{write_block}

-- Where the commit is: nobody commits, or the call of `commit` that comes next, or `commit` has returned.
pub data Phase : Type 0 where
  idle : Phase
  copying : Phase
  heading : Phase
  installing : Phase
  clearing : Phase
  leaving : Phase

-- The log, the store, for each operation in progress the blocks that it has logged, and the commit.
pub record System : Type 0 where
  pub log : Log
  pub store : Store
  pub ops : List (List ℕ)
  pub phase : Phase

abbrev pub with_block : ℕ → List ℕ → List ℕ
with_block b blocks = if elem b blocks then blocks else b ∷ blocks

abbrev pub state : Log → Store → List (List ℕ) → Phase → System
state lg s ops ph = record { log = lg; store = s; ops = ops; phase = ph }

abbrev pub after_end : Bool → Phase → Phase
after_end commits ph = if commits then copying else ph

-- An operation begins, changes and logs a block, or ends; or the commit makes its next call. An operation
-- may log as often as it likes while it has logged fewer than `max_op_blocks` different blocks.
pub data Step : System → System → Type 0 where
  begin :
      {lg lg' : Log} {s : Store} {ops : List (List ℕ)} {ph : Phase}
      → begin_op lg ≡ some lg'
      → Step (state lg s ops ph) (state lg' s ([] ∷ ops) ph)
  write :
      {lg lg' : Log} {s t : Store} {ph : Phase} (earlier later ops ops' : List (List ℕ))
      (blocks : List ℕ) (b : ℕ) (x : Block)
      → ops ≡ earlier ++ (blocks ∷ later)
      → ops' ≡ earlier ++ (with_block b blocks ∷ later)
      → length blocks < max_op_blocks
      → Outside lg.start b
      → b < u32_mod
      → write_block lg b x s ≡ done lg' t
      → Step (state lg s ops ph) (state lg' t ops' ph)
  finish :
      {lg lg' : Log} {s : Store} {ph : Phase} (earlier later ops ops' : List (List ℕ))
      (blocks : List ℕ) (commits : Bool)
      → ops ≡ earlier ++ (blocks ∷ later)
      → ops' ≡ earlier ++ later
      → leave lg ≡ returned (commits, lg')
      → Step (state lg s ops ph) (state lg' s ops' (after_end commits ph))
  nothing :
      {lg : Log} {s : Store} {ops : List (List ℕ)}
      → lg.lh.n ≡ 0
      → Step (state lg s ops copying) (state lg s ops leaving)
  copied :
      {lg : Log} {s t : Store} {ops : List (List ℕ)}
      → 0 < lg.lh.n
      → write_log lg s ≡ done tt t
      → Step (state lg s ops copying) (state lg t ops heading)
  headed :
      {lg : Log} {s t : Store} {ops : List (List ℕ)}
      → write_head lg s ≡ done tt t
      → Step (state lg s ops heading) (state lg t ops installing)
  installed :
      {lg : Log} {s t : Store} {ops : List (List ℕ)}
      → install_trans lg false s ≡ done tt t
      → Step (state lg s ops installing) (state (cleared lg) t ops clearing)
  emptied :
      {lg : Log} {s t : Store} {ops : List (List ℕ)}
      → write_head lg s ≡ done tt t
      → Step (state lg s ops clearing) (state lg t ops leaving)
  release :
      {lg : Log} {s : Store} {ops : List (List ℕ)}
      → Step (state lg s ops leaving) (state (finished lg) s ops idle)

pub data Reach (s : System) : System → Type 0 where
  here : Reach s s
  next : {t u : System} → Reach s t → Step t u → Reach s u
