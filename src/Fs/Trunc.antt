-- ===== src/Fs/Trunc.antt =====
-- `itrunc` of kernel/fs.c, on an inode that the caller has locked.
pub mod Free
pub mod Emptied
pub mod Loops
pub mod Result
use os_exp.Base.{
  ℕ, zero, suc, ◌+◌, ◌-◌, ◌*◌, ◌/◌, ◌%◌, ◌^◌, ◌≤◌, ◌<◌, min, ◌≡◌, refl, sym, ap, ◌∙◌, subst,
  fun_ext, ◌≢◌, ◌↔◌, ◌⊎◌, inl, inr, Bool, true, false, not, ◌&&◌, ◌||◌, Option, none, some, List,
  [], ◌∷◌, ◌++◌, map, append-nil, append_assoc, arith, ltb, leb, ◌==◌, if◌then◌else◌, ==_iff,
  Bool-cases, Option-cases, length, length-append, get_elem?, set, take, drop, All, elem, Distinct,
  update, update_self, update_ne, Outcome, returned, panicked, ◌>>=◌,
}
use os_exp.Block.{Block, get_uint}
use os_exp.Fs.{Blocks, Superblock, bfree}
use os_exp.Fs.Inode.{Inode, ndirect, iupdate}
use os_exp.Fs.File.{nindirect}

module _ (sb : Superblock) where
  abbrev pub free_addr : ℕ → Inode → Blocks → Outcome (Inode × Blocks)
  free_addr i ip s =
      if ip.addrs i == 0
      then returned (ip, s)
      else bfree sb (ip.addrs i) s >>= λ s'.
          returned (record ip { addrs = update ip.addrs i 0 }, s')

  -- The loop over the direct addresses, with `k` left.
  pub free_direct : ℕ → ℕ → Inode → Blocks → Outcome (Inode × Blocks)
  free_direct zero i ip s = returned (ip, s)
  free_direct (suc k) i ip s =
      free_addr i ip s >>= λ (p : Inode × Blocks). free_direct k (i + 1) p.0 p.1

  -- The loop over the numbers in the indirect block `a`, with `k` left.
  abbrev pub free_entry : ℕ → ℕ → Blocks → Outcome Blocks
  free_entry a j s =
      if get_uint (s.contents a) j == 0 then returned s else bfree sb (get_uint (s.contents a) j) s

  pub free_entries : ℕ → ℕ → ℕ → Blocks → Outcome Blocks
  free_entries a zero j s = returned s
  free_entries a (suc k) j s = free_entry a j s >>= λ s'. free_entries a k (j + 1) s'

  abbrev pub free_indirect : Inode × Blocks → Outcome (Inode × Blocks)
  free_indirect (ip, s) =
      if ip.addrs ndirect == 0
      then returned (ip, s)
      else free_entries (ip.addrs ndirect) nindirect 0 s
        >>= (λ s'. bfree sb (ip.addrs ndirect) s')
        >>= λ s'. returned (record ip { addrs = update ip.addrs ndirect 0 }, s')

  abbrev pub empty_file : Inode × Blocks → Outcome (Inode × Blocks)
  empty_file (ip, s) = let ip' = record ip { size = 0 } in returned (ip', iupdate sb ip' s)

  pub itrunc : Inode → Blocks → Outcome (Inode × Blocks)
  unfolding free_direct free_entries
  itrunc ip s = free_direct ndirect 0 ip s >>= free_indirect >>= empty_file
