-- ===== src/Fs/Trunc/Loops.antt =====
-- The two loops of `itrunc`.
use os_exp.Base.{
  ℕ, zero, suc, ◌+◌, ◌-◌, ◌<◌, ◌≡◌, refl, sym, ap, ◌∙◌, subst, fun_ext, ◌≢◌, inl, inr, true, false,
  arith, ltb, ◌==◌, Bool-cases, update, returned,
}
use os_exp.Block.{get_uint}
use os_exp.Fs.{Blocks, Superblock, bfree}
use os_exp.Fs.Inode.{Inode, ndirect}
use os_exp.Fs.File.{nindirect, maxfile}
use os_exp.Fs.File.Mapping.{block_of, IsFile}
use os_exp.Fs.Trunc.{free_addr, free_direct, free_entry, free_entries}
use os_exp.Fs.Trunc.Emptied.{
  cleared, cleared-suc, cleared-skip, Emptied, skip-Emptied, free-Emptied,
}

-- The inode without its first `i` addresses.
abbrev pub cut : Inode → ℕ → Inode
cut ip i = record ip { addrs = cleared i ip.addrs }

module _ (sb : Superblock) (s : Blocks) (ip : Inode) (w : IsFile sb s ip) where
  abbrev pub Left : ℕ → Blocks → Type 0
  Left = Emptied sb s (block_of ip s) (ip.addrs ndirect) w.mapping

  free_addr-Left :
      (i : ℕ) (t : Blocks)
      → i < ndirect
      → Left i t
      → (u : Blocks) × (free_addr sb i (cut ip i) t ≡ returned (cut ip (i + 1), u)) × Left (i + 1) u
  free_addr-Left i t h e =
      let here : cleared i ip.addrs i ≡ ip.addrs i = ground arith in
      let direct : ltb i ndirect ≡ true = ground arith in
      let block : block_of ip s i ≡ ip.addrs i = rw direct refl in
      elim (Bool-cases (ip.addrs i == 0)) [
        | inl y ↦
            let z : ip.addrs i ≡ 0 = ground arith in
            let same : cut ip i ≡ cut ip (i + 1) =
              ap (λ g. record ip { addrs = g }) (sym (fun_ext (cleared-skip i ip.addrs z))) in
            (
              t,
              rw (here, y) (ap (λ j. returned (j, t)) same),
              skip-Emptied sb s (block_of ip s) (ip.addrs ndirect) w.mapping i t (block ∙ z) e,
            )
        | inr n ↦
            let ne : block_of ip s i ≢ 0 = λ z. ground (arith, n, block, z) in
            let (u, eq, e') =
              free-Emptied sb s (block_of ip s) (ip.addrs ndirect) w.mapping i t (omega arith) ne
                e in
            let freed : bfree sb (ip.addrs i) t ≡ returned u =
              subst (λ b. bfree sb b t ≡ returned u) block eq in
            let same : record ip { addrs = update (cleared i ip.addrs) i 0 } ≡ cut ip (i + 1) =
              ap (λ g. record ip { addrs = g }) (sym (fun_ext (cleared-suc i ip.addrs))) in
            (u, rw (here, n, freed) (ap (λ j. returned (j, u)) same), e')
      ]

  pub free_direct-Left :
      (k i : ℕ) (t : Blocks)
      → i + k ≡ ndirect
      → Left i t
      → (u : Blocks) × (free_direct sb k i (cut ip i) t ≡ returned (cut ip ndirect, u))
        × Left ndirect u
  unfolding free_direct
  free_direct-Left zero i t h e =
      let at_end : i ≡ ndirect = omega arith in
      (t, ap (λ j. returned (cut ip j, t)) at_end, subst (λ j. Left j t) at_end e)
  free_direct-Left (suc k) i t h e =
      let (t', eq, e') = free_addr-Left i t (omega arith) e in
      let (u, rest, done) = free_direct-Left k (i + 1) t' (omega arith) e' in (u, rw eq rest, done)

  module _ (some_ind : ip.addrs ndirect ≢ 0) where
    free_entry-Left :
        (j : ℕ) (t : Blocks)
        → j < nindirect
        → Left (ndirect + j) t
        → (u : Blocks) × (free_entry sb (ip.addrs ndirect) j t ≡ returned u)
          × Left (ndirect + (j + 1)) u
    free_entry-Left j t h e =
        let far : ltb (ndirect + j) ndirect ≡ false = ground arith in
        let present : (ip.addrs ndirect == 0) ≡ false = ground (arith, some_ind) in
        let back : ndirect + j - ndirect ≡ j = omega arith in
        let next : ndirect + j + 1 ≡ ndirect + (j + 1) = omega arith in
        let as_before = e.contents (ip.addrs ndirect) (w.mapping.ind_in_use some_ind).0 in
        let block : block_of ip s (ndirect + j) ≡ get_uint (t.contents (ip.addrs ndirect)) j =
          rw (far, present, back, as_before) refl in
        elim (Bool-cases (get_uint (t.contents (ip.addrs ndirect)) j == 0)) [
          | inl y ↦ (
            t,
            rw y refl,
            subst (λ m. Left m t) next
                (skip-Emptied sb s (block_of ip s) (ip.addrs ndirect) w.mapping (ndirect + j) t
                  (block ∙ ground arith) e),
          )
          | inr n ↦
              let ne : block_of ip s (ndirect + j) ≢ 0 = λ z. ground (arith, n, block, z) in
              let (u, eq, e') =
                free-Emptied sb s (block_of ip s) (ip.addrs ndirect) w.mapping (ndirect + j) t
                  (omega arith) ne e in
              (
                u,
                rw n (subst (λ b. bfree sb b t ≡ returned u) block eq),
                subst (λ m. Left m u) next e',
              )
        ]

    pub free_entries-Left :
        (k j : ℕ) (t : Blocks)
        → j + k ≡ nindirect
        → Left (ndirect + j) t
        → (u : Blocks) × (free_entries sb (ip.addrs ndirect) k j t ≡ returned u) × Left maxfile u
    unfolding free_entries
    free_entries-Left zero j t h e =
        let at_end : ndirect + j ≡ maxfile = omega arith in
        (t, refl, subst (λ m. Left m t) at_end e)
    free_entries-Left (suc k) j t h e =
        let (t', eq, e') = free_entry-Left j t (omega arith) e in
        let (u, rest, done) = free_entries-Left k (j + 1) t' (omega arith) e' in
        (u, rw eq rest, done)
