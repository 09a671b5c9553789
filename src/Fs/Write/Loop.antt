-- ===== src/Fs/Write/Loop.antt =====
-- The loop of `writei`.
use os_exp.Base.{
  ℕ, zero, suc, ◌+◌, ◌-◌, ◌*◌, ◌/◌, ◌%◌, ◌≤◌, ◌<◌, ◌≡◌, refl, sym, ap, ◌∙◌, subst, ◌≢◌, ◌⊎◌, inl,
  inr, panicked, false, ◌&&◌, arith, ltb, leb, ◌==◌, if◌then◌else◌, Bool-cases, Outcome, returned,
}
use os_exp.Base.Word.{u32_mod}
use os_exp.Block.{bsize}
use os_exp.Fs.{Blocks, Superblock, change}
use os_exp.Fs.Inode.{Inode, ndirect}
use os_exp.Fs.File.{maxfile, Mapped}
use os_exp.Fs.File.Mapping.{block_of, byte, IsFile}
use os_exp.Fs.File.Kept.{change-Logs, trans-Logs}
use os_exp.Fs.File.Entry.{change-used}
use os_exp.Fs.File.Found.{Found, stays}
use os_exp.Fs.File.Bmap.{bmap-Found}
use os_exp.Fs.Write.{
  Source, put_bytes, copied, Progress, round_size, log_full, write_round, write_loop,
}
use os_exp.Fs.Write.Chunk.{change-block_of, change-own}
use os_exp.Fs.Write.Written.{chunk_bytes, outside_chunk, Written, stay-Written, bmap-Written}

module _ (sb : Superblock) (src : Source) (start n : ℕ) where
  -- One round, with the rounds after it.
  round-bytes :
      (tot off m : ℕ) (ip : Inode) (s : Blocks)
      → IsFile sb s ip
      → off ≡ start + tot
      → m ≤ bsize - off % bsize
      → off / bsize < maxfile
      → block_of ip s (off / bsize) ≢ 0
      → let r = block_of ip s (off / bsize) in
        let t = change r (put_bytes (s.contents r) (off % bsize) src.bytes tot m) s in
        (o : ℕ)
        → o < maxfile * bsize
        → byte ip t o ≡ (
            if leb (start + tot) o && ltb o (start + (tot + m))
            then src.bytes (o - start)
            else byte ip s o)
  round-bytes tot off m ip s w e hm hk ne o h =
      let r = block_of ip s (off / bsize) in
      let x = put_bytes (s.contents r) (off % bsize) src.bytes tot m in
      let (_, bytes) = change-own sb s ip (off / bsize) x w hk ne in
      bytes (o / bsize) (omega arith) (o % bsize) ∙ elim (Bool-cases (o / bsize == off / bsize)) [
        | inl y ↦
            let same : o / bsize ≡ off / bsize = ground arith in
            let present : (r == 0) ≡ false = ground (arith, ne) in
            let here : byte ip s o ≡ s.contents r (o % bsize) = rw (same, present) refl in
            rw (y, here) (chunk_bytes (s.contents r) src.bytes start tot off m o e hm same)
        | inr f ↦ let away = outside_chunk start tot off m o e hm f in rw (f, away) refl
      ]

  chunk-Written :
      (tot off m : ℕ) (ip : Inode) (s : Blocks) (p : Progress)
      → IsFile sb s ip
      → off ≡ start + tot
      → m ≤ bsize - off % bsize
      → off / bsize < maxfile
      → block_of ip s (off / bsize) ≢ 0
      → let r = block_of ip s (off / bsize) in
        Written sb src start n
          (tot + m)
          ip
          (change r (put_bytes (s.contents r) (off % bsize) src.bytes tot m) s)
          p
        → Written sb src start n tot ip s p
  chunk-Written tot off m ip s p w e hm hk ne l =
      let r = block_of ip s (off / bsize) in
      let x = put_bytes (s.contents r) (off % bsize) src.bytes tot m in
      let t = change r x s in
      let (d, u) = w.mapping.in_use (off / bsize) hk ne in
      let not_ind : ip.addrs ndirect ≢ r = λ q. w.mapping.apart (off / bsize) hk ne (sym q) in
      record {
        valid = l.valid;
        fields = l.fields;
        moved = l.moved;
        low = omega (arith, l.low);
        high = l.high;
        bytes = λ o h.
            l.bytes o h
            ∙ ap
                (λ v.
                  if leb (start + (tot + m)) o && ltb o (start + p.0)
                  then src.bytes (o - start)
                  else v)
                (round-bytes tot off m ip s w e hm hk ne o h)
            ∙ ground (arith, l.low);
        stays = λ k ne'.
            l.stays k (λ z. ne' (sym (change-block_of s ip r x not_ind k) ∙ z))
            ∙ change-block_of s ip r x not_ind k;
        present = λ o lo hi. elim (Bool-cases (ltb o (start + (tot + m)))) [
          | inl y ↦
              let same : o / bsize ≡ off / bsize = ground (arith, lo) in
              let before : block_of ip t (o / bsize) ≡ r =
                change-block_of s ip r x not_ind (o / bsize) ∙ ap (block_of ip s) same in
              let still = l.stays (o / bsize) (λ z. ne (sym before ∙ z)) in
              λ z. ne (sym before ∙ sym still ∙ z)
          | inr f ↦ l.present o (ground arith) hi
        ];
        grows = λ b h v. l.grows b h (change-used sb s r x d b h ∙ v);
        logs = trans-Logs s t p.3 (change-Logs s r x) l.logs;
        avoids = λ c h v a.
            l.avoids c h (change-used sb s r x d c h ∙ v)
              ((λ k hk' q. a.0 k hk' (sym (change-block_of s ip r x not_ind k) ∙ q)), a.1);
        ends = l.ends;
      }

  -- The rounds return, or `log_write` panics.
  abbrev Result : ℕ → Inode → Blocks → Outcome Progress → Type 0
  Result tot ip s c =
      ((p : Progress) × (c ≡ returned p) × Written sb src start n tot ip s p)
      ⊎ (c ≡ panicked "too big a transaction")

  round-Result :
      (tot off : ℕ) (ip : Inode) (s : Blocks) (rest : ℕ → ℕ → Inode → Blocks → Outcome Progress)
      (m : Mapped)
      → off ≡ start + tot
      → tot < n
      → off / bsize < maxfile
      → n ≤ src.readable
      → Found sb s ip (off / bsize) m
      → ((ip' : Inode) (s' : Blocks)
          → IsFile sb s' ip'
          → Result
              (tot + round_size tot off n)
              ip'
              s'
              (rest (tot + round_size tot off n) (off + round_size tot off n) ip' s'))
      → Result tot ip s (write_round sb src tot off n rest m)
  round-Result tot off ip s rest (r, jp, t) e lt hk hr f next = elim (Bool-cases (r == 0)) [
    | inl y ↦ inl (
      (tot, off, jp, t),
      rw y refl,
      bmap-Written sb src start n tot ip jp s t (tot, off, jp, t) f.kept
          (stays sb s ip (off / bsize) (r, jp, t) f)
          (stay-Written sb src start n tot off jp t f.kept.valid e (omega arith)
            (inr (f.full (ground arith)))),
    )
    | inr ne ↦
        let m = round_size tot off n in
        let x = put_bytes (t.contents r) (off % bsize) src.bytes tot m in
        let all : copied src tot m ≡ m = ground arith in
        let here : block_of jp t (off / bsize) ≡ r = f.here in
        let there : block_of jp t (off / bsize) ≢ 0 = λ z. ground (arith, here, z, ne) in
        let (valid, _) =
          change-own sb t jp (off / bsize)
            (put_bytes (t.contents (block_of jp t (off / bsize))) (off % bsize) src.bytes tot m)
            f.kept.valid hk there in
        let whole : ltb m m ≡ false = ground arith in
        elim (Bool-cases (log_full sb t)) [
          | inl full ↦ inr (rw (ne, all, whole, full) refl)
          | inr room ↦
              rw (ne, all, whole, room)
                (elim (next jp (change r x t) (
                  subst
                    (λ b.
                      IsFile sb
                        (change b (put_bytes (t.contents b) (off % bsize) src.bytes tot m) t) jp)
                    here valid)) [
                      | inl (p, eq, l) ↦ inl (
                        p,
                        eq,
                        bmap-Written sb src start n tot ip jp s t p f.kept
                            (stays sb s ip (off / bsize) (r, jp, t) f)
                            (chunk-Written tot off m jp t p f.kept.valid e (omega arith) hk there (
                              subst
                                (λ b.
                                  Written sb src start n (tot + m) jp
                                    (change b
                                      (put_bytes (t.contents b) (off % bsize) src.bytes tot m) t)
                                    p)
                                (sym here) l)),
                      )
                      | inr eq ↦ inr eq
                    ])
        ]
  ]

  pub write_loop-Written :
      (small : sb.size ≤ u32_mod) (fuel tot off : ℕ) (ip : Inode) (s : Blocks)
      → IsFile sb s ip
      → off ≡ start + tot
      → tot ≤ n
      → start + n ≤ maxfile * bsize
      → n ≤ src.readable
      → n < tot + fuel
      → Result tot ip s (write_loop sb src fuel tot off n ip s)
  unfolding write_loop
  write_loop-Written small zero tot off ip s w e le fits hr enough = absurd (omega arith)
  write_loop-Written small (suc fuel) tot off ip s w e le fits hr enough =
      elim (Bool-cases (ltb tot n)) [
        | inl y ↦
            let lt : tot < n = ground arith in
            let in_file : off / bsize < maxfile = omega arith in
            let m = round_size tot off n in
            let moves : 0 < m = ground arith in
            let (found, eq, f) = bmap-Found sb small s ip (off / bsize) w in_file in
            rw (y, eq)
              (round-Result tot off ip s
                (λ tot' off' ip' s'. write_loop sb src fuel tot' off' n ip' s') found e lt in_file
                hr f
                λ ip' s' v.
                  write_loop-Written small fuel (tot + m) (off + m) ip' s' v (omega arith)
                    (ground arith) fits hr (omega arith))
        | inr no_more ↦ inl (
          (tot, off, ip, s),
          rw no_more refl,
          stay-Written sb src start n tot off ip s w e le (inl (ground arith)),
        )
      ]
