-- ===== src/Fs/Write/Logged.antt =====
-- How many blocks `writei` logs.
use os_exp.Base.{
  ℕ, zero, suc, ◌+◌, ◌-◌, ◌*◌, ◌/◌, ◌%◌, ◌≤◌, ◌<◌, min, ◌≡◌, refl, subst, ◌≢◌, inl, inr, Bool, true,
  false, Option, none, some, arith, ltb, ◌==◌, if◌then◌else◌, Bool-cases, update, Outcome, returned,
  panicked,
}
use os_exp.Block.{Block, bsize, get_uint, put_uint}
use os_exp.Log.{log_blocks}
use os_exp.Fs.{
  Blocks, Superblock, change, balloc, balloc_loop, bzero, find_free, bpb, bblock, after, mark,
}
use os_exp.Fs.Inode.{Inode, ndirect}
use os_exp.Fs.File.{maxfile, nindirect, Mapped, slot, entry, indirect, bmap}
use os_exp.Fs.Write.{
  put_bytes, Source, Progress, copied, round_size, count_logged, log_full, write_round, write_loop,
}

-- The rounds of `writei` for `k` bytes from `off` on.
abbrev pub rounds : (off k : ℕ) → ℕ
rounds off k = if k == 0 then 0 else (off % bsize + k - 1) / bsize + 1

rounds-less :
    (off k : ℕ)
    → 0 < k
    → let m = min k (bsize - off % bsize) in rounds (off + m) (k - m) + 1 ≤ rounds off k
rounds-less off k h =
    let some_left : (k == 0) ≡ false = ground (arith, h) in
    let m = min k (bsize - off % bsize) in
    elim (Bool-cases (k - m == 0)) [
      | inl y ↦ rw (some_left, y) (omega arith)
      | inr o ↦
          let more : k - m ≢ 0 = ground (arith, o) in
          let whole : m ≡ bsize - off % bsize = omega arith in
          let start : (off + m) % bsize ≡ 0 = omega arith in rw (some_left, o, start) (omega arith)
    ]

count_logged-update :
    (n b : ℕ) (f : ℕ → Bool)
    → count_logged n (update f b true) ≤ count_logged n f + (if ltb b n then 1 else 0)
unfolding count_logged
count_logged-update zero b f = omega arith
count_logged-update (suc n) b f = elim (Bool-cases (n == b)) [
  | inl y ↦ rw y (elim (Bool-cases (f n)) [
    | inl l ↦ rw l (ground (arith, y, count_logged-update n b f))
    | inr l ↦ rw l (ground (arith, y, count_logged-update n b f))
  ])
  | inr o ↦ rw o (elim (Bool-cases (f n)) [
    | inl l ↦ rw l (ground (arith, o, count_logged-update n b f))
    | inr l ↦ rw l (ground (arith, o, count_logged-update n b f))
  ])
]

module _ (sb : Superblock) where
  abbrev pub logged_count : Blocks → ℕ
  logged_count s = count_logged sb.size s.logged

  logged_count-change :
      (b : ℕ) (x : Block) (s : Blocks) → logged_count (change b x s) ≤ logged_count s + 1
  logged_count-change b x s = ground (arith, count_logged-update sb.size b s.logged)

  logged_count-after :
      (b : ℕ) (s : Blocks) (rest : ℕ × Blocks) (found : Option ℕ)
      → logged_count rest.1 ≤ logged_count s + 2
      → logged_count (after sb b s rest found).1 ≤ logged_count s + 2
  unfolding bzero
  logged_count-after b s rest none h = h
  logged_count-after b s rest (some bi) h =
      let marked = change (bblock b sb) (mark (s.contents (bblock b sb)) bi) s in
      omega (
        arith,
        logged_count-change (bblock b sb) (mark (s.contents (bblock b sb)) bi) s,
        logged_count-change (b + bi) (λ _. 0) marked,
      )

  logged_count-balloc_loop :
      (fuel b : ℕ) (s : Blocks) → logged_count (balloc_loop sb fuel b s).1 ≤ logged_count s + 2
  unfolding balloc_loop
  logged_count-balloc_loop zero b s = omega arith
  logged_count-balloc_loop (suc fuel) b s = elim (Bool-cases (ltb b sb.size)) [
    | inl y ↦ rw y (
        logged_count-after b s (balloc_loop sb fuel (b + bpb) s)
          (find_free (s.contents (bblock b sb)) (min bpb (sb.size - b)) 0)
          (logged_count-balloc_loop fuel (b + bpb) s))
    | inr o ↦ rw o (omega arith)
  ]

  logged_count-balloc : (s : Blocks) → logged_count (balloc sb s).1 ≤ logged_count s + 2
  unfolding balloc
  logged_count-balloc s = logged_count-balloc_loop (sb.size / bpb + 1) 0 s

  logged_count-slot :
      (ip : Inode) (k : ℕ) (s : Blocks) → logged_count (slot sb ip k s).2 ≤ logged_count s + 2
  unfolding slot
  logged_count-slot ip k s = elim (Bool-cases (ip.addrs k == 0)) [
    | inl y ↦ rw y (logged_count-balloc s)
    | inr o ↦ rw o (omega arith)
  ]

  logged_count-entry :
      (a i : ℕ) (ip : Inode) (s : Blocks) → logged_count (entry sb a i ip s).2 ≤ logged_count s + 3
  logged_count-entry a i ip s = elim (Bool-cases (get_uint (s.contents a) i == 0)) [
    | inr o ↦ rw o (omega arith)
    | inl y ↦
        let (r, s') = balloc sb s in
        rw y (elim (Bool-cases (r == 0)) [
          | inl z ↦ rw z (omega (arith, logged_count-balloc s))
          | inr z ↦ rw z (
              omega (
                arith,
                logged_count-balloc s,
                logged_count-change a (put_uint (s'.contents a) i r) s',
              ))
        ])
  ]

  logged_count-indirect :
      (i : ℕ) (m : Mapped) → logged_count (indirect sb i m).2 ≤ logged_count m.2 + 3
  logged_count-indirect i (a, ip, s) = elim (Bool-cases (a == 0)) [
    | inl y ↦ rw y (omega arith)
    | inr o ↦ rw o (logged_count-entry a i ip s)
  ]

  -- `bmap` logs at most five blocks.
  logged_count-bmap :
      (ip : Inode) (bn : ℕ) (s : Blocks)
      → bn < maxfile
      → (m : Mapped) × (bmap sb ip bn s ≡ returned m) × (logged_count m.2 ≤ logged_count s + 5)
  unfolding bmap
  logged_count-bmap ip bn s h = elim (Bool-cases (ltb bn ndirect)) [
    | inl y ↦ rw y (slot sb ip bn s, refl, omega (arith, logged_count-slot ip bn s))
    | inr o ↦
        let inside : ltb (bn - ndirect) nindirect ≡ true = ground (arith, o, h) in
        let first = slot sb ip ndirect s in
        rw (o, inside)
          (
            indirect sb (bn - ndirect) first,
            refl,
            omega
                (arith, logged_count-slot ip ndirect s, logged_count-indirect (bn - ndirect) first),
          )
  ]

  module _ (src : Source) (n : ℕ) where
    -- The log has grown to at most `limit` blocks, or it could have been full below that limit.
    abbrev pub Bounded : (limit : ℕ) → Outcome Progress → Type 0
    Bounded limit (returned p) = logged_count p.3 ≤ limit
    Bounded limit (panicked why) = log_blocks ≤ limit

    Bounded-mono : (k l : ℕ) (c : Outcome Progress) → k ≤ l → Bounded k c → Bounded l c
    Bounded-mono k l (returned p) h b = omega (arith, h, b)
    Bounded-mono k l (panicked why) h b = omega (arith, h, b)

    round-Bounded :
        (tot off limit : ℕ) (rest : ℕ → ℕ → Inode → Blocks → Outcome Progress) (m : Mapped)
        → logged_count m.2 + 1 ≤ limit
        → ((ip : Inode) (s : Blocks)
            → logged_count s ≤ logged_count m.2 + 1
            → Bounded limit (rest (tot + round_size tot off n) (off + round_size tot off n) ip s))
        → Bounded limit (write_round sb src tot off n rest m)
    unfolding log_full
    round-Bounded tot off limit rest (r, ip, s) h next =
        let m = round_size tot off n in
        let x = put_bytes (s.contents r) (off % bsize) src.bytes tot (copied src tot m) in
        elim (Bool-cases (r == 0)) [
          | inl y ↦ rw y (omega (arith, h))
          | inr o ↦ elim (Bool-cases (ltb (copied src tot m) m)) [
            | inl y ↦ rw (o, y) (omega (arith, h))
            | inr all ↦ elim (Bool-cases (log_full sb s)) [
              | inl full ↦ rw (o, all, full) (ground (arith, h, full))
              | inr room ↦ rw (o, all, room) (next ip (change r x s) (logged_count-change r x s))
            ]
          ]
        ]

    -- Each round logs at most six blocks.
    pub write_loop-Bounded :
        (fuel tot off : ℕ) (ip : Inode) (s : Blocks)
        → off + (n - tot) ≤ maxfile * bsize
        → Bounded
            (logged_count s + 6 * rounds off (n - tot))
            (write_loop sb src fuel tot off n ip s)
    unfolding write_loop
    write_loop-Bounded zero tot off ip s h = omega arith
    write_loop-Bounded (suc fuel) tot off ip s h = elim (Bool-cases (ltb tot n)) [
      | inr o ↦ rw o (omega arith)
      | inl y ↦
          let size = round_size tot off n in
          let here : off / bsize < maxfile = ground (arith, y, h) in
          let some_left : 0 < n - tot = ground (arith, y) in
          let left : n - tot - size ≡ n - (tot + size) = omega arith in
          let one_less : rounds (off + size) (n - (tot + size)) + 1 ≤ rounds off (n - tot) =
            subst (λ k. rounds (off + size) k + 1 ≤ rounds off (n - tot)) left
              (rounds-less off (n - tot) some_left) in
          let (m, eq, c) = logged_count-bmap ip (off / bsize) s here in
          rw (y, eq)
            (round-Bounded tot off (logged_count s + 6 * rounds off (n - tot))
              (λ tot' off' ip' s'. write_loop sb src fuel tot' off' n ip' s') m
              (omega (arith, c, one_less))
              λ ip' s' c'.
                Bounded-mono (logged_count s' + 6 * rounds (off + size) (n - (tot + size)))
                  (logged_count s + 6 * rounds off (n - tot))
                  (write_loop sb src fuel (tot + size) (off + size) n ip' s')
                  (omega (arith, c, c', one_less))
                  (write_loop-Bounded fuel (tot + size) (off + size) ip' s' (ground (arith, y, h))))
    ]
