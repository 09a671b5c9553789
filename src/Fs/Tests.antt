-- ===== src/Fs/Tests.antt =====
-- A disk of ten blocks, the bitmap in block 2 and blocks 0 and 2 in use.
use os_exp.Base.{
  ℕ, ◌/◌, ◌<◌, ◌≡◌, refl, sym, ◌∙◌, subst, ◌⊎◌, inl, inr, Bool, true, false, ◌&&◌, arith, ◌==◌,
  if◌then◌else◌,
}
use os_exp.Fs.{Blocks, Superblock, bpb, balloc, balloc_loop, find_free, bzero}
use os_exp.Fs.Bitmap.{used}
use os_exp.Fs.Alloc.{IsBitmap, Allocated, balloc_lem}

abbrev sb : Superblock
sb = record { size = 10; ninodes = 8; inodestart = 1; bmapstart = 2 }

abbrev formatted : Blocks
formatted = record { contents = λ b i. if (b == 2) && (i == 0) then 5 else 0; logged = λ b. false }

byte-bound : (c : Bool) → (if c then 5 else 0) < 256
byte-bound true = omega arith
byte-bound false = omega arith

formatted-IsBitmap : IsBitmap sb formatted
formatted-IsBitmap = record {
  bytes = λ b h i. byte-bound _;
  own = λ b h. let first : b / bpb ≡ 0 = omega arith in rw first (omega arith, refl);
  boot = refl;
}

-- The first free block is block 1.
gives_1 : (balloc sb formatted).0 ≡ 1
unfolding balloc balloc_loop find_free bzero
gives_1 = refl

abbrev taken : Blocks
taken = (balloc sb formatted).1

balloc_lem_example :
    let (r, s') = balloc sb formatted in
    ((r ≡ 0) × (s' ≡ formatted) × ((b : ℕ) → b < 10 → used sb formatted b ≡ true))
    ⊎ (Allocated sb formatted r s' × ((b : ℕ) → b < r → used sb formatted b ≡ true))
balloc_lem_example = balloc_lem sb formatted formatted-IsBitmap

taken-Allocated : Allocated sb formatted 1 taken
taken-Allocated = elim (balloc_lem sb formatted formatted-IsBitmap) [
  | inl (z, e, u) ↦ cc (sym z ∙ gives_1)
  | inr (a, u) ↦ subst (λ r. Allocated sb formatted r taken) gives_1 a
]
