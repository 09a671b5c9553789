-- ===== src/Fs/Bits.antt =====
-- The bits of a byte, by going through all of them.
use os_exp.Base.{
  ℕ, zero, suc, ◌-◌, ◌^◌, ◌<◌, ◌≡◌, refl, sym, Bool, true, false, not, ◌&&◌, ◌||◌, arith, ltb, ◌==◌,
}
use Prim.Native.Nat.{bit_and, bit_or}

all_below : ℕ → (ℕ → Bool) → Bool
all_below zero p = true
all_below (suc n) p = p n && all_below n p

all_below-holds : (n : ℕ) (p : ℕ → Bool) (x : ℕ) → all_below n p ≡ true → x < n → p x ≡ true
unfolding all_below
all_below-holds zero p x h lt = absurd (omega arith)
all_below-holds (suc n) p x h lt = ground (arith, all_below-holds n p x)

same_bool : Bool → Bool → Bool
same_bool true b = b
same_bool false b = not b

same_bool-eq : (a b : Bool) → same_bool a b ≡ true → a ≡ b
unfolding same_bool
same_bool-eq true b e = sym e
same_bool-eq false true e = cc
same_bool-eq false false e = refl

abbrev clear_at : ℕ → ℕ → Bool
clear_at x j = bit_and x (2 ^ j) == 0

-- A test of a byte and two positions in it.
abbrev everywhere : (ℕ → ℕ → ℕ → Bool) → Bool
everywhere p = all_below 256 (λ x. all_below 8 (λ k. all_below 8 (λ j. p x k j)))

everywhere-holds :
    (p : ℕ → ℕ → ℕ → Bool)
    → everywhere p ≡ true
    → (x k j : ℕ) → x < 256
    → k < 8
    → j < 8
    → p x k j ≡ true
everywhere-holds p e x k j hx hk hj =
    all_below-holds 8 (λ j. p x k j) j
      (all_below-holds 8 (λ k. all_below 8 (λ j. p x k j)) k
        (all_below-holds 256 (λ x. all_below 8 (λ k. all_below 8 (λ j. p x k j))) x e hx) hk)
      hj

or_table :
    everywhere (λ x k j.
      same_bool (clear_at (bit_or x (2 ^ k)) j) (not (j == k) && clear_at x j)
      && ltb (bit_or x (2 ^ k)) 256)
    ≡ true
unfolding all_below same_bool
or_table = refl

and_table :
    everywhere (λ x k j.
      same_bool (clear_at (bit_and x (255 - 2 ^ k)) j) ((j == k) || clear_at x j)
      && ltb (bit_and x (255 - 2 ^ k)) 256)
    ≡ true
unfolding all_below same_bool
and_table = refl

&&-true : (a b : Bool) → (a && b) ≡ true → (a ≡ true) × (b ≡ true)
&&-true true b e = (refl, e)
&&-true false b e = cc

pub bit_or-clear :
    (x k j : ℕ)
    → x < 256
    → k < 8
    → j < 8
    → ((bit_and (bit_or x (2 ^ k)) (2 ^ j) == 0) ≡ (not (j == k) && (bit_and x (2 ^ j) == 0)))
      × (bit_or x (2 ^ k) < 256)
bit_or-clear x k j hx hk hj =
    let (e, lt) = &&-true _ _ (everywhere-holds _ or_table x k j hx hk hj) in
    (same_bool-eq _ _ e, ground (arith, lt))

pub bit_and-clear :
    (x k j : ℕ)
    → x < 256
    → k < 8
    → j < 8
    → ((bit_and (bit_and x (255 - 2 ^ k)) (2 ^ j) == 0) ≡ ((j == k) || (bit_and x (2 ^ j) == 0)))
      × (bit_and x (255 - 2 ^ k) < 256)
bit_and-clear x k j hx hk hj =
    let (e, lt) = &&-true _ _ (everywhere-holds _ and_table x k j hx hk hj) in
    (same_bool-eq _ _ e, ground (arith, lt))
