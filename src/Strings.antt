-- ===== src/Strings.antt =====
-- The functions on bytes and strings, kernel/string.c, over a memory of bytes. The functions that
-- return their first argument return the memory here; an `int` result is given modulo 2^32.
pub mod Move
pub mod Compare
pub mod Copy
pub mod Safe
mod Tests
use os_exp.Base.{
  ℕ, zero, suc, ◌+◌, ◌-◌, ◌%◌, ◌^◌, Bool, not, ◌&&◌, ltb, leb, ◌==◌, if◌then◌else◌, update,
}
use os_exp.Base.Word.{diff32}

abbrev pub Memory : Type 0
Memory = ℕ → ℕ

-- `c` is cut to a byte.
pub memset : (dst c n : ℕ) → Memory → Memory
memset dst c zero mem = mem
memset dst c (suc n) mem = memset (dst + 1) c n (update mem dst (c % 2 ^ 8))

pub memcmp : (v1 v2 n : ℕ) → Memory → ℕ
memcmp v1 v2 zero mem = 0
memcmp v1 v2 (suc n) mem =
    let rest = memcmp (v1 + 1) (v2 + 1) n mem in
    if not (mem v1 == mem v2) then diff32 (mem v1) (mem v2) else rest

-- The two loops of `memmove`: down from the ends `d` and `s`, and up.
pub move_down : (d s n : ℕ) → Memory → Memory
move_down d s zero mem = mem
move_down d s (suc n) mem = move_down (d - 1) (s - 1) n (update mem (d - 1) (mem (s - 1)))

pub move_up : (d s n : ℕ) → Memory → Memory
move_up d s zero mem = mem
move_up d s (suc n) mem = move_up (d + 1) (s + 1) n (update mem d (mem s))

pub memmove : (dst src n : ℕ) → Memory → Memory
memmove dst src n mem =
    if n == 0
    then mem
    else if ltb src dst && ltb dst (src + n)
    then move_down (dst + n) (src + n) n mem
    else move_up dst src n mem

pub memcpy : (dst src n : ℕ) → Memory → Memory
memcpy dst src n mem = memmove dst src n mem

pub strncmp : (p q n : ℕ) → Memory → ℕ
strncmp p q zero mem = 0
strncmp p q (suc n) mem =
    let rest = strncmp (p + 1) (q + 1) n mem in
    if not (mem p == 0) && (mem p == mem q) then rest else diff32 (mem p) (mem q)

-- The second loop of `strncpy`, and the first one with what follows it.
pub pad : (s n : ℕ) → Memory → Memory
pad s zero mem = mem
pad s (suc n) mem = pad (s + 1) n (update mem s 0)

-- `n` is the `int`, or 0 for a negative one, which copies nothing either.
pub strncpy : (s t n : ℕ) → Memory → Memory
unfolding pad
strncpy s t zero mem = mem
strncpy s t (suc n) mem =
    let mem' = update mem s (mem t) in
    let rest = strncpy (s + 1) (t + 1) n mem' in
    if not (mem t == 0) then rest else pad (s + 1) n mem'

-- The loop of `safestrcpy`, with `n` as it is before `--n`.
pub safe_loop : (s t n : ℕ) → Memory → Memory
safe_loop s t zero mem = mem
safe_loop s t (suc zero) mem = update mem s 0
safe_loop s t (suc (suc n)) mem =
    let mem' = update mem s (mem t) in
    let rest = safe_loop (s + 1) (t + 1) (suc n) mem' in
    if not (mem t == 0) then rest else update mem' (s + 1) 0

pub safestrcpy : (s t n : ℕ) → Memory → Memory
unfolding safe_loop
safestrcpy s t n mem = if n == 0 then mem else safe_loop s t n mem
