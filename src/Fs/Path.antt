-- ===== src/Fs/Path.antt =====
-- The elements of a path name, `skipelem` of kernel/fs.c. A string is the list of its characters, without
-- the 0 at its end; `name` is a buffer of DIRSIZ bytes.
pub mod Elements
pub mod Skip
mod Tests
use os_exp.Base.{
  char_at, ℕ, zero, suc, ◌+◌, ◌-◌, ◌*◌, ◌/◌, ◌%◌, ◌^◌, ◌≤◌, ◌<◌, min, ◌≡◌, refl, sym, ap, ◌∙◌,
  subst, fun_ext, ◌≢◌, ◌↔◌, ◌⊎◌, inl, inr, Bool, true, false, not, ◌&&◌, ◌||◌, Option, none, some,
  List, [], ◌∷◌, ◌++◌, map, append-nil, append_assoc, arith, ltb, leb, ◌==◌, if◌then◌else◌, ==_iff,
  Bool-cases, Option-cases, length, length-append, get_elem?, set, take, drop, All, elem, Distinct,
  update, update_self, update_ne, Outcome, returned, panicked, ◌>>=◌,
}

abbrev pub dirsiz : ℕ
dirsiz = 14

abbrev pub slash : ℕ
slash = b'/'

-- `while(*path == '/') path++;`
pub skip_slashes : List ℕ → List ℕ
skip_slashes [] = []
skip_slashes (c ∷ cs) = let rest = skip_slashes cs in if c == slash then rest else c ∷ cs

-- The number of rounds of `while(*path != '/' && *path != 0) path++;`
pub element_length : List ℕ → ℕ
element_length [] = 0
element_length (c ∷ cs) = let rest = element_length cs in if c == slash then 0 else suc rest

-- `memmove(name, s, n)`
abbrev pub move_name : (ℕ → ℕ) → List ℕ → ℕ → ℕ → ℕ
move_name name s n i = if ltb i n then char_at s i else name i

abbrev pub set_name : (ℕ → ℕ) → List ℕ → ℕ → ℕ → ℕ
set_name name s len =
    if leb dirsiz len then move_name name s dirsiz else update (move_name name s len) len 0

-- The rest of `skipelem` after the first loop.
pub after_slashes : List ℕ → (ℕ → ℕ) → Option (List ℕ × (ℕ → ℕ))
unfolding skip_slashes element_length
after_slashes [] name = none
after_slashes (c ∷ cs) name =
    let len = element_length (c ∷ cs) in
    some (skip_slashes (drop len (c ∷ cs)), set_name name (c ∷ cs) len)

pub skipelem : List ℕ → (ℕ → ℕ) → Option (List ℕ × (ℕ → ℕ))
unfolding after_slashes
skipelem path name = after_slashes (skip_slashes path) name
