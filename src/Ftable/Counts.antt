-- ===== src/Ftable/Counts.antt =====
-- The reference counts over any sequence of calls.
use os_exp.Base.{
  ℕ, zero, suc, ◌+◌, ◌-◌, ◌≤◌, ◌<◌, ◌≡◌, refl, sym, ap, ◌∙◌, ◌≢◌, inl, inr, false, Option, none,
  some, List, [], ◌∷◌, arith, ltb, ◌==◌, if◌then◌else◌, Bool-cases, update, Outcome, returned,
  ◌>>=◌,
}
use os_exp.Ftable.{
  nfile, File, Ftable, filealloc_loop, filealloc, filedup, fileclose, Closing, fd_none,
}

-- How often an entry is referred to.
unfoldable pub count : ℕ → List ℕ → ℕ
count f [] = 0
count f (x ∷ xs) = let rest = count f xs in if f == x then suc rest else rest

-- One reference less.
unfoldable pub remove_one : ℕ → List ℕ → List ℕ
remove_one f [] = []
remove_one f (x ∷ xs) = let rest = remove_one f xs in if f == x then xs else x ∷ rest

pub data Call : Type 0 where
  open_ : Call
  dup : (f : ℕ) → Call
  close : (f : ℕ) → Call

-- The table, and the references that are held.
abbrev pub Held : Type 0
Held = Ftable × List ℕ

abbrev opened : List ℕ → Option ℕ × Ftable → Held
opened refs (none, t) = (t, refs)
opened refs (some f, t) = (t, f ∷ refs)

abbrev one_more : ℕ → List ℕ → Ftable → Outcome Held
one_more f refs t = returned (t, f ∷ refs)

abbrev one_less : ℕ → List ℕ → Closing × Ftable → Outcome Held
one_less f refs (left, t) = returned (t, remove_one f refs)

-- A call; `filedup` and `fileclose` are called with a reference that is held.
unfoldable pub call : Call → Held → Outcome Held
call open_ h = returned (opened h.1 (filealloc h.0))
call (dup f) h = if ltb 0 (count f h.1) then filedup f h.0 >>= one_more f h.1 else returned h
call (close f) h = if ltb 0 (count f h.1) then fileclose f h.0 >>= one_less f h.1 else returned h

unfoldable pub run : List Call → Held → Outcome Held
run [] h = returned h
run (c ∷ cs) h = call c h >>= λ h'. run cs h'

abbrev pub IsCounted : Held → Type 0
IsCounted h = (f : ℕ) → (h.0 f).ref ≡ count f h.1

count-remove_one :
    (f g : ℕ) (xs : List ℕ)
    → count g (remove_one f xs) ≡ (if g == f then count g xs - 1 else count g xs)
unfolding count remove_one
count-remove_one f g [] = ground arith
count-remove_one f g (x ∷ xs) = elim (Bool-cases (f == x)) [
  | inl y ↦ rw y (ground (arith, y))
  | inr o ↦ rw o (ground (arith, o, count-remove_one f g xs))
]

filealloc_loop_lem :
    (n f : ℕ) (t : Ftable) (refs : List ℕ)
    → IsCounted (t, refs)
    → IsCounted (opened refs (filealloc_loop n f t))
unfolding filealloc_loop count
filealloc_loop_lem zero f t refs w = w
filealloc_loop_lem (suc n) f t refs w = elim (Bool-cases ((t f).ref == 0)) [
  | inl y ↦ rw y (λ g. elim (Bool-cases (g == f)) [
    | inl e ↦
        let same : g ≡ f = ground (arith, e) in
        let unused : (t f).ref ≡ 0 = ground (arith, y) in
        rw e (ap suc (sym (sym (w g) ∙ ap (λ k. (t k).ref) same ∙ unused)))
    | inr ne ↦ rw ne (w g)
  ])
  | inr o ↦ rw o (filealloc_loop_lem n (f + 1) t refs w)
]

abbrev pub CallResult : Outcome Held → Type 0
CallResult c = (h' : Held) × (c ≡ returned h') × IsCounted h'

-- The entry `f` loses a reference.
left_refs :
    (t : Ftable) (refs : List ℕ) (f g : ℕ) (file : File)
    → IsCounted (t, refs)
    → file.ref ≡ (t f).ref - 1
    → (update t f file g).ref ≡ count g (remove_one f refs)
left_refs t refs f g file w e = elim (Bool-cases (g == f)) [
  | inl y ↦
      let same : g ≡ f = ground (arith, y) in
      rw (y, count-remove_one f g refs, y)
        (e ∙ ap (λ k. k - 1) (ap (λ k. (t k).ref) (sym same) ∙ w g))
  | inr o ↦ rw (o, count-remove_one f g refs, o) (w g)
]

call-IsCounted : (c : Call) (h : Held) → IsCounted h → CallResult (call c h)
unfolding call filealloc filedup fileclose count
call-IsCounted open_ h w = (opened h.1 (filealloc h.0), refl, filealloc_loop_lem nfile 0 h.0 h.1 w)
call-IsCounted (dup f) h w = elim (Bool-cases (ltb 0 (count f h.1))) [
  | inl y ↦
      let some_ref : ltb (h.0 f).ref 1 ≡ false = let here = w f in ground (arith, here, y) in
      rw (y, some_ref)
        (
          (update h.0 f (record (h.0 f) { ref = (h.0 f).ref + 1 }), f ∷ h.1),
          refl,
          λ g. elim (Bool-cases (g == f)) [
            | inl e ↦
                let same : g ≡ f = ground (arith, e) in
                rw e (ap (λ k. k + 1) (sym (ap (λ k. (h.0 k).ref) same) ∙ w g) ∙ omega arith)
            | inr ne ↦ rw ne (w g)
          ],
        )
  | inr o ↦ rw o (h, refl, w)
]
call-IsCounted (close f) h w = elim (Bool-cases (ltb 0 (count f h.1))) [
  | inl y ↦
      let some_ref : ltb (h.0 f).ref 1 ≡ false = let here = w f in ground (arith, here, y) in
      elim (Bool-cases (ltb 0 ((h.0 f).ref - 1))) [
        | inl more ↦
            rw (y, some_ref, more)
              (
                (update h.0 f (record (h.0 f) { ref = (h.0 f).ref - 1 }), remove_one f h.1),
                refl,
                λ g. left_refs h.0 h.1 f g (record (h.0 f) { ref = (h.0 f).ref - 1 }) w refl,
              )
        | inr last ↦
            rw (y, some_ref, last)
              (
                (update h.0 f (record (h.0 f) { ref = 0; kind = fd_none }), remove_one f h.1),
                refl,
                λ g.
                    left_refs h.0 h.1 f g (record (h.0 f) { ref = 0; kind = fd_none }) w
                      (ground (arith, some_ref, last)),
              )
      ]
  | inr o ↦ rw o (h, refl, w)
]

run-IsCounted : (cs : List Call) (h : Held) → IsCounted h → CallResult (run cs h)
unfolding run
run-IsCounted [] h w = (h, refl, w)
run-IsCounted (c ∷ cs) h w =
    let (h', e, w') = call-IsCounted c h w in
    let (h'', e', w'') = run-IsCounted cs h' w' in (h'', rw e e', w'')

-- An entry without references, or none if each has one.
abbrev pub AllocResult : (n start : ℕ) → List ℕ → Option ℕ × Ftable → Type 0
AllocResult n start refs (none, t) = (f : ℕ) → start ≤ f → f < start + n → count f refs ≢ 0
AllocResult n start refs (some f, t) = (start ≤ f) × (f < start + n) × (count f refs ≡ 0)

widened :
    (n f : ℕ) (refs : List ℕ) (r : Option ℕ × Ftable)
    → count f refs ≢ 0
    → AllocResult n (f + 1) refs r
    → AllocResult (suc n) f refs r
widened n f refs (none, t) used others = λ g lo hi. elim (Bool-cases (g == f)) [
  | inl y ↦ let same : g ≡ f = ground (arith, y) in rw same used
  | inr o ↦ others g (ground (arith, o)) (omega arith)
]
widened n f refs (some g, t) used (lo, hi, unused) = (omega arith, omega arith, unused)

filealloc_loop-Unused :
    (n f : ℕ) (t : Ftable) (refs : List ℕ)
    → IsCounted (t, refs)
    → AllocResult n f refs (filealloc_loop n f t)
unfolding filealloc_loop
filealloc_loop-Unused zero f t refs w = λ g lo hi. absurd (omega arith)
filealloc_loop-Unused (suc n) f t refs w = elim (Bool-cases ((t f).ref == 0)) [
  | inl y ↦
      let unused : (t f).ref ≡ 0 = ground (arith, y) in
      rw y (omega arith, omega arith, sym (w f) ∙ unused)
  | inr o ↦
      let used : count f refs ≢ 0 = λ z. ground (arith, o, w f ∙ z) in
      rw o (
        widened n f refs (filealloc_loop n (f + 1) t) used
          (filealloc_loop-Unused n (f + 1) t refs w))
]

abbrev pub RunResult : Outcome Held → Type 0
RunResult c = (h : Held) × (c ≡ returned h) × IsCounted h × AllocResult nfile 0 h.1 (filealloc h.0)

-- Over any sequence of calls of `filealloc`, and of `filedup` and `fileclose` with references that are
-- held, no call panics, and the reference count of each entry is the number of the references to it.
-- After it `filealloc` gives an entry of the table to which there is no reference, and it gives none only
-- if there is a reference to every entry.
pub run-Counted : (cs : List Call) (h : Held) → IsCounted h → RunResult (run cs h)
unfolding filealloc
run-Counted cs h w =
    let (h', e, w') = run-IsCounted cs h w in
    (h', e, w', filealloc_loop-Unused nfile 0 h'.0 h'.1 w')
