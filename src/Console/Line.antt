-- ===== src/Console/Line.antt =====
-- A line that is typed is the line that is read.
use os_exp.Base.{
  ℕ, zero, suc, ◌+◌, ◌-◌, ◌≤◌, ◌<◌, ◌≡◌, refl, sym, ap, ◌∙◌, Bool, true, false, List, [], ◌∷◌, ◌++◌,
  append-nil, append_assoc, arith, leb, ◌==◌, length, length-append, take, All, elem,
}
use os_exp.Console.{Cons, input_buf_size, newline, Stop, value, consoleintr, consoleread}
use os_exp.Console.Ring.{typed, ready, IsCons}
use os_exp.Console.Edit.{edited, consoleintr-Edited}
use os_exp.Console.Read.{arrived, line_taken, consoleread-Taken}

-- One interrupt for each character.
pub feed : List ℕ → Cons → Cons
feed [] s = s
feed (c ∷ cs) s = feed cs (consoleintr c s).2

-- Characters that are not edited away and end no line.
abbrev special : List ℕ
special = 0 ∷ 4 ∷ 8 ∷ 10 ∷ 13 ∷ 16 ∷ 21 ∷ 127 ∷ []

abbrev pub IsPlain : ℕ → Type 0
IsPlain c = (c < 256) × (elem c special ≡ false)

edited-plain :
    (c : ℕ) (t : List ℕ) (n : ℕ)
    → IsPlain c
    → length t + 1 < input_buf_size
    → edited c t n ≡ (t ++ (c ∷ []), n)
edited-plain c t n (byte, p) room =
    let c1 : (c == 16) ≡ false = ground (arith, p) in
    let c2 : (c == 21) ≡ false = ground (arith, p) in
    let c3 : (c == 8) ≡ false = ground (arith, p) in
    let c4 : (c == 127) ≡ false = ground (arith, p) in
    let c5 : (c == 0) ≡ false = ground (arith, p) in
    let c6 : (c == 13) ≡ false = ground (arith, p) in
    let c7 : (c == 10) ≡ false = ground (arith, p) in
    let c8 : (c == 4) ≡ false = ground (arith, p) in
    let c9 : leb 128 (length t) ≡ false = ground (arith, room) in
    let c10 : (suc (length t) == 128) ≡ false = ground (arith, room) in
    rw (c1, c2, c3, c4, c5, c9, c6, c7, c8, c10) refl

feed-plain :
    (cs : List ℕ) (s : Cons)
    → IsCons s
    → All IsPlain cs
    → length (typed s) + length cs < input_buf_size
    → IsCons (feed cs s) × (typed (feed cs s) ≡ typed s ++ cs) × (ready (feed cs s) ≡ ready s)
unfolding feed
feed-plain [] s v p room = (v, sym (append-nil (typed s)), refl)
feed-plain (c ∷ cs) s v (pc, p) room =
    let one = edited-plain c (typed s) (ready s) pc (omega arith) in
    let (v', t', r') = consoleintr-Edited c s v pc.0 in
    let typed_one : typed (consoleintr c s).2 ≡ typed s ++ (c ∷ []) = t' ∙ ap (λ e. e.0) one in
    let ready_one : ready (consoleintr c s).2 ≡ ready s = r' ∙ ap (λ e. e.1) one in
    let size = ap (length {A = ℕ}) typed_one ∙ length-append (typed s) (c ∷ []) in
    let (v'', t'', r'') = feed-plain cs (consoleintr c s).2 v' p (omega (arith, size)) in
    (v'', t'' ∙ ap (λ t. t ++ cs) typed_one ∙ append_assoc (typed s) (c ∷ []) cs, r'' ∙ ready_one)

take-all : (s : List ℕ) → take (length s) s ≡ s
take-all [] = refl
take-all (c ∷ cs) = ap (λ r. c ∷ r) (take-all cs)

-- Taking a line from a list that is that line.
abbrev pub LineRead {ℓ} :
    {A : Type ℓ} → (A → Type 0) → (size : ℕ) → List ℕ → List ℕ × Stop × A → Type 0
LineRead empty size chars r = (r.0 ≡ chars) × (r.1 ≡ value size) × empty r.2

line_taken-line :
    (copyout : ℕ → Bool) (target n : ℕ) (cs : List ℕ)
    → ((i : ℕ) → copyout i ≡ true)
    → All IsPlain cs
    → length cs < n
    → n ≤ target
    → LineRead
        (λ left. left ≡ [])
        (target - n + suc (length cs))
        (cs ++ (newline ∷ []))
        (line_taken copyout false target n (cs ++ (newline ∷ [])))
line_taken-line copyout target zero cs ok p h le = absurd (omega arith)
line_taken-line copyout target (suc k) [] ok p h le =
    let size : target - k ≡ target - suc k + 1 = omega arith in
    rw (ok (target - suc k)) (refl, ap value size, refl)
line_taken-line copyout target (suc k) (c ∷ cs) ok ((byte, pc), p) h le =
    let c1 : (c == 4) ≡ false = ground (arith, pc) in
    let c2 : (c == 10) ≡ false = ground (arith, pc) in
    let (got, stop, left) = line_taken-line copyout target k cs ok p (omega arith) (omega arith) in
    let size : target - k + suc (length cs) ≡ target - suc k + suc (suc (length cs)) =
      omega arith in
    rw (c1, ok (target - suc k), c2) (ap (λ r. c ∷ r) got, stop ∙ ap value size, left)

newline-edited :
    (t : List ℕ) (n : ℕ)
    → length t < input_buf_size
    → edited newline t n ≡ (t ++ (newline ∷ []), suc (length t))
newline-edited t n room = let c1 : leb 128 (length t) ≡ false = ground (arith, room) in rw c1 refl

-- What is typed after a line.
abbrev pub entered : List ℕ → Cons → Cons
entered cs s = (consoleintr newline (feed cs s)).2

entered-arrived :
    (cs : List ℕ) (s : Cons)
    → IsCons s
    → typed s ≡ []
    → All IsPlain cs
    → length cs < input_buf_size
    → IsCons (entered cs s) × (arrived (entered cs s) ≡ cs ++ (newline ∷ []))
entered-arrived cs s v nothing p room =
    let start = ap (length {A = ℕ}) nothing in
    let (v1, t1, r1) = feed-plain cs s v p (omega (arith, start)) in
    let all_typed : typed (feed cs s) ≡ cs = t1 ∙ ap (λ t. t ++ cs) nothing in
    let (v2, t2, r2) = consoleintr-Edited newline (feed cs s) v1 (omega arith) in
    let size = ap (length {A = ℕ}) all_typed in
    let one = newline-edited (typed (feed cs s)) (ready (feed cs s)) (omega (arith, size)) in
    let whole = t2 ∙ ap (λ e. e.0) one ∙ ap (λ t. t ++ (newline ∷ [])) all_typed in
    let total = length-append cs (newline ∷ []) in
    let amount : ready (entered cs s) ≡ length (cs ++ (newline ∷ [])) =
      r2 ∙ ap (λ e. e.1) one ∙ ap suc size ∙ omega (arith, total) in
    (
      v2,
      ap (λ n. take n (typed (entered cs s))) amount
          ∙ ap (λ t. take (length (cs ++ (newline ∷ []))) t) whole
          ∙ take-all (cs ++ (newline ∷ [])),
    )

-- If a line of fewer than 128 plain characters and a newline are typed at a console without input,
-- `consoleread` of more characters than the line has returns just that line with its newline and their
-- number, and nothing is left to read; every byte of the destination can be written.
pub consoleread-line :
    (copyout : ℕ → Bool) (cs : List ℕ) (s : Cons) (n : ℕ)
    → ((i : ℕ) → copyout i ≡ true)
    → IsCons s
    → typed s ≡ []
    → All IsPlain cs
    → length cs < input_buf_size
    → length cs < n
    → LineRead
        (λ s'. arrived s' ≡ [])
        (suc (length cs))
        (cs ++ (newline ∷ []))
        (consoleread copyout false n n (entered cs s))
consoleread-line copyout cs s n ok v nothing p room h =
    let (v1, there) = entered-arrived cs s v nothing p room in
    let (got, stop, v2, left, kept) = consoleread-Taken copyout false n n (entered cs s) v1 in
    let (got', stop', left') = line_taken-line copyout n n cs ok p h (omega arith) in
    let size : n - n + suc (length cs) ≡ suc (length cs) = omega arith in
    let same = ap (λ l. line_taken copyout false n n l) there in
    (
      got ∙ ap (λ r. r.0) same ∙ got',
      stop ∙ ap (λ r. r.1) same ∙ stop' ∙ ap value size,
      left ∙ ap (λ r. r.2) same ∙ left',
    )
