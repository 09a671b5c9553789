-- ===== src/Pipe/Stream.antt =====
-- A writer and a reader on one pipe: whatever the order of their calls, the bytes come out as they
-- went in.
use mathlib.Core.Path.{ap₂}
use os_exp.Base.Word.{diff32}
use os_exp.Base.{
  length, length-append, arith, ℕ, ◌+◌, ◌≡◌, refl, sym, ap, ◌∙◌, Bool, true, false, Option, List,
  [], ◌++◌, append_assoc,
}
use os_exp.Pipe.{Pipe, Stop, pipewrite, piperead, pipeclose, fresh}
use os_exp.Pipe.Ring.{IsValid, contents, used, length-contents}
use os_exp.Pipe.Writes.{sent, Written, pipewrite-Written}
use os_exp.Pipe.Reads.{piperead-Read}

-- The pipe with all that its writers have put in and its readers have got.
pub record Traffic : Type 0 where
  pub pipe : Pipe
  pub put_in : List ℕ
  pub taken : List ℕ

-- A call of `pipewrite`, or one that goes on after a sleep. The bytes that it put in are counted by
-- `nwrite`.
pub write : Bool → (ℕ → Option ℕ) → (n i : ℕ) → Traffic → Traffic
write killed copyin n i t =
    let (s, pi') = pipewrite killed copyin n i t.pipe in
    record t { pipe = pi'; put_in = t.put_in ++ sent copyin i (diff32 pi'.nwrite t.pipe.nwrite) }

-- A call of `piperead` that can store every byte, or one that goes on after a sleep.
pub read : Bool → ℕ → Traffic → Traffic
read killed n t =
    let (got, s, pi') = piperead killed (λ _. true) n t.pipe in
    record t { pipe = pi'; taken = t.taken ++ got }

pub close : Bool → Traffic → Traffic
close writable t = record t { pipe = (pipeclose writable t.pipe).1 }

-- Calls by any processes, killed or not, in any order.
pub data Reach (t : Traffic) : Traffic → Type 0 where
  here : Reach t t
  then_write :
      {u : Traffic} (killed : Bool) (copyin : ℕ → Option ℕ) (n i : ℕ)
      → Reach t u
      → Reach t (write killed copyin n i u)
  then_read : {u : Traffic} (killed : Bool) (n : ℕ) → Reach t u → Reach t (read killed n u)
  then_close : {u : Traffic} (writable : Bool) → Reach t u → Reach t (close writable u)

pub record InOrder (t : Traffic) : Type 0 where
  pub valid : IsValid t.pipe
  pub stream : t.put_in ≡ t.taken ++ contents t.pipe

counted :
    {killed : Bool} {copyin : ℕ → Option ℕ} {i k : ℕ} {pi : Pipe} {s : Stop} {pi' : Pipe}
    → IsValid pi
    → (w : Written killed copyin i k pi s pi') → diff32 pi'.nwrite pi.nwrite ≡ w.m
counted {copyin} {i} {pi} {pi'} v w = omega (
  arith, v.fits, v.read_word, v.write_word, w.valid.fits, w.valid.write_word, w.same_nread, lengths,
)
  where
    lengths : used pi' ≡ used pi + w.m
    lengths =
        sym (length-contents pi')
        ∙ ap (length {A = ℕ}) w.appended
        ∙ length-append (contents pi) (sent copyin i w.m)
        ∙ ap₂ ◌+◌ (length-contents pi) w.all_read

write-InOrder :
    (killed : Bool) (copyin : ℕ → Option ℕ) (n i : ℕ) {t : Traffic}
    → InOrder t
    → InOrder (write killed copyin n i t)
unfolding write
write-InOrder killed copyin n i {t} v =
    let w = pipewrite-Written killed copyin n i v.valid in
    record {
      valid = w.valid;
      stream = rw (counted v.valid w) (
          ap (λ c. c ++ sent copyin i w.m) v.stream
          ∙ append_assoc t.taken (contents t.pipe) (sent copyin i w.m)
          ∙ ap (λ c. t.taken ++ c) (sym w.appended));
    }

read-InOrder : (killed : Bool) (n : ℕ) {t : Traffic} → InOrder t → InOrder (read killed n t)
unfolding read
read-InOrder killed n {t} v =
    let r = piperead-Read killed (λ _. true) n v.valid in
    let (got, s, pi') = piperead killed (λ _. true) n t.pipe in
    record {
      valid = r.valid;
      stream =
          v.stream
          ∙ ap (λ c. t.taken ++ c)
              (r.queue ∙ ap (λ l. got ++ (l ++ contents pi')) (r.nothing_lost λ _. refl))
          ∙ sym (append_assoc t.taken got (contents pi'));
    }

same_bytes :
    {pi : Pipe} (pi' : Pipe)
    → IsValid pi
    → (pi'.nread ≡ pi.nread) × (pi'.nwrite ≡ pi.nwrite)
    → IsValid pi'
same_bytes pi' v e = record {
  read_word = omega (arith, v.read_word);
  write_word = omega (arith, v.write_word);
  fits = omega (arith, v.fits);
}

close-InOrder : (writable : Bool) {t : Traffic} → InOrder t → InOrder (close writable t)
unfolding close pipeclose
close-InOrder true v = record { valid = same_bytes _ v.valid (refl, refl); stream = v.stream }
close-InOrder false v = record { valid = same_bytes _ v.valid (refl, refl); stream = v.stream }

-- From a pipe that `pipealloc` has just set up, whatever calls are made in whatever order, where what a
-- reader takes can be stored for it, the bytes that the readers have got, followed by those still in
-- the pipe, are the bytes that the writers have put in: none is lost, doubled or overtaken.
pub pipe-InOrder :
    (page : ℕ → ℕ) {t : Traffic}
    → Reach (record { pipe = fresh page; put_in = []; taken = [] }) t
    → InOrder t
unfolding fresh
pipe-InOrder page here = record { valid = omega arith; stream = refl }
pipe-InOrder page (then_write killed copyin n i r) =
    write-InOrder killed copyin n i (pipe-InOrder page r)
pipe-InOrder page (then_read killed n r) = read-InOrder killed n (pipe-InOrder page r)
pipe-InOrder page (then_close writable r) = close-InOrder writable (pipe-InOrder page r)
