-- ===== src/Pipe/Tests.antt =====
-- The theorems about pipes at a small pipe whose counters are about to wrap.
use os_exp.Base.{
  ℕ, ◌≡◌, refl, true, false, Option, none, some, [], ◌∷◌, arith, if◌then◌else◌, ltb, ◌+◌,
}
use os_exp.Pipe.{Pipe, value, fresh, pipewrite, piperead}
use os_exp.Pipe.Ring.{IsValid, contents}
use os_exp.Pipe.Stream.{Traffic, here, then_write, then_read, write, read, InOrder, pipe-InOrder}

-- one byte in the pipe, at the last index before the counters wrap
abbrev wrapping : Pipe
wrapping = record {
  bytes = λ i. i;
  nread = 0xffff_ffff;
  nwrite = 0;
  readopen = true;
  writeopen = true;
  reader_wakeups = 0;
  writer_wakeups = 0;
}

wrapping-IsValid : IsValid wrapping
wrapping-IsValid = omega arith

-- a caller's buffer of four bytes, the last of which cannot be read
abbrev buffer : ℕ → Option ℕ
buffer i = if ltb i 3 then some (i + 65) else none

write_then_read :
    (piperead false (λ _. true) 3 (pipewrite false buffer 4 0 wrapping).1).0 ≡ 511 ∷ 65 ∷ 66 ∷ []
unfolding pipewrite piperead
write_then_read = refl

written_three : (pipewrite false buffer 4 0 wrapping).0 ≡ value 3
unfolding pipewrite
written_three = refl

-- A byte that cannot be stored is gone from the pipe.
byte_lost : contents (piperead false (λ _. false) 1 wrapping).2 ≡ []
unfolding piperead
byte_lost = refl

abbrev start : Traffic
start = record { pipe = fresh (λ _. 0); put_in = []; taken = [] }

pipe-InOrder_example : InOrder (read false 2 (write false buffer 4 0 start))
pipe-InOrder_example = pipe-InOrder (λ _. 0) (then_read false 2 (then_write false buffer 4 0 here))
