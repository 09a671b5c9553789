-- ===== src/Ftable/Tests.antt =====
-- An empty table and a few calls.
use os_exp.Base.{◌≡◌, refl, false, List, [], ◌∷◌, update, returned}
use os_exp.Ftable.{File, filealloc, filealloc_loop, filedup, fd_none}
use os_exp.Ftable.Counts.{
  Call, open_, dup, close, Held, run, call, count, IsCounted, RunResult, run-Counted,
}

abbrev empty_file : File
empty_file = record {
  kind = fd_none;
  ref = 0;
  readable = false;
  writable = false;
  pipe = 0;
  ip = 0;
  off = 0;
  major = 0;
}

abbrev start : Held
start = (λ i. empty_file, [])

start-IsCounted : IsCounted start
unfolding count
start-IsCounted f = refl

abbrev calls : List Call
calls = open_ ∷ dup 0 ∷ open_ ∷ close 0 ∷ close 0 ∷ []

run-Counted_example : RunResult (run calls start)
run-Counted_example = run-Counted calls start start-IsCounted

abbrev two_opened : List Call
two_opened = open_ ∷ dup 0 ∷ open_ ∷ []

abbrev after_two : Held
after_two = (
  update
      (update (update start.0 0 (record empty_file { ref = 1 })) 0 (record empty_file { ref = 2 }))
      1 (record empty_file { ref = 1 }),
  1 ∷ 0 ∷ 0 ∷ [],
)

run-two_opened : run two_opened start ≡ returned after_two
unfolding run call count filealloc filealloc_loop filedup
run-two_opened = refl
