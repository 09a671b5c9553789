-- ===== src/Strings/Tests.antt =====
-- The string functions on a memory that holds `ab` twice.
use os_exp.Base.{◌≡◌, inr, refl, arith, update}
use os_exp.Strings.{Memory, memmove, move_down, safe_loop, safestrcpy}
use os_exp.Strings.Move.{Moved, memmove-Moved}
use os_exp.Strings.Compare.{IsBytes}
use os_exp.Strings.Safe.{SafelyCopied, safestrcpy-SafelyCopied}

abbrev letters : Memory
letters = update (update (update (update (λ _. 0) 10 97) 11 98) 20 97) 21 98

letters-IsBytes : IsBytes letters
letters-IsBytes a = ground arith

memmove-Moved_example : Moved 11 10 3 letters (memmove 11 10 3 letters)
memmove-Moved_example = memmove-Moved 11 10 3 letters

safestrcpy-SafelyCopied_example : SafelyCopied 30 10 2 letters (safestrcpy 30 10 2 letters)
safestrcpy-SafelyCopied_example =
    safestrcpy-SafelyCopied 30 10 2 letters (omega arith) (inr (omega arith))

-- Three bytes are moved up by one over each other.
moved_over : memmove 11 10 3 letters 12 ≡ 98
unfolding memmove move_down
moved_over = refl

cut_off : safestrcpy 30 10 2 letters 31 ≡ 0
unfolding safestrcpy safe_loop
cut_off = refl
