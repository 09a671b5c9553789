-- ===== src/Bio/Tests.antt =====
-- The first block that is read after the start.
use os_exp.Base.{ℕ, ◌≡◌, refl, sym, true, some, arith, update}
use os_exp.Block.{Disk}
use os_exp.Storage.{Store, done}
use os_exp.Bio.{
  set_buf, reuse, Bcache, binit, binit_loop, bread, bget, fill, find_cached, find_unused, got,
}
use os_exp.Bio.Valid.{rootdev, IsCache}
use os_exp.Bio.View.{at_none}
use os_exp.Bio.Boot.{zeroed, binit-IsCache}
use os_exp.Bio.Read.{Bread, bread_lem}
use os_exp.Bio.Shows.{Shows}
use os_exp.Bio.Refine.{reads, Step-Refines, Follows}

abbrev numbered : Disk
numbered k i = k

abbrev started : Bcache
started = binit (zeroed numbered)

bread_lem_example : Bread started 7 (bread rootdev 7 started)
bread_lem_example = bread_lem started 7 (binit-IsCache numbered)

abbrev recycled : Bcache
recycled = set_buf 0 (reuse rootdev 7 (started.buf 0)) started

abbrev locked : Bcache
locked = set_buf 0 (record (recycled.buf 0) { locked = true }) recycled

abbrev loaded : Bcache
loaded = set_buf 0 (record (locked.buf 0) { bytes = numbered 7; valid = true }) locked

-- The last buffer of the list is recycled.
first_read : bread rootdev 7 started ≡ got 0 loaded
unfolding bread bget find_cached find_unused fill binit binit_loop
first_read = refl

abbrev store : Store
store = record { disk = numbered; cache = numbered; pins = λ _. 0; power = 1 }

abbrev nobody : ℕ → ℕ
nobody _ = 0

started-Shows : Shows started nobody store
unfolding binit
started-Shows = record {
  looks = record {
    on_disk = λ k. refl;
    current = λ k. sym (at_none started k (binit-IsCache numbered) λ i h. started_free i h.1);
  };
  counted = record { cached = λ i k m. absurd (started_free i m.1); uncached = λ k n. refl };
}
  where
    started_free : (i : ℕ) → (started.buf i).dev ≡ rootdev → ⊥
    started_free i e = cc

Step-Refines_example :
    IsCache loaded
    × Follows loaded
        (update nobody 7 1)
        (some (loaded.buf 0).bytes)
        (done (some (numbered 7)) store)
Step-Refines_example =
    Step-Refines store (reads 7 0 first_read) (binit-IsCache numbered) started-Shows (omega arith)
