-- ===== src/Spinlock/Tests.antt =====
-- Nested sections on a CPU with interrupts enabled.
use os_exp.Base.{◌≡◌, true, false, arith, returned}
use os_exp.Spinlock.{Cpu}
use os_exp.Spinlock.Nesting.{IsCpu, Restored, Code, straight, then_, section_, run, run-Restored}

abbrev outside : Cpu
outside = record { noff = 0; intena = false; enabled = true }

outside-IsCpu : IsCpu outside
outside-IsCpu = record { off_inside = λ h. absurd (omega arith) }

abbrev nested : Code
nested = section_ (then_ (section_ straight) (section_ straight))

run-Restored_example : (c' : Cpu) × (run nested outside ≡ returned c') × Restored outside c'
run-Restored_example = run-Restored nested outside outside-IsCpu
