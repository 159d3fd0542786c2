-- ===== src/Command/Documented.antt =====
-- What the kernel documents of the calls that the commands make.
use minlinux.Base.{ℕ, suc, ◌≡◌, List}
use minlinux.Base.Int.{ℤ, pos, IsInt64}
use minlinux.System.{Kernel}
use minlinux.System.Abi.{Call}
use minlinux.System.Wrappers
use minlinux.Command.Builtins.{field}
use minlinux.Command.Listing.Laws.{Entry, HasEntries}

-- Answers and the fields of the structs that the kernel fills in are 64-bit numbers, and a batch of
-- getdents64 is made of directory entries.
pub record Documented (k : Kernel) : Type 0 where
  pub wide : (before : List Call) (c : Call) → IsInt64 (k.rax before c)
  pub fields : (before : List Call) (c : Call) (i : ℕ) → IsInt64 (field i (k.fields before c))
  pub batches :
      (before : List Call) (fd : ℤ) (n : ℕ)
      → k.rax before (Wrappers.getdents64 fd 1024) ≡ pos (suc n)
      → (es : List Entry) × HasEntries (k.bytes before (Wrappers.getdents64 fd 1024)) 0 es (suc n)
