-- ===== src/Command/Listing/Tests.antt =====
-- `ls` of a directory that the kernel lists in one batch of two entries.
use minlinux.Base.{refl, List, [], ◌∷◌, ◌++◌, arith, codes, replicate}
use minlinux.Base.Int.{ℤ, pos}
use minlinux.Memory.{Memory}
use minlinux.Uring.{Uring}
use minlinux.Init.Samples.{unmapped}
use minlinux.System.{Kernel, World}
use minlinux.System.Abi.{Call}
use minlinux.Command.Builtins.Copy.{Wrote}
use minlinux.Command.Listing.{list_opened}
use minlinux.Command.Listing.Laws.{Entry, Lists, ends, batch, list_opened-Wrote}

-- A directory "etc" of 24 bytes and a file "a" of 22.
abbrev buffer : Memory
buffer =
    replicate 16 0
    ++ (24 ∷ 0 ∷ 4 ∷ codes "etc")
    ++ replicate 18 0
    ++ (22 ∷ 0 ∷ 8 ∷ codes "a")
    ++ replicate 2 0

abbrev answers : List Call → ℤ
answers [] = pos 46
answers _ = pos 0

abbrev kernel : Kernel
kernel = record {
  rax = λ before _. answers before;
  bytes = λ _ _. buffer;
  fields = λ _ _. [];
  mapped = λ _. unmapped;
  rings = λ _ u. u;
  lines = λ _ m. m;
}

abbrev ring : Uring
ring = record {
  ringfd = pos 3;
  mmap_ring = pos 4096;
  mmap_sqes = pos 8192;
  mmap_ring_size = 0;
  mmap_sqes_size = 0;
  sqes = [];
  sq_entries = 0;
  sq_mask = 0;
  sq_head = 0;
  sq_tail = 0;
  sq_array = [];
  sq_list_head = 0;
  sq_list_tail = 0;
  cqes = [];
  cq_head = 0;
  cq_tail = 0;
  cq_mask = 0;
  cq_entries = 0;
}

abbrev world : World
world = record { calls = []; buffer = []; sigfd = pos 5; uring = ring }

abbrev etc : Entry
etc = record { name = codes "etc"; type = 4 }

abbrev a : Entry
a = record { name = codes "a"; type = 8 }

directory_Lists : Lists kernel (pos 6) ((etc ∷ a ∷ []) ∷ []) []
directory_Lists =
    batch 45 (etc ∷ a ∷ []) [] refl
      (
        24,
        omega arith,
        omega arith,
        record {
          low = 24;
          high = 0;
          low_byte = refl;
          high_byte = refl;
          size_is = refl;
          type_byte = refl;
          name_text = ground arith;
        },
        (
          22,
          omega arith,
          omega arith,
          record {
            low = 22;
            high = 0;
            low_byte = refl;
            high_byte = refl;
            size_is = refl;
            type_byte = refl;
            name_text = ground arith;
          },
          refl,
        ),
      )
      (ends refl)

list_opened-Wrote_example :
    Wrote (codes "etc/\na\n") tt world (list_opened kernel 2 (codes "/") (pos 6) world)
list_opened-Wrote_example =
    list_opened-Wrote kernel 6 2 (codes "/") ((etc ∷ a ∷ []) ∷ []) world (omega arith)
      directory_Lists
