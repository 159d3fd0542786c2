-- ===== src/Init/Samples.antt =====
-- A build and a ring of 16 entries, for the tests of init/init.c and init/command.c.
use minlinux.Base.{[], codes, replicate}
use minlinux.Base.Int.{pos}
use minlinux.Uring.{Uring, Mapping}
use minlinux.System.Print.{Build}
use minlinux.Init.{prompt_sqe}

abbrev pub build : Build
build = record {
  arg_max = 131_072;
  sizeof_cqe = 16;
  sizeof_sqe = 64;
  sizeof_siginfo = 128;
  command_c = codes "init/command.c";
  init_c = codes "init/init.c";
  uring_ctl_c = codes "util/uring_ctl.c";
}

-- Nothing is mapped.
abbrev pub unmapped : Mapping
unmapped = record { word = λ _. 0; indices = λ _. []; results = λ _. []; submissions = [] }

abbrev pub ring : Uring
ring = record {
  ringfd = pos 3;
  mmap_ring = pos 4096;
  mmap_sqes = pos 8192;
  mmap_ring_size = 1024;
  mmap_sqes_size = 1024;
  sqes = replicate 16 prompt_sqe;
  sq_entries = 16;
  sq_mask = 15;
  sq_head = 0;
  sq_tail = 0;
  sq_array = replicate 16 0;
  sq_list_head = 0;
  sq_list_tail = 0;
  cqes = [];
  cq_head = 0;
  cq_tail = 0;
  cq_mask = 31;
  cq_entries = 32;
}
