-- ===== src/System/Abi.antt =====
-- System calls with their arguments, as include/minlinux/syscall.h passes them.
use minlinux.Base.{ℕ, List, [], ◌∷◌, Option, none, some}
use minlinux.Base.Int.{ℤ}
use minlinux.Uring.{Uring}

-- The call numbers `__NR_…` of the wrappers.
pub data Number : Type 0 where
  write read reboot umask mkdirat mount openat exit close close_range dup3 execveat : Number
  getdents64 memfd_create mmap munmap io_uring_setup io_uring_enter clone3 clock_gettime : Number
  openat2 signalfd4 rt_sigprocmask waitid sysinfo newfstatat copy_file_range socket : Number
  sched_yield lseek mknodat brk chdir fchmodat fchownat chroot getpid ioctl mremap mprotect : Number
  io_uring_register futex setuid setresuid setresgid setgroups pivot_root prctl capget : Number
  capset sendmmsg : Number

-- The constants of the kernel's headers that the program names; their values are not modelled.
pub data Constant : Type 0 where
  at_fdcwd at_empty_path o_rdonly o_wronly o_append o_noatime o_directory o_path o_cloexec :
      Constant
  ms_noexec ms_rdonly s_irwxu s_irwxg s_irwxo sig_setmask sigchld p_pid wexited : Constant
  clock_realtime linux_reboot_magic1 linux_reboot_magic2 linux_reboot_cmd_power_off : Constant
  prot_read prot_write map_shared map_populate ioring_off_sq_ring ioring_off_sqes : Constant
  ioring_enter_getevents af_packet sock_dgram eth_p_all_swapped sizeof : Constant
  linux_capability_version_3 : Constant

-- An argument: a number, constants joined by `|`, the bytes behind a pointer to text, a pointer to
-- an array of texts, the version and process or the sets of capset, a signal set, NULL, or a pointer to room for the kernel's answer.
pub data Argument : Type 0 where
  int : ℤ → Argument
  flags : List Constant → Argument
  text : List ℕ → Argument
  vector : List (List ℕ) → Argument
  cap_header : Constant → ℕ → Argument
  cap_sets : (effective permitted inheritable : ℕ) → Argument
  all_signals no_signals null room : Argument

-- `shared` is the queue whose memory the kernel reads during the call, at io_uring_enter.
pub record Call : Type 0 where
  pub number : Number
  pub arguments : List Argument
  pub shared : Option Uring

-- What `syscall` finds in the registers.
pub record Registers : Type 0 where
  pub rax : Number
  pub rdi : Option Argument
  pub rsi : Option Argument
  pub rdx : Option Argument
  pub r10 : Option Argument
  pub r8 : Option Argument
  pub r9 : Option Argument

-- The arguments in the registers, in the order in which the kernel reads them.
abbrev held : List (Option Argument) → List Argument
held [] = []
held (none ∷ rest) = []
held (some a ∷ rest) = a ∷ held rest

abbrev pub enter_kernel : Registers → Call
enter_kernel r = record {
  number = r.rax;
  arguments = held (r.rdi ∷ r.rsi ∷ r.rdx ∷ r.r10 ∷ r.r8 ∷ r.r9 ∷ []);
  shared = none;
}

-- `SYSCALL_0(num)` to `SYSCALL_6(num, arg1, …, arg6)`
abbrev pub syscall_0 : Number → Call
syscall_0 num =
    enter_kernel
      (record { rax = num; rdi = none; rsi = none; rdx = none; r10 = none; r8 = none; r9 = none })

abbrev pub syscall_1 : Number → Argument → Call
syscall_1 num arg1 = enter_kernel (record {
  rax = num;
  rdi = some arg1;
  rsi = none;
  rdx = none;
  r10 = none;
  r8 = none;
  r9 = none;
})

abbrev pub syscall_2 : Number → Argument → Argument → Call
syscall_2 num arg1 arg2 = enter_kernel (record {
  rax = num;
  rdi = some arg1;
  rsi = some arg2;
  rdx = none;
  r10 = none;
  r8 = none;
  r9 = none;
})

abbrev pub syscall_3 : Number → Argument → Argument → Argument → Call
syscall_3 num arg1 arg2 arg3 = enter_kernel (record {
  rax = num;
  rdi = some arg1;
  rsi = some arg2;
  rdx = some arg3;
  r10 = none;
  r8 = none;
  r9 = none;
})

abbrev pub syscall_4 : Number → Argument → Argument → Argument → Argument → Call
syscall_4 num arg1 arg2 arg3 arg4 = enter_kernel (record {
  rax = num;
  rdi = some arg1;
  rsi = some arg2;
  rdx = some arg3;
  r10 = some arg4;
  r8 = none;
  r9 = none;
})

abbrev pub syscall_5 : Number → Argument → Argument → Argument → Argument → Argument → Call
syscall_5 num arg1 arg2 arg3 arg4 arg5 = enter_kernel (record {
  rax = num;
  rdi = some arg1;
  rsi = some arg2;
  rdx = some arg3;
  r10 = some arg4;
  r8 = some arg5;
  r9 = none;
})

abbrev pub syscall_6 :
    Number → Argument → Argument → Argument → Argument → Argument → Argument → Call
syscall_6 num arg1 arg2 arg3 arg4 arg5 arg6 = enter_kernel (record {
  rax = num;
  rdi = some arg1;
  rsi = some arg2;
  rdx = some arg3;
  r10 = some arg4;
  r8 = some arg5;
  r9 = some arg6;
})
