-- ===== src/System/Wrappers.antt =====
-- include/minlinux/syscall.h: the wrappers. Each passes its arguments to one call; `AT_FDCWD` is put
-- in front where the wrapper does so. A pointer to room for the kernel's answer is `room`.
use minlinux.Base.{ℕ, List, [], ◌∷◌, length}
use minlinux.Base.Int.{ℤ, pos}
use minlinux.System.Abi.{
  Call, Number, Constant, Argument, int, flags, text, vector, cap_header, cap_sets, null, room,
  at_fdcwd, syscall_0, syscall_1, syscall_2, syscall_3, syscall_4, syscall_5, syscall_6,
}

abbrev pub Text : Type 0
Text = List ℕ

abbrev nat : ℕ → Argument
nat n = int (pos n)

abbrev one : Constant → Argument
one c = flags (c ∷ [])

abbrev cwd : Argument
cwd = one at_fdcwd

abbrev pub write : ℤ → Text → Call
write fd buf = syscall_3 Number.write (int fd) (text buf) (nat (length buf))

abbrev pub read : ℤ → ℕ → Call
read fd count = syscall_3 Number.read (int fd) room (nat count)

abbrev pub reboot : Constant → Argument → Call
reboot cmd arg =
    syscall_4 Number.reboot (one Constant.linux_reboot_magic1) (one Constant.linux_reboot_magic2)
      (one cmd) arg

abbrev pub reboot_hard : Constant → Call
reboot_hard cmd =
    syscall_4 Number.reboot (one Constant.linux_reboot_magic1) (one Constant.linux_reboot_magic2)
      (one cmd) null

abbrev pub sched_yield : Call
sched_yield = syscall_0 Number.sched_yield

-- The offsets are variables of the caller that hold 0; `flags` is 0 in every use.
abbrev pub copy_file_range : ℤ → ℤ → ℤ → Call
copy_file_range fd_in fd_out len =
    syscall_6 Number.copy_file_range (int fd_in) room (int fd_out) room (int len) (nat 0)

abbrev pub lseek : ℤ → ℤ → ℕ → Call
lseek fd offset whence = syscall_3 Number.lseek (int fd) (int offset) (nat whence)

abbrev pub umask : ℕ → Call
umask mask = syscall_1 Number.umask (nat mask)

abbrev pub mkdir : Text → List Constant → Call
mkdir path mode = syscall_3 Number.mkdirat cwd (text path) (flags mode)

abbrev pub mknod : Text → ℕ → ℕ → Call
mknod path mode dev = syscall_4 Number.mknodat cwd (text path) (nat mode) (nat dev)

-- `src` and `data` are NULL in every use.
abbrev pub mount : Text → Text → List Constant → Call
mount tgt fst mode = syscall_5 Number.mount null (text tgt) (text fst) (flags mode) null

-- `open`
abbrev pub open_file : Text → List Constant → ℕ → Call
open_file path mode perm = syscall_4 Number.openat cwd (text path) (flags mode) (nat perm)

abbrev pub brk : Argument → Call
brk addr = syscall_1 Number.brk addr

abbrev pub exit : ℕ → Call
exit status = syscall_1 Number.exit (nat status)

abbrev pub chdir : Text → Call
chdir path = syscall_1 Number.chdir (text path)

abbrev pub chmod : Text → ℕ → Call
chmod path mode = syscall_4 Number.fchmodat cwd (text path) (nat mode) (nat 0)

abbrev pub chown : Text → ℕ → ℕ → Call
chown path owner group = syscall_5 Number.fchownat cwd (text path) (nat owner) (nat group) (nat 0)

abbrev pub chroot : Text → Call
chroot path = syscall_1 Number.chroot (text path)

abbrev pub close : ℤ → Call
close fd = syscall_1 Number.close (int fd)

abbrev pub close_range : ℕ → ℕ → ℕ → Call
close_range first last mode = syscall_3 Number.close_range (nat first) (nat last) (nat mode)

-- `close_range(0, ~0U, 0)`
abbrev pub close_all_files : Call
close_all_files = close_range 0 0xffff_ffff 0

abbrev pub dup3 : ℤ → ℕ → ℕ → Call
dup3 oldfd newfd mode = syscall_3 Number.dup3 (int oldfd) (nat newfd) (nat mode)

abbrev pub execveat : Argument → Text → List Text → List Text → List Constant → Call
execveat dirfd filename argv envp mode =
    syscall_5 Number.execveat dirfd (text filename) (vector argv) (vector envp) (flags mode)

abbrev pub getdents64 : ℤ → ℕ → Call
getdents64 fd count = syscall_3 Number.getdents64 (int fd) room (nat count)

abbrev pub getpid : Call
getpid = syscall_0 Number.getpid

abbrev pub ioctl : ℤ → ℕ → Argument → Call
ioctl fd req value = syscall_3 Number.ioctl (int fd) (nat req) value

abbrev pub memfd_create : ℕ → Call
memfd_create mode = syscall_2 Number.memfd_create (text []) (nat mode)

-- `addr` is NULL in every use.
abbrev pub mmap : ℕ → List Constant → List Constant → ℤ → Constant → Call
mmap length prot mode fd offset =
    syscall_6 Number.mmap null (nat length) (flags prot) (flags mode) (int fd) (one offset)

abbrev pub munmap : ℤ → ℕ → Call
munmap addr length = syscall_2 Number.munmap (int addr) (nat length)

abbrev pub mremap : ℤ → ℕ → ℕ → ℕ → Call
mremap old_address old_size new_size mode =
    syscall_4 Number.mremap (int old_address) (nat old_size) (nat new_size) (nat mode)

abbrev pub mprotect : ℤ → ℕ → List Constant → Call
mprotect addr len prot = syscall_3 Number.mprotect (int addr) (nat len) (flags prot)

abbrev pub io_uring_setup : ℕ → Call
io_uring_setup entries = syscall_2 Number.io_uring_setup (nat entries) room

-- `sig` is NULL in every use.
abbrev pub io_uring_enter : ℤ → ℕ → ℕ → List Constant → Call
io_uring_enter ring_fd to_submit min_complete mode =
    syscall_6 Number.io_uring_enter (int ring_fd) (nat to_submit) (nat min_complete) (flags mode)
      null (nat 0)

abbrev pub io_uring_register : ℤ → ℕ → Argument → ℕ → Call
io_uring_register fd opcode arg nr_args =
    syscall_4 Number.io_uring_register (int fd) (nat opcode) arg (nat nr_args)

-- `.flags = 0, .exit_signal = exit_signal`
abbrev pub clone3 : Constant → Call
clone3 exit_signal = syscall_2 Number.clone3 (one exit_signal) (one Constant.sizeof)

abbrev pub clock_gettime : Constant → Call
clock_gettime clockid = syscall_2 Number.clock_gettime (one clockid) room

abbrev pub futex : Argument → ℕ → ℕ → Argument → Argument → ℕ → Call
futex uaddr futex_op val timeout uaddr2 val3 =
    syscall_6 Number.futex uaddr (nat futex_op) (nat val) timeout uaddr2 (nat val3)

-- `dirfd` is AT_FDCWD in every use; `how` holds only flags.
abbrev pub openat2 : Text → List Constant → Call
openat2 pathname how =
    syscall_4 Number.openat2 cwd (text pathname) (flags how) (one Constant.sizeof)

abbrev pub setuid : ℕ → Call
setuid uid = syscall_1 Number.setuid (nat uid)

abbrev pub setresuid : ℕ → ℕ → ℕ → Call
setresuid ruid euid suid = syscall_3 Number.setresuid (nat ruid) (nat euid) (nat suid)

abbrev pub setresgid : ℕ → ℕ → ℕ → Call
setresgid rgid egid sgid = syscall_3 Number.setresgid (nat rgid) (nat egid) (nat sgid)

abbrev pub setgroups : ℕ → Argument → Call
setgroups size list = syscall_2 Number.setgroups (nat size) list

abbrev pub signalfd : ℤ → Argument → ℕ → Call
signalfd fd mask mode = syscall_4 Number.signalfd4 (int fd) mask (one Constant.sizeof) (nat mode)

-- `oldset` is NULL in every use.
abbrev pub sigprocmask : Constant → Argument → Call
sigprocmask how set = syscall_4 Number.rt_sigprocmask (one how) set null (one Constant.sizeof)

-- `usage` is NULL in every use.
abbrev pub waitid : Constant → ℤ → List Constant → Call
waitid idtype id options = syscall_5 Number.waitid (one idtype) (int id) room (flags options) null

abbrev pub pivot_root : Text → Text → Call
pivot_root new_root put_old = syscall_2 Number.pivot_root (text new_root) (text put_old)

abbrev pub sysinfo : Call
sysinfo = syscall_1 Number.sysinfo room

abbrev pub fstatat : ℤ → Text → List Constant → Call
fstatat dirfd pathname mode =
    syscall_4 Number.newfstatat (int dirfd) (text pathname) room (flags mode)

abbrev pub prctl : ℕ → ℕ → ℕ → ℕ → ℕ → Call
prctl option arg2 arg3 arg4 arg5 =
    syscall_5 Number.prctl (nat option) (nat arg2) (nat arg3) (nat arg4) (nat arg5)

abbrev pub capget : Argument → Argument → Call
capget hdrp datap = syscall_2 Number.capget hdrp datap

abbrev pub capset : Argument → Argument → Call
capset hdrp datap = syscall_2 Number.capset hdrp datap

abbrev pub setcap : ℕ → ℕ → ℕ → Call
setcap effective permitted inheritable =
    syscall_2 Number.capset (cap_header Constant.linux_capability_version_3 0)
      (cap_sets effective permitted inheritable)

abbrev pub socket : Constant → Constant → Constant → Call
socket domain type protocol = syscall_3 Number.socket (one domain) (one type) (one protocol)

abbrev pub sendmmsg : ℤ → Argument → ℕ → ℕ → Call
sendmmsg sockfd msgvec vlen mode =
    syscall_4 Number.sendmmsg (int sockfd) msgvec (nat vlen) (nat mode)
