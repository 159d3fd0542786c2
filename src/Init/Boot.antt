-- ===== src/Init/Boot.antt =====
-- init/init.c: `start` and `init`, from the first system call to the event loop.
pub mod Laws
pub mod Quiet
pub mod Safe
pub mod Orderly
pub mod Session
pub mod Obliging
pub mod Typing
mod Tests
use minlinux.Base.{ℕ, zero, suc, List, [], ◌∷◌, ◌++◌, codes}
use minlinux.Base.Int.{ℤ, pos, negsuc}
use minlinux.System.{
  Kernel, World, Program, Unit0, no_fuel, stop, syscall, modify, ◌>>=◌, ◌>>◌, skip,
}
use minlinux.System.Abi.{Call, Constant, all_signals}
use minlinux.System.Wrappers
use minlinux.System.Wrappers.{Text}
use minlinux.System.Print.{Build, syscheck}
use minlinux.Uring.Calls.{uring_init}
use minlinux.Init.{create_console_prompt, submit_sig_listen, loop_round}

abbrev pub all_modes : List Constant
all_modes = Constant.s_irwxu ∷ Constant.s_irwxg ∷ Constant.s_irwxo ∷ []

abbrev pub console : Text
console = codes "/dev/console"

module _ (k : Kernel) (b : Build) where
  -- `SYSCHECK(call)` at a line of init.c.
  abbrev pub checked_call : Text → Call → Program ℤ
  checked_call line c = syscall k c >>= syscheck k (b.init_c ++ line)

  -- `mkdir` and `mount` of the three file systems.
  unfoldable pub mount_systems : Program Unit0
  mount_systems = do
    checked_call (codes ":46") (Wrappers.mkdir (codes "/proc") all_modes)
    checked_call (codes ":47") (Wrappers.mkdir (codes "/dev") all_modes)
    checked_call (codes ":48") (Wrappers.mkdir (codes "/sys") all_modes)
    checked_call (codes ":50")
        (Wrappers.mount (codes "/proc") (codes "proc") (Constant.ms_noexec ∷ []))
    checked_call (codes ":51") (
        Wrappers.mount (codes "/sys") (codes "sysfs")
          (Constant.ms_noexec ∷ Constant.ms_rdonly ∷ []))
    checked_call (codes ":52")
        (Wrappers.mount (codes "/dev") (codes "devtmpfs") (Constant.ms_noexec ∷ []))
    skip

  unfoldable pub open_consoles : Program Unit0
  open_consoles = do
    checked_call (codes ":55") (Wrappers.open_file console (Constant.o_rdonly ∷ []) 0)
    stdout ←
        checked_call (codes ":56")
          (Wrappers.open_file console (Constant.o_append ∷ Constant.o_wronly ∷ []) 0)
    checked_call (codes ":57") (Wrappers.dup3 stdout 2 0)
    skip

  -- The kernel's own messages are kept from the console.
  unfoldable pub quiet_kernel : Program Unit0
  quiet_kernel = do
    printkfd ←
        checked_call (codes ":59")
          (Wrappers.open_file (codes "/proc/sys/kernel/printk") (Constant.o_wronly ∷ []) 0)
    checked_call (codes ":60") (Wrappers.write printkfd (codes "0"))
    checked_call (codes ":61") (Wrappers.close printkfd)
    skip

  -- `start` up to `uring_init`.
  unfoldable pub set_up_files : Program Unit0
  unfolding mount_systems open_consoles quiet_kernel
  set_up_files = syscall k (Wrappers.umask 0) >> mount_systems >> open_consoles >> quiet_kernel

  unfoldable pub init : Program Unit0
  init = do
    sigfd ← checked_call (codes ":107") (Wrappers.signalfd (negsuc 0) all_signals 0)
    modify (λ w. record w { sigfd = sigfd })
    create_console_prompt
    submit_sig_listen b

  -- `start` up to its loop.
  unfoldable pub boot : Program Unit0
  unfolding set_up_files init
  boot = do
    set_up_files
    uring ← uring_init k b 16
    modify (λ w. record w { uring = uring })
    checked_call (codes ":66") (Wrappers.sigprocmask Constant.sig_setmask all_signals)
    init
    checked_call (codes ":76")
        (Wrappers.socket Constant.af_packet Constant.sock_dgram Constant.eth_p_all_swapped)
    skip

  -- The rounds of the event loop, at most `rounds` of them.
  unfoldable pub event_loop : ℕ → List Text → ℕ → Program Unit0
  event_loop fuel envp zero = stop no_fuel
  event_loop fuel envp (suc rounds) = loop_round k b fuel envp >> event_loop fuel envp rounds

  unfoldable pub start : ℕ → List Text → ℕ → Program Unit0
  unfolding boot event_loop
  start fuel envp rounds = boot >> event_loop fuel envp rounds
