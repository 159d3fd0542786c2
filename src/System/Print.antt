-- ===== src/System/Print.antt =====
-- include/minlinux/util.h and util/util.c: what the program writes to the console, and SYSCHECK.
pub mod Laws
pub mod Frame
use minlinux.Base.{
  ℕ, ◌+◌, ◌-◌, ◌%◌, ◌^◌, Bool, true, false, List, [], ◌∷◌, ◌++◌, if◌then◌else◌, take, drop,
  replicate, codes,
}
use minlinux.Base.Int.{ℤ, pos, negsuc, of_u64, to_u64}
use minlinux.Memory
use minlinux.Memory.{Run, ok}
use minlinux.System
use minlinux.Util.Decimal.{Cursor, ltoa, int_to_str}
use minlinux.Util.Text.{strlen}
use minlinux.System.{
  Kernel, World, Stop, Program, Unit0, exited, powered_off, undefined, stop, syscall, run, ◌>>=◌,
  ◌>>◌, skip,
}
use minlinux.System.Abi.{linux_reboot_cmd_power_off}
use minlinux.System.Wrappers
use minlinux.System.Wrappers.{Text}

abbrev pub stdin : ℤ
stdin = pos 0

abbrev pub stdout : ℤ
stdout = pos 1

-- The text in the static buffer that ltoa filled: `str`, of `strlen(str)` bytes.
unfoldable pub text_of : Run Cursor → Run Text
text_of r =
    Memory.◌>>=◌ r
      (λ c. Memory.◌>>=◌ (strlen c.bytes c.next) (λ n. ok (take n (drop c.next c.bytes))))

-- `str.str` of the struct that int_to_str returned: the pointer leads into the `buffer` of
-- int_to_str itself, not into the copy, and that object ended with the call.
abbrev pub ended_text : Cursor → Program Text
ended_text c = stop undefined

-- What follows the call that powers off: nothing, where the kernel does as it is asked. Where it
-- refuses, the program runs on behind `__builtin_unreachable`.
abbrev pub after_reboot : ℤ → Stop
after_reboot (pos n) = powered_off
after_reboot (negsuc n) = undefined

module _ (k : Kernel) where
  -- `WRITESTR(str)`
  abbrev pub write_str : Text → Program Unit0
  write_str str = syscall k (Wrappers.write stdout str) >> skip

  -- `MARK()` at `place`, the `__FILE__ ":" __LINE__` of its use.
  pub mark : Text → Program Unit0
  mark place = syscall k (Wrappers.write stdin (place ++ codes "\n")) >> skip

  -- `ltoa` takes a `long`: the argument is cut to 64 bits and read as a signed number. Its static
  -- buffer holds what it held before, here zeros.
  unfoldable pub write_int : ℕ → Program Unit0
  write_int val = do str ← run (text_of (ltoa (of_u64 val) (replicate 21 0))); write_str str

  -- `SYSCHECK(expr)` at `place`, the `__FILE__ ":" __LINE__` of its use.
  unfoldable pub syscheck : Text → ℤ → Program ℤ
  syscheck place (pos n) = λ w. System.returned (pos n) w
  syscheck place (negsuc n) = do
    write_str (place ++ codes " syscall error ")
    intstr ← run (int_to_str (negsuc n) (replicate 21 0))
    str ← ended_text intstr
    write_str str
    write_str (codes "\n")
    syscall k (Wrappers.exit ((n + 1) % 2 ^ 16))
    stop (exited ((n + 1) % 2 ^ 16))

-- What the build decides: ARG_MAX of <linux/limits.h>, the sizes of the entries of
-- <linux/io_uring.h> and of <linux/signalfd.h>, and `__FILE__` in each source file.
pub record Build : Type 0 where
  pub arg_max : ℕ
  pub sizeof_cqe : ℕ
  pub sizeof_sqe : ℕ
  pub sizeof_siginfo : ℕ
  pub command_c : Text
  pub init_c : Text
  pub uring_ctl_c : Text

module _ (k : Kernel) where
  -- `WRITE_ERR(str, err)`; the error goes to `uint64_t` with its sign extended.
  abbrev pub write_err : Text → ℤ → Program Unit0
  write_err str err = do
    write_str k str
    write_str k (codes ": ")
    write_int k (to_u64 err)
    write_str k (codes "\n")

  -- `ERREXIT(msg)` at `place`
  unfoldable pub err_exit : {A : Type 0} → Text → Text → Program A
  err_exit place msg = do
    write_str k (place ++ (codes " " ++ msg))
    res ← syscall k (Wrappers.reboot_hard linux_reboot_cmd_power_off)
    stop (after_reboot res)
