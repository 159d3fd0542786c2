-- ===== src/Lib.antt =====
-- minlinux: the init program of a small Linux system, with the C library that it is linked to.
--
-- The program is the first process of the system. init/init.c mounts the file systems, opens the
-- console, sets up an io_uring queue and then waits in a loop for completions: of reads of the
-- console, which it treats as command lines, and of reads of a signalfd. init/command.c splits a
-- line into words and runs a built-in command or busybox. util/uring_ctl.c keeps the queue,
-- util/util.c has the memory and string functions, include/minlinux/syscall.h the system calls.
--
--   * Base: numbers of a machine's width, bits, ℤ over the native ℕ, tests and lemmas on lists.
--   * Memory: an object of C as a list of cells. A pointer into an object is an index, and an
--     access outside the object, undefined in C, is `fault`. Memory/Text: strings with a
--     terminator, for the model of `char *`.
--   * Util: util/util.c. Util/Move has memmove, memcpy and memset, Util/Compare memcmp, Util/Text
--     strlen, strcpy and strchr, Util/Decimal ltoa and int_to_str; Util/Swap has __bswap_16 of
--     include/minlinux/util.h.
--   * Uring: util/uring_ctl.c and include/minlinux/uring_ctl.h. Uring.antt has the operations on
--     the rings, Uring/Valid the invariant and what each side sees, Uring/Protocol the steps of the
--     program and the kernel in any order, Uring/Calls uring_init, uring_wait and uring_close, with
--     the offsets of io_uring_params in Uring/Params. Uring/Contract says what the kernel documents
--     of io_uring; Uring/Start and Uring/Wait are about uring_init and uring_wait with such a
--     kernel, and Uring/Arrive about a completion that the kernel puts into the ring.
--   * Command: init/command.c. Command/Scan has find_arg, terminate_arg and streq, Command/Words
--     the words of a line apart from the code, Command/Args fill_args, Command/Builtins the
--     commands time, cat, env, exit and usage, with what cat and usage write in
--     Command/Builtins/Copy and Command/Builtins/Usage, Command/Listing ls, Command/Spawn memrun
--     and busybox, Command/Dispatch the table and process_command. The modules named Frame are
--     about what a command leaves alone, those named Orderly about commands that do not crash, with
--     a kernel as in Command/Documented; Command/Spawn/Exec and Command/Dispatch/Child are about
--     the child that becomes busybox, Command/Spawn/Memrun about the one that becomes a file in
--     memory, Command/Spawn/Failed about a child that becomes nothing, Command/Spawn/Overflow and
--     Command/Dispatch/Overflow about a child with too many arguments, and Command/Spawn/Parent
--     about init meanwhile.
--   * System: the macros SYSCALL_0 to SYSCALL_6 of include/minlinux/syscall.h (System/Abi), its
--     wrappers (System/Wrappers), its directory entries (System/Dirent) and the macros of
--     include/minlinux/util.h with write_int (System/Print). A program is a function of the world:
--     the calls made so far, the console buffer, the signalfd and the queue. It returns, or stops:
--     by `exit`, by powering off, because another program replaces it, by an access outside an
--     object (`crashed`), or by another step that C leaves undefined (`undefined`). Of these there
--     are two: behind every failed call SYSCHECK reads the text of the error through the pointer
--     that int_to_str left to its own ended object, and behind a refused power-off the program
--     runs on behind `__builtin_unreachable`. Nothing is said of what comes after.
--   * Init: init/init.c. Init/Entry has `_start`, the assembler code before `start`. Init.antt has
--     the handlers and a round of the loop, Init/Boot `start` and `init`, Init/Prompt and
--     Init/Input what the handlers do to the ring and with a line. Init/Handlers, Init/Rounds,
--     Init/Boot/Safe and Init/Boot/Orderly are about whole handlers, rounds and runs. Init/Session
--     and Init/Boot/Session are about what is typed at the console, with a kernel whose reads are
--     as in the record Console. `start` has the texts of the environment, where `_start` has their
--     addresses.
--   * Hello: hello-world/hello-world.c.
--
-- The kernel is a parameter: what it answers to a call is any function of the calls before it, and
-- at io_uring_enter it may change the shared rings and the buffer in any way, but not the program's
-- own counters. What a theorem needs of it is a hypothesis, for io_uring the record Contract:
-- answers are 64-bit numbers; io_uring_enter takes every entry that it can see, and completes some
-- of the requests that are pending, each once, with the results behind the completions that are
-- there; at the offsets that io_uring_setup gives, mappings that are long enough show empty rings;
-- and where every entry handed over so far with the user data of a console read asks for at most so
-- many bytes, no completion with it gives more. Which requests are pending is a function of the
-- calls made. For what is typed it is the record Console: a read of the console that is completed
-- leaves its bytes at the start of the buffer, which stays as it is where none is completed. The
-- sizes of structs and `__FILE__` are a parameter too (Build).
--
-- Loops over memory have fuel of the length of the memory and one more, which is enough since each
-- round goes on to a later byte; the loop of memmove and memset runs on its count, that of ltoa on
-- its 21 bytes. The loops of cat and ls end when the kernel says so, and the event loop never ends:
-- their fuel is a parameter, to be larger than the number of answers that the kernel gives; a run of
-- the event loop through that number of rounds stops as `no_fuel`. The loop over one batch of
-- directory entries has fuel of the bytes in it, since each entry takes some.
--
-- Not modelled: the values of the kernel's constants, which are names here, the constants and
-- types that syscall.h copies from other headers, the registers that a system call overwrites, the
-- second process after clone3, of which the answer decides which one the model follows, the cut of
-- an answer from `long` to `int`, and memory of 2^63 bytes or more. A wrapper is the call that it
-- makes; where a parameter has one value in every use it is that value. The atomic loads and
-- stores of the rings are the order of the steps in Uring/Protocol. The fields of a struct that
-- the program does not read are left out. The build scripts are no part of the running system.
pub mod Base
pub mod Command
pub mod Hello
pub mod Init
pub mod Memory
pub mod System
pub mod Uring
pub mod Util
