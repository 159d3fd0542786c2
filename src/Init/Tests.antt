-- ===== src/Init/Tests.antt =====
-- init/init.c and the commands of init/command.c with a ring of 16 entries and a kernel that answers
-- 0 to every call, or serves a file: the theorems at inputs that meet their hypotheses.
use minlinux.Base.{
  ℕ, ◌/◌, ◌^◌, get_elem?, List, ap, ◌-◌, ◌≢◌, refl, some, [], ◌∷◌, ◌++◌, All, arith, codes,
}
use mathlib.Core.Option.{get_or}
use minlinux.Base.Int.{pos, of_u64}
use minlinux.Memory.Text.{HasText}
use minlinux.Uring.Valid.{IsValid}
use minlinux.System.{Kernel, World, record_call}
use minlinux.System.Wrappers
use minlinux.System.Wrappers.{Text}
use minlinux.System.Print.{write_int}
use minlinux.Init.Entry.{Machine, startup, Passes, startup-Passes}
use minlinux.System.Print.Laws.{Writes, write_int-Writes}
use minlinux.System.Abi.{Call}
use minlinux.Command.Builtins.{cat_opened}
use minlinux.Command.Builtins.Copy.{Serves, ends, gives, Wrote, cat_opened-Wrote}
use minlinux.Command.Dispatch.{Builtin, time, ls, cat, env, exit, usage, memrun}
use minlinux.Command.Dispatch.Laws.{key, name_of, Runs, process_command-Runs}
use minlinux.Command.Spawn.Exec.{Executes}
use minlinux.Init.Samples.{unmapped, build, ring}
use minlinux.Init.{process_input, create_console_prompt, prompt_sqe, read_sqe}
use minlinux.Init.Prompt.{Queues, create_console_prompt-Queues}
use minlinux.Init.Session.{entered}
use minlinux.Init.Session.Obeys.{Obeys, process_input-Obeys}
use minlinux.Init.Input.{ended, process_input-Executes}
use minlinux.Init.Boot.{set_up_files}
use minlinux.Init.Boot.Laws.{Follows, then, file_systems, consoles, quiet, set_up_files-Follows}

abbrev kernel : Kernel
kernel = record {
  rax = λ _ _. pos 0;
  bytes = λ _ _. [];
  fields = λ _ _. [];
  mapped = λ _. unmapped;
  rings = λ _ u. u;
  lines = λ _ m. m;
}

ring-IsValid : IsValid 4 ring
ring-IsValid = record {
  order = omega arith;
  entries = refl;
  mask = refl;
  array_size = refl;
  sqes_size = refl;
  head_small = omega arith;
  tail_small = omega arith;
  list_tail_small = omega arith;
  joined = refl;
  fits = omega arith;
  aligned = λ j less. absurd (omega arith);
}

-- The console buffer with a line, its newline and what an earlier line left.
abbrev world : Text → World
world line = record {
  calls = [];
  buffer = line ++ (b'\n' ∷ codes "old");
  sigfd = pos 5;
  uring = ring;
}

abbrev listing : Text
listing = codes " ls /"

abbrev listing_world : World
listing_world = ended listing (codes "old") (world listing)

listing_text : HasText listing_world.buffer 0 listing
listing_text = ground arith

process_command-Runs_example : Runs kernel build 9 [] 0 listing listing_world
process_command-Runs_example =
    process_command-Runs kernel build 9 [] 0 listing listing_world listing_text

create_console_prompt-Queues_example :
    Queues 4 listing_world
      (some prompt_sqe ∷ some read_sqe ∷ [])
      (create_console_prompt listing_world)
create_console_prompt-Queues_example =
    create_console_prompt-Queues 4 listing_world ring-IsValid (omega arith)

abbrev copying : Text
copying = codes "cp a b"

copying_letters : All (λ c. c ≢ 0) copying
copying_letters = ground arith

unknown : (x : Builtin) → codes "cp" ≢ name_of x
unknown time e = omega (arith, ap key e)
unknown ls e = omega (arith, ap key e)
unknown cat e = omega (arith, ap key e)
unknown env e = omega (arith, ap key e)
unknown exit e = omega (arith, ap key e)
unknown usage e = omega (arith, ap key e)
unknown memrun e = omega (arith, ap key e)

process_input-Obeys_example :
    Obeys kernel build 9 []
      (world copying)
      (entered (codes "cp a b\n"))
      (process_input kernel build 9 [] (pos 7) (world copying))
process_input-Obeys_example =
    process_input-Obeys kernel build 9 [] (world copying) (entered (codes "cp a b\n")) refl

process_input-Executes_example :
    Executes kernel
      (codes "/busybox" ∷ codes "cp" ∷ codes "a" ∷ codes "b" ∷ [])
      []
      (process_input kernel build 9 [] (pos 7) (world copying))
process_input-Executes_example =
    process_input-Executes kernel build 9 [] copying (codes "old") (world copying) copying_letters
      refl (codes "a" ∷ codes "b" ∷ []) (λ before c. (0, refl)) (codes "cp") refl unknown
      (omega arith) refl

set_up_files-Follows_example :
    Follows kernel build
      (then (then file_systems consoles) quiet)
      (record_call (Wrappers.umask 0) listing_world)
      (set_up_files kernel build listing_world)
set_up_files-Follows_example = set_up_files-Follows kernel build (λ _ _. omega arith) listing_world

-- One argument and two entries of the environment.
abbrev stack : List ℕ
stack = 1 ∷ 7000 ∷ 0 ∷ 7006 ∷ 7020 ∷ 0 ∷ []

abbrev machine : Machine
machine = record {
  rdi = 5;
  rsi = 6;
  rdx = 7;
  rsp = 4096;
  word = λ at. get_or (get_elem? stack ((at - 4096) / 8)) 0;
}

startup-Passes_example : Passes (7000 ∷ []) (7006 ∷ 7020 ∷ []) 9000 machine (startup 9000 machine)
startup-Passes_example =
    startup-Passes (7000 ∷ []) (7006 ∷ 7020 ∷ []) 9000 machine
      (refl, (refl, (refl, (refl, (refl, (refl, tt)))))) refl (omega arith) (omega arith)

write_int-Writes_example :
    Writes (of_u64 (2 ^ 64 - 5)) listing_world (write_int kernel (2 ^ 64 - 5) listing_world)
write_int-Writes_example = write_int-Writes kernel (2 ^ 64 - 5) listing_world (omega arith)

-- A kernel that serves "hi" and "!" to the reads and takes the writes, by the number of the call.
abbrev answers : List Call → ℕ
answers [] = 2
answers (_ ∷ []) = 2
answers (_ ∷ _ ∷ []) = 1
answers (_ ∷ _ ∷ _ ∷ []) = 1
answers _ = 0

abbrev content : List Call → List ℕ
content [] = codes "hi"
content _ = codes "!"

abbrev file_kernel : Kernel
file_kernel = record {
  rax = λ before _. pos (answers before);
  bytes = λ before _. content before;
  fields = λ _ _. [];
  mapped = λ _. unmapped;
  rings = λ _ u. u;
  lines = λ _ m. m;
}

file_Serves : Serves file_kernel (pos 3) (codes "hi" ∷ codes "!" ∷ []) []
file_Serves =
    gives b'h' (codes "i") (codes "!" ∷ []) 2 (omega arith) refl refl refl
      (gives b'!' [] [] 1 (omega arith) refl refl refl (ends refl))

cat_opened-Wrote_example :
    Wrote (codes "hi!") tt listing_world (cat_opened file_kernel build 9 (pos 3) listing_world)
cat_opened-Wrote_example =
    cat_opened-Wrote file_kernel build 3 9 (codes "hi" ∷ codes "!" ∷ []) listing_world (omega arith)
      file_Serves
