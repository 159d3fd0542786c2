-- ===== src/Init/Boot/Laws.antt =====
-- init/init.c: the calls by which `start` sets up the file systems and the console.
use minlinux.Base.{ℕ, ◌≡◌, refl, List, [], ◌∷◌, ◌++◌, codes}
use minlinux.Base.Int.{ℤ, pos, negsuc, IsInt64}
use minlinux.System.{
  Kernel, World, Outcome, Program, Unit0, returned, skip, record_call, and_then, ◌>>=◌,
}
use minlinux.System.Abi.{Call, Constant}
use minlinux.System.Wrappers
use minlinux.System.Wrappers.{Text}
use minlinux.System.Print.{Build, syscheck}
use minlinux.System.Print.Laws.{Breaks, syscheck-Checks}
use minlinux.Init.Boot.{
  checked_call, mount_systems, open_consoles, quiet_kernel, set_up_files, all_modes, console,
}

-- A plan of system calls that must succeed: each call at its line, and the plan behind it, given
-- the call's result.
pub data Plan : Type 0 where
  done : Plan
  call : Text → Call → (ℤ → Plan) → Plan

-- The second plan behind the first.
abbrev pub then : Plan → Plan → Plan
then done q = q
then (call line c rest) q = call line c (λ n. then (rest n) q)

-- The directories and the file systems on them.
abbrev pub file_systems : Plan
file_systems = call (codes ":46") (Wrappers.mkdir (codes "/proc") all_modes) (λ _.
    call (codes ":47") (Wrappers.mkdir (codes "/dev") all_modes) (λ _.
      call (codes ":48") (Wrappers.mkdir (codes "/sys") all_modes) (λ _.
        call (codes ":50") (Wrappers.mount (codes "/proc") (codes "proc") (Constant.ms_noexec ∷ []))
          (λ _.
            call (codes ":51")
              (Wrappers.mount (codes "/sys") (codes "sysfs")
                (Constant.ms_noexec ∷ Constant.ms_rdonly ∷ []))
              (λ _.
                call (codes ":52")
                  (Wrappers.mount (codes "/dev") (codes "devtmpfs") (Constant.ms_noexec ∷ []))
                  (λ _. done))))))

-- The console for reading, for writing, and in the place of standard error.
abbrev pub consoles : Plan
consoles = call (codes ":55") (Wrappers.open_file console (Constant.o_rdonly ∷ []) 0) (λ _.
    call (codes ":56") (Wrappers.open_file console (Constant.o_append ∷ Constant.o_wronly ∷ []) 0)
      (λ fd. call (codes ":57") (Wrappers.dup3 fd 2 0) (λ _. done)))

-- "0" written to the kernel's console level.
abbrev pub quiet : Plan
quiet =
    call (codes ":59")
      (Wrappers.open_file (codes "/proc/sys/kernel/printk") (Constant.o_wronly ∷ []) 0)
      (λ fd.
        call (codes ":60") (Wrappers.write fd (codes "0"))
          (λ _. call (codes ":61") (Wrappers.close fd) (λ _. done)))

module _ (k : Kernel) (b : Build) where
  -- What becomes of a checked call: `next` with its result, or the place of it written and the end.
  abbrev pub Answered :
      Text → (ℕ → World → Outcome Unit0 → Type 0) → ℤ → World → Outcome Unit0 → Type 0
  Answered line next (pos n) w run = next n w run
  Answered line next (negsuc n) w run = Breaks (b.init_c ++ line) w run

  -- `run` makes the plan's calls in order, and no other, up to the first that fails, of
  -- which it writes the place, and then breaks off.
  abbrev pub Follows : Plan → World → Outcome Unit0 → Type 0
  Follows done w run = run ≡ returned tt w
  Follows (call line c rest) w run =
      Answered line (λ n. Follows (rest (pos n))) (k.rax w.calls c) (record_call c w) run

  module _ (wide : (before : List Call) (c : Call) → IsInt64 (k.rax before c)) where
    answered_lem :
        (line : Text) (rest : ℤ → Plan) (next : ℤ → Program Unit0) (w : World) (res : ℤ)
        → IsInt64 res
        → ((n : ℕ) (w : World) → Follows (rest (pos n)) w (next (pos n) w))
        → Answered line
            (λ n. Follows (rest (pos n)))
            res
            w
            ((syscheck k (b.init_c ++ line) res >>= next) w)
    answered_lem line rest next w (pos n) small onward =
        rw (syscheck-Checks k (b.init_c ++ line) (pos n) w small) (onward n w)
    answered_lem line rest next w (negsuc n) small onward =
        rw (syscheck-Checks k (b.init_c ++ line) (negsuc n) w small) refl

    perform : Plan → Program Unit0
    perform done = skip
    perform (call line c rest) = checked_call k b line c >>= λ res. perform (rest res)

    perform-Follows : (p : Plan) (w : World) → Follows p w (perform p w)
    unfolding perform
    perform-Follows done w = refl
    perform-Follows (call line c rest) w =
        answered_lem line rest (λ res. perform (rest res)) (record_call c w) (k.rax w.calls c)
          (wide w.calls c) (λ n. perform-Follows (rest (pos n)))

    Answered-then :
        (line : Text) (rest : ℤ → Plan) (q : Plan) (w : World) (res : ℤ) (run : Outcome Unit0)
        (next : Program Unit0)
        → ((n : ℕ)
            → Follows (rest (pos n)) w run
            → Follows (then (rest (pos n)) q) w (and_then run (λ _. next)))
        → Answered line (λ n. Follows (rest (pos n))) res w run
        → Answered line (λ n. Follows (then (rest (pos n)) q)) res w (and_then run (λ _. next))
    Answered-then line rest q w (pos n) run next onward h = onward n h
    Answered-then line rest q w (negsuc n) run next onward h = rw h refl

    then-Follows :
        (p q : Plan) (w : World) (run : Outcome Unit0) (next : Program Unit0)
        → Follows p w run
        → ((w : World) → Follows q w (next w))
        → Follows (then p q) w (and_then run (λ _. next))
    then-Follows done q w run next h onward = rw h (onward w)
    then-Follows (call line c rest) q w run next h onward =
        let w' = record_call c w in
        Answered-then line rest q w' (k.rax w.calls c) run next
          (λ n h'. then-Follows (rest (pos n)) q w' run next h' onward) h

    mount_systems-Follows : (w : World) → Follows file_systems w (mount_systems k b w)
    unfolding mount_systems perform
    mount_systems-Follows w = perform-Follows file_systems w

    open_consoles-Follows : (w : World) → Follows consoles w (open_consoles k b w)
    unfolding open_consoles perform
    open_consoles-Follows w = perform-Follows consoles w

    quiet_kernel-Follows : (w : World) → Follows quiet w (quiet_kernel k b w)
    unfolding quiet_kernel perform
    quiet_kernel-Follows w = perform-Follows quiet w

    -- If the kernel's answers fit in 64 bits, start sets the mask of new files to 0, makes and
    -- mounts the file systems, opens the consoles and quiets the kernel by exactly these calls in
    -- this order, each with the descriptor that an earlier one gave, up to the first that fails. Of
    -- that one it writes the place and then comes to the text of the error, which has ended, so
    -- that what follows is undefined.
    pub set_up_files-Follows :
        (w : World)
        → Follows
            (then (then file_systems consoles) quiet)
            (record_call (Wrappers.umask 0) w)
            (set_up_files k b w)
    unfolding set_up_files
    set_up_files-Follows w =
        let w' = record_call (Wrappers.umask 0) w in
        then-Follows (then file_systems consoles) quiet w' _ (quiet_kernel k b)
          (then-Follows file_systems consoles w' _ (open_consoles k b) (mount_systems-Follows w')
            open_consoles-Follows)
          quiet_kernel-Follows
