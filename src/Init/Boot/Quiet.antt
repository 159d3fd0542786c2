-- ===== src/Init/Boot/Quiet.antt =====
-- init/init.c: the calls of `start` that come before the queue crash nowhere and leave it alone.
use minlinux.Base.{ℕ, ◌≡◌, refl, List, false}
use minlinux.Base.Int.{IsInt64, ℤ, pos, negsuc}
use minlinux.System.{Kernel, World, Outcome, Unit0, record_call}
use minlinux.System.Abi.{Call}
use minlinux.System.Wrappers
use minlinux.System.Wrappers.{Text}
use minlinux.System.Print.{Build}
use minlinux.System.Frame.{reported, is_enter, here, later, Same, unchanged, calls_Same}
use minlinux.Init.Safe.{Safe, goes_on, ends}
use minlinux.Init.Boot.{set_up_files}
use minlinux.Init.Boot.Laws.{
  Plan, done, call, Follows, Answered, then, file_systems, consoles, quiet, set_up_files-Follows,
}

-- No call of the plan is io_uring_enter.
abbrev IsQuiet : Plan → Type 0
IsQuiet done = Unit
IsQuiet (call line c rest) = (is_enter c.number ≡ false) × ((n : ℕ) → IsQuiet (rest (pos n)))

module _ (k : Kernel) (b : Build) (fuel : ℕ) (envp : List Text)
    (wide : (before : List Call) (c : Call) → IsInt64 (k.rax before c)) where
  Answered-Safe :
      (v w : World) (line : Text) (rest : ℤ → Plan) (res : ℤ) (run : Outcome Unit0)
      → ((n : ℕ) → Follows k b (rest (pos n)) w run → Safe k b fuel envp (Same v) run)
      → Answered k b line (λ n. Follows k b (rest (pos n))) res w run
      → Safe k b fuel envp (Same v) run
  Answered-Safe v w line rest (pos n) run onward h = onward n h
  Answered-Safe v w line rest (negsuc n) run onward h = rw h (ends (λ e. cc) (reported _ _ refl))

  Follows-Safe :
      (p : Plan) (v w : World) (run : Outcome Unit0)
      → IsQuiet p
      → Same v w
      → Follows k b p w run
      → Safe k b fuel envp (Same v) run
  Follows-Safe done v w run q s h = rw h (goes_on s)
  Follows-Safe (call line c rest) v w run (q, qs) s h =
      Answered-Safe v (record_call c w) line rest (k.rax w.calls c) run
        (λ n h'.
          Follows-Safe (rest (pos n)) v (record_call c w) run (qs n)
            (calls_Same s (later q s.quiet)) h')
        h

  pub set_up_files-Safe : (w : World) → Safe k b fuel envp (Same w) (set_up_files k b w)
  set_up_files-Safe w =
      let w' = record_call (Wrappers.umask 0) w in
      let s = calls_Same (unchanged w) (later refl here) in
      Follows-Safe (then (then file_systems consoles) quiet) w w' (set_up_files k b w)
        (
          refl,
          λ _. (
            refl,
            λ _. (
              refl,
              λ _. (
                refl,
                λ _. (
                  refl,
                  λ _. (
                    refl,
                    λ _. (
                      refl,
                      λ _. (refl, λ _. (refl, λ _. (refl, λ _. (refl, λ _. (refl, λ _. tt))))),
                    ),
                  ),
                ),
              ),
            ),
          ),
        )
        s (set_up_files-Follows k b wide w)
