-- ===== src/Command/Frame.antt =====
-- init/command.c: the scanners keep the size of the console buffer, and leave the queue alone.
use minlinux.Base.{
  ℕ, zero, suc, ◌+◌, ◌≡◌, refl, ◌∙◌, Bool, Option, none, some, length, ◌==◌, if◌then◌else◌, true,
  false,
}
use minlinux.Memory.{Memory, Run, ok, fault, out_of_fuel, ◌>>=◌, load, store}
use minlinux.Memory.Holds.{Holds, >>=-Holds, after-Holds, store-Holds}
use minlinux.Command.Scan.{find_arg, terminate_arg, arg_end_loop, rounds}
use minlinux.Command.Args.{max_args, Vector, Filled, fill_loop, fill_args}
use minlinux.Command.Builtins.{find_in_line, terminate_in_line, text_at}
use minlinux.Util.Text.{strlen}
use minlinux.System
use minlinux.System.{World, run, modify, pure}
use minlinux.System.Frame.{Same, Kept, goes_on, ends, and_then-Kept, run-Kept}

abbrev Cut : Memory → Memory × ℕ → Type 0
Cut m (m', next) = length m' ≡ length m

terminate_arg-Holds : (m : Memory) (str : ℕ) → Holds (Cut m) (terminate_arg m str)
unfolding terminate_arg
terminate_arg-Holds m str =
    after-Holds (Cut m) _ (arg_end_loop (rounds m) m str)
      (λ at. after-Holds (Cut m) _ (load m at) (λ c. tested at (c == 0)))
  where
    tested :
        (at : ℕ) (ended : Bool)
        → Holds (Cut m) (if ended then ok (m, at) else (store m at 0 >>= λ m'. ok (m', at + 1)))
    tested at true = refl
    tested at false =
        >>=-Holds (Cut m) (λ m'. ok (m', at + 1)) (λ m'. length m' ≡ length m) (store m at 0)
          (store-Holds m at 0) (λ m' h. h)

abbrev SameLine : ℕ → Filled → Type 0
SameLine n f = length f.line ≡ n

fill_loop-Holds :
    (n left i base : ℕ) (args : Vector) (next : Option ℕ) (m : Memory)
    → length m ≡ n
    → Holds (SameLine n) (fill_loop left i base args next m)
unfolding fill_loop
fill_loop-Holds n left i base args none m e = e
fill_loop-Holds n zero i base args (some next) m e = e
fill_loop-Holds n (suc left) i base args (some next) m e =
    >>=-Holds (SameLine n) _ (Cut m) (terminate_arg m next) (terminate_arg-Holds m next)
      (λ (m', temp) h. after-Holds (SameLine n) _ (store args (base + i) (some next)) (λ args'.
        after-Holds (SameLine n) _ (find_arg m' temp)
          (λ next'. fill_loop-Holds n left (i + 1) base args' next' m' (h ∙ e))))

abbrev pub SameSize : ℕ → Bool × Filled → Type 0
SameSize n (truncated, f) = length f.line ≡ n

pub fill_args-Holds :
    (arg_max maxargs base : ℕ) (args : Vector) (next : Option ℕ) (m : Memory)
    → Holds (SameSize (length m)) (fill_args arg_max maxargs base args next m)
unfolding fill_args
fill_args-Holds arg_max maxargs base args next m =
    >>=-Holds (SameSize (length m)) _ (SameLine (length m)) (fill_loop maxargs 0 base args next m)
      (fill_loop-Holds (length m) maxargs 0 base args next m refl)
      (λ f h. ended f h (f.count == max_args arg_max))
  where
    ended :
        (f : Filled)
        → length f.line ≡ length m
        → (full : Bool)
        → Holds (SameSize (length m)) (
            if full
            then ok (true, f)
            else (store f.args (base + f.count) none >>= λ args'.
                ok (false, record f { args = args' })))
    ended f h true = h
    ended f h false =
        after-Holds (SameSize (length m)) _ (store f.args (base + f.count) none) (λ args'. h)

module _ {v w : World} (s : Same v w) where
  pub find_in_line-Kept : (str : ℕ) → Kept v (find_in_line str w)
  find_in_line-Kept str = run-Kept (find_arg w.buffer str) s

  pub text_at-Kept : (str : ℕ) → Kept v (text_at str w)
  text_at-Kept str = and_then-Kept (run-Kept (strlen w.buffer str) s) (λ n w' s'. goes_on s')

  pub terminate_in_line-Kept : (str : ℕ) → Kept v (terminate_in_line str w)
  terminate_in_line-Kept str = cut (terminate_arg w.buffer str) (terminate_arg-Holds w.buffer str)
    where
      cut :
          (r : Run (Memory × ℕ))
          → Holds (Cut w.buffer) r
          → Kept v (
              System.◌>>=◌
                (run r)
                (λ x. System.◌>>◌ (modify (λ w. record w { buffer = x.0 })) (pure x.1))
                w)
      cut (ok (line, next)) h =
          goes_on (record { quiet = s.quiet; ring = s.ring; size = h ∙ s.size })
      cut fault h = ends s tt
      cut out_of_fuel h = ends s tt
