-- ===== src/System/Frame.antt =====
-- Programs that leave the queue to others: they make no io_uring_enter call and change neither the
-- rings nor the size of the console buffer.
use minlinux.Base.{◌≡◌, refl, Bool, true, false, List, ◌∷◌, ◌++◌, codes, length}
use minlinux.Base.Int.{pos}
use minlinux.Memory.{Run, ok, fault, out_of_fuel}
use minlinux.System.{World, Stop, undefined, Outcome, returned, stopped, Program, and_then, run}
use minlinux.System.Abi.{Number, Call, linux_reboot_cmd_power_off}
use minlinux.System.Wrappers
use minlinux.System.Wrappers.{Text}

abbrev pub is_enter : Number → Bool
is_enter Number.io_uring_enter = true
is_enter _ = false

-- The calls `after`, latest first, are those of `before` and then others than io_uring_enter.
pub data Since (before : List Call) : List Call → Type 0 where
  here : Since before before
  later :
      {c : Call} {after : List Call}
      → is_enter c.number ≡ false
      → Since before after
      → Since before (c ∷ after)

pub record Same (v w : World) : Type 0 where
  pub quiet : Since v.calls w.calls
  pub ring : w.uring ≡ v.uring
  pub size : length w.buffer ≡ length v.buffer

-- The last call wrote the place of a failed call, as SYSCHECK does before it reads the text of the
-- error, which has ended; or it powered off, and was refused.
pub data Broke (calls : List Call) : Type 0 where
  reported :
      (place : Text) (before : List Call)
      → calls ≡ Wrappers.write (pos 1) (place ++ codes " syscall error ") ∷ before
      → Broke calls
  refused :
      (before : List Call)
      → calls ≡ Wrappers.reboot_hard linux_reboot_cmd_power_off ∷ before
      → Broke calls

-- A stop is undefined only behind such a call.
abbrev pub Accounted : Stop → List Call → Type 0
Accounted undefined calls = Broke calls
Accounted _ calls = Unit

-- What a run begun in `v` leaves, whether it goes on or stops.
pub data Kept {A : Type 0} (v : World) : Outcome A → Type 0 where
  goes_on : {a : A} {w : World} → Same v w → Kept v (returned a w)
  ends : {s : Stop} {w : World} → Same v w → Accounted s w.calls → Kept v (stopped s w)

pub unchanged : (w : World) → Same w w
unchanged w = record { quiet = here; ring = refl; size = refl }

-- Further calls alone.
pub calls_Same :
    {v w : World} {after : List Call}
    → Same v w
    → Since v.calls after
    → Same v (record w { calls = after })
calls_Same s since = record { quiet = since; ring = s.ring; size = s.size }

module _ {A B : Type 0} where
  -- What follows a part may use what the part kept.
  pub and_then-Kept :
      {v : World} {m : Outcome A} {f : A → Program B}
      → Kept v m
      → ((a : A) (w : World) → Same v w → Kept v (f a w))
      → Kept v (and_then m f)
  and_then-Kept (goes_on {a} {w} s) next = next a w s
  and_then-Kept (ends s a) next = ends s a

pub run-Kept : {A : Type 0} {v w : World} (r : Run A) → Same v w → Kept v (run r w)
run-Kept (ok a) s = goes_on s
run-Kept fault s = ends s tt
run-Kept out_of_fuel s = ends s tt
