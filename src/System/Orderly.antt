-- ===== src/System/Orderly.antt =====
-- Runs that never crash: a run goes on, or it stops otherwise than by an access outside an object.
use minlinux.Base.{ℕ, ◌^◌, ◌<◌, ◌≡◌, ◌≢◌}
use minlinux.Base.Int.{ℤ, pos, negsuc, IsInt64, to_u64, to_u64_small}
use minlinux.Memory.{Memory}
use minlinux.System.{Kernel, World, Stop, crashed, Outcome, returned, stopped, Program, and_then}
use minlinux.System.Wrappers.{Text}
use minlinux.System.Print.{write_int, write_err, syscheck}
use minlinux.System.Print.Laws.{write_int-Writes, syscheck-Checks}

-- `run` goes on with a value and a world of `P`, or stops, but not by a crash.
pub data Orderly {A : Type 0} (P : A → World → Type 0) : Outcome A → Type 0 where
  goes_on : {a : A} {w : World} → P a w → Orderly P (returned a w)
  ends : {s : Stop} {w : World} → s ≢ crashed → Orderly P (stopped s w)

-- Nothing is said of how the run goes on.
abbrev pub Anyhow : {A : Type 0} → A → World → Type 0
Anyhow a w = Unit

-- The console buffer holds `m`.
abbrev pub Line : {A : Type 0} → Memory → A → World → Type 0
Line m a w = w.buffer ≡ m

module _ {A B : Type 0} {P : A → World → Type 0} {Q : B → World → Type 0} where
  pub and_then-Orderly :
      {m : Outcome A} {f : A → Program B}
      → Orderly P m
      → ((a : A) (w : World) → P a w → Orderly Q (f a w))
      → Orderly Q (and_then m f)
  and_then-Orderly (goes_on {a} {w} p) next = next a w p
  and_then-Orderly (ends s) next = ends s

pub anyhow : {A : Type 0} {P : A → World → Type 0} {o : Outcome A} → Orderly P o → Orderly Anyhow o
anyhow (goes_on p) = goes_on tt
anyhow (ends s) = ends s

pub Orderly-ne-crashed :
    {A : Type 0} {P : A → World → Type 0} {o : Outcome A} {w : World}
    → Orderly P o
    → o ≢ stopped crashed w
Orderly-ne-crashed (goes_on p) e = cc
Orderly-ne-crashed (ends {s} other) e = other (cc)

module _ (k : Kernel) {m : Memory} where
  pub write_int-Orderly :
      (val : ℕ) (w : World) → val < 2 ^ 64 → w.buffer ≡ m → Orderly (Line m) (write_int k val w)
  write_int-Orderly val w small e =
      let p = write_int-Writes k val w small in rw (p.returns) (goes_on e)

  pub syscheck-Orderly :
      (place : Text) (res : ℤ) (w : World)
      → IsInt64 res
      → w.buffer ≡ m
      → Orderly (Line m) (syscheck k place res w)
  syscheck-Orderly place (pos n) w small e =
      rw (syscheck-Checks k place (pos n) w small) (goes_on e)
  syscheck-Orderly place (negsuc n) w small e =
      let p = syscheck-Checks k place (negsuc n) w small in rw p (ends (λ e. cc))

module _ (k : Kernel) {m : Memory} where
  pub write_err-Orderly :
      (str : Text) (err : ℤ) (w : World)
      → IsInt64 err
      → w.buffer ≡ m
      → Orderly (Line m) (write_err k str err w)
  write_err-Orderly str err w small e =
      and_then-Orderly (write_int-Orderly k (to_u64 err) _ (to_u64_small err small) e)
        (λ _ w' e'. goes_on e')
