-- ===== src/Init/Session.antt =====
-- init/init.c: the event loop as a session at the console: what the kernel's reads of the console
-- give, and a run of the loop as the rounds in which it is handled.
pub mod Waited
pub mod Handled
pub mod Rounds
pub mod Progress
pub mod Obeys
use minlinux.Base.{
  ℕ, suc, ◌≤◌, ◌≡◌, ◌≢◌, Option, none, some, List, [], ◌∷◌, ◌++◌, length, take, map, get_elem?,
  false, if◌then◌else◌, ◌==◌,
}
use minlinux.Base.Int.{ℤ, pos, negsuc}
use minlinux.Memory.{Memory}
use minlinux.Uring.{Cqe, Uring, uring_result, uring_advance}
use minlinux.Uring.Valid.{IsValid, published}
use minlinux.Uring.Complete.{IsCqValid, completions}
use minlinux.Uring.Calls.{enter_call, uring_wait}
use minlinux.System.{
  Kernel, World, Outcome, Unit0, Program, returned, stopped, no_fuel, Stop, and_then, modify, ◌>>◌,
}
use minlinux.System.Abi.{Call}
use minlinux.System.Wrappers.{Text}
use minlinux.System.Print.{Build}
use minlinux.System.Frame.{is_enter}
use minlinux.Init.{event_console_read, handle, process_input, loop_round}

-- What a read of the console gave: bytes, none of them at the end of the input, or an error.
pub data Input : Type 0 where
  entered : List ℕ → Input
  failed : ℕ → Input

-- The result of such a read, and what it leaves in the buffer.
abbrev pub result : Input → ℤ
result (entered t) = pos (length t)
result (failed n) = negsuc n

abbrev pub Begins : Memory → Input → Type 0
Begins m (entered t) = take (length t) m ≡ t
Begins m (failed n) = Unit

-- The results of the completions of a kind.
abbrev pub results : ℕ → List (Option Cqe) → List ℤ
results kind [] = []
results kind (none ∷ es) = results kind es
results kind (some e ∷ es) =
    if e.user_data == kind then e.res ∷ results kind es else results kind es

-- The buffer `m` before the reads `new` were completed, and `after`.
abbrev pub Reads : List Input → Memory → Memory → Type 0
Reads [] m after = after ≡ m
Reads (t ∷ []) m after = Begins after t
Reads _ m after = Unit

-- The kernel's reads of the console: `typed` is what they have given so far, the first one first. A
-- read that is completed at io_uring_enter leaves its bytes at the start of the buffer, and where
-- none is completed the buffer stays as it is.
pub record Console (ks kc : ℕ) (k : Kernel) (typed : List Call → List Input) : Type 0 where
  pub nothing_yet : typed [] ≡ []
  pub others :
      (c : Call) (before : List Call)
      → is_enter c.number ≡ false
      → typed (c ∷ before) ≡ typed before
  pub enters :
      (u : Uring) (before : List Call) (wanted : ℕ) (arrived : List (Option Cqe))
      → IsValid ks u
      → IsCqValid kc u
      → let after = enter_call u (published u) wanted ∷ before in
        completions kc (k.rings after u) ≡ completions kc u ++ arrived
        → (new : List Input) × (typed after ≡ typed before ++ new)
          × (results event_console_read arrived ≡ map result new)
          × ((m : Memory) → length m ≡ 1024 → Reads new m (k.lines after m))

-- `uring_advance(&uring)`
abbrev pub advance : Program Unit0
advance = modify (λ w. record w { uring = uring_advance w.uring })

module _ (k : Kernel) (b : Build) (fuel : ℕ) (envp : List Text) where
  -- A round of the loop from `v` on, in which uring_wait came back in `u`, and which handled the
  -- reads `ts`: none, or one whose bytes the buffer began with.
  pub data Round (v : World) : List Input → World → Outcome Unit0 → Type 0 where
    gave_up : {s : Stop} {w : World} → uring_wait k b 1 v ≡ stopped s w → Round v [] v (stopped s w)
    idle :
        {u : World}
        → uring_wait k b 1 v ≡ returned tt u
        → uring_result u.uring ≡ none
        → Round v [] u (returned tt u)
    event :
        {u : World} {i : ℕ} {cqe : Cqe}
        → uring_wait k b 1 v ≡ returned tt u
        → uring_result u.uring ≡ some i
        → get_elem? u.uring.cqes i ≡ some cqe
        → cqe.user_data ≢ event_console_read
        → Round v [] u ((handle k b fuel envp cqe >> advance) u)
    input :
        {u : World} {i : ℕ} {cqe : Cqe} (t : Input)
        → uring_wait k b 1 v ≡ returned tt u
        → uring_result u.uring ≡ some i
        → get_elem? u.uring.cqes i ≡ some cqe
        → cqe.res ≡ result t
        → Begins u.buffer t
        → Round v (t ∷ []) u ((process_input k b fuel envp cqe.res >> advance) u)

  -- A run of the loop from `v` on that handled the reads `ts`, in this order, and in which
  -- uring_wait came back last in `u`.
  pub data Session : World → List Input → World → Outcome Unit0 → Type 0 where
    interrupted : {v : World} → Session v [] v (stopped no_fuel v)
    last :
        {v u w : World} {ts : List Input} {s : Stop}
        → Round v ts u (stopped s w)
        → Session v ts u (stopped s w)
    further :
        {v u u' w : World} {ts ts' : List Input} {o : Outcome Unit0}
        → Round v ts u (returned tt w)
        → Session w ts' u' o
        → Session v (ts ++ ts') u' o

  -- The loop, begun in `v`, handles the read `t` within so many rounds, or ends before.
  pub data Within (t : Input) : ℕ → World → Type 0 where
    ended :
        {n : ℕ} {v w : World} {s : Stop} → loop_round k b fuel envp v ≡ stopped s w → Within t n v
    now :
        {n : ℕ} {v u : World} → Round v (t ∷ []) u (loop_round k b fuel envp v) → Within t (suc n) v
    later :
        {n : ℕ} {v w : World}
        → loop_round k b fuel envp v ≡ returned tt w
        → Within t n w
        → Within t (suc n) v

  -- What a run of the loop from `v` on leaves, where the reads `seen` were given before: it handled
  -- the reads `ts`, and with those completed and not handled they are all that the kernel gave.
  pub record Serves (typed : List Call → List Input) (seen : List Input) (v : World)
      (o : Outcome Unit0) : Type 0 where
    pub ts : List Input
    pub held : List Input
    pub after : World
    pub session : Session v ts after o
    pub so_far : typed after.calls ≡ (seen ++ ts) ++ held
    pub few : length held ≤ 1
