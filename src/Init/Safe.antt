-- ===== src/Init/Safe.antt =====
-- Runs of init that crash nowhere but in a command, and what a handler may leave.
use minlinux.Base.{
  ℕ, ◌≤◌, ◌≡◌, ◌≢◌, refl, sym, ap, ◌∙◌, Option, List, [], ◌∷◌, ◌++◌, append_assoc, false, length,
  length-append, All,
}
use minlinux.System.{
  Kernel, World, Stop, crashed, Outcome, returned, stopped, Program, Unit0, and_then,
}
use minlinux.System.Abi.{Call}
use minlinux.System.Wrappers.{Text}
use minlinux.System.Print.{Build}
use minlinux.System.Frame.{Since, here, later, is_enter, Accounted}
use minlinux.Memory.Text.{HasText}
use minlinux.Uring.{Uring, Sqe}
use minlinux.Uring.Valid.{IsValid, visible, queued}
use minlinux.Uring.Contract.{count, requests, Asks}
use minlinux.Uring.Wait.{waiting}
use minlinux.Command.Dispatch.{process_command}
use minlinux.Init.Prompt.{Queues, used}

-- The run returns in a world of `P`, or stops otherwise than by a crash, and undefined
-- only behind SYSCHECK's report or a refused power-off; or it is a command of the
-- console line, which is a string, that crashes.
pub data Safe (k : Kernel) (b : Build) (fuel : ℕ) (envp : List Text) {A : Type 0}
    (P : World → Type 0) : Outcome A → Type 0 where
  goes_on : {a : A} {w : World} → P w → Safe k b fuel envp P (returned a w)
  ends :
      {s : Stop} {w : World}
      → s ≢ crashed
      → Accounted s w.calls
      → Safe k b fuel envp P (stopped s w)
  in_command :
      {w : World} (before : World) (line : Text)
      → HasText before.buffer 0 line
      → process_command k b fuel envp 0 before ≡ stopped crashed w
      → Safe k b fuel envp P (stopped crashed w)

module _ {k : Kernel} {b : Build} {fuel : ℕ} {envp : List Text} {A B : Type 0}
    {P Q : World → Type 0} where
  pub and_then-Safe :
      {m : Outcome A} {f : A → Program B}
      → Safe k b fuel envp P m
      → ((a : A) (w : World) → P w → Safe k b fuel envp Q (f a w))
      → Safe k b fuel envp Q (and_then m f)
  and_then-Safe (goes_on {a} {w} p) next = next a w p
  and_then-Safe (ends s a) next = ends s a
  and_then-Safe (in_command before line text e) next = in_command before line text e

-- Calls other than io_uring_enter leave what is pending in the kernel, or anything like it.
pub Since-pending :
    {A : Type 0} {before after : List Call} (pending : List Call → A)
    → ((c : Call) (earlier : List Call)
        → is_enter c.number ≡ false
        → pending (c ∷ earlier) ≡ pending earlier)
    → Since before after
    → pending after ≡ pending before
Since-pending pending others here = refl
Since-pending pending others (later {c} {after} quiet since) =
    others c after quiet ∙ Since-pending pending others since

-- What a handler of a completion of the kind `kind` leaves of `v`: the ring well formed, the
-- completions as they were, and in a ring in which nothing was waiting at most two new entries, of
-- which one is a console read if `kind` is one, and one a read of the signals if `kind` is one. None
-- of them asks for more bytes of the console than the buffer holds. The buffer is left alone
-- but for a console read.
pub record Handled (ks : ℕ) (pending : List Call → List ℕ) (kind : ℕ) (v w : World) : Type 0 where
  pub valid : IsValid ks w.uring
  pub same_completions :
      (w.uring.cqes ≡ v.uring.cqes)
      × (w.uring.cq_head ≡ v.uring.cq_head)
      × (w.uring.cq_tail ≡ v.uring.cq_tail)
      × (w.uring.cq_mask ≡ v.uring.cq_mask)
  pub same_pending : pending w.calls ≡ pending v.calls
  pub quiet : Since v.calls w.calls
  pub line : length w.buffer ≡ length v.buffer
  pub untouched : kind ≢ 0 → w.buffer ≡ v.buffer
  pub asked : All (Asks 0 1024) (waiting ks w.uring)
  pub few : length (waiting ks w.uring) ≤ 2
  pub reads : count 0 (requests (waiting ks w.uring)) ≡ count 0 (kind ∷ [])
  pub signals : count 1 (requests (waiting ks w.uring)) ≡ count 1 (kind ∷ [])

pub Queues-waiting :
    (ks : ℕ) (w : World) (new : List (Option Sqe)) (run : Outcome Unit0) (q : Queues ks w new run)
    → waiting ks q.after ≡ waiting ks w.uring ++ new
Queues-waiting ks w new run q =
    ap (λ l. l ++ queued ks q.after) q.same_visible
    ∙ ap (λ l. visible ks w.uring ++ l) q.at_end
    ∙ sym (append_assoc (visible ks w.uring) (queued ks w.uring) new)

-- Entries put into a ring in which nothing was waiting.
module _ (ks : ℕ) (pending : List Call → List ℕ) (kind : ℕ) (v w : World) (same : w.uring ≡ v.uring)
    (same_pending : pending w.calls ≡ pending v.calls) (quiet : Since v.calls w.calls)
    (line : length w.buffer ≡ length v.buffer) (untouched : kind ≢ 0 → w.buffer ≡ v.buffer)
    (none_waiting : waiting ks v.uring ≡ []) where
  pub used_none : used ks w.uring ≡ 0
  used_none = rw same (
      sym (length-append (visible ks v.uring) (queued ks v.uring))
      ∙ ap (λ l. length l) none_waiting)

  pub Queues-Handled :
      (new : List (Option Sqe)) (run : Outcome Unit0) (q : Queues ks w new run)
      → All (Asks 0 1024) new
      → length new ≤ 2
      → count 0 (requests new) ≡ count 0 (kind ∷ [])
      → count 1 (requests new) ≡ count 1 (kind ∷ [])
      → Handled ks pending kind v (record w { uring = q.after })
  Queues-Handled new run q asked few reads signals =
      let now : waiting ks q.after ≡ new =
        Queues-waiting ks w new run q
        ∙ ap (λ u. waiting ks u ++ new) same
        ∙ ap (λ l. l ++ new) none_waiting in
      let p = q.same_completions in
      record {
        valid = q.valid;
        same_completions = (
          p.0 ∙ ap (λ (u : Uring). u.cqes) same,
          p.1 ∙ ap (λ (u : Uring). u.cq_head) same,
          p.2 ∙ ap (λ (u : Uring). u.cq_tail) same,
          p.3 ∙ ap (λ (u : Uring). u.cq_mask) same,
        );
        same_pending = same_pending;
        quiet = quiet;
        line = line;
        untouched = untouched;
        asked = rw now asked;
        few = rw now few;
        reads = rw now reads;
        signals = rw now signals;
      }
