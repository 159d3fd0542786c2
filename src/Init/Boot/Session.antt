-- ===== src/Init/Boot/Session.antt =====
-- init/init.c: from the first call of `start` on, what is typed at the console is handled once each
-- and in order.
use minlinux.Base.{ℕ, ◌^◌, ◌≤◌, ◌≡◌, refl, ◌∙◌, List, [], length}
use minlinux.Uring.Contract.{Contract}
use minlinux.System.{Kernel, World, Outcome, Stop, returned, stopped, Unit0, and_then}
use minlinux.System.Abi.{Call}
use minlinux.System.Wrappers.{Text}
use minlinux.System.Print.{Build}
use minlinux.Init.{event_console_read}
use minlinux.Init.Safe.{Safe, Since-pending}
use minlinux.Init.Session.{Input, Console, Serves}
use minlinux.Init.Session.Handled.{Safe-returned}
use minlinux.Init.Session.Rounds.{event_loop-Serves}
use minlinux.Init.Boot.{boot, event_loop, start}
use minlinux.Init.Boot.Safe.{Listening, Listening-Ready, boot-Safe}

-- A run of `start` from `w` on that ended in its boot, or came to the event loop at `head` with
-- nothing read so far, and handled from there on what the kernel's reads gave.
pub data Started (k : Kernel) (b : Build) (fuel : ℕ) (envp : List Text)
    (typed : List Call → List Input) (w : World) : Outcome Unit0 → Type 0 where
  broke_off :
      {s : Stop} {w' : World}
      → boot k b w ≡ stopped s w'
      → Started k b fuel envp typed w (stopped s w')
  reached :
      {head : World} {o : Outcome Unit0}
      → boot k b w ≡ returned tt head
      → typed head.calls ≡ []
      → Serves k b fuel envp typed [] head o
      → Started k b fuel envp typed w o

module _ (ks kc : ℕ) (k : Kernel) (b : Build) (fuel : ℕ) (envp : List Text)
    (pending : List Call → List ℕ) (contract : Contract ks kc event_console_read 1024 k b pending)
    (room : 4 ≤ 2 ^ ks) (typed : List Call → List Input) (console : Console ks kc k typed) where
  booted-Started :
      (rounds : ℕ) (w : World) (o : Outcome Unit0)
      → boot k b w ≡ o
      → Safe k b fuel envp (Listening ks kc k b fuel envp pending contract room) o
      → Started k b fuel envp typed w (and_then o (λ _. event_loop k b fuel envp rounds))
  booted-Started rounds w (stopped s w') booted safe = broke_off booted
  booted-Started rounds w (returned tt head) booted safe =
      let listening = Safe-returned tt head safe refl in
      let ready = Listening-Ready ks kc k b fuel envp pending contract room head listening in
      let unread : typed head.calls ≡ [] =
        Since-pending typed console.others listening.1.quiet ∙ console.nothing_yet in
      reached booted unread (
        rw unread at (
          event_loop-Serves ks kc k b fuel envp pending contract room typed console rounds head
            ready listening.1.none_arrived))

  -- Before its first call and with a console buffer of 1024 bytes, with a kernel that keeps the
  -- contract of io_uring, makes rings of four entries or more and whose completed reads of the
  -- console leave their bytes at the start of the buffer: start ends in its boot, or comes to its
  -- event loop with nothing read. There, through any number of rounds, it handles what the reads
  -- of the console give once each and in the order of their completion, each while the buffer
  -- begins with its bytes; nothing is left out but at most the one read completed last, if the
  -- loop ends before it.
  --
  pub start-Started :
      (rounds : ℕ) (w : World)
      → w.calls ≡ []
      → length w.buffer ≡ 1024
      → Started k b fuel envp typed w (start k b fuel envp rounds w)
  unfolding start
  start-Started rounds w first line =
      booted-Started rounds w (boot k b w) refl
        (boot-Safe ks kc k b fuel envp pending contract room w first line)
