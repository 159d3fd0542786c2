-- ===== src/Init/Rounds.antt =====
-- init/init.c: the rounds of the event loop, with a kernel that keeps the contract of io_uring.
use minlinux.Base.{ℕ, ◌+◌, ◌^◌, ◌≤◌, ◌≡◌, ap, ◌∙◌, List, [], ◌∷◌, arith, inl, inr, u32}
use minlinux.Uring.{uring_result, uring_advance}
use minlinux.Uring.Complete.{Yields, uring_result_lem, completions}
use minlinux.Uring.Contract.{count, requests, answers, Asks, handed, Contract}
use minlinux.Uring.Wait.{waiting, tokens, Alive, Waits, returns, fails, uring_wait-Waits}
use minlinux.Uring.Tally.{completions_same, IsCqValid-same, All-append, handed_quiet}
use minlinux.Uring.Protocol.{cq_apart}
use minlinux.System.{Kernel, World, Outcome, Unit0, and_then}
use minlinux.System.Frame.{reported}
use minlinux.System.Abi.{Call}
use minlinux.System.Wrappers.{Text}
use minlinux.System.Print.{Build}
use minlinux.Init.{event_console_read, event_signal, handle_result, loop_round}
use minlinux.Init.Safe.{Safe, goes_on, ends, and_then-Safe, Since-pending, Handled}
use minlinux.Init.Handlers.{handle-Safe}

module _ (ks kc : ℕ) (pending : List Call → List ℕ) where
  abbrev pub outstanding : ℕ → World → ℕ
  outstanding x w = tokens ks kc event_console_read 1024 pending x w

  -- At the head of the loop both rings are well formed, one read of the console and one of the
  -- signals are under way, and the buffer has its 1024 bytes.
  pub record Ready (w : World) : Type 0 where
    pub alive : Alive ks kc event_console_read 1024 pending w
    pub one_read : outstanding event_console_read w ≡ 1
    pub one_signal : outstanding event_signal w ≡ 1

  module _ (v w : World) (ready : Ready v) (y : Yields kc v.uring)
      (h : Handled ks pending y.cqe.user_data v w) where
    pub rest_same : completions kc (uring_advance w.uring) ≡ y.rest
    unfolding uring_advance
    rest_same =
        let p = h.same_completions in
        completions_same kc (uring_advance v.uring) (uring_advance w.uring)
          (p.0, ap (λ (n : ℕ). u32 (n + 1)) p.1, p.2, p.3)
        ∙ y.others

    passed_token :
        (x : ℕ)
        → count x (answers (completions kc v.uring))
          ≡ count x (y.cqe.user_data ∷ []) + count x (answers y.rest)
    passed_token x = rw (y.oldest) (omega arith)

    pub advanced-Ready :
        waiting ks v.uring ≡ [] → Ready (record w { uring = uring_advance w.uring })
    unfolding uring_advance
    advanced-Ready none_waiting =
        let p = h.same_completions in
        let old = ready.alive in
        record {
          alive = record {
            valid =
                cq_apart ks w.uring w.uring.cqes (u32 (w.uring.cq_head + 1)) w.uring.cq_tail
                  h.valid;
            cq_valid =
                IsCqValid-same kc (uring_advance v.uring) (uring_advance w.uring)
                  (p.0, ap (λ (n : ℕ). u32 (n + 1)) p.1, p.2, p.3) y.valid;
            sound = rw rest_same ((rw (y.oldest) at (old.sound)).1);
            asked = rw (Since-pending (handed ks) (handed_quiet ks) h.quiet) (
                All-append (Asks event_console_read 1024) (waiting ks w.uring) (handed ks v.calls)
                  h.asked (rw none_waiting at (old.asked)));
            line = h.line ∙ old.line;
          };
          one_read = omega (
            arith,
            ap (λ l. count 0 (answers l)) rest_same,
            passed_token 0,
            ap (λ l. count 0 l) h.same_pending,
            h.reads,
            ready.one_read,
            ap (λ l. count 0 (requests l)) none_waiting,
          );
          one_signal = omega (
            arith,
            ap (λ l. count 1 (answers l)) rest_same,
            passed_token 1,
            ap (λ l. count 1 l) h.same_pending,
            h.signals,
            ready.one_signal,
            ap (λ l. count 1 (requests l)) none_waiting,
          );
        }

module _ (ks kc : ℕ) (k : Kernel) (b : Build) (fuel : ℕ) (envp : List Text)
    (pending : List Call → List ℕ) (contract : Contract ks kc event_console_read 1024 k b pending)
    (room : 4 ≤ 2 ^ ks) where
  result-Safe :
      (v : World)
      → Ready ks kc pending v
      → waiting ks v.uring ≡ []
      → Safe k b fuel envp
          (Ready ks kc pending)
          (handle_result k b fuel envp (uring_result v.uring) v)
  unfolding handle_result
  result-Safe v ready none_waiting = elim (uring_result_lem kc v.uring ready.alive.cq_valid) [
    | inl (e, _) ↦ rw e (goes_on ready)
    | inr y ↦
        let here = (rw (y.oldest) at (ready.alive.sound)).0 in
        rw (y.returns, y.found)
          (and_then-Safe
            (handle-Safe ks kc k b fuel envp pending contract room v ready.alive none_waiting y.cqe
              here.0 here.1)
            (λ _ w h. goes_on (advanced-Ready ks kc pending v w ready y h none_waiting)))
  ]

  waited-Safe :
      (w : World) (o : Outcome Unit0)
      → Ready ks kc pending w
      → Waits ks kc event_console_read 1024 pending k b 1 w o
      → Safe k b fuel envp
          (Ready ks kc pending)
          (and_then o (λ _ v. handle_result k b fuel envp (uring_result v.uring) v))
  waited-Safe w _ ready (returns {w'} c n over answered made alive same none_waiting) =
      result-Safe w'
        (record {
          alive = alive;
          one_read = same event_console_read ∙ ready.one_read;
          one_signal = same event_signal ∙ ready.one_signal;
        })
        none_waiting
  waited-Safe w _ ready (fails c n over failed made) = ends (λ e. cc) (reported _ _ made)

  -- With a kernel that keeps the contract of io_uring and a ring of four entries or more, a round
  -- of the event loop begun with both rings well formed, a buffer of 1024 bytes, no request for
  -- more bytes of the console than these, and one read of the console and one of the signals under
  -- way leaves all this so again; or it stops otherwise than by an access outside an object, and
  -- undefined only if its last call wrote the place of a failed call, as SYSCHECK does before it
  -- reads the text of the error, which has ended, or powered off; or a command makes an access
  -- outside an object.
  pub loop_round-Safe :
      (w : World)
      → Ready ks kc pending w
      → Safe k b fuel envp (Ready ks kc pending) (loop_round k b fuel envp w)
  unfolding loop_round
  loop_round-Safe w ready =
      waited-Safe w _ ready
        (uring_wait-Waits ks kc event_console_read 1024 k pending b contract w 1 ready.alive)
