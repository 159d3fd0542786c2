-- ===== src/Init/Boot/Safe.antt =====
-- init/init.c: from the first call of `start` to any round of the event loop.
use minlinux.Base.{
  ℕ, zero, suc, ◌^◌, ◌≤◌, ◌≡◌, refl, sym, ap, ◌∙◌, Option, some, List, [], ◌∷◌, ◌++◌, arith, inl,
  inr, length, codes, length-append, false,
}
use minlinux.Base.Int.{ℤ, negsuc}
use minlinux.Uring.{Uring, Sqe}
use minlinux.Uring.Valid.{IsValid, visible, queued}
use minlinux.Uring.Complete.{IsCqValid, completions}
use minlinux.Uring.Calls.{uring_init}
use minlinux.Uring.Contract.{Contract, handed}
use minlinux.Uring.Wait.{waiting}
use minlinux.Uring.Tally.{completions_same, IsCqValid-same, handed_quiet}
use minlinux.Uring.Start.{Starts, makes, refused, two_mappings, fails, uring_init-Starts}
use minlinux.System.{Kernel, World, Outcome, Unit0, and_then, record_call, skip}
use minlinux.System.Abi.{Call, Constant, all_signals}
use minlinux.System.Wrappers
use minlinux.System.Wrappers.{Text}
use minlinux.System.Print.{Build}
use minlinux.System.Print.Laws.{syscheck_cases}
use mathlib.Core.Path.{subst}
use minlinux.System.Frame.{is_enter, Since, later, reported}
use minlinux.Init.{
  event_console_read, create_console_prompt, submit_sig_listen, prompt_sqe, read_sqe, signal_sqe,
}
use minlinux.Init.Prompt.{used, Queues, submit-Queues, create_console_prompt-Queues}
use minlinux.Init.Safe.{Safe, goes_on, ends, and_then-Safe, Since-pending, Queues-waiting}
use minlinux.Init.Handlers.{console_Asks}
use minlinux.Init.Rounds.{Ready, loop_round-Safe}
use minlinux.Init.Boot.{checked_call, init, boot, event_loop, start}
use minlinux.Init.Boot.Quiet.{set_up_files-Safe}
use minlinux.Init.Boot.Laws.{quiet}

module _ (ks kc : ℕ) (k : Kernel) (b : Build) (fuel : ℕ) (envp : List Text)
    (pending : List Call → List ℕ) (contract : Contract ks kc event_console_read 1024 k b pending)
    (room : 4 ≤ 2 ^ ks) where
  -- The queue is made, the entries `new` are in it, and nothing is under way in the kernel.
  pub record Booted (new : List (Option Sqe)) (w : World) : Type 0 where
    pub valid : IsValid ks w.uring
    pub cq_valid : IsCqValid kc w.uring
    pub none_arrived : completions kc w.uring ≡ []
    holds : waiting ks w.uring ≡ new
    none_pending : pending w.calls ≡ []
    pub quiet : Since [] w.calls
    line : length w.buffer ≡ 1024

  checked_call-Safe :
      (new : List (Option Sqe)) (line : Text) (c : Call) (w : World)
      → is_enter c.number ≡ false
      → Booted new w
      → Safe k b fuel envp (Booted new) (checked_call k b line c w)
  checked_call-Safe new line c w quiet h =
      let w' = record_call c w in
      let h' : Booted new w' = record {
        valid = h.valid;
        cq_valid = h.cq_valid;
        none_arrived = h.none_arrived;
        holds = h.holds;
        none_pending = contract.others c w.calls quiet ∙ h.none_pending;
        quiet = later quiet h.quiet;
        line = h.line;
      } in
      elim (syscheck_cases k (b.init_c ++ line) (k.rax w.calls c) w' (contract.wide w.calls c)) [
        | inl e ↦ rw e (goes_on h')
        | inr (n, failed, e) ↦ rw e (ends (λ e'. cc) (reported _ _ refl))
      ]

  Queues-Booted :
      (old new : List (Option Sqe)) (w : World) (run : Outcome Unit0)
      → Booted old w
      → (q : Queues ks w new run) → Booted (old ++ new) (record w { uring = q.after })
  Queues-Booted old new w run h q = record {
    valid = q.valid;
    cq_valid = IsCqValid-same kc w.uring q.after q.same_completions h.cq_valid;
    none_arrived = completions_same kc w.uring q.after q.same_completions ∙ h.none_arrived;
    holds = Queues-waiting ks w new run q ∙ ap (λ l. l ++ new) h.holds;
    none_pending = h.none_pending;
    quiet = h.quiet;
    line = h.line;
  }

  used_of_Booted :
      (old : List (Option Sqe)) (w : World) → Booted old w → used ks w.uring ≡ length old
  used_of_Booted old w h =
      sym (length-append (visible ks w.uring) (queued ks w.uring)) ∙ ap (λ l. length l) h.holds

  -- The first prompt and both reads are in the ring, nothing else.
  abbrev pub asks : List (Option Sqe)
  asks = some prompt_sqe ∷ some read_sqe ∷ []

  abbrev pub Listening : World → Type 0
  Listening w = (fd : ℤ) × Booted (asks ++ (some (signal_sqe b fd) ∷ [])) w

  pub Listening-Ready : (w : World) → Listening w → Ready ks kc pending w
  Listening-Ready w (fd, h) = record {
    alive = record {
      valid = h.valid;
      cq_valid = h.cq_valid;
      sound = rw (h.none_arrived) tt;
      asked =
          rw (h.holds, Since-pending (handed ks) (handed_quiet ks) h.quiet)
            (console_Asks.0, (console_Asks.1.0, ((λ e. absurd (omega (arith, e))), tt)));
      line = h.line;
    };
    one_read = rw (h.none_arrived, h.holds, h.none_pending) refl;
    one_signal = rw (h.none_arrived, h.holds, h.none_pending) refl;
  }

  init-Safe : (w : World) → Booted [] w → Safe k b fuel envp Listening (init k b w)
  unfolding init
  init-Safe w h =
      and_then-Safe
        (checked_call-Safe [] (codes ":107") (Wrappers.signalfd (negsuc 0) all_signals 0) w refl h)
        (λ fd w1 h1.
          let w1' = record w1 { sigfd = fd } in
          let h1' : Booted [] w1' = record {
            valid = h1.valid;
            cq_valid = h1.cq_valid;
            none_arrived = h1.none_arrived;
            holds = h1.holds;
            none_pending = h1.none_pending;
            quiet = h1.quiet;
            line = h1.line;
          } in
          let none_used = used_of_Booted [] w1' h1' in
          let q = create_console_prompt-Queues ks w1' h1.valid (omega (arith, none_used)) in
          let prompted : Safe k b fuel envp (Booted asks) (create_console_prompt w1') =
            rw (q.returns) (goes_on (Queues-Booted [] asks w1' _ h1' q)) in
          and_then-Safe prompted (λ _ w2 h2.
            let listens = signal_sqe b w2.sigfd in
            let two_used = used_of_Booted asks w2 h2 in
            let q' = submit-Queues ks w2 listens h2.valid (omega (arith, two_used)) in
            let h3 = Queues-Booted asks (some listens ∷ []) w2 _ h2 q' in
            unfold submit_sig_listen in rw (q'.returns) (goes_on (w2.sigfd, h3))))

  -- What uring_init made is put in place; the descriptor of the signals and the socket follow.
  opened-Safe :
      (v at : World) (o : Outcome Uring)
      → v.calls ≡ []
      → length v.buffer ≡ 1024
      → Starts ks kc k b 16 v at o
      → Safe k b fuel envp Listening (
          and_then o (λ uring w.
            and_then
              (checked_call k b
                (codes ":66")
                (Wrappers.sigprocmask Constant.sig_setmask all_signals)
                (record w { uring = uring }))
              (λ _ w1. and_then (init k b w1) (λ _ w2.
                and_then
                  (checked_call k b
                    (codes ":76")
                    (Wrappers.socket Constant.af_packet Constant.sock_dgram
                      Constant.eth_p_all_swapped)
                    w2)
                  (λ _. skip)))))
  opened-Safe v at _ first line (refused n e) = ends (λ e. cc) tt
  opened-Safe v at _ first line (two_mappings e) = ends (λ e. cc) tt
  opened-Safe v at _ first line (fails l c calls n is_map e made) =
      ends (λ e. cc) (reported _ _ made)
  opened-Safe v at _ first line (makes {u} {w} made fd s) =
      let h : Booted [] (record w { uring = u }) = record {
        valid = made.valid;
        cq_valid = made.cq_valid;
        none_arrived = made.none_arrived;
        holds = made.none_waiting;
        none_pending =
            Since-pending pending contract.others s.quiet ∙ ap pending first ∙ contract.nothing_yet;
        quiet = subst (λ calls. Since calls w.calls) first s.quiet;
        line = s.size ∙ line;
      } in
      let mask = Wrappers.sigprocmask Constant.sig_setmask all_signals in
      let eth = Wrappers.socket Constant.af_packet Constant.sock_dgram Constant.eth_p_all_swapped in
      and_then-Safe (checked_call-Safe [] (codes ":66") mask (record w { uring = u }) refl h)
        (λ _ w1 h1. and_then-Safe (init-Safe w1 h1) (λ _ w2 (fd, h2).
          and_then-Safe
            (checked_call-Safe (asks ++ (some (signal_sqe b fd) ∷ [])) (codes ":76") eth w2 refl h2)
            (λ _ w3 h3. goes_on (fd, h3))))

  -- The boot leaves the rings well formed, with the first reads in the ring and nothing arrived.
  pub boot-Safe :
      (w : World)
      → w.calls ≡ []
      → length w.buffer ≡ 1024
      → Safe k b fuel envp Listening (boot k b w)
  unfolding boot
  boot-Safe w first line = and_then-Safe (set_up_files-Safe k b fuel envp contract.wide w) (λ _ v s.
      opened-Safe w v (uring_init k b 16 v) first line
        (uring_init-Starts ks kc event_console_read 1024 k pending b contract w 16 v s))

  -- The event loop, begun ready.
  event_loop-Safe :
      (rounds : ℕ) (w : World)
      → Ready ks kc pending w
      → Safe k b fuel envp (λ _. ⊥) (event_loop k b fuel envp rounds w)
  unfolding event_loop
  event_loop-Safe zero w ready = ends (λ e. cc) tt
  event_loop-Safe (suc rounds) w ready =
      and_then-Safe (loop_round-Safe ks kc k b fuel envp pending contract room w ready)
        (λ _ w' ready'. event_loop-Safe rounds w' ready')

  -- Before its first call and with a console buffer of 1024 bytes, with a kernel that keeps the
  -- contract of io_uring and makes rings of four entries or more: start never returns and, through
  -- its boot and any number of rounds, makes an access outside an object nowhere but in a command,
  -- so it never submits to a full ring, reads a completion outside the ring or a byte outside the
  -- buffer. Where the run is undefined otherwise, its last call wrote the place of a failed call,
  -- as SYSCHECK does before it reads the text of the error, which has ended, or powered off.
  pub start-Safe :
      (rounds : ℕ) (w : World)
      → w.calls ≡ []
      → length w.buffer ≡ 1024
      → Safe k b fuel envp (λ _. ⊥) (start k b fuel envp rounds w)
  unfolding start
  start-Safe rounds w first line =
      and_then-Safe (boot-Safe w first line)
        (λ _ w' listening. event_loop-Safe rounds w' (Listening-Ready w' listening))
