-- ===== src/Init/Handlers.antt =====
-- init/init.c: the handlers of completions, with a kernel that keeps its contract.
use minlinux.Memory.Text.{HasText, terminated}
use minlinux.Base.{
  All, ◌∷◌, some, ◌+◌, get_elem?-set_self, lt-length_of_some, ℕ, zero, suc, ◌^◌, ◌≤◌, ◌≡◌, ◌≢◌,
  refl, ◌∙◌, Bool-cases, List, [], arith, length, inl, inr, ◌==◌, ==_iff, get_elem?_inside, set,
  length-set, codes, ◌++◌,
}
use minlinux.Base.Int.{ℤ, pos, negsuc, IsInt64}
use minlinux.Uring.{Cqe}
use minlinux.Uring.Contract.{Within, Asks, Contract}
use minlinux.Uring.Wait.{waiting, Alive}
use minlinux.Command.Dispatch.{process_command}
use minlinux.Command.Dispatch.Frame.{process_command-Kept}
use minlinux.System.{
  Kernel, World, exited, powered_off, replaced, crashed, undefined, no_fuel, Outcome, Unit0,
  and_then, record_call, skip,
}
use minlinux.System.Abi.{Call}
use minlinux.System.Wrappers
use minlinux.System.Wrappers.{Text}
use minlinux.System.Print.{Build, syscheck, stdout, err_exit}
use minlinux.System.Print.Laws.{syscheck-Checks, after_reboot-ne-crashed}
use mathlib.Core.Path.{subst}
use minlinux.System.Frame.{Kept, Since, here, later, reported}
use minlinux.System.Print.Frame.{after_reboot-Accounted}
use minlinux.Init.{
  event_console_read, event_signal, event_other, create_console_prompt, submit_sig_listen,
  signal_sqe, prompt_sqe, read_sqe, process_signal, process_input, handle,
}
use minlinux.Init.Prompt.{used, submit-Queues, create_console_prompt-Queues}
use minlinux.Init.Safe.{
  Safe, goes_on, ends, in_command, Since-pending, Handled, used_none, Queues-Handled,
}

-- Neither the prompt nor the read of a line asks for more than the buffer holds.
pub console_Asks : All (Asks event_console_read 1024) (some prompt_sqe ∷ some read_sqe ∷ [])
console_Asks = ((λ e. absurd (omega (arith, e))), ((λ e. omega arith), tt))

module _ (ks kc : ℕ) (k : Kernel) (b : Build) (fuel : ℕ) (envp : List Text)
    (pending : List Call → List ℕ) (contract : Contract ks kc event_console_read 1024 k b pending)
    (room : 4 ≤ 2 ^ ks) (v : World) (alive : Alive ks kc event_console_read 1024 pending v)
    (none_waiting : waiting ks v.uring ≡ []) where
  module _ (w : World) (same : w.uring ≡ v.uring) (quiet : Since v.calls w.calls)
      (line : length w.buffer ≡ length v.buffer) where
    same_pending : pending w.calls ≡ pending v.calls
    same_pending = Since-pending pending contract.others quiet

    free : used ks w.uring ≡ 0
    free =
        used_none ks pending 0 v w same same_pending quiet line (λ e. absurd (e refl)) none_waiting

    prompt-Safe :
        Safe k b fuel envp (Handled ks pending event_console_read v) (create_console_prompt w)
    prompt-Safe =
        let q = create_console_prompt-Queues ks w (rw same (alive.valid)) (omega (arith, free)) in
        rw (q.returns) (
          goes_on (
            Queues-Handled ks pending event_console_read v w same same_pending quiet line
              (λ e. absurd (e refl)) none_waiting _ _ q console_Asks (omega arith) refl refl))

    signal-Safe :
        w.buffer ≡ v.buffer
        → Safe k b fuel envp (Handled ks pending event_signal v) (submit_sig_listen b w)
    unfolding submit_sig_listen
    signal-Safe untouched =
        let q =
          submit-Queues ks w (signal_sqe b w.sigfd) (rw same (alive.valid)) (omega (arith, free)) in
        rw (q.returns) (
          goes_on (
            Queues-Handled ks pending event_signal v w same same_pending quiet line (λ _. untouched)
              none_waiting _ _ q ((λ e. absurd (omega (arith, e))), tt) (omega arith) refl refl))

  -- The command of a line, and the prompt.
  command-Safe :
      (w : World) (o : Outcome Unit0)
      → process_command k b fuel envp 0 w ≡ o
      → (s : Text) × HasText w.buffer 0 s
      → w.uring ≡ v.uring
      → w.calls ≡ v.calls
      → length w.buffer ≡ length v.buffer
      → Kept w o
      → Safe k b fuel envp
          (Handled ks pending event_console_read v)
          (and_then o (λ _. create_console_prompt))
  command-Safe w _ ran (s, text) same calls line (Kept.goes_on {w = w'} kept) =
      prompt-Safe w' (kept.ring ∙ same) (subst (λ before. Since before w'.calls) calls kept.quiet)
        (kept.size ∙ line)
  command-Safe w _ ran (s, text) same calls line (Kept.ends {s = exited n} h a) = ends (λ e. cc) a
  command-Safe w _ ran (s, text) same calls line (Kept.ends {s = powered_off} h a) =
      ends (λ e. cc) a
  command-Safe w _ ran (s, text) same calls line (Kept.ends {s = replaced} h a) = ends (λ e. cc) a
  command-Safe w _ ran (s, text) same calls line (Kept.ends {s = crashed} h a) =
      in_command w s text ran
  command-Safe w _ ran (s, text) same calls line (Kept.ends {s = undefined} h a) = ends (λ e. cc) a
  command-Safe w _ ran (s, text) same calls line (Kept.ends {s = no_fuel} h a) = ends (λ e. cc) a

  process_input-Safe :
      (res : ℤ)
      → Within 1024 res
      → Safe k b fuel envp
          (Handled ks pending event_console_read v)
          (process_input k b fuel envp res v)
  unfolding process_input err_exit
  process_input-Safe (pos zero) fits = ends (after_reboot-ne-crashed _) (after_reboot-Accounted _ _)
  process_input-Safe (negsuc n) fits = ends (after_reboot-ne-crashed _) (after_reboot-Accounted _ _)
  process_input-Safe (pos (suc last_index)) fits =
      let (c, there) = get_elem?_inside v.buffer last_index (omega (arith, alive.line)) in
      elim (Bool-cases (c == 10)) [
        | inl newline ↦
            let w = record v { buffer = set v.buffer last_index 0 } in
            let ended : 0 + last_index ≡ last_index = omega arith in
            rw (there, newline, there)
              (command-Safe w (process_command k b fuel envp 0 w) refl
                (terminated last_index w.buffer 0 (
                  rw ended (
                    get_elem?-set_self v.buffer last_index 0
                      (lt-length_of_some v.buffer last_index there))))
                refl refl (length-set v.buffer last_index 0)
                (process_command-Kept k b fuel envp 0 w))
        | inr other ↦
            let put = Wrappers.write stdout (codes "No end of line.\n") in
            rw (there, other) (prompt-Safe (record_call put v) refl (later refl here) refl)
      ]

  -- Nothing new in the ring, for a kind that is neither read.
  nothing-Handled :
      (kind : ℕ) (w : World) → kind ≢ 0 → kind ≢ 1 → w ≡ v → Handled ks pending kind v w
  nothing-Handled kind w no_read no_signal e = rw e (record {
    valid = alive.valid;
    same_completions = (refl, refl, refl, refl);
    same_pending = refl;
    quiet = here;
    line = refl;
    untouched = λ _. refl;
    asked = rw none_waiting tt;
    few = rw none_waiting (omega arith);
    reads = rw none_waiting (ground arith);
    signals = rw none_waiting (ground arith);
  })

  checked-Safe :
      (kind : ℕ) (place : Text) (res : ℤ)
      → kind ≢ 0
      → kind ≢ 1
      → IsInt64 res
      → Safe k b fuel envp
          (Handled ks pending kind v)
          (and_then (syscheck k place res v) (λ _. skip))
  checked-Safe kind place (pos n) no_read no_signal small =
      rw (syscheck-Checks k place (pos n) v small)
        (goes_on (nothing-Handled kind v no_read no_signal refl))
  checked-Safe kind place (negsuc n) no_read no_signal small =
      let e = syscheck-Checks k place (negsuc n) v small in
      rw e (ends (λ e. cc) (reported place _ refl))

  -- Whatever completion arrives in a ring in which nothing is waiting, its handler does not crash,
  -- except in a command.
  pub handle-Safe :
      (cqe : Cqe)
      → IsInt64 cqe.res
      → (cqe.user_data ≡ event_console_read → Within 1024 cqe.res)
      → Safe k b fuel envp (Handled ks pending cqe.user_data v) (handle k b fuel envp cqe v)
  unfolding handle process_signal
  handle-Safe cqe small fits = elim (Bool-cases (cqe.user_data == event_console_read)) [
    | inl reads ↦
        let e : cqe.user_data ≡ 0 = (==_iff cqe.user_data 0).0 reads in
        rw (reads, e) (process_input-Safe cqe.res (fits e))
    | inr not_read ↦ elim (Bool-cases (cqe.user_data == event_signal)) [
      | inl signals ↦
          let e : cqe.user_data ≡ 1 = (==_iff cqe.user_data 1).0 signals in
          rw (not_read, signals, e) (signal-Safe v refl here refl refl)
      | inr not_signal ↦ elim (Bool-cases (cqe.user_data == event_other)) [
        | inl other ↦
            rw (not_read, not_signal, other)
              (checked-Safe cqe.user_data (b.init_c ++ codes ":123") cqe.res (λ e. ground arith)
                (λ e. ground arith) small)
        | inr unknown ↦
            rw (not_read, not_signal, unknown)
              (goes_on
                (nothing-Handled cqe.user_data v (λ e. ground arith) (λ e. ground arith) refl))
      ]
    ]
  ]
