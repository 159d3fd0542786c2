-- ===== src/Init/Session/Progress.antt =====
-- init/init.c: a completed read of the console does not wait in the ring for ever.
use mathlib.Core.Path.{subst}
use mathlib.Core.List.{head-eq_of_cons-eq, tail-eq_of_cons-eq}
use minlinux.Base.{
  ℕ, suc, ◌^◌, ◌≤◌, ◌≡◌, refl, sym, ap, ◌∙◌, Bool-cases, inl, inr, ◌⊎◌, ◌==◌, ==_iff, true, false,
  Option, some, List, [], ◌∷◌, ◌++◌, append-nil, append_assoc, length, arith,
}
use minlinux.Uring.{Cqe}
use minlinux.Uring.Complete.{Yields, uring_result_lem, completions}
use minlinux.Uring.Contract.{Contract}
use minlinux.Uring.Wait
use minlinux.Uring.Wait.{waiting}
use minlinux.Uring.Calls.{uring_wait}
use minlinux.System.{
  Kernel, World, Outcome, Stop, undefined, returned, stopped, Unit0, and_then, ◌>>◌,
}
use minlinux.System.Abi.{Call}
use minlinux.System.Wrappers.{Text}
use minlinux.System.Print.{Build}
use minlinux.Init.{event_console_read, handle, handle_result, loop_round}
use minlinux.Init.Rounds.{rest_same}
use minlinux.Init.Session.{
  Input, result, results, Console, advance, Round, input, Within, ended, now, later,
}
use minlinux.Init.Session.Waited.{Holds, Listens, length-held, waited, waited-Listens}
use minlinux.Init.Session.Handled.{
  Safe-returned, handler_returned, handle_reads, handle_safely, carries_on,
}

module _ (ks kc : ℕ) (k : Kernel) (b : Build) (fuel : ℕ) (envp : List Text)
    (pending : List Call → List ℕ) (contract : Contract ks kc event_console_read 1024 k b pending)
    (room : 4 ≤ 2 ^ ks) (typed : List Call → List Input) (console : Console ks kc k typed) where
  -- Behind uring_wait, the oldest completion `y` is handled.
  module _ (seen : List Input) (t : Input) (v u : World) (back : uring_wait k b 1 v ≡ returned tt u)
      (l : Listens ks kc k pending typed seen (t ∷ []) u) (none_waiting : waiting ks u.uring ≡ [])
      (y : Yields kc u.uring) where
    abbrev handled : Outcome Unit0
    handled = (handle k b fuel envp y.cqe >> advance) u

    ran : loop_round k b fuel envp v ≡ handled
    unfolding loop_round handle_result
    ran = rw (back, y.returns, y.found) refl

    -- It is the read.
    now-Within :
        (n : ℕ) → (y.cqe.user_data == event_console_read) ≡ true → Within k b fuel envp t (suc n) v
    now-Within n reads =
        let first : y.cqe.res ∷ results event_console_read y.rest ≡ result t ∷ [] =
          sym (ap (λ es. results event_console_read es) y.oldest ∙ rw reads refl) ∙ l.unread in
        let process =
          handle_reads ks kc k b fuel envp pending contract room typed console y.cqe u reads in
        now (
          subst (λ o. Round k b fuel envp v (t ∷ []) u o)
            (ap (λ m. and_then m (λ _. advance)) (sym process) ∙ sym ran)
            (input t back y.returns y.found (cc) l.begins))

    -- It is another: the read is nearer, or the loop ends.
    later-Within :
        (n : ℕ)
        → (y.cqe.user_data == event_console_read) ≡ false
        → ((w : World)
            → Listens ks kc k pending typed (seen ++ []) (t ∷ []) w
            → completions kc w.uring ≡ y.rest
            → Within k b fuel envp t n w)
        → Within k b fuel envp t (suc n) v
    later-Within n other nearer = from handled refl
      where
        unread : results event_console_read y.rest ≡ result t ∷ []
        unread = sym (ap (λ es. results event_console_read es) y.oldest ∙ rw other refl) ∙ l.unread

        from : (o : Outcome Unit0) → handled ≡ o → Within k b fuel envp t (suc n) v
        from (stopped s w) e = ended (ran ∙ e)
        from (returned x w) e =
            let (w', done, passed) = handler_returned (handle k b fuel envp y.cqe u) w e in
            let safe =
              handle_safely ks kc k b fuel envp pending contract room typed console seen (t ∷ []) v
                u back l none_waiting y in
            let h = Safe-returned tt w' safe done in
            later (ran ∙ e) (
              nearer w
                (carries_on ks kc k b fuel envp pending contract room typed console seen (t ∷ []) v
                  u back l none_waiting y [] (t ∷ []) unread
                  (λ w h. subst (Holds (t ∷ [])) (sym (h.untouched (λ e. ground arith))) l.begins)
                  (l.so_far ∙ ap (λ ts. ts ++ (t ∷ [])) (sym (append-nil seen))) w e)
                (ap (λ v. completions kc v.uring) passed
                  ∙ rest_same ks kc pending u w' l.ready y h))

  -- What uring_wait leaves while a read is held: more completions behind, no read among them.
  record Came (seen : List Input) (t : Input) (v : World) : Type 0 where
    u : World
    arrived : List (Option Cqe)
    back : uring_wait k b 1 v ≡ returned tt u
    listens : Listens ks kc k pending typed seen (t ∷ []) u
    none_waiting : waiting ks u.uring ≡ []
    more : completions kc u.uring ≡ completions kc v.uring ++ arrived

  none_new : (t : Input) (new : List Input) → length (t ∷ new) ≤ 1 → new ≡ []
  none_new t [] few = refl
  none_new t (t' ∷ new) few = absurd (omega arith)

  came :
      (seen : List Input) (t : Input) (v : World)
      → Listens ks kc k pending typed seen (t ∷ []) v
      → ((s : Stop) × (w : World) × (loop_round k b fuel envp v ≡ stopped s w)) ⊎ Came seen t v
  unfolding loop_round
  came seen t v l =
      let alive = l.ready.alive in
      elim (Wait.uring_wait_cases ks kc event_console_read 1024 k pending b contract v 1 alive) [
        | inr (w, e) ↦ inl (undefined, w, rw e refl)
        | inl back ↦
            let (new, l') =
              waited-Listens ks kc k pending typed b contract console v seen (t ∷ []) l in
            let u = waited ks kc k pending typed b contract console v seen (t ∷ []) l in
            let alone = none_new t new (length-held ks kc k pending typed seen (t ∷ new) u l') in
            inr (record {
              u = u;
              arrived =
                  (Wait.ent ks kc event_console_read 1024 k pending b contract v 1 alive).arrived;
              back = back;
              listens = subst (λ new. Listens ks kc k pending typed seen (t ∷ new) u) alone l';
              none_waiting =
                  Wait.back_waiting ks kc event_console_read 1024 k pending b contract v 1 alive;
              more = Wait.arrives ks kc event_console_read 1024 k pending b contract v 1 alive;
            })
      ]

  -- The oldest of the completions that are there.
  oldest :
      (u : World) (seen held : List Input) (e : Option Cqe) (es : List (Option Cqe))
      → Listens ks kc k pending typed seen held u
      → completions kc u.uring ≡ e ∷ es
      → (y : Yields kc u.uring) × (some y.cqe ≡ e) × (y.rest ≡ es)
  oldest u seen held e es l there = elim (uring_result_lem kc u.uring l.ready.alive.cq_valid) [
    | inl (_, empty) ↦ absurd (cc)
    | inr y ↦
        (y, head-eq_of_cons-eq (sym y.oldest ∙ there), tail-eq_of_cons-eq (sym y.oldest ∙ there))
  ]

  -- With a kernel that keeps the contract of io_uring and whose completed reads of the console
  -- leave their bytes at the start of the buffer, and a ring of four entries or more, at the head
  -- of the event loop with both rings well formed and a read of the console completed and not
  -- handled: the loop handles it within as many rounds as there are completions ahead of it and
  -- one more, or ends before.
  --
  pub completed-Within :
      (ahead behind : List (Option Cqe)) (cqe : Cqe) (seen : List Input) (t : Input) (v : World)
      → Listens ks kc k pending typed seen (t ∷ []) v
      → completions kc v.uring ≡ ahead ++ (some cqe ∷ behind)
      → cqe.user_data ≡ event_console_read
      → Within k b fuel envp t (suc (length ahead)) v
  completed-Within [] behind cqe seen t v l place reads = elim (came seen t v l) [
    | inl (s, w, e) ↦ ended e
    | inr c ↦
        let (y, same, _) =
          oldest c.u seen (t ∷ []) (some cqe) (behind ++ c.arrived) c.listens
            (c.more ∙ ap (λ es. es ++ c.arrived) place) in
        now-Within seen t v c.u c.back c.listens c.none_waiting y 0
          ((==_iff y.cqe.user_data event_console_read).1 (cc))
  ]
  completed-Within (a ∷ ahead) behind cqe seen t v l place reads = elim (came seen t v l) [
    | inl (s, w, e) ↦ ended e
    | inr c ↦
        let n = suc (length ahead) in
        let (y, same, rest) =
          oldest c.u seen (t ∷ []) a (ahead ++ (some cqe ∷ behind) ++ c.arrived) c.listens
            (c.more ∙ ap (λ es. es ++ c.arrived) place) in
        elim (Bool-cases (y.cqe.user_data == event_console_read)) [
          | inl here ↦ now-Within seen t v c.u c.back c.listens c.none_waiting y n here
          | inr other ↦
              later-Within seen t v c.u c.back c.listens c.none_waiting y n other (λ w l' left.
                completed-Within ahead (behind ++ c.arrived) cqe (seen ++ []) t w l'
                  (left ∙ rest ∙ append_assoc ahead (some cqe ∷ behind) c.arrived) reads)
        ]
  ]
