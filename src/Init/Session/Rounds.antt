-- ===== src/Init/Session/Rounds.antt =====
-- init/init.c: the event loop handles what is typed at the console once each and in order.
use mathlib.Core.Path.{subst}
use minlinux.Base.{
  ℕ, zero, suc, ◌^◌, ◌≤◌, ◌≡◌, refl, sym, ap, ◌∙◌, inl, inr, List, [], ◌++◌, append-nil,
  append_assoc,
}
use minlinux.Uring.{uring_result}
use minlinux.Uring.Complete.{uring_result_lem, completions}
use minlinux.Uring.Contract.{Contract}
use minlinux.Uring.Wait
use minlinux.Uring.Wait.{waiting}
use minlinux.Uring.Calls.{uring_wait}
use minlinux.System.{Kernel, World, Outcome, returned, stopped, Unit0, and_then}
use minlinux.System.Abi.{Call}
use minlinux.System.Wrappers.{Text}
use minlinux.System.Print.{Build}
use minlinux.Init.{event_console_read, handle_result, loop_round}
use minlinux.Init.Rounds.{Ready}
use minlinux.Init.Session.{
  Input, results, Console, gave_up, idle, interrupted, last, further, Serves,
}
use minlinux.Init.Session.Waited.{Listens, length-held, waited, waited-Listens}
use minlinux.Init.Boot.{event_loop}
use minlinux.Init.Session.Handled.{left_in, Steps, handler-Steps}

module _ (ks kc : ℕ) (k : Kernel) (b : Build) (fuel : ℕ) (envp : List Text)
    (pending : List Call → List ℕ) (contract : Contract ks kc event_console_read 1024 k b pending)
    (room : 4 ≤ 2 ^ ks) (typed : List Call → List Input) (console : Console ks kc k typed) where
  waited-Steps :
      (seen held : List Input) (v u : World)
      → uring_wait k b 1 v ≡ returned tt u
      → Listens ks kc k pending typed seen held u
      → waiting ks u.uring ≡ []
      → Steps ks kc k b fuel envp pending contract room typed console seen v
          (handle_result k b fuel envp (uring_result u.uring) u)
  unfolding handle_result
  waited-Steps seen held v u back l none_waiting =
      let so_far = l.so_far ∙ ap (λ ts. ts ++ held) (sym (append-nil seen)) in
      elim (uring_result_lem kc u.uring l.ready.alive.cq_valid) [
        | inl (none_there, _) ↦ rw none_there (record {
          ts = [];
          held = held;
          after = u;
          is_round = idle back none_there;
          so_far = so_far;
          few = length-held ks kc k pending typed seen held u l;
          onward = λ w e.
              subst (Listens ks kc k pending typed (seen ++ []) held) (ap left_in e)
                (record { ready = l.ready; unread = l.unread; begins = l.begins; so_far = so_far });
        })
        | inr y ↦
            rw (y.returns, y.found)
              (handler-Steps ks kc k b fuel envp pending contract room typed console seen held v u
                back l none_waiting y)
      ]

  round-Steps :
      (seen held : List Input) (v : World)
      → Listens ks kc k pending typed seen held v
      → Steps ks kc k b fuel envp pending contract room typed console seen v
          (loop_round k b fuel envp v)
  unfolding loop_round
  round-Steps seen held v l =
      let alive = l.ready.alive in
      elim (Wait.uring_wait_cases ks kc event_console_read 1024 k pending b contract v 1 alive) [
        | inl back ↦
            let (new, l') = waited-Listens ks kc k pending typed b contract console v seen held l in
            let u = waited ks kc k pending typed b contract console v seen held l in
            rw back (
              waited-Steps seen (held ++ new) v u back l'
                (Wait.back_waiting ks kc event_console_read 1024 k pending b contract v 1 alive))
        | inr (w, e) ↦ rw e (record {
          ts = [];
          held = held;
          after = v;
          is_round = gave_up e;
          so_far = l.so_far ∙ ap (λ ts. ts ++ held) (sym (append-nil seen));
          few = length-held ks kc k pending typed seen held v l;
          onward = λ w' e'. cc;
        })
      ]

  loop-Serves :
      (rounds : ℕ) (seen held : List Input) (v : World)
      → Listens ks kc k pending typed seen held v
      → Serves k b fuel envp typed seen v (event_loop k b fuel envp rounds v)
  unfolding event_loop
  loop-Serves zero seen held v l = record {
    ts = [];
    held = held;
    after = v;
    session = interrupted;
    so_far = l.so_far ∙ ap (λ ts. ts ++ held) (sym (append-nil seen));
    few = length-held ks kc k pending typed seen held v l;
  }
  loop-Serves (suc rounds) seen held v l =
      let s = round-Steps seen held v l in
      goes (loop_round k b fuel envp v) s (λ w h. loop-Serves rounds (seen ++ s.ts) s.held w h)
    where
      goes :
          (o : Outcome Unit0)
          → (s : Steps ks kc k b fuel envp pending contract room typed console seen v o)
          → ((w : World)
              → Listens ks kc k pending typed (seen ++ s.ts) s.held w
              → Serves k b fuel envp typed (seen ++ s.ts) w (event_loop k b fuel envp rounds w))
          → Serves k b fuel envp typed seen v (and_then o (λ _. event_loop k b fuel envp rounds))
      goes (stopped st w) s next = record {
        ts = s.ts;
        held = s.held;
        after = s.after;
        session = last s.is_round;
        so_far = s.so_far;
        few = s.few;
      }
      goes (returned tt w) s next =
          let rest = next w (s.onward w refl) in
          record {
            ts = s.ts ++ rest.ts;
            held = rest.held;
            after = rest.after;
            session = further s.is_round rest.session;
            so_far = rest.so_far ∙ ap (λ ts. ts ++ rest.held) (append_assoc seen s.ts rest.ts);
            few = rest.few;
          }

  -- With a kernel that keeps the contract of io_uring and whose reads of the console leave their
  -- bytes in the buffer, and a ring of four entries or more: the event loop, begun with both rings
  -- well formed, nothing arrived, and one read of the console and one of the signals under way,
  -- handles what the reads of the console give once each and in the order of their completion, each
  -- while the buffer begins with its bytes. Nothing is left out but at most the read completed last,
  -- if the loop ends before it.
  --
  pub event_loop-Serves :
      (rounds : ℕ) (w : World)
      → Ready ks kc pending w
      → completions kc w.uring ≡ []
      → Serves k b fuel envp typed (typed w.calls) w (event_loop k b fuel envp rounds w)
  event_loop-Serves rounds w ready none_arrived = loop-Serves rounds (typed w.calls) [] w (record {
    ready = ready;
    unread = ap (λ es. results event_console_read es) none_arrived;
    begins = tt;
    so_far = sym (append-nil (typed w.calls));
  })
