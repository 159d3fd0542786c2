-- ===== src/Init/Session/Handled.antt =====
-- init/init.c: what a handler leaves of the console's reads, behind uring_wait.
use mathlib.Core.Path.{subst}
use minlinux.Base.{
  ℕ, ◌^◌, ◌≤◌, ◌≡◌, ◌≢◌, refl, sym, ap, ◌∙◌, Bool-cases, inl, inr, ◌==◌, true, List, [], ◌∷◌, ◌++◌,
  append-nil, length, map, arith,
}
use minlinux.Uring.{Cqe, uring_advance}
use minlinux.Uring.Complete.{Yields}
use minlinux.Uring.Contract.{Contract}
use minlinux.Uring.Wait.{waiting}
use minlinux.Uring.Calls.{uring_wait}
use minlinux.System.{Kernel, World, Outcome, returned, stopped, Unit0, and_then, ◌>>◌}
use minlinux.System.Abi.{Call}
use minlinux.System.Wrappers.{Text}
use minlinux.System.Print.{Build}
use minlinux.Init.{event_console_read, handle, process_input}
use minlinux.Init.Safe.{Safe, goes_on, ends, in_command, Handled, Since-pending}
use minlinux.Init.Handlers.{handle-Safe}
use minlinux.Init.Rounds.{Ready, rest_same, advanced-Ready}
use minlinux.Init.Session.{Input, result, results, Console, advance, Round, event, input}
use minlinux.Init.Session.Waited.{Holds, Listens, length-held}

abbrev pub left_in : {A : Type 0} → Outcome A → World
left_in (returned a w) = w
left_in (stopped s w) = w

-- What a safe run that returns leaves.
pub Safe-returned :
    {k : Kernel} {b : Build} {fuel : ℕ} {envp : List Text} {A : Type 0} {P : World → Type 0}
    {o : Outcome A} (a : A) (w : World)
    → Safe k b fuel envp P o
    → o ≡ returned a w
    → P w
Safe-returned {P} a w (goes_on p) e = subst P (ap left_in e) p
Safe-returned a w (ends other h) e = cc
Safe-returned a w (in_command before line text crashes) e = cc

-- A handler that came back, and the completion was passed.
pub handler_returned :
    (m : Outcome Unit0) (w : World)
    → and_then m (λ _. advance) ≡ returned tt w
    → (v : World) × (m ≡ returned tt v) × (w ≡ record v { uring = uring_advance v.uring })
handler_returned (returned tt v) w e = (v, refl, sym (ap left_in e))
handler_returned (stopped s v) w e = cc

module _ (ks kc : ℕ) (k : Kernel) (b : Build) (fuel : ℕ) (envp : List Text)
    (pending : List Call → List ℕ) (contract : Contract ks kc event_console_read 1024 k b pending)
    (room : 4 ≤ 2 ^ ks) (typed : List Call → List Input) (console : Console ks kc k typed) where
  abbrev Hears : List Input → List Input → World → Type 0
  Hears seen held w = Listens ks kc k pending typed seen held w

  -- A round begun in `v` handled the reads `ts`, and what it left is heard so far; if it returns,
  -- so in the world that it leaves.
  pub record Steps (seen : List Input) (v : World) (o : Outcome Unit0) : Type 0 where
    pub ts : List Input
    pub held : List Input
    pub after : World
    pub is_round : Round k b fuel envp v ts after o
    pub so_far : typed after.calls ≡ (seen ++ ts) ++ held
    pub few : length held ≤ 1
    pub onward : (w : World) → o ≡ returned tt w → Hears (seen ++ ts) held w

  -- The completion `y` of `u` was handled, and the reads `held` are left.
  Handled-Hears :
      (seen ts held : List Input) (u w : World) (l : Ready ks kc pending u)
      → waiting ks u.uring ≡ []
      → (y : Yields kc u.uring) → Handled ks pending y.cqe.user_data u w
      → results event_console_read y.rest ≡ map result held
      → Holds held w.buffer
      → typed u.calls ≡ (seen ++ ts) ++ held
      → Hears (seen ++ ts) held (record w { uring = uring_advance w.uring })
  Handled-Hears seen ts held u w ready none_waiting y h unread begins so_far = record {
    ready = advanced-Ready ks kc pending u w ready y h none_waiting;
    unread =
        ap (λ es. results event_console_read es) (rest_same ks kc pending u w ready y h) ∙ unread;
    begins = begins;
    so_far = Since-pending typed console.others h.quiet ∙ so_far;
  }

  pub handle_reads :
      (cqe : Cqe) (u : World)
      → (cqe.user_data == event_console_read) ≡ true
      → handle k b fuel envp cqe u ≡ process_input k b fuel envp cqe.res u
  unfolding handle
  handle_reads cqe u reads = rw reads refl

  -- Behind uring_wait, which came back in `u`, the oldest completion is handled.
  module _ (seen held : List Input) (v u : World) (back : uring_wait k b 1 v ≡ returned tt u)
      (l : Hears seen held u) (none_waiting : waiting ks u.uring ≡ []) (y : Yields kc u.uring) where
    pub handle_safely :
        Safe k b fuel envp (Handled ks pending y.cqe.user_data u) (handle k b fuel envp y.cqe u)
    handle_safely =
        let sound = (rw (y.oldest) at (l.ready.alive.sound)).0 in
        handle-Safe ks kc k b fuel envp pending contract room u l.ready.alive none_waiting y.cqe
          sound.0 sound.1

    pub carries_on :
        (ts held : List Input)
        → results event_console_read y.rest ≡ map result held
        → ((w : World) → Handled ks pending y.cqe.user_data u w → Holds held w.buffer)
        → typed u.calls ≡ (seen ++ ts) ++ held
        → (w : World) → (handle k b fuel envp y.cqe >> advance) u ≡ returned tt w
        → Hears (seen ++ ts) held w
    carries_on ts held unread begins so_far w e =
        let (w', ran, passed) = handler_returned (handle k b fuel envp y.cqe u) w e in
        let h = Safe-returned tt w' handle_safely ran in
        subst (Hears (seen ++ ts) held) (sym passed)
          (Handled-Hears seen ts held u w' l.ready none_waiting y h unread (begins w' h) so_far)

    event-Steps :
        y.cqe.user_data ≢ event_console_read
        → results event_console_read y.rest ≡ map result held
        → Steps seen v ((handle k b fuel envp y.cqe >> advance) u)
    event-Steps other unread =
        let so_far = l.so_far ∙ ap (λ ts. ts ++ held) (sym (append-nil seen)) in
        record {
          ts = [];
          held = held;
          after = u;
          is_round = event back y.returns y.found other;
          so_far = so_far;
          few = length-held ks kc k pending typed seen held u l;
          onward =
              carries_on [] held unread
                (λ w h. subst (Holds held) (sym (h.untouched other)) l.begins) so_far;
        }

    input-Steps :
        (held : List Input)
        → (y.cqe.user_data == event_console_read) ≡ true
        → Hears seen held u
        → y.cqe.res ∷ results event_console_read y.rest ≡ map result held
        → Steps seen v ((handle k b fuel envp y.cqe >> advance) u)
    input-Steps [] reads h unread = absurd (cc)
    input-Steps (t ∷ t' ∷ held) reads h unread =
        absurd (omega (arith, length-held ks kc k pending typed seen (t ∷ t' ∷ held) u h))
    input-Steps (t ∷ []) reads h unread =
        let same : y.cqe.res ≡ result t = cc in
        let ran = handle_reads y.cqe u reads in
        let so_far = h.so_far ∙ sym (append-nil (seen ++ (t ∷ []))) in
        record {
          ts = t ∷ [];
          held = [];
          after = u;
          is_round =
              subst (λ m. Round k b fuel envp v (t ∷ []) u (and_then m (λ _. advance))) (sym ran)
                (input t back y.returns y.found same h.begins);
          so_far = so_far;
          few = omega arith;
          onward = carries_on (t ∷ []) [] (cc) (λ w _. tt) so_far;
        }

    pub handler-Steps : Steps seen v ((handle k b fuel envp y.cqe >> advance) u)
    handler-Steps = elim (Bool-cases (y.cqe.user_data == event_console_read)) [
      | inl reads ↦
          input-Steps held reads l
            (sym (ap (λ es. results event_console_read es) y.oldest ∙ rw reads refl) ∙ l.unread)
      | inr other ↦
          event-Steps (λ e. ground arith)
            (sym (ap (λ es. results event_console_read es) y.oldest ∙ rw other refl) ∙ l.unread)
    ]
