-- ===== src/Init/Session/Waited.antt =====
-- init/init.c: the console's reads at the head of the event loop and behind uring_wait.
use minlinux.Base.{
  ℕ, suc, ◌+◌, ◌≤◌, ◌≡◌, refl, sym, ap, ap₂, ◌∙◌, Bool-cases, inl, inr, ◌==◌, Option, none, some,
  List, [], ◌∷◌, ◌++◌, append_assoc, length, length-append, map, arith,
}
use minlinux.Memory.{Memory}
use minlinux.Uring.{Cqe}
use minlinux.Uring.Complete.{completions}
use minlinux.Uring.Contract.{count, answers, Contract}
use minlinux.Uring.Wait
use minlinux.System.{Kernel, World}
use minlinux.System.Abi.{Call}
use minlinux.System.Print.{Build}
use minlinux.Init.{event_console_read}
use minlinux.Uring.Tally.{IsCqValid-same}
use mathlib.Core.List.{map-append}
use minlinux.Init.Rounds.{Ready}
use minlinux.Init.Session.{Input, result, Begins, results, Reads, Console}

pub results-append :
    (kind : ℕ) (es fs : List (Option Cqe))
    → results kind (es ++ fs) ≡ results kind es ++ results kind fs
results-append kind [] fs = refl
results-append kind (none ∷ es) fs = results-append kind es fs
results-append kind (some e ∷ es) fs = elim (Bool-cases (e.user_data == kind)) [
  | inl same ↦ rw same (ap (λ l. e.res ∷ l) (results-append kind es fs))
  | inr other ↦ rw other (results-append kind es fs)
]

pub length-results :
    (kind : ℕ) (es : List (Option Cqe)) → length (results kind es) ≡ count kind (answers es)
length-results kind [] = refl
length-results kind (none ∷ es) = length-results kind es
length-results kind (some e ∷ es) = ground (arith, length-results kind es)

length-map {ℓ κ} :
    {A : Type ℓ} {B : Type κ} (f : A → B) (xs : List A) → length (map f xs) ≡ length xs
length-map f [] = refl
length-map f (x ∷ xs) = ap suc (length-map f xs)

-- The buffer begins with what the first of these reads gave.
abbrev pub Holds : List Input → Memory → Type 0
Holds [] m = Unit
Holds (t ∷ ts) m = Begins m t

Holds-after :
    (held new : List Input) (m after : Memory)
    → length held + length new ≤ 1
    → Holds held m
    → Reads new m after
    → Holds (held ++ new) after
Holds-after [] [] m after few h r = tt
Holds-after [] (t ∷ []) m after few h r = r
Holds-after [] (t ∷ t' ∷ new) m after few h r = absurd (omega arith)
Holds-after (t ∷ held) [] m after few h r = rw r h
Holds-after (t ∷ held) (t' ∷ new) m after few h r = absurd (omega arith)

module _ (ks kc : ℕ) (k : Kernel) (pending : List Call → List ℕ)
    (typed : List Call → List Input) where
  -- Of what was typed, the loop has handled the reads `seen`, and `held` is in the ring and in the
  -- buffer.
  pub record Listens (seen held : List Input) (w : World) : Type 0 where
    pub ready : Ready ks kc pending w
    pub unread : results event_console_read (completions kc w.uring) ≡ map result held
    pub begins : Holds held w.buffer
    pub so_far : typed w.calls ≡ seen ++ held

  pub length-held : (seen held : List Input) (w : World) → Listens seen held w → length held ≤ 1
  length-held seen held w l = omega (
    arith,
    length-map result held,
    ap (λ x. length x) l.unread,
    length-results event_console_read (completions kc w.uring),
    l.ready.one_read,
  )

  -- What uring_wait leaves: the reads that were completed meanwhile, if any, are held with their
  -- bytes.
  module _ (b : Build) (contract : Contract ks kc event_console_read 1024 k b pending)
      (console : Console ks kc k typed) (w : World) (seen held : List Input)
      (l : Listens seen held w) where
    abbrev pub waited : World
    waited = Wait.next ks kc event_console_read 1024 k pending b contract w 1 l.ready.alive

    waited-Ready : Ready ks kc pending waited
    waited-Ready =
        let same =
          Wait.same_tokens ks kc event_console_read 1024 k pending b contract w 1 l.ready.alive in
        record {
          alive =
              Wait.next-Alive ks kc event_console_read 1024 k pending b contract w 1 l.ready.alive;
          one_read = same 0 ∙ l.ready.one_read;
          one_signal = same 1 ∙ l.ready.one_signal;
        }

    pub waited-Listens : (new : List Input) × Listens seen (held ++ new) waited
    waited-Listens =
        let a = l.ready.alive in
        let ent = Wait.ent ks kc event_console_read 1024 k pending b contract w 1 a in
        let f = Wait.f ks kc event_console_read 1024 k pending b contract w 1 a in
        let cq = IsCqValid-same kc w.uring f.after f.same_completions a.cq_valid in
        let (new, typed_now, gave, left) =
          console.enters f.after w.calls 1 ent.arrived f.valid cq ent.completed in
        let now =
          ap (λ es. results event_console_read es)
            (Wait.arrives ks kc event_console_read 1024 k pending b contract w 1 a)
          ∙ results-append event_console_read (completions kc w.uring) ent.arrived
          ∙ ap₂ ◌++◌ l.unread gave
          ∙ sym (map-append result held new) in
        let one = waited-Ready.one_read in
        let few : length held + length new ≤ 1 = omega (
          arith,
          one,
          ap (λ x. length x) now,
          length-map result (held ++ new),
          length-append held new,
          length-results event_console_read (completions kc waited.uring),
        ) in
        (
          new,
          record {
            ready = waited-Ready;
            unread = now;
            begins =
                Holds-after held new w.buffer waited.buffer few l.begins (left w.buffer a.line);
            so_far = typed_now ∙ ap (λ ts. ts ++ new) l.so_far ∙ append_assoc seen held new;
          },
        )
