-- ===== src/Init/Boot/Typing.antt =====
-- The kernel of Init/Boot/Obliging at a console where each read gives a line of one letter.
use minlinux.Base.{
  ℕ, zero, suc, ◌^◌, ◌<◌, ◌≡◌, refl, sym, ◌∙◌, Bool, true, false, Option, some, List, [], ◌∷◌, ◌++◌,
  append-nil, arith, length, set, map, ltb→lt,
}
use mathlib.Core.List.{append_cancel_left}
use minlinux.Memory.{Memory}
use minlinux.Uring.{Uring, Cqe}
use minlinux.Uring.Valid.{visible}
use minlinux.Uring.Complete.{arrived, IsCqValid, completions}
use minlinux.Uring.Arrive.{completions-complete}
use minlinux.Uring.Contract.{requests, Contract}
use minlinux.System.{Kernel}
use minlinux.System.Abi.{Call}
use minlinux.System.Frame.{is_enter}
use minlinux.Init.{event_console_read}
use minlinux.Init.Samples.{build}
use minlinux.Init.Session.{Input, entered, result, results, Reads, Console}
use minlinux.Init.Boot.Obliging.{
  byte_read, pending, obliging, obliging-Contract, drained, answered, has_room, drained-IsCqValid,
}

-- The line `x`.
abbrev pub line : Input
line = entered (b'x' ∷ b'\n' ∷ [])

-- What the oldest of the requests `todo` gives, if it is a read of the console.
abbrev given : Bool → List ℕ → List Input
given true (zero ∷ todo) = line ∷ []
given _ _ = []

abbrev given_at : Bool → Option Uring → List ℕ → List Input
given_at true (some u) todo = given (has_room u) (todo ++ requests (visible 4 u))
given_at _ _ todo = []

abbrev now : Call → List Call → List Input
now c before = given_at (is_enter c.number) c.shared (pending before)

abbrev pub typed : List Call → List Input
typed [] = []
typed (c ∷ before) = typed before ++ now c before

abbrev put : List Input → Memory → Memory
put [] m = m
put (t ∷ ts) m = set (set m 0 b'x') 1 b'\n'

abbrev lines : List Call → Memory → Memory
lines [] m = m
lines (c ∷ before) m = put (now c before) m

abbrev pub typing : Kernel
typing = record obliging { lines = lines }

length-put : (ts : List Input) (m : Memory) → length (put ts m) ≡ length m
length-put [] m = refl
length-put (t ∷ ts) [] = refl
length-put (t ∷ ts) (a ∷ []) = refl
length-put (t ∷ ts) (a ∷ b ∷ m) = refl

length-lines : (calls : List Call) (m : Memory) → length (lines calls m) ≡ length m
length-lines [] m = refl
length-lines (c ∷ before) m = length-put (now c before) m

pub typing-Contract : Contract 4 5 event_console_read 1024 typing build pending
typing-Contract = record {
  wide = obliging-Contract.wide;
  nothing_yet = obliging-Contract.nothing_yet;
  others = obliging-Contract.others;
  enters = obliging-Contract.enters;
  same_size = length-lines;
  maps = obliging-Contract.maps;
}

put-Reads :
    (room : Bool) (todo : List ℕ) (m : Memory)
    → length m ≡ 1024
    → Reads (given room todo) m (put (given room todo) m)
put-Reads true (zero ∷ todo) (a ∷ b ∷ m) e = refl
put-Reads true (zero ∷ todo) (a ∷ []) e = absurd (omega arith)
put-Reads true (zero ∷ todo) [] e = absurd (omega arith)
put-Reads true (suc n ∷ todo) m e = refl
put-Reads true [] m e = refl
put-Reads false todo m e = refl

one_given :
    (n : ℕ) (todo : List ℕ)
    → results event_console_read (some (byte_read n) ∷ []) ≡ map result (given true (n ∷ todo))
one_given zero todo = refl
one_given (suc n) todo = ground arith

module _ (u : Uring) (cq : IsCqValid 5 u) (fs : List (Option Cqe)) where
  none_given :
      completions 5 (drained u) ≡ completions 5 u ++ fs → results event_console_read fs ≡ []
  none_given e =
      let none_new =
        append_cancel_left (completions 5 u) fs [] (sym e ∙ sym (append-nil (completions 5 u))) in
      rw none_new refl

  given_results :
      (room : Bool)
      → has_room u ≡ room
      → (todo : List ℕ) → completions 5 (answered room todo u) ≡ completions 5 u ++ fs
      → results event_console_read fs ≡ map result (given room todo)
  given_results false e todo done = none_given done
  given_results true e [] done = none_given done
  given_results true e (n ∷ todo) done =
      let free : arrived (drained u) < 2 ^ 5 = ltb→lt (arrived u) (2 ^ 5) e in
      let one = append_cancel_left (completions 5 u) fs (some (byte_read n) ∷ []) (
        sym done
        ∙ completions-complete 5 (drained u) (byte_read n) (drained-IsCqValid u cq [] []) free) in
      rw one (one_given n todo)

quiet_now :
    (c : Call) (before : List Call) → is_enter c.number ≡ false → typed (c ∷ before) ≡ typed before
quiet_now c before quiet = rw quiet (append-nil (typed before))

pub typing-Console : Console 4 5 typing typed
typing-Console = record {
  nothing_yet = refl;
  others = quiet_now;
  enters = λ u before wanted fs v cq done.
      let room = has_room u in
      let todo = pending before ++ requests (visible 4 u) in
      (
        given room todo,
        refl,
        given_results u cq fs room refl todo done,
        λ m size. put-Reads room todo m size,
      );
}
