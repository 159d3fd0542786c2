-- ===== src/Init/Session/Obeys.antt =====
-- init/init.c: what process_input makes of a read of the console, whatever was read.
use mathlib.Core.Path.{subst}
use mathlib.Core.List.{List-discrete}
use native.Mathlib.Decide.{ℕ_discrete}
use minlinux.Base.{
  ℕ, zero, suc, ◌≡◌, ◌≢◌, ◌⊎◌, refl, sym, ap, ◌∙◌, Bool-cases, inl, inr, some, ◌==◌, ==_iff, List,
  [], ◌∷◌, ◌++◌, append_assoc, All, length, length-append, take, drop, arith, codes, if◌then◌else◌,
}
use minlinux.Base.Int.{pos}
use minlinux.Memory.Text.{HasText, HasText-cons}
use minlinux.System.{Kernel, World, Outcome, stopped, Unit0, ◌>>◌}
use minlinux.System.Abi.{linux_reboot_cmd_power_off}
use minlinux.System.Wrappers
use minlinux.System.Wrappers.{Text}
use minlinux.System.Print.{Build, stdout, write_str, err_exit, after_reboot}
use minlinux.Command.Words.{words, behind, lead}
use minlinux.Command.Dispatch.{Builtin, time, ls, cat, env, exit, usage, memrun, call_builtin}
use minlinux.Command.Dispatch.Laws.{name_of, nothing, program, process_command-Runs}
use minlinux.Init.{process_input, create_console_prompt}
use minlinux.Init.Input.{ended, Calls, CallsBusybox, runs_line, load_newline}
use minlinux.Init.Session.{Input, entered, failed, result, Begins}

-- The string that begins with these bytes ends at the first 0 among them.
abbrev pub until_zero : List ℕ → Text
until_zero [] = []
until_zero (c ∷ s) = if c == 0 then [] else c ∷ until_zero s

module _ (k : Kernel) (b : Build) (fuel : ℕ) (envp : List Text) where
  -- The run wrote a message and powered off, or went on behind the call where the kernel refused.
  abbrev pub Leaves : Text → World → Outcome Unit0
  Leaves message u =
      let told = Wrappers.write stdout message ∷ u.calls in
      let off = Wrappers.reboot_hard linux_reboot_cmd_power_off in
      stopped (after_reboot (k.rax told off)) (record u { calls = off ∷ told })

  -- What is done with a read in the world `u`: init leaves with a message at an error and at the end
  -- of the input, bytes with no newline at their end are refused, and of a line with one the first
  -- word names the command and the others are its arguments; then the next prompt and read are
  -- asked for.
  pub data Obeys (u : World) : Input → Outcome Unit0 → Type 0 where
    no_read :
        (n : ℕ)
        → Obeys u
            (failed n)
            (Leaves ((b.init_c ++ codes ":154") ++ codes " Error reading file.\n") u)
    no_more :
        Obeys u
          (entered [])
          (Leaves ((b.init_c ++ codes ":152") ++ codes " End of console input.\n") u)
    unended :
        (s : List ℕ) (c : ℕ)
        → c ≢ b'\n'
        → Obeys u
            (entered (s ++ (c ∷ [])))
            ((write_str k (codes "No end of line.\n") >> create_console_prompt) u)
    blank :
        (s rest : List ℕ)
        → u.buffer ≡ s ++ (b'\n' ∷ rest)
        → words (until_zero s) ≡ []
        → Obeys u (entered (s ++ (b'\n' ∷ []))) (create_console_prompt (ended s rest u))
    builtin :
        {o : Outcome Unit0} (s : List ℕ) (x : Builtin) (args : List Text)
        → words (until_zero s) ≡ name_of x ∷ args
        → Calls args (call_builtin k b fuel envp x) u o
        → Obeys u (entered (s ++ (b'\n' ∷ []))) o
    other :
        {o : Outcome Unit0} (s : List ℕ) (name : Text) (args : List Text)
        → words (until_zero s) ≡ name ∷ args
        → ((x : Builtin) → name ≢ name_of x)
        → CallsBusybox k b name args u o
        → Obeys u (entered (s ++ (b'\n' ∷ []))) o

-- A name is that of a built-in command or of none.
among :
    (name : Text) (xs : List Builtin)
    → ((x : Builtin) × (name ≡ name_of x)) ⊎ All (λ x. name ≢ name_of x) xs
among name [] = inr tt
among name (x ∷ xs) = elim (List-discrete ℕ_discrete name (name_of x)) [
  | yes e ↦ inl (x, e)
  | no ne ↦ elim (among name xs) [ inl found ↦ inl found | inr rest ↦ inr (ne, rest) ]
]

name_cases :
    (name : Text) → ((x : Builtin) × (name ≡ name_of x)) ⊎ ((x : Builtin) → name ≢ name_of x)
name_cases name = elim (among name (time ∷ ls ∷ cat ∷ env ∷ exit ∷ usage ∷ memrun ∷ [])) [
  | inl found ↦ inl found
  | inr (t, (l, (c, (e, (q, (u, (m, _))))))) ↦ inr (none_of t l c e q u m)
]
  where
    none_of :
        name ≢ name_of time
        → name ≢ name_of ls
        → name ≢ name_of cat
        → name ≢ name_of env
        → name ≢ name_of exit
        → name ≢ name_of usage
        → name ≢ name_of memrun
        → (x : Builtin) → name ≢ name_of x
    none_of t l c e q u m time = t
    none_of t l c e q u m ls = l
    none_of t l c e q u m cat = c
    none_of t l c e q u m env = e
    none_of t l c e q u m exit = q
    none_of t l c e q u m usage = u
    none_of t l c e q u m memrun = m

HasText_until : (s rest : List ℕ) → HasText (s ++ (0 ∷ rest)) 0 (until_zero s)
HasText_until [] rest = refl
HasText_until (c ∷ s) rest = elim (Bool-cases (c == 0)) [
  | inl e ↦ rw e (ap some ((==_iff c 0).0 e))
  | inr e ↦ rw e (
    refl,
    (λ e'. ground arith),
    HasText-cons c (s ++ (0 ∷ rest)) 0 (until_zero s) (HasText_until s rest),
  )
]

take-drop : (n : ℕ) (m : List ℕ) → take n m ++ drop n m ≡ m
take-drop zero m = refl
take-drop (suc n) [] = refl
take-drop (suc n) (x ∷ m) = ap (λ l. x ∷ l) (take-drop n m)

-- A list with an element ends in one.
ends_in : (x : ℕ) (xs : List ℕ) → (s : List ℕ) × (c : ℕ) × (x ∷ xs ≡ s ++ (c ∷ []))
ends_in x [] = ([], x, refl)
ends_in x (y ∷ ys) = let (s, c, e) = ends_in y ys in (x ∷ s, c, ap (λ l. x ∷ l) e)

module _ (k : Kernel) (b : Build) (fuel : ℕ) (envp : List Text) (u : World) where
  -- A line with its newline.
  line-Obeys :
      (s rest : List ℕ)
      → u.buffer ≡ s ++ (b'\n' ∷ rest)
      → Obeys k b fuel envp u
          (entered (s ++ (b'\n' ∷ [])))
          (process_input k b fuel envp (pos (suc (length s))) u)
  line-Obeys s rest typed =
      let ran = runs_line k b fuel envp s rest u typed in
      elim (process_command-Runs k b fuel envp 0 (until_zero s) (ended s rest u)
        (HasText_until s rest)) [
          | nothing none_there returns ↦ rw (ran, returns) (blank s rest typed none_there)
          | program prog next more line parts named onward text runs others ↦
              elim (name_cases (lead more)) [
                | inl (x, same) ↦ builtin s x (words (behind more)) (cc) (record {
                  next = next;
                  left = behind more;
                  line = line;
                  text = text;
                  holds = refl;
                  returns = rw (ran, runs x same) refl;
                })
                | inr unknown ↦ other s (lead more) (words (behind more)) (cc) unknown (record {
                  prog = prog;
                  next = next;
                  left = behind more;
                  line = line;
                  named = named;
                  text = text;
                  holds = refl;
                  returns = rw (ran, others unknown) refl;
                })
              ]
        ]

  -- Bytes, of which `c` is the last.
  bytes-Obeys :
      (s rest : List ℕ) (c : ℕ)
      → u.buffer ≡ s ++ (c ∷ rest)
      → Obeys k b fuel envp u
          (entered (s ++ (c ∷ [])))
          (process_input k b fuel envp (pos (suc (length s))) u)
  unfolding process_input
  bytes-Obeys s rest c typed = elim (Bool-cases (c == 10)) [
    | inl e ↦
        let newline : c ≡ b'\n' = (==_iff c b'\n').0 e in
        subst
          (λ d.
            Obeys k b fuel envp u (entered (s ++ (d ∷ [])))
              (process_input k b fuel envp (pos (suc (length s))) u))
          (sym newline) (line-Obeys s rest (typed ∙ ap (λ d. s ++ (d ∷ rest)) newline))
    | inr e ↦ rw (typed, load_newline s rest c, e) (unended s c (λ same. ground arith))
  ]

  -- What process_input does with a read of the console whose bytes the buffer begins with, whatever
  -- was read: after an error or at the end of the input it writes a message and powers off, and is
  -- undefined if that is refused; bytes that no newline ends are refused with a message; of a line
  -- with its newline, up to the first byte 0 if there is one, the first word names the built-in
  -- command or the program of busybox that it runs, with the words behind it as arguments, and a
  -- line without words runs nothing. If it comes to its end, it has asked for the next prompt and
  -- read.
  pub process_input-Obeys :
      (t : Input)
      → Begins u.buffer t
      → Obeys k b fuel envp u t (process_input k b fuel envp (result t) u)
  unfolding process_input err_exit
  process_input-Obeys (failed n) begins = no_read n
  process_input-Obeys (entered []) begins = no_more
  process_input-Obeys (entered (x ∷ xs)) begins =
      let (s, c, e) = ends_in x xs in
      let rest = drop (length (x ∷ xs)) u.buffer in
      let typed : u.buffer ≡ s ++ (c ∷ rest) =
        sym (take-drop (length (x ∷ xs)) u.buffer)
        ∙ ap (λ l. l ++ rest) (begins ∙ e)
        ∙ append_assoc s (c ∷ []) rest in
      let one_more : length (s ++ (c ∷ [])) ≡ suc (length s) =
        omega (arith, length-append s (c ∷ [])) in
      subst
        (λ t. Obeys k b fuel envp u (entered t) (process_input k b fuel envp (pos (length t)) u))
        (sym e) (rw one_more (bytes-Obeys s rest c typed))
