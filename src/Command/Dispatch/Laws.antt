-- ===== src/Command/Dispatch/Laws.antt =====
-- Which program process_command runs for a line.
use minlinux.Base.{
  ℕ, ◌+◌, ◌*◌, ◌≤◌, ◌≡◌, length, ◌≢◌, inl, inr, refl, sym, ap, ◌∙◌, List, [], ◌∷◌, ◌++◌, codes, All,
  arith, Bool-cases,
}
use minlinux.Memory.{Memory}
use minlinux.Memory.Text.{HasText, HasText_front}
use minlinux.System.{Kernel, World, Outcome, returned, Unit0}
use minlinux.System.Wrappers.{Text}
use minlinux.System.Print.{Build}
use minlinux.Command.Scan.Laws.{streq_lem, no_word, word, find_arg-Finds, terminate_arg-Cuts}
use minlinux.Command.Words.{Line, words, lead, behind, words-behind}
use minlinux.Command.Spawn.{busybox}
use minlinux.Command.Dispatch.{
  Builtin, time, ls, cat, env, exit, usage, memrun, builtins, call_builtin, try_builtins,
  process_command,
}

-- The names of the commands, as the table is meant to list them.
abbrev pub name_of : Builtin → Text
name_of time = codes "time"
name_of ls = codes "ls"
name_of cat = codes "cat"
name_of env = codes "env"
name_of exit = codes "exit"
name_of usage = codes "usage"
name_of memrun = codes "memrun"

-- The name is a string: it has no byte 0.
abbrev IsName : Text → Type 0
IsName = All (λ c. c ≢ 0)

name_text : (name : Text) → IsName name → HasText (name ++ (0 ∷ [])) 0 name
name_text name n = HasText_front name [] n

-- The first two letters as a number, which tells the names apart.
abbrev pub key : Text → ℕ
key [] = 0
key (x ∷ []) = x
key (x ∷ y ∷ s) = x * 256 + y

name_of-IsName : (x : Builtin) → IsName (name_of x)
name_of-IsName time = ground arith
name_of-IsName _ = ground arith

module _ (k : Kernel) (b : Build) (fuel : ℕ) (envp : List Text) (c : Text) (prog next : ℕ)
    (w : World) (here : HasText w.buffer prog c) where
  tried : List (Text × Builtin) → Outcome Unit0
  tried table = try_builtins k b fuel envp table prog next w

  hit :
      (name : Text) (x : Builtin) (rest : List (Text × Builtin))
      → IsName name
      → c ≡ name
      → tried ((name, x) ∷ rest) ≡ call_builtin k b fuel envp x next w
  unfolding tried try_builtins
  hit name x rest n e =
      let (same, ran, means) =
        streq_lem w.buffer prog (name ++ (0 ∷ [])) 0 c name here (name_text name n) in
      rw (ran, means.1 e)

  miss :
      (name : Text) (x : Builtin) (rest : List (Text × Builtin))
      → IsName name
      → c ≢ name
      → tried ((name, x) ∷ rest) ≡ tried rest
  unfolding tried try_builtins
  miss name x rest n ne =
      let (same, ran, means) =
        streq_lem w.buffer prog (name ++ (0 ∷ [])) 0 c name here (name_text name n) in
      elim (Bool-cases same) [ inl yes' ↦ absurd (ne (means.0 yes')) | inr no' ↦ rw (ran, no') ]

  -- Names that the command is not called by are passed over.
  skip_over :
      (front back : List (Text × Builtin))
      → All (λ e. IsName e.0 × (c ≢ e.0)) front
      → tried (front ++ back) ≡ tried back
  skip_over [] back h = refl
  skip_over ((name, x) ∷ front) back ((n, ne), h) =
      miss name x (front ++ back) n ne ∙ skip_over front back h

  abbrev Passed : Builtin → Type 0
  Passed x = IsName (name_of x) × (c ≢ name_of x)

  none_fits : ((x : Builtin) → c ≢ name_of x) → tried builtins ≡ busybox k b prog next w
  unfolding tried try_builtins
  none_fits other =
      let passed : (x : Builtin) → Passed x = λ x. (name_of-IsName x, other x) in
      skip_over builtins [] (
        passed time,
        (passed ls, (passed cat, (passed env, (passed exit, (passed usage, (passed memrun, tt)))))),
      )

  entry : Builtin → Text × Builtin
  entry x = (name_of x, x)

  -- A name with another key than the command's is another name.
  other : (x y : Builtin) → c ≡ name_of x → key (name_of x) ≢ key (name_of y) → Passed y
  other x y e apart = (name_of-IsName y, λ e'. apart (ap key (sym e ∙ e')))

  -- The entries in front of a command's own are passed over.
  fits : (x : Builtin) → c ≡ name_of x → tried builtins ≡ call_builtin k b fuel envp x next w
  unfolding entry
  fits time e = hit (name_of time) time _ (name_of-IsName time) e
  fits ls e =
      skip_over (entry time ∷ []) _ (other ls time e (omega arith), tt)
      ∙ hit (name_of ls) ls _ (name_of-IsName ls) e
  fits cat e =
      skip_over (entry time ∷ entry ls ∷ []) _
        (other cat time e (omega arith), (other cat ls e (omega arith), tt))
      ∙ hit (name_of cat) cat _ (name_of-IsName cat) e
  fits env e =
      skip_over (entry time ∷ entry ls ∷ entry cat ∷ []) _ (
        other env time e (omega arith),
        (other env ls e (omega arith), (other env cat e (omega arith), tt)),
      )
      ∙ hit (name_of env) env _ (name_of-IsName env) e
  fits exit e =
      skip_over (entry time ∷ entry ls ∷ entry cat ∷ entry env ∷ []) _ (
        other exit time e (omega arith),
        (
          other exit ls e (omega arith),
          (other exit cat e (omega arith), (other exit env e (omega arith), tt)),
        ),
      )
      ∙ hit (name_of exit) exit _ (name_of-IsName exit) e
  fits usage e =
      skip_over (entry time ∷ entry ls ∷ entry cat ∷ entry env ∷ entry exit ∷ []) _ (
        other usage time e (omega arith),
        (
          other usage ls e (omega arith),
          (
            other usage cat e (omega arith),
            (other usage env e (omega arith), (other usage exit e (omega arith), tt)),
          ),
        ),
      )
      ∙ hit (name_of usage) usage _ (name_of-IsName usage) e
  fits memrun e =
      skip_over (entry time ∷ entry ls ∷ entry cat ∷ entry env ∷ entry exit ∷ entry usage ∷ []) _ (
        other memrun time e (omega arith),
        (
          other memrun ls e (omega arith),
          (
            other memrun cat e (omega arith),
            (
              other memrun env e (omega arith),
              (other memrun exit e (omega arith), (other memrun usage e (omega arith), tt)),
            ),
          ),
        ),
      )
      ∙ hit (name_of memrun) memrun _ (name_of-IsName memrun) e

-- What process_command does with the console line at `p`, which is the text `s`.
pub data Runs (k : Kernel) (b : Build) (fuel : ℕ) (envp : List Text) (p : ℕ) (s : Line) (w : World)
    : Type 0 where
  nothing :
      words s ≡ [] → process_command k b fuel envp p w ≡ returned tt w → Runs k b fuel envp p s w
  program :
      (prog next : ℕ) (rest : Line) (line : Memory)
      → words s ≡ lead rest ∷ words (behind rest)
      → HasText line prog (lead rest)
      → prog + length (lead rest) ≤ next
      → HasText line next (behind rest)
      → ((x : Builtin)
          → lead rest ≡ name_of x
          → process_command k b fuel envp p w
            ≡ call_builtin k b fuel envp x next (record w { buffer = line }))
      → (((x : Builtin) → lead rest ≢ name_of x)
          → process_command k b fuel envp p w ≡ busybox k b prog next (record w { buffer = line }))
      → Runs k b fuel envp p s w

module _ (k : Kernel) (b : Build) (fuel : ℕ) (envp : List Text) (p : ℕ) (s : Line) (w : World)
    (here : HasText w.buffer p s) where
  -- process_command does nothing with a line that has no word. Otherwise it ends the first word by
  -- a terminator and runs the built-in command of that name, with the rest of the line, or busybox
  -- if no built-in command has that name.
  pub process_command-Runs : Runs k b fuel envp p s w
  unfolding process_command tried
  process_command-Runs = elim (find_arg-Finds w.buffer p s here) [
    | no_word found none_there ↦ nothing none_there (rw found)
    | word prog rest found onward text some_letter ws ↦
        let cut = terminate_arg-Cuts w.buffer prog rest text in
        let w' = record w { buffer = cut.out } in
        program prog cut.next rest cut.out (ws ∙ ap (λ l. lead rest ∷ l) (sym (words-behind rest)))
          cut.word cut.onward cut.rest
          (λ x e.
            rw (found, cut.returns) (fits k b fuel envp (lead rest) prog cut.next w' cut.word x e))
          (λ other.
            rw (found, cut.returns)
              (none_fits k b fuel envp (lead rest) prog cut.next w' cut.word other))
  ]
