-- ===== src/Command/Spawn/Prepared.antt =====
-- init/command.c: the vector of arguments that the child of busybox fills, and how it is read.
use minlinux.Base.{
  ℕ, zero, suc, ◌+◌, ◌-◌, ◌≤◌, ◌<◌, ◌≡◌, ◌≢◌, refl, ap, ◌∙◌, Bool, false, Option, none, some, List,
  [], ◌∷◌, arith, length, get_elem?, set, drop, replicate, get_elem?-set_self, get_elem?-set_ne,
  length-set, length-replicate, get_elem?_inside, ne→==, ◌==◌,
}
use minlinux.Memory.{Memory, Run, ok}
use minlinux.Memory.Text.{HasText, HasText-same, HasText_terminator, HasText_behind}
use minlinux.Util.Text.Laws.{strlen_lem}
use minlinux.Command.Words.{Line, words, lead, split}
use minlinux.Command.Scan.{find_arg}
use minlinux.Command.Scan.Laws.{no_word, word, find_arg-Finds}
use minlinux.Command.Args.{Vector, Filled, fill_args, max_args}
use minlinux.Command.Args.Laws.{HasArgs}
use minlinux.Command.Args.Limits.{fill_args-Closes}
use minlinux.Command.Builtins.{text_at}
use minlinux.Command.Spawn.{texts_of}
use minlinux.System.{World, returned}
use minlinux.System.Wrappers.{Text}
use minlinux.System.Print.Laws.{take_text}

pub text_at_lem : (w : World) (p : ℕ) (s : Text) → HasText w.buffer p s → text_at p w ≡ returned s w
text_at_lem w p s h =
    let (counts, _) = strlen_lem w.buffer p in
    rw ((counts (length s)).1 (s, h, refl), take_text w.buffer p s h) refl

drop_cell :
    {A : Type 0} (xs : List A) (i : ℕ) (x : A)
    → get_elem? xs i ≡ some x
    → drop i xs ≡ x ∷ drop (suc i) xs
drop_cell [] i x h = absurd (cc)
drop_cell (y ∷ xs) zero x h = cc
drop_cell (y ∷ xs) (suc i) x h = drop_cell xs i x h

-- A vector closed by NULL, read back.
pub texts_of_lem :
    (w : World) (cells : Vector) (start : ℕ) (ws : List Text)
    → HasArgs cells w.buffer start ws
    → get_elem? cells (start + length ws) ≡ some none
    → texts_of (drop start cells) w ≡ returned ws w
unfolding texts_of
texts_of_lem w cells start [] h closed =
    let e : start + 0 ≡ start = omega arith in rw (drop_cell cells start none (rw e at closed)) refl
texts_of_lem w cells start (t ∷ ws) ((q, here, text), h) closed =
    let e : start + suc (length ws) ≡ suc start + length ws = omega arith in
    rw
      (
        drop_cell cells start (some q) here,
        text_at_lem w q t text,
        texts_of_lem w cells (suc start) ws h (rw e at closed),
      )
      refl

-- `run` filled the vector: behind its first cell stand the command's name and the words `ws`, and
-- then NULL.
pub record Prepared (name : Text) (ws : List Text) (run : Run (Bool × Filled)) : Type 0 where
  pub result : Filled
  pub returns : run ≡ ok (false, result)
  pub filled : HasArgs result.args result.line 1 (name ∷ ws)
  pub closed : get_elem? result.args (2 + length ws) ≡ some none

-- The line `m` has the name of the command and behind it the text `s`.
module _ (arg_max command next : ℕ) (m : Memory) (name : Text) (s : Line)
    (named : HasText m command name) (apart : command + length name ≤ next)
    (text : HasText m next s) (few : 2 + length (words s) < max_args arg_max) where
  abbrev pub fresh : Vector
  fresh = replicate (max_args arg_max) none

  fresh_size : length fresh ≡ max_args arg_max
  fresh_size = length-replicate (max_args arg_max) none

  abbrev pub cells : Vector
  cells = set fresh 1 (some command)

  abbrev pub filling : Option ℕ → Run (Bool × Filled)
  filling next' = fill_args arg_max (max_args arg_max - 2) 2 cells next' m

  cells_size : length cells ≡ max_args arg_max
  cells_size = length-set fresh 1 (some command) ∙ fresh_size

  named_cell : get_elem? cells 1 ≡ some (some command)
  named_cell = get_elem?-set_self fresh 1 (some command) (omega (arith, few, fresh_size))

  filled_none : words s ≡ [] → Prepared name (words s) (filling none)
  unfolding fill_args
  filled_none none_left =
      let inside : 2 < length cells = omega (arith, cells_size) in
      let (_, there) = get_elem?_inside cells 2 inside in
      let short : (0 == max_args arg_max) ≡ false = ne→== _ _ (λ same. omega (arith, few, same)) in
      record {
        result = record { count = 0; args = set cells 2 none; line = m };
        returns = rw (short, there) refl;
        filled = (
          (command, get_elem?-set_ne cells 2 1 none (omega arith) ∙ named_cell, named),
          rw none_left tt,
        );
        closed = rw none_left (get_elem?-set_self cells 2 none inside);
      }

  filled_some :
      (q : ℕ) (rest : Line)
      → next ≤ q
      → HasText m q rest
      → lead rest ≢ []
      → words s ≡ lead rest ∷ (split rest).1
      → Prepared name (words s) (filling (some q))
  filled_some q rest onward there some_letter ws =
      let behind_name : command + length name < q =
        HasText_behind m (command + length name) q rest (HasText_terminator m command name named)
          (omega (arith, apart, onward)) there (λ none_left. some_letter (ap lead none_left)) in
      let c =
        fill_args-Closes arg_max (max_args arg_max - 2) 2 cells q m rest (omega (arith, few))
          cells_size there (omega (arith, few, ap (λ l. length l) ws)) in
      rw ws (record {
        result = c.result;
        returns = c.returns;
        filled = (
          (
            command,
            c.before 1 (omega arith) ∙ named_cell,
            HasText-same m c.result.line command name
                (λ a low high. c.line_before a (omega (arith, behind_name))) named,
          ),
          c.filled,
        );
        closed = c.closed;
      })

  -- find_arg and fill_args of the child.
  pub prepared :
      (next' : Option ℕ) × (find_arg m next ≡ ok next') × Prepared name (words s) (filling next')
  prepared = elim (find_arg-Finds m next s text) [
    | no_word found none_left ↦ (none, found, filled_none none_left)
    | word q rest found onward there some_letter ws ↦
        (some q, found, filled_some q rest onward there some_letter ws)
  ]
