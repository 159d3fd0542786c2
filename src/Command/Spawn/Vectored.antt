-- ===== src/Command/Spawn/Vectored.antt =====
-- init/command.c: the vector of arguments that the child of memrun fills.
use minlinux.Base.{
  ℕ, suc, ◌+◌, ◌-◌, ◌≤◌, ◌<◌, ◌≡◌, ap, ◌∙◌, Bool, false, none, some, List, ◌∷◌, arith, length,
  get_elem?, set, replicate, get_elem?-set_self, length-set, length-replicate,
}
use minlinux.Memory.{Memory, Run, ok}
use minlinux.Memory.Text.{HasText, HasText_kept, HasText_terminator}
use minlinux.Command.Words.{Line, lead, split}
use minlinux.Command.Args.{Vector, Filled, fill_args, max_args}
use minlinux.Command.Args.Laws.{HasArgs}
use minlinux.Command.Args.Limits.{fill_args-Closes}
use minlinux.System.Wrappers.{Text}

-- `run` filled the vector with `argv` and closed it by NULL.
pub record Vectored (name : Text) (path : ℕ) (argv : List Text) (run : Run (Bool × Filled))
    : Type 0 where
  pub result : Filled
  pub returns : run ≡ ok (false, result)
  pub filled : HasArgs result.args result.line 0 argv
  pub named : HasText result.line path name
  pub closed : get_elem? result.args (0 + length argv) ≡ some none

module _ (arg_max path next : ℕ) (m : Memory) (name : Text) (s : Line) (named : HasText m path name)
    (apart : path + length name ≤ next) (text : HasText m next s)
    (few : 1 + length (lead s ∷ (split s).1) < max_args arg_max) where
  abbrev pub fresh : Vector
  fresh = replicate (max_args arg_max) none

  fresh_size : length fresh ≡ max_args arg_max
  fresh_size = length-replicate (max_args arg_max) none

  abbrev pub cells : Vector
  cells = set fresh 0 (some path)

  pub vectored :
      Vectored name path
        (name ∷ lead s ∷ (split s).1)
        (fill_args arg_max (max_args arg_max - 1) 1 cells (some next) m)
  vectored =
      let c =
        fill_args-Closes arg_max (max_args arg_max - 1) 1 cells next m s (omega (arith, few))
          (length-set fresh 0 (some path) ∙ fresh_size) text (omega (arith, few)) in
      let still : HasText c.result.line path name =
        HasText_kept m c.result.line path name (λ a less. c.line_before a (omega (arith, apart)))
          (c.ends_kept (path + length name) (HasText_terminator m path name named)) named in
      let e : 0 + suc (length (lead s ∷ (split s).1)) ≡ 1 + length (lead s ∷ (split s).1) =
        omega arith in
      record {
        result = c.result;
        returns = c.returns;
        filled = (
          (
            path,
            c.before 0 (omega arith)
                ∙ get_elem?-set_self fresh 0 (some path) (omega (arith, few, fresh_size)),
            still,
          ),
          c.filled,
        );
        named = still;
        closed = ap (λ n. get_elem? c.result.args n) e ∙ c.closed;
      }
