-- ===== src/Command/Args/Limits.antt =====
-- How fill_args ends: a vector closed by NULL, or a write behind the array.
use mathlib.Core.Path.{subst}
use minlinux.Base.{
  ne→==, ℕ, zero, suc, ◌+◌, ◌≤◌, ◌<◌, ◌≡◌, refl, ap, ◌∙◌, Bool, false, Option, none, some, List, [],
  ◌∷◌, arith, length, take, get_elem?, set, ◌==◌, get_elem?-set_self, get_elem?-set_ne,
  get_elem?_inside, get_elem?_outside,
}
use minlinux.Memory.{Memory, Run, ok, fault}
use minlinux.Memory.Text.{HasText}
use minlinux.Command.Words.{split, lead}
use minlinux.Command.Args.{Vector, Filled, fill_args, max_args}
use minlinux.Command.Args.Laws.{HasArgs, fill_loop-Fills}

take_all {ℓ} : {A : Type ℓ} (n : ℕ) (xs : List A) → length xs ≤ n → take n xs ≡ xs
take_all zero [] h = refl
take_all zero (x ∷ xs) h = absurd (omega arith)
take_all (suc n) [] h = refl
take_all (suc n) (x ∷ xs) h = ap (λ r. x ∷ r) (take_all n xs (omega arith))

length-take {ℓ} : {A : Type ℓ} (n : ℕ) (xs : List A) → n ≤ length xs → length (take n xs) ≡ n
length-take zero xs h = refl
length-take (suc n) [] h = absurd (omega arith)
length-take (suc n) (x ∷ xs) h = ap suc (length-take n xs (omega arith))

HasArgs-set :
    (args : Vector) (m : Memory) (start at : ℕ) (v : Option ℕ) (ws : List (List ℕ))
    → start + length ws ≤ at
    → HasArgs args m start ws
    → HasArgs (set args at v) m start ws
HasArgs-set args m start at v [] above h = tt
HasArgs-set args m start at v (w ∷ ws) above ((q, cell, text), h) = (
  (q, get_elem?-set_ne args at start v (omega arith) ∙ cell, text),
  HasArgs-set args m (suc start) at v ws (omega arith) h,
)

-- `run` closes the vector of the arguments `ws` by NULL, and leaves the line in front of `p` and
-- its terminators as they were.
pub record Closes (base : ℕ) (args : Vector) (p : ℕ) (m : Memory) (ws : List (List ℕ))
    (run : Run (Bool × Filled)) : Type 0 where
  pub result : Filled
  pub returns : run ≡ ok (false, result)
  pub filled : HasArgs result.args result.line base ws
  pub closed : get_elem? result.args (base + length ws) ≡ some none
  pub before : (a : ℕ) → a < base → get_elem? result.args a ≡ get_elem? args a
  pub line_before : (a : ℕ) → a < p → get_elem? result.line a ≡ get_elem? m a
  pub ends_kept : (a : ℕ) → get_elem? m a ≡ some 0 → get_elem? result.line a ≡ some 0

-- fill_args, begun inside a line, with room for more arguments than the line has from there on:
-- the letters at that place, which may be none, and each of the words behind become arguments, in
-- order, NULL follows them, the cells and the bytes of the line in front are as they were, and so
-- are the terminators of the line. The array has MAX_ARGS cells.
pub fill_args-Closes :
    (arg_max maxargs base : ℕ) (args : Vector) (p : ℕ) (m : Memory) (s : List ℕ)
    → base + maxargs ≡ max_args arg_max
    → length args ≡ max_args arg_max
    → HasText m p s
    → length (lead s ∷ (split s).1) < maxargs
    → Closes base args p m (lead s ∷ (split s).1) (fill_args arg_max maxargs base args (some p) m)
unfolding fill_args
fill_args-Closes arg_max maxargs base args p m s whole size h few =
    let ws = lead s ∷ (split s).1 in
    let all : take maxargs ws ≡ ws = take_all maxargs ws (omega arith) in
    let e : base + 0 ≡ base = omega arith in
    let f =
      fill_loop-Fills maxargs 0 base args p m s h
        (omega (arith, whole, size, few, ap (λ l. length l) all)) in
    let filled =
      subst (λ b. HasArgs f.result.args f.result.line b ws) e
        (subst (λ l. HasArgs f.result.args f.result.line (base + 0) l) all f.filled) in
    let count : f.result.count ≡ length ws = f.counted ∙ ap (λ l. 0 + length l) all ∙ omega arith in
    let inside : base + length ws < length f.result.args =
      omega (arith, f.same_size, few, whole, size) in
    let (_, there) = get_elem?_inside f.result.args (base + length ws) inside in
    let short : (length ws == max_args arg_max) ≡ false =
      ne→== _ _ (λ same. omega (arith, few, whole, same)) in
    record {
      result = record f.result { args = set f.result.args (base + length ws) none };
      returns = rw (f.returns, count, short, there);
      filled =
          HasArgs-set f.result.args f.result.line base (base + length ws) none ws (omega arith)
            filled;
      closed = get_elem?-set_self f.result.args (base + length ws) none inside;
      before = λ a less.
          get_elem?-set_ne f.result.args (base + length ws) a none (omega arith)
          ∙ f.before a (omega arith);
      line_before = f.line_before;
      ends_kept = f.ends_kept;
    }

-- With as many arguments in the line as `maxargs` or more, where `args` is not the start of its
-- array of MAX_ARGS cells but lies `base` cells behind it, fill_args stores the closing NULL behind
-- the end of the array.
pub fill_args_overflow :
    (arg_max maxargs base : ℕ) (args : Vector) (p : ℕ) (m : Memory) (s : List ℕ)
    → 0 < base
    → base + maxargs ≡ max_args arg_max
    → length args ≡ max_args arg_max
    → HasText m p s
    → maxargs ≤ length (lead s ∷ (split s).1)
    → fill_args arg_max maxargs base args (some p) m ≡ fault
unfolding fill_args
fill_args_overflow arg_max maxargs base args p m s inner whole size h many =
    let ws = lead s ∷ (split s).1 in
    let most : length (take maxargs ws) ≡ maxargs = length-take maxargs ws many in
    let f = fill_loop-Fills maxargs 0 base args p m s h (omega (arith, whole, size, most)) in
    let count : f.result.count ≡ maxargs = omega (arith, f.counted, most) in
    let missing =
      get_elem?_outside f.result.args (base + maxargs) (omega (arith, f.same_size, whole, size)) in
    let short : (maxargs == max_args arg_max) ≡ false =
      ne→== _ _ (λ same. omega (arith, whole, inner, same)) in
    rw (f.returns, count, short, missing)
