-- ===== src/Command/Args/Laws.antt =====
-- What fill_args puts into the vector.
use native.Mathlib.Decide.{dec_lt}
use minlinux.Base.{
  ℕ, zero, suc, ◌+◌, ◌≤◌, ◌<◌, ◌≡◌, refl, sym, ap, ◌∙◌, Option, none, some, List, [], ◌∷◌, arith,
  length, take, get_elem?, set, get_elem?-set_self, get_elem?-set_ne, get_elem?_inside, length-set,
}
use minlinux.Memory.{Memory, Run, ok}
use minlinux.Memory.Text.{HasText, HasText-same, HasText_terminator, HasText_behind}
use minlinux.Command.Scan.{find_arg, terminate_arg}
use minlinux.Command.Scan.Laws.{no_word, word, find_arg-Finds, Cuts, terminate_arg-Cuts}
use minlinux.Command.Words.{split, lead, behind, words-behind}
use minlinux.Command.Args.{Vector, Filled, fill_loop}

-- The cells from `start` on point to the strings `ws`.
abbrev pub HasArgs : Vector → Memory → ℕ → List (List ℕ) → Type 0
HasArgs args m start [] = Unit
HasArgs args m start (w ∷ ws) =
    ((q : ℕ) × (get_elem? args start ≡ some (some q)) × HasText m q w)
    × HasArgs args m (suc start) ws

-- `run` ends with the first `left` of `ws` at the cells from `base + i` on, the others and the line
-- in front of `p` as they were.
pub record Fills (left i base : ℕ) (args : Vector) (p : ℕ) (m : Memory) (ws : List (List ℕ))
    (run : Run Filled) : Type 0 where
  pub result : Filled
  pub returns : run ≡ ok result
  pub counted : result.count ≡ i + length (take left ws)
  pub filled : HasArgs result.args result.line (base + i) (take left ws)
  pub before : (a : ℕ) → a < base + i → get_elem? result.args a ≡ get_elem? args a
  pub same_size : length result.args ≡ length args
  pub line_before : (a : ℕ) → a < p → get_elem? result.line a ≡ get_elem? m a
  pub ends_kept : (a : ℕ) → get_elem? m a ≡ some 0 → get_elem? result.line a ≡ some 0

-- The loop has nothing to do.
Fills-done :
    (left i base : ℕ) (args : Vector) (p : ℕ) (m : Memory) (ws : List (List ℕ))
    → take left ws ≡ []
    → Fills left i base args p m ws (ok (record { count = i; args = args; line = m }))
Fills-done left i base args p m ws e = record {
  result = record { count = i; args = args; line = m };
  returns = refl;
  counted = rw e (omega arith);
  filled = rw e tt;
  before = λ a less. refl;
  same_size = refl;
  line_before = λ a less. refl;
  ends_kept = λ a e. e;
}

-- One argument, and the rest of the loop behind it.
Fills-cons :
    (left i base : ℕ) (args : Vector) (p q : ℕ) (m m' : Memory) (w : List ℕ) (ws : List (List ℕ))
    {run : Run Filled}
    → base + i < length args
    → HasText m' p w
    → ((a : ℕ) → a < p → get_elem? m' a ≡ get_elem? m a)
    → ((a : ℕ) → get_elem? m a ≡ some 0 → get_elem? m' a ≡ some 0)
    → p + length w < q
    → Fills left (i + 1) base (set args (base + i) (some p)) q m' ws run
    → Fills (suc left) i base args p m (w ∷ ws) run
Fills-cons left i base args p q m m' w ws inside text same ends behind' rest =
    let e : suc (base + i) ≡ base + (i + 1) = omega arith in
    record {
      result = rest.result;
      returns = rest.returns;
      counted = omega (arith, rest.counted);
      filled = (
        (
          p,
          rest.before (base + i) (omega arith) ∙ get_elem?-set_self args (base + i) (some p) inside,
          HasText-same m' rest.result.line p w (λ a low high. rest.line_before a (omega arith))
              text,
        ),
        rw e rest.filled,
      );
      before = λ a less.
          rest.before a (omega arith) ∙ get_elem?-set_ne args (base + i) a (some p) (omega arith);
      same_size = rest.same_size ∙ length-set args (base + i) (some p);
      line_before = λ a less. rest.line_before a (omega arith) ∙ same a less;
      ends_kept = λ a e. rest.ends_kept a (ends a e);
    }

-- The terminators of the line stay.
terminate_arg-ends :
    (m : Memory) (p : ℕ) (s : List ℕ) {run : Run (Memory × ℕ)} (cut : Cuts m p s run) (a : ℕ)
    → get_elem? m a ≡ some 0
    → get_elem? cut.out a ≡ some 0
terminate_arg-ends m p s cut a e = elim (dec_lt a (p + length (lead s))) [
  | yes before ↦ cut.outside a (omega arith) ∙ e
  | no not_before ↦ elim (dec_lt (p + length (lead s)) a) [
    | yes beyond ↦ cut.outside a (omega arith) ∙ e
    | no here ↦
        let same : a ≡ p + length (lead s) = omega arith in
        ap (λ n. get_elem? cut.out n) same ∙ HasText_terminator cut.out p (lead s) cut.word
  ]
]

fill_loop-suc :
    (left i base : ℕ) (args : Vector) (p : ℕ) (m m' : Memory) (temp : ℕ) (next : Option ℕ)
    → terminate_arg m p ≡ ok (m', temp)
    → base + i < length args
    → find_arg m' temp ≡ ok next
    → fill_loop (suc left) i base args (some p) m
      ≡ fill_loop left (i + 1) base (set args (base + i) (some p)) next m'
unfolding fill_loop
fill_loop-suc left i base args p m m' temp next cut inside found =
    let (_, there) = get_elem?_inside args (base + i) inside in rw (cut, there, found)

take-nil : (n : ℕ) → take {A = List ℕ} n [] ≡ []
take-nil zero = refl
take-nil (suc n) = refl

fill_loop-none :
    (left i base : ℕ) (args : Vector) (m : Memory)
    → fill_loop left i base args none m ≡ ok (record { count = i; args = args; line = m })
unfolding fill_loop
fill_loop-none zero i base args m = refl
fill_loop-none (suc left) i base args m = refl

-- The loop, begun at a place of the line, makes arguments of the letters there, which may be none,
-- and of the words behind them, as many as there is room for.
pub fill_loop-Fills :
    (left i base : ℕ) (args : Vector) (p : ℕ) (m : Memory) (s : List ℕ)
    → HasText m p s
    → base + i + length (take left (lead s ∷ (split s).1)) ≤ length args
    → Fills left i base args p m (lead s ∷ (split s).1) (fill_loop left i base args (some p) m)
fill_loop-Fills zero i base args p m s h fits =
    unfold fill_loop in Fills-done 0 i base args p m (lead s ∷ (split s).1) refl
fill_loop-Fills (suc left) i base args p m s h fits =
    let cut = terminate_arg-Cuts m p s h in
    let inside : base + i < length args = omega arith in
    let args' = set args (base + i) (some p) in
    let before_word = λ (a : ℕ) (less : a < p). cut.outside a (omega arith) in
    let ends = terminate_arg-ends m p s cut in
    let behind_words = words-behind s in
    elim (find_arg-Finds cut.out cut.next (behind s) cut.rest) [
      | no_word found none_left ↦
          let nil : (split s).1 ≡ [] = sym behind_words ∙ none_left in
          rw
            (fill_loop-suc left i base args p m cut.out cut.next none cut.returns inside found, nil)
            (Fills-cons left i base args p (suc (p + length (lead s))) m cut.out (lead s) [] inside
              cut.word before_word ends (omega arith)
              (rw fill_loop-none (Fills-done left (i + 1) base args' _ cut.out [] (take-nil left))))
      | word q rest found onward text some_letter ws ↦
          let tail : (split s).1 ≡ lead rest ∷ (split rest).1 = sym behind_words ∙ ws in
          let apart : p + length (lead s) < q =
            HasText_behind cut.out (p + length (lead s)) q rest
              (HasText_terminator cut.out p (lead s) cut.word) (omega (arith, cut.onward)) text
              (λ none_left. some_letter (ap lead none_left)) in
          rw
            (
              fill_loop-suc left i base args p m cut.out cut.next (some q) cut.returns inside found,
              tail,
            )
            (Fills-cons left i base args p q m cut.out (lead s) (lead rest ∷ (split rest).1) inside
              cut.word before_word ends apart
              (fill_loop-Fills left (i + 1) base args' q cut.out rest text
                (rw length-set (omega (arith, fits, ap (λ l. length (take left l)) tail)))))
    ]
