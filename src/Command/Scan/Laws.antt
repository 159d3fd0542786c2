-- ===== src/Command/Scan/Laws.antt =====
-- What find_arg, terminate_arg and streq do with a string in memory.
use minlinux.Base.{
  ℕ, zero, suc, ◌+◌, ◌≤◌, ◌<◌, ◌≡◌, ◌≢◌, ◌↔◌, inl, inr, refl, sym, ap, ap₂, ◌∙◌, Bool, true, false,
  Option, none, some, List, [], ◌∷◌, arith, length, get_elem?, set, ◌==◌, Bool-cases,
  get_elem?-set_ne, length-set,
}
use minlinux.Memory.{Memory, Run, ok}
use minlinux.Memory.Text.{HasText, HasText_end, HasText-set}
use minlinux.Command.Scan.{
  is_blank, find_arg_loop, find_arg, arg_end_loop, terminate_arg, streq_loop, streq,
}
use minlinux.Command.Words.{split, words, lead, behind, lead-blank, lead-letter, words-letter}
use minlinux.Command.Scan.Edge.{at_end, at_blank, edge, HasText-lead, HasText-cut}

-- `run` found the first word of the text `s` at `p`, or that there is none.
pub data Finds (m : Memory) (p : ℕ) (s : List ℕ) (run : Run (Option ℕ)) : Type 0 where
  no_word : run ≡ ok none → words s ≡ [] → Finds m p s run
  word :
      (q : ℕ) (rest : List ℕ)
      → run ≡ ok (some q)
      → p ≤ q
      → HasText m q rest
      → lead rest ≢ []
      → words s ≡ lead rest ∷ (split rest).1
      → Finds m p s run

Finds-later :
    (m : Memory) (p c : ℕ) (s : List ℕ) (run run' : Run (Option ℕ))
    → is_blank c ≡ true
    → run' ≡ run
    → Finds m (p + 1) s run
    → Finds m p (c ∷ s) run'
Finds-later m p c s run run' blank same (no_word e w) = no_word (same ∙ e) (rw blank w)
Finds-later m p c s run run' blank same (word q rest e le text some_letter w) =
    word q rest (same ∙ e) (omega arith) text some_letter (rw blank w)

find_arg_loop-Finds :
    (fuel : ℕ) (m : Memory) (p : ℕ) (s : List ℕ)
    → HasText m p s
    → length s < fuel
    → Finds m p s (find_arg_loop fuel m p)
unfolding find_arg_loop
find_arg_loop-Finds zero m p s h enough = absurd (omega arith)
find_arg_loop-Finds (suc fuel) m p [] h enough = no_word (rw h) refl
find_arg_loop-Finds (suc fuel) m p (c ∷ s) (read, letter, h) enough =
    let step : suc p ≡ p + 1 = omega arith in
    elim (Bool-cases (is_blank c)) [
      | inl e ↦
          Finds-later m p c s (find_arg_loop fuel m (p + 1)) _ e (rw (read, e))
            (find_arg_loop-Finds fuel m (p + 1) s (rw step at h) (omega arith))
      | inr e ↦
          let nz : (c == 0) ≡ false = ground arith in
          word p (c ∷ s) (rw (read, e, nz)) (omega arith) (read, letter, h)
            (rw (lead-letter c s e) (cc)) (words-letter c s e)
    ]

-- find_arg gives the place of the first word, with the text from there on, or NULL if the line has
-- no word.
pub find_arg-Finds : (m : Memory) (p : ℕ) (s : List ℕ) → HasText m p s → Finds m p s (find_arg m p)
unfolding find_arg
find_arg-Finds m p s h =
    find_arg_loop-Finds (suc (length m)) m p s h (omega (arith, HasText_end m p s h))

arg_end_loop_lem :
    (fuel : ℕ) (m : Memory) (p : ℕ) (s : List ℕ)
    → HasText m p s
    → length s < fuel
    → arg_end_loop fuel m p ≡ ok (p + length (lead s))
unfolding arg_end_loop
arg_end_loop_lem zero m p s h enough = absurd (omega arith)
arg_end_loop_lem (suc fuel) m p [] h enough = rw h (ap ok (omega arith))
arg_end_loop_lem (suc fuel) m p (c ∷ s) (read, letter, h) enough =
    let step : suc p ≡ p + 1 = omega arith in
    elim (Bool-cases (is_blank c)) [
      | inl e ↦ rw (read, e) (ap ok (omega (arith, ap length (lead-blank c s e))))
      | inr e ↦
          let nz : (c == 0) ≡ false = ground arith in
          rw (read, e, nz)
            (arg_end_loop_lem fuel m (p + 1) s (rw step at h) (omega arith)
              ∙ ap ok (omega (arith, ap length (lead-letter c s e))))
    ]

-- `run` marked the end of the letters at `p`: they are a string of their own, the rest of the line
-- stands at `next`, and no byte but the one behind the letters changed.
pub record Cuts (m : Memory) (p : ℕ) (s : List ℕ) (run : Run (Memory × ℕ)) : Type 0 where
  pub out : Memory
  pub next : ℕ
  pub returns : run ≡ ok (out, next)
  pub word : HasText out p (lead s)
  pub rest : HasText out next (behind s)
  pub onward : p + length (lead s) ≤ next
  pub outside : (a : ℕ) → a ≢ p + length (lead s) → get_elem? out a ≡ get_elem? m a
  pub same_size : length out ≡ length m

-- terminate_arg ends the word at `p` by a terminator and gives the rest of the line.
pub terminate_arg-Cuts :
    (m : Memory) (p : ℕ) (s : List ℕ) → HasText m p s → Cuts m p s (terminate_arg m p)
unfolding terminate_arg
terminate_arg-Cuts m p s h =
    let at = p + length (lead s) in
    let found = arg_end_loop_lem (suc (length m)) m p s h (omega (arith, HasText_end m p s h)) in
    elim (edge m p s h) [
      | at_end read none_left ↦ record {
        out = m;
        next = at;
        returns = rw (found, read);
        word = HasText-lead m p s h read;
        rest = rw none_left read;
        onward = omega arith;
        outside = λ a away. refl;
        same_size = refl;
      }
      | at_blank c ne read rest ↦
          let nz : (c == 0) ≡ false = ground arith in
          record {
            out = set m at 0;
            next = at + 1;
            returns = rw (found, read, nz);
            word = HasText-cut m p at s h refl;
            rest = HasText-set m at 0 (at + 1) (behind s) (inl (omega arith)) rest;
            onward = omega arith;
            outside = λ a away. get_elem?-set_ne m at a 0 (λ e. away (sym e));
            same_size = length-set m at 0;
          }
    ]

-- Two strings are compared by their bytes up to the first difference or the terminator.
streq_loop_lem :
    (fuel : ℕ) (m1 : Memory) (p : ℕ) (m2 : Memory) (q : ℕ) (s t : List ℕ)
    → HasText m1 p s
    → HasText m2 q t
    → length s < fuel
    → (b : Bool) × (streq_loop fuel m1 p m2 q ≡ ok b) × ((b ≡ true) ↔ (s ≡ t))
unfolding streq_loop
streq_loop_lem zero m1 p m2 q s t hs ht enough = absurd (omega arith)
streq_loop_lem (suc fuel) m1 p m2 q [] [] hs ht enough =
    (true, rw (hs, ht), ((λ _. refl), (λ _. refl)))
streq_loop_lem (suc fuel) m1 p m2 q [] (d ∷ t) hs (read, letter, ht) enough =
    let ne : (0 == d) ≡ false = ground arith in (false, rw (hs, read, ne), ((λ e. cc), (λ e. cc)))
streq_loop_lem (suc fuel) m1 p m2 q (c ∷ s) [] (read, letter, hs) ht enough =
    let ne : (c == 0) ≡ false = ground arith in (false, rw (read, ht, ne), ((λ e. cc), (λ e. cc)))
streq_loop_lem (suc fuel) m1 p m2 q (c ∷ s) (d ∷ t) (rc, lc, hs) (rd, ld, ht) enough =
    let e1 : suc p ≡ p + 1 = omega arith in
    let e2 : suc q ≡ q + 1 = omega arith in
    let (b, ran, means) =
      streq_loop_lem fuel m1 (p + 1) m2 (q + 1) s t (rw e1 at hs) (rw e2 at ht) (omega arith) in
    let nz : (c == 0) ≡ false = ground arith in
    elim (Bool-cases (c == d)) [
      | inl same ↦
          let e : c ≡ d = ground arith in
          (b, rw (rc, rd, same, nz) ran, ((λ x. ap₂ ◌∷◌ e (means.0 x)), (λ x. means.1 (cc))))
      | inr differ ↦
          (false, rw (rc, rd, differ), ((λ x. cc), (λ x. let e : c ≡ d = cc in ground arith)))
    ]

-- streq of two strings returns, and says true exactly when they are the same string.
pub streq_lem :
    (m1 : Memory) (p : ℕ) (m2 : Memory) (q : ℕ) (s t : List ℕ)
    → HasText m1 p s
    → HasText m2 q t
    → (b : Bool) × (streq m1 p m2 q ≡ ok b) × ((b ≡ true) ↔ (s ≡ t))
unfolding streq
streq_lem m1 p m2 q s t hs ht =
    streq_loop_lem (suc (length m1)) m1 p m2 q s t hs ht (omega (arith, HasText_end m1 p s hs))
