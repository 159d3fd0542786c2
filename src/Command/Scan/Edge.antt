-- ===== src/Command/Scan/Edge.antt =====
-- The end of a word of the command line, where terminate_arg of init/command.c stores a terminator.
use minlinux.Base.{
  ℕ, suc, ◌+◌, ◌≡◌, ◌≢◌, inl, inr, refl, ap, ◌∙◌, some, List, [], ◌∷◌, arith, length, get_elem?,
  set, Bool-cases, get_elem?-set_self, get_elem?-set_ne, lt-length_of_some,
}
use minlinux.Memory.{Memory}
use minlinux.Memory.Text.{HasText}
use minlinux.Command.Scan.{is_blank}
use minlinux.Command.Words.{lead, behind, lead-blank, lead-letter}

-- What stands behind the letters: the terminator, or a blank and the rest of the text.
pub data Edge (m : Memory) (p : ℕ) (s : List ℕ) : Type 0 where
  at_end : get_elem? m (p + length (lead s)) ≡ some 0 → behind s ≡ [] → Edge m p s
  at_blank :
      (c : ℕ)
      → c ≢ 0
      → get_elem? m (p + length (lead s)) ≡ some c
      → HasText m (p + length (lead s) + 1) (behind s)
      → Edge m p s

pub edge : (m : Memory) (p : ℕ) (s : List ℕ) → HasText m p s → Edge m p s
edge m p [] h = let e : p + 0 ≡ p = omega arith in at_end (rw e h) refl
edge m p (c ∷ s) (read, letter, h) = elim (Bool-cases (is_blank c)) [
  | inl e ↦
      let e' : p + 0 ≡ p = omega arith in
      let e'' : suc p ≡ p + 1 = omega arith in
      at_blank c letter (rw (lead-blank c s e, e') read)
        (rw (lead-blank c s e, e', behind, e) (rw e'' at h))
  | inr e ↦
      let e' : p + suc (length (lead s)) ≡ suc p + length (lead s) = omega arith in
      elim (edge m (suc p) s h) [
        | at_end read' none_left ↦ at_end (rw (lead-letter c s e, e') read') (rw e none_left)
        | at_blank d ne read' rest ↦
            at_blank d ne (rw (lead-letter c s e, e') read')
              (rw (lead-letter c s e, e', behind, e) rest)
      ]
]

pub HasText-lead :
    (m : Memory) (p : ℕ) (s : List ℕ)
    → HasText m p s
    → get_elem? m (p + length (lead s)) ≡ some 0
    → HasText m p (lead s)
HasText-lead m p [] h e = h
HasText-lead m p (c ∷ s) (read, letter, h) e = elim (Bool-cases (is_blank c)) [
  | inl b ↦
      let e' : p + 0 ≡ p = omega arith in rw (lead-blank c s b) (rw (lead-blank c s b, e') at e)
  | inr b ↦
      let e' : p + suc (length (lead s)) ≡ suc p + length (lead s) = omega arith in
      rw (lead-letter c s b)
        (read, letter, HasText-lead m (suc p) s h (rw (lead-letter c s b, e') at e))
]

pub HasText-cut :
    (m : Memory) (p at : ℕ) (s : List ℕ)
    → HasText m p s
    → at ≡ p + length (lead s)
    → HasText (set m at 0) p (lead s)
HasText-cut m p at [] h e =
    let e' : at ≡ p = omega arith in rw e' (get_elem?-set_self m p 0 (lt-length_of_some m p h))
HasText-cut m p at (c ∷ s) (read, letter, h) e = elim (Bool-cases (is_blank c)) [
  | inl b ↦
      let e' : at ≡ p = omega (arith, ap length (lead-blank c s b)) in
      rw (lead-blank c s b, e') (get_elem?-set_self m p 0 (lt-length_of_some m p read))
  | inr b ↦
      let e' : at ≡ suc p + length (lead s) = omega (arith, ap length (lead-letter c s b)) in
      rw (lead-letter c s b)
        (get_elem?-set_ne m at p 0 (omega arith) ∙ read, letter, HasText-cut m (suc p) at s h e')
]
