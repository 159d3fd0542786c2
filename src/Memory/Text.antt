-- ===== src/Memory/Text.antt =====
-- Strings in memory: bytes other than 0 up to a 0.
use native.Mathlib.Decide.{dec_lt}
use minlinux.Base.{
  zero, ap, get_elem?_inside, Bool-cases, inl, inr, true, false, ==_iff, ◌==◌, All, ◌++◌,
  lt-length_of_some, get_elem?-set_ne, set, ◌⊎◌, ◌∙◌, ◌≤◌, refl, ℕ, suc, ◌+◌, ◌<◌, ◌≡◌, ◌≢◌, List,
  [], ◌∷◌, some, arith, length, get_elem?,
}
use minlinux.Memory.{Memory}

-- The string `s` stands at `p`, with its terminator.
abbrev pub HasText : Memory → ℕ → List ℕ → Type 0
HasText m p [] = get_elem? m p ≡ some 0
HasText m p (c ∷ s) = (get_elem? m p ≡ some c) × (c ≢ 0) × HasText m (suc p) s

pub HasText_end : (m : Memory) (p : ℕ) (s : List ℕ) → HasText m p s → p + length s < length m
HasText_end m p [] h = omega (arith, lt-length_of_some m p h)
HasText_end m p (c ∷ s) h = omega (arith, HasText_end m (suc p) s h.2)

-- The bytes `xs` stand at `p`.
abbrev pub HasBytes : Memory → ℕ → List ℕ → Type 0
HasBytes m p [] = Unit
HasBytes m p (x ∷ xs) = (get_elem? m p ≡ some x) × (x < 256) × HasBytes m (suc p) xs

-- A write outside a string leaves the string.
pub HasText-set :
    (m : Memory) (a v p : ℕ) (s : List ℕ)
    → (a < p) ⊎ (p + length s < a)
    → HasText m p s
    → HasText (set m a v) p s
HasText-set m a v p [] away h = get_elem?-set_ne m a p v (omega arith) ∙ h
HasText-set m a v p (c ∷ s) away (read, some_char, h) = (
  get_elem?-set_ne m a p v (omega arith) ∙ read,
  some_char,
  HasText-set m a v (suc p) s (ground arith) h,
)

-- A string stays where the memory stays the same.
pub HasText-same :
    (m m' : Memory) (p : ℕ) (s : List ℕ)
    → ((a : ℕ) → p ≤ a → a ≤ p + length s → get_elem? m' a ≡ get_elem? m a)
    → HasText m p s
    → HasText m' p s
HasText-same m m' p [] same h = same p (omega arith) (omega arith) ∙ h
HasText-same m m' p (c ∷ s) same (read, letter, h) = (
  same p (omega arith) (omega arith) ∙ read,
  letter,
  HasText-same m m' (suc p) s (λ a low high. same a (omega arith) (omega arith)) h,
)

pub HasText_terminator :
    (m : Memory) (p : ℕ) (s : List ℕ) → HasText m p s → get_elem? m (p + length s) ≡ some 0
HasText_terminator m p [] h = let e : p + 0 ≡ p = omega arith in rw e h
HasText_terminator m p (c ∷ s) h =
    let e : p + suc (length s) ≡ suc p + length s = omega arith in
    rw e (HasText_terminator m (suc p) s h.2)

-- A string with a byte begins behind any terminator that is not behind its start.
pub HasText_behind :
    (m : Memory) (z q : ℕ) (s : List ℕ)
    → get_elem? m z ≡ some 0
    → z ≤ q
    → HasText m q s
    → s ≢ []
    → z < q
HasText_behind m z q [] e le h ne = absurd (ne refl)
HasText_behind m z q (c ∷ s) e le (read, letter, h) ne = elim (dec_lt z q) [
  | yes less ↦ less
  | no beyond ↦ let same : z ≡ q = omega arith in absurd (letter (cc same))
]

-- A string at the front of the memory.
pub HasText-cons :
    (x : ℕ) (m : Memory) (p : ℕ) (s : List ℕ) → HasText m p s → HasText (x ∷ m) (suc p) s
HasText-cons x m p [] h = h
HasText-cons x m p (c ∷ s) (read, letter, h) = (read, letter, HasText-cons x m (suc p) s h)

pub HasText_front : (s rest : List ℕ) → All (λ c. c ≢ 0) s → HasText (s ++ (0 ∷ rest)) 0 s
HasText_front [] rest h = refl
HasText_front (c ∷ s) rest (letter, h) =
    (refl, letter, HasText-cons c (s ++ (0 ∷ rest)) 0 s (HasText_front s rest h))

-- A string stays where its bytes stay and its end is still a terminator.
pub HasText_kept :
    (m m' : Memory) (p : ℕ) (s : List ℕ)
    → ((a : ℕ) → a < p + length s → get_elem? m' a ≡ get_elem? m a)
    → get_elem? m' (p + length s) ≡ some 0
    → HasText m p s
    → HasText m' p s
HasText_kept m m' p [] same ends h = let e : p + 0 ≡ p = omega arith in rw e at ends
HasText_kept m m' p (c ∷ s) same ends (read, letter, h) =
    let e : p + suc (length s) ≡ suc p + length s = omega arith in
    (
      same p (omega arith) ∙ read,
      letter,
      HasText_kept m m' (suc p) s (λ a less. same a (omega arith)) (rw e at ends) h,
    )

-- From any place in front of a terminator there is a string.
pub terminated :
    (d : ℕ) (m : Memory) (p : ℕ) → get_elem? m (p + d) ≡ some 0 → (s : List ℕ) × HasText m p s
terminated zero m p e = let here : p + 0 ≡ p = omega arith in ([], rw here at e)
terminated (suc d) m p e =
    let step : p + suc d ≡ suc p + d = omega arith in
    let inside = lt-length_of_some m (p + suc d) e in
    let (c, there) = get_elem?_inside m p (omega (arith, inside)) in
    let (s, h) = terminated d m (suc p) (rw step at e) in begins c there s h (Bool-cases (c == 0))
  where
    begins :
        (c : ℕ)
        → get_elem? m p ≡ some c
        → (s : List ℕ) → HasText m (suc p) s
        → ((c == 0) ≡ true) ⊎ ((c == 0) ≡ false)
        → (s : List ℕ) × HasText m p s
    begins c there s h (inl ended) = ([], there ∙ ap some ((==_iff c 0).0 ended))
    begins c there s h (inr letter) = (c ∷ s, (there, (λ e. ground arith), h))
