-- ===== src/Command/Words.antt =====
-- A command line as words between blanks, apart from the code that finds them.
use minlinux.Base.{ℕ, ◌≡◌, refl, List, [], ◌∷◌, if◌then◌else◌, Bool-cases, inl, inr, true, false}
use minlinux.Command.Scan.{is_blank}

abbrev pub Line : Type 0
Line = List ℕ

-- A word in front of others, if it has a letter.
abbrev pub push_word : Line → List Line → List Line
push_word [] ws = ws
push_word (c ∷ w) ws = (c ∷ w) ∷ ws

-- The letters up to the first blank, and the words behind.
abbrev pub split : Line → Line × List Line
split [] = ([], [])
split (c ∷ s) = let (w, ws) = split s in if is_blank c then ([], push_word w ws) else (c ∷ w, ws)

abbrev pub words : Line → List Line
words s = let (w, ws) = split s in push_word w ws

-- The letters up to the first blank, which may be none.
abbrev pub lead : Line → Line
lead s = (split s).0

-- What stands behind the first blank.
abbrev pub behind : Line → Line
behind [] = []
behind (c ∷ s) = if is_blank c then s else behind s

pub words-behind : (s : Line) → words (behind s) ≡ (split s).1
words-behind [] = refl
words-behind (c ∷ s) = elim (Bool-cases (is_blank c)) [
  | inl e ↦ rw e
  | inr e ↦ rw e (words-behind s)
]

pub lead-blank : (c : ℕ) (s : Line) → is_blank c ≡ true → lead (c ∷ s) ≡ []
lead-blank c s e = rw (lead, e)

pub lead-letter : (c : ℕ) (s : Line) → is_blank c ≡ false → lead (c ∷ s) ≡ c ∷ lead s
lead-letter c s e = rw (lead, e)

pub words-letter :
    (c : ℕ) (s : Line) → is_blank c ≡ false → words (c ∷ s) ≡ lead (c ∷ s) ∷ (split (c ∷ s)).1
words-letter c s e = rw (lead, e)
