-- ===== src/Util/Decimal/Numeral.antt =====
-- Decimal notation, apart from the code that prints it.
use minlinux.Base.{
  ℕ, ◌+◌, ◌-◌, ◌*◌, ◌/◌, ◌%◌, ◌≤◌, ◌≡◌, ◌≢◌, ◌⊎◌, inl, inr, refl, List, [], ◌∷◌, ◌++◌, arith, All,
}
use minlinux.Base.Int.{ℤ, pos, negsuc}

abbrev pub IsDigit : ℕ → Type 0
IsDigit c = (b'0' ≤ c) × (c ≤ b'9')

-- The number that digits spell behind `acc`.
abbrev pub value : ℕ → List ℕ → ℕ
value acc [] = acc
value acc (c ∷ s) = value (acc * 10 + (c - b'0')) s

-- Not empty, and no 0 in front of other digits.
abbrev pub NoLeadingZero : List ℕ → Type 0
NoLeadingZero [] = ⊥
NoLeadingZero (c ∷ s) = (c ≢ b'0') ⊎ (s ≡ [])

-- `s` is the decimal notation of `n`.
pub record IsNumeral (n : ℕ) (s : List ℕ) : Type 0 where
  pub digits : All IsDigit s
  pub spells : value 0 s ≡ n
  pub shortest : NoLeadingZero s

-- The decimal notation of a signed number, with '-' in front of a negative one.
abbrev pub IsDecimal : ℤ → List ℕ → Type 0
IsDecimal (pos n) s = IsNumeral n s
IsDecimal (negsuc n) [] = ⊥
IsDecimal (negsuc n) (c ∷ s) = (c ≡ b'-') × IsNumeral (n + 1) s

value-append : (acc c : ℕ) (s : List ℕ) → value acc (s ++ (c ∷ [])) ≡ value acc s * 10 + (c - b'0')
value-append acc c [] = refl
value-append acc c (x ∷ s) = value-append (acc * 10 + (x - b'0')) c s

All-append : (c : ℕ) (s : List ℕ) → All IsDigit s → IsDigit c → All IsDigit (s ++ (c ∷ []))
All-append c [] hs hc = (hc, tt)
All-append c (x ∷ s) hs hc = (hs.0, All-append c s hs.1 hc)

-- A positive number's notation does not begin with 0, so a further digit may follow it.
NoLeadingZero-append :
    (c : ℕ) (s : List ℕ)
    → All IsDigit s
    → NoLeadingZero s
    → value 0 s ≢ 0
    → NoLeadingZero (s ++ (c ∷ []))
NoLeadingZero-append c [] hs h nz = absurd h
NoLeadingZero-append c (x ∷ s) hs (inl ne) nz = inl ne
NoLeadingZero-append c (x ∷ []) hs (inr e) nz = inl (omega arith)
NoLeadingZero-append c (x ∷ y ∷ s) hs (inr e) nz = absurd (cc)

pub IsNumeral-one : (n : ℕ) → n / 10 ≡ 0 → IsNumeral n ((b'0' + n % 10) ∷ [])
IsNumeral-one n h = record { digits = omega arith; spells = omega arith; shortest = inr refl }

-- The last digit behind the notation of the tenth part.
pub IsNumeral-snoc :
    (n : ℕ) (s : List ℕ)
    → n / 10 ≢ 0
    → IsNumeral (n / 10) s
    → IsNumeral n (s ++ ((b'0' + n % 10) ∷ []))
IsNumeral-snoc n s nz h = record {
  digits = All-append (b'0' + n % 10) s h.digits (omega arith);
  spells = omega (arith, value-append 0 (b'0' + n % 10) s, h.spells);
  shortest = NoLeadingZero-append (b'0' + n % 10) s h.digits h.shortest (omega (arith, h.spells));
}
