-- ===== src/Util/Decimal/Laws.antt =====
-- The strings that int_to_str and ltoa leave in their 21 bytes.
use native.Mathlib.Nat.{pow-suc}
use minlinux.Base.{
  ℕ, zero, suc, ◌+◌, ◌/◌, ◌%◌, ◌^◌, ◌≤◌, ◌<◌, ◌≡◌, ◌≢◌, inl, inr, refl, ◌∙◌, List, [], ◌∷◌, ◌++◌,
  append_assoc, append-nil, arith, length, length-append, set, get_elem?_inside, get_elem?-set_self,
  length-set, Bool-cases, ◌==◌,
}
use minlinux.Base.Int.{ℤ, pos, negsuc, IsInt64}
use minlinux.Memory.{Memory, Run, ok}
use minlinux.Memory.Text.{HasText, HasText-set}
use minlinux.Util.Decimal.{
  Cursor, put_back, Digits, all_out, digit_loop, ltoa, int_to_str, magnitude,
}
use minlinux.Util.Decimal.Numeral.{IsNumeral, IsNumeral-one, IsNumeral-snoc, IsDecimal}

-- The loop is left by its condition with room for a sign, and has put the notation of `n` in front
-- of the text `t` at `top`.
record Prints (n top : ℕ) (t : List ℕ) (size : ℕ) (run : Run Digits) : Type 0 where
  cursor : Cursor
  notation : List ℕ
  returns : run ≡ ok (all_out cursor)
  numeral : IsNumeral n notation
  text : HasText cursor.bytes cursor.next (notation ++ t)
  room : 0 < cursor.next
  measured : cursor.next + length notation ≡ top
  same_size : length cursor.bytes ≡ size

room_left : (at n : ℕ) → n < 10 ^ suc at → n / 10 ≢ 0 → 0 < at
room_left zero n small nz = absurd (nz (omega arith))
room_left (suc at) n small nz = omega arith

digit_loop-Prints :
    (m : Memory) (at n : ℕ) (t : List ℕ)
    → 0 < at
    → n < 10 ^ at
    → at < length m
    → HasText m (suc at) t
    → Prints n (suc at) t (length m) (digit_loop m (suc at) n)
unfolding digit_loop
digit_loop-Prints m zero n t room small fits h = absurd (omega arith)
digit_loop-Prints m (suc at) n t room small fits h =
    let (_, there) = get_elem?_inside m (suc at) fits in
    let d = b'0' + n % 10 in
    let text : HasText (set m (suc at) d) (suc at) (d ∷ t) = (
      get_elem?-set_self m (suc at) d fits,
      omega arith,
      HasText-set m (suc at) d (suc (suc at)) t (inl (omega arith)) h,
    ) in
    elim (Bool-cases (n / 10 == 0)) [
      | inl e ↦ record {
        cursor = record { bytes = set m (suc at) d; next = suc at };
        notation = d ∷ [];
        returns = rw there (ground arith);
        numeral = IsNumeral-one n (ground arith);
        text = text;
        room = omega arith;
        measured = omega arith;
        same_size = length-set m (suc at) d;
      }
      | inr e ↦
          let nz : n / 10 ≢ 0 = ground arith in
          let rest =
            digit_loop-Prints (set m (suc at) d) at (n / 10) (d ∷ t) (room_left at n small nz)
              (omega (arith, pow-suc 10 at)) (rw length-set (omega arith)) text in
          record {
            cursor = rest.cursor;
            notation = rest.notation ++ (d ∷ []);
            returns = rw there (ground (arith, rest.returns));
            numeral = IsNumeral-snoc n rest.notation nz rest.numeral;
            text = rw append_assoc rest.text;
            room = rest.room;
            measured = omega (arith, length-append rest.notation (d ∷ []), rest.measured);
            same_size = rest.same_size ∙ length-set m (suc at) d;
          }
    ]

-- The string of `run` is the decimal notation of `i`, it ends with its terminator in the last of
-- the 21 bytes, and every write was inside them.
pub record PrintsDecimal (i : ℤ) (run : Run Cursor) : Type 0 where
  pub cursor : Cursor
  pub notation : List ℕ
  pub returns : run ≡ ok cursor
  pub decimal : IsDecimal i notation
  pub text : HasText cursor.bytes cursor.next notation
  pub ends : cursor.next + length notation ≡ 20
  pub same_size : length cursor.bytes ≡ 21

magnitude-lt : (i : ℤ) → IsInt64 i → magnitude i < 10 ^ 19
magnitude-lt (pos n) h = omega arith
magnitude-lt (negsuc n) h = omega arith

-- One more byte in front of a text.
record PutsBack (top c : ℕ) (t : List ℕ) (size : ℕ) (run : Run Cursor) : Type 0 where
  cursor : Cursor
  returns : run ≡ ok cursor
  text : HasText cursor.bytes cursor.next (c ∷ t)
  moved : suc cursor.next ≡ top
  same_size : length cursor.bytes ≡ size

put_back-PutsBack :
    (m : Memory) (top c : ℕ) (t : List ℕ)
    → 0 < top
    → top ≤ length m
    → c ≢ 0
    → HasText m top t
    → PutsBack top c t (length m) (put_back m top c)
unfolding put_back
put_back-PutsBack m zero c t room fits some_char h = absurd (omega arith)
put_back-PutsBack m (suc at) c t room fits some_char h =
    let (_, there) = get_elem?_inside m at fits in
    record {
      cursor = record { bytes = set m at c; next = at };
      returns = rw there;
      text = (
        get_elem?-set_self m at c fits,
        some_char,
        HasText-set m at c (suc at) t (inl (omega arith)) h,
      );
      moved = refl;
      same_size = length-set m at c;
    }

-- The loop over a fresh buffer, once the terminator is in place.
loop-Prints :
    (i : ℤ) (buffer : Memory)
    → IsInt64 i
    → length buffer ≡ 21
    → Prints
        (magnitude i)
        20
        []
        (length (set buffer 20 0))
        (digit_loop (set buffer 20 0) 20 (magnitude i))
loop-Prints i buffer h size =
    digit_loop-Prints (set buffer 20 0) 19 (magnitude i) [] (omega arith) (magnitude-lt i h)
      (rw length-set (omega arith)) (get_elem?-set_self buffer 20 0 (omega arith))

ltoa-PrintsDecimal :
    (i : ℤ) (buffer : Memory) → IsInt64 i → length buffer ≡ 21 → PrintsDecimal i (ltoa i buffer)
unfolding ltoa put_back
ltoa-PrintsDecimal (pos n) buffer h size =
    let (_, there) = get_elem?_inside buffer 20 (omega arith) in
    let loop = loop-Prints (pos n) buffer h size in
    record {
      cursor = loop.cursor;
      notation = loop.notation;
      returns = rw (there, loop.returns);
      decimal = loop.numeral;
      text = rw append-nil at loop.text;
      ends = omega (arith, loop.measured);
      same_size = loop.same_size ∙ length-set buffer 20 0 ∙ size;
    }
ltoa-PrintsDecimal (negsuc n) buffer h size =
    let (_, there) = get_elem?_inside buffer 20 (omega arith) in
    let loop = loop-Prints (negsuc n) buffer h size in
    let e : magnitude (negsuc n) ≡ n + 1 = omega arith in
    let sign =
      put_back-PutsBack loop.cursor.bytes loop.cursor.next b'-' loop.notation loop.room
        (omega (arith, loop.measured, loop.same_size, length-set buffer 20 0)) (omega arith)
        (rw append-nil at loop.text) in
    record {
      cursor = sign.cursor;
      notation = b'-' ∷ loop.notation;
      returns = rw (there, loop.returns) (sign.returns);
      decimal = (refl, rw e at loop.numeral);
      text = sign.text;
      ends = omega (arith, sign.moved, loop.measured);
      same_size = sign.same_size ∙ loop.same_size ∙ length-set buffer 20 0 ∙ size;
    }

int_to_str-eq-ltoa : (i : ℤ) (buffer : Memory) → int_to_str i buffer ≡ ltoa i buffer
unfolding int_to_str ltoa
int_to_str-eq-ltoa i buffer = refl

-- ltoa and int_to_str print every 64-bit signed number, the least one too, in decimal into their
-- 21 bytes, whatever these held, with no access outside them.
pub prints_decimal :
    (i : ℤ) (buffer : Memory)
    → IsInt64 i
    → length buffer ≡ 21
    → PrintsDecimal i (ltoa i buffer) × PrintsDecimal i (int_to_str i buffer)
prints_decimal i buffer h size =
    (ltoa-PrintsDecimal i buffer h size, rw int_to_str-eq-ltoa (ltoa-PrintsDecimal i buffer h size))
