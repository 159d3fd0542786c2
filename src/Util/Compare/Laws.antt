-- ===== src/Util/Compare/Laws.antt =====
-- What memcmp returns.
use minlinux.Base.{
  ℕ, suc, ◌+◌, ◌-◌, ◌<◌, ◌≡◌, ◌≢◌, ◌↔◌, refl, List, [], ◌∷◌, ◌++◌, arith, length, ◌==◌, ltb, leb,
  if◌then◌else◌,
}
use minlinux.Base.Int.{ℤ, pos, of_u8, is_neg}
use minlinux.Memory.{Memory, ok}
use minlinux.Memory.Text.{HasBytes}
use minlinux.Util.Compare.{diff8, memcmp_loop, memcmp}

-- The 8-bit difference at the first place where two lists differ, 0 if there is none.
abbrev pub first_diff : List ℕ → List ℕ → ℕ
first_diff [] ys = 0
first_diff (x ∷ xs) [] = 0
first_diff (x ∷ xs) (y ∷ ys) = if x == y then first_diff xs ys else diff8 x y

memcmp_loop_lem :
    (m : Memory) (s1 s2 ofs : ℕ) (xs ys : List ℕ)
    → HasBytes m (s1 + ofs) xs
    → HasBytes m (s2 + ofs) ys
    → length xs ≡ length ys
    → memcmp_loop (length xs) s1 s2 ofs m ≡ ok (first_diff xs ys)
unfolding memcmp_loop
memcmp_loop_lem m s1 s2 ofs [] ys hx hy e = refl
memcmp_loop_lem m s1 s2 ofs (x ∷ xs) [] hx hy e = absurd (omega arith)
memcmp_loop_lem m s1 s2 ofs (x ∷ xs) (y ∷ ys) (rx, bx, hx) (ry, bY, hy) e =
    let e1 : suc (s1 + ofs) ≡ s1 + (ofs + 1) = omega arith in
    let e2 : suc (s2 + ofs) ≡ s2 + (ofs + 1) = omega arith in
    let ih = memcmp_loop_lem m s1 s2 (ofs + 1) xs ys (rw e1 at hx) (rw e2 at hy) (omega arith) in
    rw (rx, ry) (ground (arith, ih))

first_diff-lt : (xs ys : List ℕ) → first_diff xs ys < 256
first_diff-lt [] ys = omega arith
first_diff-lt (x ∷ xs) [] = omega arith
first_diff-lt (x ∷ xs) (y ∷ ys) = ground (arith, first_diff-lt xs ys)

module _ (m : Memory) (p q : ℕ) (xs ys : List ℕ) (hx : HasBytes m p xs) (hy : HasBytes m q ys)
    (same : length xs ≡ length ys) where
  memcmp_lem : memcmp p q (length xs) m ≡ ok (of_u8 (first_diff xs ys))
  unfolding memcmp
  memcmp_lem =
      let ep : p ≡ p + 0 = omega arith in
      let eq : q ≡ q + 0 = omega arith in
      rw (memcmp_loop_lem m p q 0 xs ys (rw ep at hx) (rw eq at hy) same)

first_diff-zero :
    (m : Memory) (p q : ℕ) (xs ys : List ℕ)
    → HasBytes m p xs
    → HasBytes m q ys
    → length xs ≡ length ys
    → first_diff xs ys ≡ 0
    → xs ≡ ys
first_diff-zero m p q [] [] hx hy e z = refl
first_diff-zero m p q [] (y ∷ ys) hx hy e z = absurd (omega arith)
first_diff-zero m p q (x ∷ xs) [] hx hy e z = absurd (omega arith)
first_diff-zero m p q (x ∷ xs) (y ∷ ys) hx hy e z =
    ground (arith, first_diff-zero m (suc p) (suc q) xs ys hx.2 hy.2 (omega arith))

first_diff_self : (xs : List ℕ) → first_diff xs xs ≡ 0
first_diff_self [] = refl
first_diff_self (x ∷ xs) = ground (arith, first_diff_self xs)

-- memcmp over two areas of `n` bytes in memory returns 0 exactly when the areas hold the same bytes.
pub memcmp-zero_iff :
    (m : Memory) (p q : ℕ) (xs ys : List ℕ)
    → HasBytes m p xs
    → HasBytes m q ys
    → length xs ≡ length ys
    → (memcmp p q (length xs) m ≡ ok (pos 0)) ↔ (xs ≡ ys)
memcmp-zero_iff m p q xs ys hx hy e = (there, back)
  where
    there : memcmp p q (length xs) m ≡ ok (pos 0) → xs ≡ ys
    there r =
        first_diff-zero m p q xs ys hx hy e
          (ground (arith, memcmp_lem m p q xs ys hx hy e, first_diff-lt xs ys))

    back : xs ≡ ys → memcmp p q (length xs) m ≡ ok (pos 0)
    back same = ground (arith, memcmp_lem m p q xs ys hx hy e, first_diff_self xs)

first_diff-append :
    (pre : List ℕ) (x y : ℕ) (s t : List ℕ)
    → x ≢ y
    → first_diff (pre ++ (x ∷ s)) (pre ++ (y ∷ t)) ≡ diff8 x y
first_diff-append [] x y s t ne = ground arith
first_diff-append (a ∷ pre) x y s t ne = ground (arith, first_diff-append pre x y s t ne)

sign_of_diff :
    (x y : ℕ)
    → x < 256
    → y < 256
    → x ≢ y
    → is_neg (of_u8 (diff8 x y)) ≡ (if ltb x y then leb (y - x) 128 else leb 128 (x - y))
sign_of_diff x y hx hy ne = ground arith

byte_of_HasBytes :
    (m : Memory) (p : ℕ) (pre : List ℕ) (x : ℕ) (s : List ℕ)
    → HasBytes m p (pre ++ (x ∷ s))
    → x < 256
byte_of_HasBytes m p [] x s h = h.1
byte_of_HasBytes m p (a ∷ pre) x s h = byte_of_HasBytes m (suc p) pre x s h.2

-- Where the areas first differ, in the bytes x and y, memcmp is negative for x < y if the two are
-- at most 128 apart, and for y < x if they are at least 128 apart: its sign orders bytes that are
-- less than 128 apart and is the wrong way round beyond.
pub memcmp_sign :
    (m : Memory) (p q : ℕ) (pre : List ℕ) (x y : ℕ) (s t : List ℕ)
    → HasBytes m p (pre ++ (x ∷ s))
    → HasBytes m q (pre ++ (y ∷ t))
    → length (pre ++ (x ∷ s)) ≡ length (pre ++ (y ∷ t))
    → x ≢ y
    → (r : ℤ) × (memcmp p q (length (pre ++ (x ∷ s))) m ≡ ok r)
      × (is_neg r ≡ (if ltb x y then leb (y - x) 128 else leb 128 (x - y)))
memcmp_sign m p q pre x y s t hx hy e ne = (
  of_u8 (diff8 x y),
  rw (memcmp_lem m p q (pre ++ (x ∷ s)) (pre ++ (y ∷ t)) hx hy e)
      (rw (first_diff-append pre x y s t ne)),
  sign_of_diff x y (byte_of_HasBytes m p pre x s hx) (byte_of_HasBytes m q pre y t hy) ne,
)
