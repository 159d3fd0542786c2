-- ===== src/Util/Text/Laws.antt =====
-- What nolibc_strlen, strchr and strcpy do with a string in memory, and that their loops end.
use minlinux.Base.{All}
use minlinux.Base.{
  ℕ, zero, suc, ◌+◌, ◌-◌, ◌%◌, ◌<◌, ◌≡◌, ◌≢◌, ◌↔◌, ◌⊎◌, inl, inr, ap, ◌∙◌, List, [], ◌∷◌, ◌++◌,
  Option, none, some, arith, length, get_elem?, set, ◌==◌, Bool-cases, Option-cases,
  get_elem?_inside, get_elem?-set_self, get_elem?-set_ne, length-set, lt-length_of_some,
}
use minlinux.Memory.{Memory, Run, ok, out_of_fuel}
use minlinux.Memory.Text.{HasText, HasText_end, HasText-set}
use minlinux.Util.Text.{strlen_loop, strlen, strchr_loop, strchr, strcpy_loop, strcpy}

strlen_loop_lem :
    (fuel : ℕ) (m : Memory) (str len : ℕ) (s : List ℕ)
    → HasText m (str + len) s
    → length s < fuel
    → strlen_loop fuel m str len ≡ ok (len + length s)
unfolding strlen_loop
strlen_loop_lem zero m str len s h enough = absurd (omega arith)
strlen_loop_lem (suc fuel) m str len [] h enough = rw h (ap ok (omega arith))
strlen_loop_lem (suc fuel) m str len (c ∷ s) (read, some_char, h) enough =
    let e : suc (str + len) ≡ str + (len + 1) = omega arith in
    let ih = strlen_loop_lem fuel m str (len + 1) s (rw e at h) (omega arith) in
    rw read (ground (arith, ih))

-- strlen of a string in memory is the number of its bytes before the terminator.
pub strlen_of_text : (m : Memory) (p : ℕ) (s : List ℕ) → HasText m p s → strlen m p ≡ ok (length s)
unfolding strlen
strlen_of_text m p s h =
    let e : p ≡ p + 0 = omega arith in
    strlen_loop_lem (suc (length m)) m p 0 s (rw e at h) (omega (arith, HasText_end m p s h))
    ∙ ap ok (omega arith)

-- The bytes from `p` on, as far as the memory reaches.
strlen_loop_sound :
    (fuel : ℕ) (m : Memory) (str len n : ℕ)
    → strlen_loop fuel m str len ≡ ok n
    → (s : List ℕ) × HasText m (str + len) s × (n ≡ len + length s)
unfolding strlen_loop
strlen_loop_sound zero m str len n h = cc
strlen_loop_sound (suc fuel) m str len n h = elim (Option-cases (get_elem? m (str + len))) [
  | inl e ↦ cc (rw e at h)
  | inr (c, e) ↦ elim (Bool-cases (c == 0)) [
    | inl z ↦ ([], ground arith, ground arith)
    | inr nz ↦
        let h' : strlen_loop fuel m str (len + 1) ≡ ok n = ground arith in
        let (s, text, count) = strlen_loop_sound fuel m str (len + 1) n h' in
        let e1 : str + (len + 1) ≡ suc (str + len) = omega arith in
        (c ∷ s, (e, ground arith, rw e1 at text), omega arith)
  ]
]

strlen_loop_total :
    (fuel : ℕ) (m : Memory) (str len : ℕ)
    → length m - (str + len) < fuel
    → strlen_loop fuel m str len ≢ out_of_fuel
unfolding strlen_loop
strlen_loop_total zero m str len enough = absurd (omega arith)
strlen_loop_total (suc fuel) m str len enough = elim (Option-cases (get_elem? m (str + len))) [
  | inl e ↦ rw e (λ h. cc)
  | inr (c, e) ↦
      let some_left : str + len < length m = lt-length_of_some m (str + len) e in
      rw e (ground (arith, strlen_loop_total fuel m str (len + 1)))
]

-- strlen returns `n` exactly when a string of `n` bytes stands at `p`; otherwise it reads outside
-- the memory, and its loop always ends.
pub strlen_lem :
    (m : Memory) (p : ℕ)
    → ((n : ℕ) → (strlen m p ≡ ok n) ↔ ((s : List ℕ) × HasText m p s × (n ≡ length s)))
      × (strlen m p ≢ out_of_fuel)
strlen_lem m p = (λ n. (there n, back n), ends)
  where
    ends : strlen m p ≢ out_of_fuel
    ends = unfold strlen in strlen_loop_total (suc (length m)) m p 0 (omega arith)

    there : (n : ℕ) → strlen m p ≡ ok n → (s : List ℕ) × HasText m p s × (n ≡ length s)
    there n h =
        let (s, text, count) = strlen_loop_sound (suc (length m)) m p 0 n (unfold strlen in h) in
        let e : p + 0 ≡ p = omega arith in (s, rw e at text, omega arith)

    back : (n : ℕ) → (s : List ℕ) × HasText m p s × (n ≡ length s) → strlen m p ≡ ok n
    back n (s, text, count) = rw count (strlen_of_text m p s text)

-- How strchr ends on the string `s` at `p`: `q` is the place of the first `c`, if there is one.
abbrev pub IsFirst : ℕ → ℕ → List ℕ → Option ℕ → Type 0
IsFirst c p s none = All (λ x. x ≢ c) s
IsFirst c p s (some q) =
    (pre : List ℕ) × (post : List ℕ) × (s ≡ pre ++ (c ∷ post))
    × All (λ x. x ≢ c) pre
    × (q ≡ p + length pre)

IsFirst-cons :
    (c p x : ℕ) (s : List ℕ) (q : Option ℕ) → x ≢ c → IsFirst c (p + 1) s q → IsFirst c p (x ∷ s) q
IsFirst-cons c p x s none ne h = (ne, h)
IsFirst-cons c p x s (some q) ne (pre, post, split, before, at) =
    (x ∷ pre, post, cc, (ne, before), omega arith)

strchr_loop_lem :
    (fuel : ℕ) (m : Memory) (p c : ℕ) (s : List ℕ)
    → HasText m p s
    → length s < fuel
    → (q : Option ℕ) × (strchr_loop fuel m p c ≡ ok q) × IsFirst c p s q
unfolding strchr_loop
strchr_loop_lem zero m p c s h enough = absurd (omega arith)
strchr_loop_lem (suc fuel) m p c [] h enough = (none, rw h, tt)
strchr_loop_lem (suc fuel) m p c (x ∷ s) (read, some_char, h) enough = elim (Bool-cases (x == c)) [
  | inl e ↦ (some p, rw read (ground arith), ([], s, ground arith, tt, omega arith))
  | inr e ↦
      let step : suc p ≡ p + 1 = omega arith in
      let (q, run, first) = strchr_loop_lem fuel m (p + 1) c s (rw step at h) (omega arith) in
      (q, rw read (ground arith), IsFirst-cons c p x s q (ground arith) first)
]

-- strchr of a string in memory returns the place of the first byte equal to `(char)c`, or NULL if
-- there is none; the terminator is never found.
pub strchr_lem :
    (m : Memory) (p c : ℕ) (s : List ℕ)
    → HasText m p s
    → (q : Option ℕ) × (strchr m p c ≡ ok q) × IsFirst (c % 256) p s q
unfolding strchr
strchr_lem m p c s h =
    strchr_loop_lem (suc (length m)) m p (c % 256) s h (omega (arith, HasText_end m p s h))

-- `run` ends normally with the string `s` at `dst`, and all but its bytes and terminator as before.
pub record CopiesText (m : Memory) (dst : ℕ) (s : List ℕ) (run : Run Memory) : Type 0 where
  pub out : Memory
  pub returns : run ≡ ok out
  pub text : HasText out dst s
  pub outside : (a : ℕ) → (a < dst) ⊎ (dst + length s < a) → get_elem? out a ≡ get_elem? m a

strcpy_loop-CopiesText :
    (fuel : ℕ) (m : Memory) (dst src : ℕ) (s : List ℕ)
    → HasText m src s
    → (dst + length s < src) ⊎ (src + length s < dst)
    → dst + length s < length m
    → length s < fuel
    → CopiesText m dst s (strcpy_loop fuel m dst src)
unfolding strcpy_loop
strcpy_loop-CopiesText zero m dst src s h apart fits enough = absurd (omega arith)
strcpy_loop-CopiesText (suc fuel) m dst src [] h apart fits enough =
    let (_, there) = get_elem?_inside m dst (omega arith) in
    record {
      out = set m dst 0;
      returns = rw (h, there);
      text = get_elem?-set_self m dst 0 (omega arith);
      outside = λ a away. get_elem?-set_ne m dst a 0 (ground arith);
    }
strcpy_loop-CopiesText (suc fuel) m dst src (c ∷ s) (read, some_char, h) apart fits enough =
    let (_, there) = get_elem?_inside m dst (omega arith) in
    let step : suc src ≡ src + 1 = omega arith in
    let step' : suc dst ≡ dst + 1 = omega arith in
    let rest =
      strcpy_loop-CopiesText fuel (set m dst c) (dst + 1) (src + 1) s
        (rw step at (HasText-set m dst c (suc src) s (ground arith) h)) (ground arith)
        (rw length-set (omega arith)) (omega arith) in
    record {
      out = rest.out;
      returns = rw (read, there) (ground (arith, rest.returns));
      text = (
        rest.outside dst (inl (omega arith)) ∙ get_elem?-set_self m dst c (omega arith),
        some_char,
        rw step' rest.text,
      );
      outside = λ a away. rest.outside a (ground arith) ∙ get_elem?-set_ne m dst a c (ground arith);
    }

-- strcpy copies a string with its terminator to a place that does not overlap it and that the
-- memory holds, and changes nothing else.
pub strcpy-CopiesText :
    (m : Memory) (dst src : ℕ) (s : List ℕ)
    → HasText m src s
    → (dst + length s < src) ⊎ (src + length s < dst)
    → dst + length s < length m
    → CopiesText m dst s (strcpy m dst src)
unfolding strcpy
strcpy-CopiesText m dst src s h apart fits =
    strcpy_loop-CopiesText (suc (length m)) m dst src s h apart fits
      (omega (arith, HasText_end m src s h))
