-- ===== src/Util/Move/Laws.antt =====
-- What memmove, memcpy and memset leave in memory.
use minlinux.Base.{
  ℕ, zero, suc, ◌+◌, ◌-◌, ◌^◌, ◌≤◌, ◌<◌, ◌≡◌, ◌⊎◌, inl, inr, refl, ◌∙◌, Bool, true, false, some,
  arith, length, get_elem?, set, add64, leb, Bool-cases, length-set, get_elem?-set_self,
  get_elem?-set_ne, get_elem?_inside,
}
use minlinux.Memory.{Memory, Run, ok}
use minlinux.Util.Move.{step_pos, memmove_loop, memmove}

-- `run` ends normally, with the bytes `src + lo ..` of `m` at `dst + lo .. dst + hi`, and all else
-- as it was.
pub record Copies (m : Memory) (dst src lo hi : ℕ) (run : Run Memory) : Type 0 where
  pub out : Memory
  pub returns : run ≡ ok out
  pub same_length : length out ≡ length m
  pub inside : (k : ℕ) → lo ≤ k → k < hi → get_elem? out (dst + k) ≡ get_elem? m (src + k)
  pub outside : (a : ℕ) → (a < dst + lo) ⊎ (dst + hi ≤ a) → get_elem? out a ≡ get_elem? m a

Copies-nil : (m : Memory) (dst src lo : ℕ) → Copies m dst src lo lo (ok m)
Copies-nil m dst src lo = record {
  out = m;
  returns = refl;
  same_length = refl;
  inside = λ k p q. absurd (omega arith);
  outside = λ a h. refl;
}

module _ (dst src : ℕ) where
  -- One round of the loop, at an index inside both areas.
  round :
      (len : ℕ) (forward : Bool) (pos i c : ℕ) (m : Memory)
      → step_pos forward pos ≡ i
      → src + i < 2 ^ 64
      → dst + i < 2 ^ 64
      → dst + i < length m
      → get_elem? m (src + i) ≡ some c
      → memmove_loop (suc len) forward dst src pos m
        ≡ memmove_loop len forward dst src i (set m (dst + i) c)
  unfolding memmove_loop
  round len forward pos i c m e hs hd inside read =
      let (_, there) = get_elem?_inside m (dst + i) inside in
      let es : add64 src i ≡ src + i = omega arith in
      let ed : add64 dst i ≡ dst + i = omega arith in rw (e, es, read, ed, there)

  module _ (i c : ℕ) (m : Memory) {run : Run Memory} (fits : dst + i < length m)
      (read : get_elem? m (src + i) ≡ some c) where
    -- The round at the lowest index, then the rest upwards: no byte that is still to be read was
    -- overwritten.
    Copies-up :
        (hi : ℕ)
        → dst ≤ src
        → i < hi
        → Copies (set m (dst + i) c) dst src (i + 1) hi run
        → Copies m dst src i hi run
    Copies-up hi below some_left rest = record {
      out = rest.out;
      returns = rest.returns;
      same_length = rest.same_length ∙ length-set m (dst + i) c;
      inside = λ k p q. ground (
        arith,
        rest.inside k,
        rest.outside (dst + k),
        get_elem?-set_self m (dst + i) c,
        get_elem?-set_ne m (dst + i) (src + k) c,
      );
      outside = λ a h. ground (arith, rest.outside a, get_elem?-set_ne m (dst + i) a c);
    }

    -- The round at the highest index, then the rest downwards.
    Copies-down :
        (lo : ℕ)
        → src < dst
        → lo ≤ i
        → Copies (set m (dst + i) c) dst src lo i run
        → Copies m dst src lo (i + 1) run
    Copies-down lo above some_left rest = record {
      out = rest.out;
      returns = rest.returns;
      same_length = rest.same_length ∙ length-set m (dst + i) c;
      inside = λ k p q. ground (
        arith,
        rest.inside k,
        rest.outside (dst + k),
        get_elem?-set_self m (dst + i) c,
        get_elem?-set_ne m (dst + i) (src + k) c,
      );
      outside = λ a h. ground (arith, rest.outside a, get_elem?-set_ne m (dst + i) a c);
    }

  -- The loop upwards from index `i`, with `len` rounds left.
  up-Copies :
      (len i hi pos : ℕ) (m : Memory)
      → dst ≤ src
      → i + len ≡ hi
      → src + hi ≤ length m
      → length m < 2 ^ 63
      → add64 pos 1 ≡ i
      → Copies m dst src i hi (memmove_loop len true dst src pos m)
  up-Copies zero i hi pos m below e fits small at =
      let e' : hi ≡ i = omega arith in unfold memmove_loop in rw e' (Copies-nil m dst src i)
  up-Copies (suc len) i hi pos m below e fits small at =
      let (c, read) = get_elem?_inside m (src + i) (omega arith) in
      rw (round len true pos i c m at (omega arith) (omega arith) (omega arith) read) (
        Copies-up i c m (omega arith) read hi below (omega arith) (
          up-Copies len (i + 1) hi i (set m (dst + i) c) below (omega arith) (rw length-set fits)
            (rw length-set small) (omega arith)))

  -- The loop downwards, with the bytes below `len` still to be copied.
  down-Copies :
      (len : ℕ) (m : Memory)
      → src < dst
      → dst + len ≤ length m
      → length m < 2 ^ 63
      → Copies m dst src 0 len (memmove_loop len false dst src len m)
  down-Copies zero m above fits small = unfold memmove_loop in Copies-nil m dst src 0
  down-Copies (suc len) m above fits small =
      let (c, read) = get_elem?_inside m (src + len) (omega arith) in
      rw
        (round len false (suc len) len c m (omega arith) (omega arith) (omega arith) (omega arith)
          read)
        (let e : suc len ≡ len + 1 = omega arith in
          rw e (
            Copies-down len c m (omega arith) read 0 above (omega arith) (
              down-Copies len (set m (dst + len) c) above (rw length-set (omega arith))
                (rw length-set small))))

-- memmove copies `len` bytes from `src` to `dst`, also between areas that overlap, changes no
-- other byte, and never faults, for areas inside a memory of fewer than 2^63 bytes.
pub memmove-Copies :
    (dst src len : ℕ) (m : Memory)
    → dst + len ≤ length m
    → src + len ≤ length m
    → length m < 2 ^ 63
    → Copies m dst src 0 len (memmove dst src len m)
unfolding memmove
memmove-Copies dst src len m fits_dst fits_src small = elim (Bool-cases (leb dst src)) [
  | inl e ↦ rw e (
      up-Copies dst src len 0 len (2 ^ 64 - 1) m (ground arith) (omega arith) fits_src small
        (omega arith))
  | inr e ↦ rw e (down-Copies dst src len m (ground arith) fits_dst small)
]
