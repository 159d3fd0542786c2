-- ===== src/Util/Move/Fill.antt =====
-- What memset leaves in memory.
use minlinux.Base.{
  ℕ, zero, suc, ◌+◌, ◌%◌, ◌≤◌, ◌<◌, ◌≡◌, ◌⊎◌, refl, ◌∙◌, some, arith, length, get_elem?, set,
  length-set, get_elem?-set_self, get_elem?-set_ne, get_elem?_inside,
}
use minlinux.Memory.{Memory, Run, ok}
use minlinux.Util.Move.{memset_loop, memset}

-- `run` ends normally, with the byte `v` at the `len` addresses from `p` on, and all else as it was.
pub record Fills (m : Memory) (v p len : ℕ) (run : Run Memory) : Type 0 where
  pub out : Memory
  pub returns : run ≡ ok out
  pub same_length : length out ≡ length m
  pub inside : (a : ℕ) → p ≤ a → a < p + len → get_elem? out a ≡ some v
  pub outside : (a : ℕ) → (a < p) ⊎ (p + len ≤ a) → get_elem? out a ≡ get_elem? m a

Fills-cons :
    (m : Memory) (v p len : ℕ) {run : Run Memory}
    → p < length m
    → Fills (set m p v) v (p + 1) len run
    → Fills m v p (suc len) run
Fills-cons m v p len fits rest = record {
  out = rest.out;
  returns = rest.returns;
  same_length = rest.same_length ∙ length-set m p v;
  inside = λ a lo hi. ground (arith, rest.inside a, rest.outside a, get_elem?-set_self m p v);
  outside = λ a h. ground (arith, rest.outside a, get_elem?-set_ne m p a v);
}

memset_loop-Fills :
    (len b p : ℕ) (m : Memory)
    → p + len ≤ length m
    → Fills m (b % 256) p len (memset_loop len b p m)
unfolding memset_loop
memset_loop-Fills zero b p m fits = record {
  out = m;
  returns = refl;
  same_length = refl;
  inside = λ a lo hi. absurd (omega arith);
  outside = λ a h. refl;
}
memset_loop-Fills (suc len) b p m fits =
    let (_, there) = get_elem?_inside m p (omega arith) in
    rw there (
      Fills-cons m (b % 256) p len (omega arith)
        (memset_loop-Fills len b (p + 1) (set m p (b % 256)) (rw length-set (omega arith))))

-- memset stores the low byte of `b` at the `len` addresses from `dst` on, changes no other byte,
-- and never faults inside the memory.
pub memset-Fills :
    (dst b len : ℕ) (m : Memory)
    → dst + len ≤ length m
    → Fills m (b % 256) dst len (memset dst b len m)
unfolding memset
memset-Fills dst b len m fits = memset_loop-Fills len b dst m fits
