-- ===== src/Init/Entry.antt =====
-- init/init.c: `_start`, the assembler code that the kernel enters and that calls `start`. The
-- machine has the registers that the code uses and the words of the stack at their addresses, which
-- are multiples of 8.
use minlinux.Base.{
  ℕ, ◌+◌, ◌-◌, ◌*◌, ◌/◌, ◌%◌, ◌^◌, ◌≤◌, ◌<◌, ◌≡◌, bit_and, List, [], ◌∷◌, ◌++◌, length,
  length-append, if◌then◌else◌, ◌==◌, add64, sub64, arith,
}
use mathlib.Core.Path.{subst}
use minlinux.Base.Bits.{bit_and_high}

pub record Machine : Type 0 where
  pub rdi : ℕ
  pub rsi : ℕ
  pub rdx : ℕ
  pub rsp : ℕ
  pub word : ℕ → ℕ

abbrev pub write_word : (ℕ → ℕ) → ℕ → ℕ → ℕ → ℕ
write_word word a v at = if at == a then v else word at

-- `pop %rdi`
abbrev pub pop_rdi : Machine → Machine
pop_rdi s = record s { rdi = s.word s.rsp; rsp = add64 s.rsp 8 }

-- `mov %rsp, %rsi`
abbrev pub mov_rsp_rsi : Machine → Machine
mov_rsp_rsi s = record s { rsi = s.rsp }

-- `lea 8(%rsi,%rdi,8),%rdx`
abbrev pub lea_rdx : Machine → Machine
lea_rdx s = record s { rdx = add64 (add64 s.rsi (s.rdi * 8)) 8 }

-- `and $-16, %rsp`
abbrev pub and_rsp : Machine → Machine
and_rsp s = record s { rsp = bit_and s.rsp (2 ^ 64 - 16) }

-- `sub $8, %rsp`
abbrev pub sub_rsp : Machine → Machine
sub_rsp s = record s { rsp = sub64 s.rsp 8 }

-- `call start`, which stores the address behind the instruction.
abbrev pub call_start : ℕ → Machine → Machine
call_start behind s =
    let top = sub64 s.rsp 8 in record s { rsp = top; word = write_word s.word top behind }

unfoldable pub startup : ℕ → Machine → Machine
startup behind s = call_start behind (sub_rsp (and_rsp (lea_rdx (mov_rsp_rsi (pop_rdi s)))))

-- The words from an address on are these.
abbrev pub Words : (ℕ → ℕ) → ℕ → List ℕ → Type 0
Words word a [] = Unit {0}
Words word a (v ∷ vs) = (word a ≡ v) × Words word (a + 8) vs

Words-append :
    (word : ℕ → ℕ) (a : ℕ) (vs ws : List ℕ)
    → Words word a (vs ++ ws)
    → Words word a vs × Words word (a + 8 * length vs) ws
Words-append word a [] ws h = (tt, subst (λ b. Words word b ws) here h)
  where
    here : a ≡ a + 8 * 0
    here = omega arith
Words-append word a (v ∷ vs) ws (p, h) =
    let (front, back) = Words-append word (a + 8) vs ws h in
    let further : a + 8 + 8 * length vs ≡ a + 8 * length (v ∷ vs) = omega arith in
    ((p, front), subst (λ b. Words word b ws) further back)

-- A word that is stored below does not change them.
Words-write :
    (word : ℕ → ℕ) (a v b : ℕ) (vs : List ℕ)
    → a < b
    → Words word b vs
    → Words (write_word word a v) b vs
Words-write word a v b [] low h = tt
Words-write word a v b (x ∷ vs) low (p, h) =
    (ground (arith, p), Words-write word a v (b + 8) vs (omega arith) h)

-- What `start` is called with: the count, the vector and the environment that the kernel put on the
-- stack, and a stack that grows below them.
pub record Passes (argv envp : List ℕ) (behind : ℕ) (s t : Machine) : Type 0 where
  pub argc : t.rdi ≡ length argv
  pub arguments : Words t.word t.rsi (argv ++ (0 ∷ []))
  pub environment : Words t.word t.rdx (envp ++ (0 ∷ []))
  pub below : t.rsp + 8 ≤ s.rsp
  pub multiple : t.rsp % 16 ≡ 0
  pub returns_to : t.word t.rsp ≡ behind

-- Where the stack ends up.
startup_rsp :
    (behind : ℕ) (s : Machine)
    → s.rsp % 8 ≡ 0
    → 8 ≤ s.rsp
    → s.rsp + 24 ≤ 2 ^ 64
    → (startup behind s).rsp ≡ (s.rsp + 8) / 16 * 16 - 16
unfolding startup
startup_rsp behind s aligned room small =
    let x = add64 s.rsp 8 in
    let cut : bit_and x (2 ^ 64 - 16) ≡ x / 16 % 2 ^ 60 * 16 = bit_and_high 4 60 x in
    rw (cut) (omega arith)

-- Where the environment is.
startup_rdx :
    (behind n : ℕ) (s : Machine)
    → s.word s.rsp ≡ n
    → s.rsp + 8 * (n + 3) ≤ 2 ^ 64
    → (startup behind s).rdx ≡ s.rsp + 8 * (n + 2)
unfolding startup
startup_rdx behind n s count small = rw (count) (omega arith)

-- Entered with the number of the arguments on top of a stack of words, then the arguments and the
-- environment, each closed by NULL, below the end of the address space: `_start` calls `start` with
-- that number, the address of the first argument and that of the first entry of the environment,
-- has changed none of these words, returns to behind its call, and leaves the stack pointer below
-- them, at a multiple of 16 on entry to `start`.
--
pub startup-Passes :
    (argv envp : List ℕ) (behind : ℕ) (s : Machine)
    → Words s.word s.rsp ((length argv ∷ argv ++ (0 ∷ [])) ++ (envp ++ (0 ∷ [])))
    → s.rsp % 8 ≡ 0
    → 8 ≤ s.rsp
    → s.rsp + 8 * (length argv + length envp + 3) ≤ 2 ^ 64
    → Passes argv envp behind s (startup behind s)
unfolding startup
startup-Passes argv envp behind s words aligned room small =
    let n = length argv in
    let ((count, args), env) =
      Words-append s.word s.rsp (n ∷ argv ++ (0 ∷ [])) (envp ++ (0 ∷ [])) words in
    let t = startup behind s in
    let rsp = startup_rsp behind s aligned room (omega arith) in
    let rdx = startup_rdx behind n s count (omega arith) in
    let kept = Words-write s.word t.rsp behind in
    let vector : s.rsp + 8 ≡ t.rsi = omega arith in
    let behind_vector : s.rsp + 8 * length (n ∷ argv ++ (0 ∷ [])) ≡ t.rdx =
      omega (arith, rdx, length-append argv (0 ∷ [])) in
    record {
      argc = count;
      arguments =
          subst (λ a. Words t.word a (argv ++ (0 ∷ []))) vector
            (kept (s.rsp + 8) (argv ++ (0 ∷ [])) (omega (arith, rsp)) args);
      environment =
          subst (λ a. Words t.word a (envp ++ (0 ∷ []))) behind_vector
            (kept (s.rsp + 8 * length (n ∷ argv ++ (0 ∷ []))) (envp ++ (0 ∷ []))
              (omega (arith, rsp)) env);
      below = omega (arith, rsp);
      multiple = omega (arith, rsp);
      returns_to = ground arith;
    }
