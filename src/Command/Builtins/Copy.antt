-- ===== src/Command/Builtins/Copy.antt =====
-- init/command.c: what `cat` writes for a file that the kernel serves in pieces.
use minlinux.Base.{
  ℕ, zero, suc, ◌≤◌, ◌<◌, ◌≡◌, refl, ap, ◌∙◌, List, [], ◌∷◌, ◌++◌, append_assoc, append-nil, arith,
  length, take,
}
use minlinux.Base.Int.{ℤ, pos}
use minlinux.System.{Kernel, World, Outcome, returned}
use minlinux.System.Abi.{Call, Number, Argument, int, text}
use minlinux.System.Wrappers
use minlinux.System.Wrappers.{Text}
use minlinux.System.Print.{Build, stdout}
use minlinux.Command.Builtins.{cat_loop, cat_opened}

-- What calls, latest first, wrote to any file, in the order of time.
abbrev pub bytes_of : Number → List Argument → Text
bytes_of Number.write (int fd ∷ text t ∷ n ∷ []) = t
bytes_of _ _ = []

abbrev pub written : List Call → Text
written [] = []
written (c ∷ before) = written before ++ bytes_of c.number c.arguments

abbrev pub joined : List Text → Text
joined [] = []
joined (piece ∷ pieces) = piece ++ joined pieces

-- From the calls `before` on, the kernel answers the reads of `fd` by these pieces, at most 1024
-- bytes each, then by the end of the file, and takes each write of a piece.
pub data Serves (k : Kernel) (fd : ℤ) : List Text → List Call → Type 0 where
  ends : {before : List Call} → k.rax before (Wrappers.read fd 1024) ≡ pos 0 → Serves k fd [] before
  gives :
      {before : List Call} (c : ℕ) (piece : Text) (pieces : List Text) (accepted : ℕ)
      → suc (length piece) ≤ 1024
      → k.rax before (Wrappers.read fd 1024) ≡ pos (suc (length piece))
      → take (suc (length piece)) (k.bytes before (Wrappers.read fd 1024)) ≡ c ∷ piece
      → k.rax (Wrappers.read fd 1024 ∷ before) (Wrappers.write stdout (c ∷ piece)) ≡ pos accepted
      → Serves k fd pieces (Wrappers.write stdout (c ∷ piece) ∷ Wrappers.read fd 1024 ∷ before)
      → Serves k fd ((c ∷ piece) ∷ pieces) before

-- `run` returned, changed nothing but the calls made, and wrote `content`.
pub record Wrote {A : Type 0} (content : Text) (value : A) (w : World) (run : Outcome A)
    : Type 0 where
  pub calls : List Call
  pub returns : run ≡ returned value (record w { calls = calls })
  pub wrote : written calls ≡ written w.calls ++ content

module _ (k : Kernel) (b : Build) (fd : ℕ) where
  cat_loop-Wrote :
      (fuel : ℕ) (pieces : List Text) (w : World)
      → length pieces < fuel
      → Serves k (pos fd) pieces w.calls
      → Wrote (joined pieces) (pos 0) w (cat_loop k b fuel (pos fd) w)
  unfolding cat_loop
  cat_loop-Wrote zero pieces w enough h = absurd (omega arith)
  cat_loop-Wrote (suc fuel) _ w enough (ends at_end) = record {
    calls = Wrappers.read (pos fd) 1024 ∷ w.calls;
    returns = rw at_end;
    wrote = refl;
  }
  cat_loop-Wrote (suc fuel) _ w enough
        (gives c piece pieces accepted small got content taken rest) =
      let w' = record w {
        calls = Wrappers.write stdout (c ∷ piece) ∷ Wrappers.read (pos fd) 1024 ∷ w.calls;
      } in
      let onward = cat_loop-Wrote fuel pieces w' (omega arith) rest in
      record {
        calls = onward.calls;
        returns = rw (got, content, taken) (onward.returns);
        wrote =
            onward.wrote
            ∙ ap (λ l. (l ++ (c ∷ piece)) ++ joined pieces) (append-nil (written w.calls))
            ∙ append_assoc (written w.calls) (c ∷ piece) (joined pieces);
      }

  -- With a bound above the number of pieces, of 1 to 1024 bytes, in which the kernel serves an
  -- opened file, and a kernel that takes each write, cat copies the whole file to the console, once
  -- and in order, and returns with nothing else changed.
  pub cat_opened-Wrote :
      (fuel : ℕ) (pieces : List Text) (w : World)
      → length pieces < fuel
      → Serves k (pos fd) pieces w.calls
      → Wrote (joined pieces) tt w (cat_opened k b fuel (pos fd) w)
  unfolding cat_opened
  cat_opened-Wrote fuel pieces w enough served =
      let copy = cat_loop-Wrote fuel pieces w enough served in
      record { calls = copy.calls; returns = rw (copy.returns); wrote = copy.wrote }
