-- ===== src/Command/Listing/Laws.antt =====
-- init/command.c: what `ls` writes for a directory that the kernel lists in batches.
use minlinux.Base.{
  ℕ, zero, suc, ◌+◌, ◌*◌, ◌≤◌, ◌<◌, ◌≡◌, refl, sym, ap, ◌∙◌, some, List, [], ◌∷◌, ◌++◌,
  append_assoc, append-nil, arith, length, get_elem?, lt→ltb, le→ltb,
}
use minlinux.Base.Int.{ℤ, pos}
use minlinux.Memory.{Memory}
use minlinux.Memory.Text.{HasText}
use minlinux.Util.Text.Laws.{strlen_lem}
use minlinux.System.{Kernel, World, returned}
use minlinux.System.Abi.{Call}
use minlinux.System.Wrappers
use minlinux.System.Wrappers.{Text}
use minlinux.System.Print.{stdout}
use minlinux.System.Print.Laws.{take_text}
use minlinux.Command.Builtins.Copy.{written, Wrote}
use minlinux.Command.Listing.{suffix, entries_loop, batches_loop, list_opened}

-- An entry of a directory.
pub record Entry : Type 0 where
  pub name : Text
  pub type : ℕ

-- The entry's `struct linux_dirent64` stands at `at` and takes `size` bytes.
pub record HasEntry (m : Memory) (at size : ℕ) (e : Entry) : Type 0 where
  pub low : ℕ
  pub high : ℕ
  pub low_byte : get_elem? m (at + 16) ≡ some low
  pub high_byte : get_elem? m (at + 17) ≡ some high
  pub size_is : low + 256 * high ≡ size
  pub type_byte : get_elem? m (at + 18) ≡ some e.type
  pub name_text : HasText m (at + 19) e.name

-- The entries stand one behind the other from `at` to `count`.
abbrev pub HasEntries : Memory → ℕ → List Entry → ℕ → Type 0
HasEntries m at [] count = at ≡ count
HasEntries m at (e ∷ es) count =
    (size : ℕ) × (0 < size)
    × (at < count)
    × HasEntry m at size e
    × HasEntries m (at + size) es count

-- The line of an entry, and the calls that write it.
abbrev pub line_of : Entry → Text
line_of e = e.name ++ suffix e.type

abbrev pub lines_of : List Entry → Text
lines_of [] = []
lines_of (e ∷ es) = line_of e ++ lines_of es

abbrev pub shown : List Entry → List Call → List Call
shown [] before = before
shown (e ∷ es) before =
    shown es (Wrappers.write stdout (suffix e.type) ∷ Wrappers.write stdout e.name ∷ before)

written-shown :
    (es : List Entry) (before : List Call)
    → written (shown es before) ≡ written before ++ lines_of es
written-shown [] before = sym (append-nil (written before))
written-shown (e ∷ es) before =
    written-shown es (Wrappers.write stdout (suffix e.type) ∷ Wrappers.write stdout e.name ∷ before)
    ∙ append_assoc (written before ++ e.name) (suffix e.type) (lines_of es)
    ∙ append_assoc (written before) e.name (suffix e.type ++ lines_of es)
    ∙ ap (λ l. written before ++ l) (sym (append_assoc e.name (suffix e.type) (lines_of es)))

pub HasEntries-length :
    (m : Memory) (at : ℕ) (es : List Entry) (count : ℕ)
    → HasEntries m at es count
    → at + length es ≤ count
HasEntries-length m at [] count h = omega (arith, h)
HasEntries-length m at (e ∷ es) count (size, some_bytes, inside, here, rest) =
    omega (arith, HasEntries-length m (at + size) es count rest)

module _ (k : Kernel) where
  pub entries_loop-shown :
      (fuel : ℕ) (m : Memory) (count at : ℕ) (es : List Entry) (w : World)
      → length es < fuel
      → HasEntries m at es count
      → entries_loop k fuel m count at w ≡ returned tt (record w { calls = shown es w.calls })
  unfolding entries_loop
  entries_loop-shown zero m count at es w enough h = absurd (omega arith)
  entries_loop-shown (suc fuel) m count at [] w enough h =
      rw (entries_loop, le→ltb at count (omega (arith, h))) refl
  entries_loop-shown (suc fuel) m count at (e ∷ es) w enough
        (size, some_bytes, inside, here, rest) =
      let (counts, _) = strlen_lem m (at + 19) in
      let counted = (counts (length e.name)).1 (e.name, here.name_text, refl) in
      let w' = record w {
        calls = Wrappers.write stdout (suffix e.type) ∷ Wrappers.write stdout e.name ∷ w.calls;
      } in
      rw
        (
          entries_loop,
          lt→ltb at count inside,
          counted,
          take_text m (at + 19) e.name here.name_text,
          here.type_byte,
          here.low_byte,
          here.high_byte,
          here.size_is,
        )
        (entries_loop-shown fuel m count (at + size) es w' (omega arith) rest)

-- From the calls `before` on, the kernel answers getdents64 by batches of entries, then by 0.
pub data Lists (k : Kernel) (fd : ℤ) : List (List Entry) → List Call → Type 0 where
  ends :
      {before : List Call}
      → k.rax before (Wrappers.getdents64 fd 1024) ≡ pos 0
      → Lists k fd [] before
  batch :
      {before : List Call} (n : ℕ) (es : List Entry) (batches : List (List Entry))
      → k.rax before (Wrappers.getdents64 fd 1024) ≡ pos (suc n)
      → HasEntries (k.bytes before (Wrappers.getdents64 fd 1024)) 0 es (suc n)
      → Lists k fd batches (shown es (Wrappers.getdents64 fd 1024 ∷ before))
      → Lists k fd (es ∷ batches) before

abbrev pub all_lines : List (List Entry) → Text
all_lines [] = []
all_lines (es ∷ batches) = lines_of es ++ all_lines batches

module _ (k : Kernel) (fd : ℕ) where
  batches_loop-Wrote :
      (fuel : ℕ) (batches : List (List Entry)) (w : World)
      → length batches < fuel
      → Lists k (pos fd) batches w.calls
      → Wrote (all_lines batches) tt w (batches_loop k fuel (pos fd) w)
  unfolding batches_loop
  batches_loop-Wrote zero batches w enough h = absurd (omega arith)
  batches_loop-Wrote (suc fuel) _ w enough (ends at_end) = record {
    calls = Wrappers.getdents64 (pos fd) 1024 ∷ w.calls;
    returns = rw (batches_loop, at_end) refl;
    wrote = refl;
  }
  batches_loop-Wrote (suc fuel) _ w enough (batch n es batches got content rest) =
      let asked = Wrappers.getdents64 (pos fd) 1024 ∷ w.calls in
      let m = k.bytes w.calls (Wrappers.getdents64 (pos fd) 1024) in
      let one =
        entries_loop-shown k (suc (suc n)) m (suc n) 0 es (record w { calls = asked })
          (omega (arith, HasEntries-length m 0 es (suc n) content)) content in
      let onward =
        batches_loop-Wrote fuel batches (record w { calls = shown es asked }) (omega arith) rest in
      record {
        calls = onward.calls;
        returns = rw (batches_loop, got, one) (onward.returns);
        wrote =
            onward.wrote
            ∙ ap (λ l. l ++ all_lines batches) (written-shown es asked)
            ∙ ap (λ l. (l ++ lines_of es) ++ all_lines batches) (append-nil (written w.calls))
            ∙ append_assoc (written w.calls) (lines_of es) (all_lines batches);
      }

  -- With a bound above the number of batches in which the kernel lists an opened directory, ls
  -- writes for every entry, once and in order, its name and a mark of its type on a line, and
  -- returns with nothing else changed; the rounds within a batch are always enough.
  pub list_opened-Wrote :
      (fuel : ℕ) (path : Text) (batches : List (List Entry)) (w : World)
      → length batches < fuel
      → Lists k (pos fd) batches w.calls
      → Wrote (all_lines batches) tt w (list_opened k fuel path (pos fd) w)
  unfolding list_opened
  list_opened-Wrote fuel path batches w enough listed =
      batches_loop-Wrote fuel batches w enough listed
