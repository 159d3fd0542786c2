-- ===== src/Command/Spawn/Orderly/Memrun.antt =====
-- init/command.c: memrun does not crash, in the parent whatever the line, in the child where the
-- vector has room for the words.
use mathlib.Core.Path.{subst}
use minlinux.Command.Args.Laws.{HasArgs}
use minlinux.Base.{
  ℕ, zero, suc, ◌+◌, ◌≤◌, ◌<◌, ◌≡◌, refl, sym, ap, some, List, [], ◌∷◌, arith, length, codes, set,
}
use minlinux.Base.Int.{ℤ, pos, negsuc, IsInt64, to_u64_small}
use minlinux.Memory.Text.{HasText}
use minlinux.System.{Kernel, World, record_call}
use minlinux.System.Abi.{Call, Constant}
use minlinux.System.Wrappers
use minlinux.System.Wrappers.{Text}
use minlinux.System.Print.{Build, stdout}
use minlinux.System.Orderly.{
  Orderly, goes_on, Anyhow, anyhow, and_then-Orderly, write_int-Orderly, write_err-Orderly,
}
use minlinux.Command.Scan.Laws.{no_word, word, find_arg-Finds, terminate_arg-Cuts}
use minlinux.Command.Words.{push_word, words, lead, behind, split, words-behind}
use minlinux.Command.Args.{max_args}
use minlinux.Command.Documented.{Documented}
use minlinux.Command.Builtins.{field}
use minlinux.Command.Spawn.Prepared.{text_at_lem, texts_of_lem}
use minlinux.Command.Spawn.Vectored.{vectored}
use minlinux.Command.Spawn.{fresh_args, memrun_child, memrun_parent, memrun_fork, cmd_memrun}
use minlinux.Command.Spawn.Orderly.{
  checked-Orderly, fill_from-Orderly, open_console-Orderly, exec-Orderly,
}

-- No more words follow the first blank than there are in the line.
split-words : (s : Text) → length (split s).1 ≤ length (words s)
split-words s = pushed (lead s) (split s).1
  where
    pushed : (w : Text) (ws : List Text) → length ws ≤ length (push_word w ws)
    pushed [] ws = omega arith
    pushed (c ∷ w) ws = omega arith

module _ (k : Kernel) (b : Build) (d : Documented k) where
  -- The child of memrun, with the path and behind its terminator the text `s`.
  memrun_child-Orderly :
      (path next : ℕ) (name s : Text) (w : World)
      → HasText w.buffer path name
      → path + length name ≤ next
      → HasText w.buffer next s
      → 1 + length (lead s ∷ (split s).1) < max_args b.arg_max
      → Orderly Anyhow (memrun_child k b path next w)
  unfolding memrun_child
  memrun_child-Orderly path next name s w named apart text few =
      let v = vectored b.arg_max path next w.buffer name s named apart text few in
      and_then-Orderly
        (fill_from-Orderly k b d 1 (set (fresh_args k b) 0 (some path)) (some next) w v.result
          v.returns)
        (λ cells w1 (same, line).
          and_then-Orderly
            (open_console-Orderly k b d (codes ":174") (codes ":175") (codes ":176") w1 line)
            (λ _ w2 line2.
              let w3 = record_call (Wrappers.memfd_create 0) w2 in
              let there : HasText w3.buffer path name = rw line2 (v.named) in
              let open_path = Wrappers.openat2 name (Constant.o_cloexec ∷ []) in
              rw (text_at_lem w3 path name there) (
                and_then-Orderly (checked-Orderly k b d (codes ":183") open_path w3 line2)
                  (λ infd w4 line4.
                    let stat = Wrappers.fstatat infd [] (Constant.at_empty_path ∷ []) in
                    and_then-Orderly (checked-Orderly k b d (codes ":187") stat w4 line4)
                      (λ _ w5 line5.
                        and_then-Orderly (checked-Orderly k b d (codes ":191") _ w5 line5)
                          (λ _ w6 line6. rw same (
                            rw
                              (texts_of_lem w6 v.result.args 0 (name ∷ lead s ∷ (split s).1)
                                (subst
                                  (λ m. HasArgs v.result.args m 0 (name ∷ lead s ∷ (split s).1))
                                  (sym line6) v.filled)
                                v.closed)
                              (exec-Orderly k b d (codes ":200") _ [] _
                                (Constant.at_empty_path ∷ []) w6))))))))

  memrun_parent-Orderly :
      (tid : ℤ) (w : World) → IsInt64 tid → Orderly Anyhow (memrun_parent k b tid w)
  unfolding memrun_parent
  memrun_parent-Orderly tid w small =
      and_then-Orderly (write_int-Orderly k _ _ (to_u64_small tid small) refl) (λ _ w1 _.
        let waits = Wrappers.waitid Constant.p_pid tid (Constant.wexited ∷ []) in
        let w2 = record_call (Wrappers.write stdout (codes "\n")) w1 in
        let number =
          λ (i : ℕ). to_u64_small (field i (k.fields w2.calls waits)) (d.fields w2.calls waits i) in
        and_then-Orderly (checked-Orderly k b d (codes ":153") waits w2 refl) (λ _ w3 _.
          and_then-Orderly (write_int-Orderly k _ _ (number 0) refl) (λ _ w4 _.
            and_then-Orderly (write_int-Orderly k _ _ (number 1) refl) (λ _ w5 _. goes_on tt))))

  memrun_fork-Orderly :
      (path next : ℕ) (name s : Text) (w : World)
      → HasText w.buffer path name
      → path + length name ≤ next
      → HasText w.buffer next s
      → (tid : ℤ) → k.rax w.calls (Wrappers.clone3 Constant.sigchld) ≡ tid
      → (tid ≡ pos 0 → 1 + length (lead s ∷ (split s).1) < max_args b.arg_max)
      → Orderly Anyhow
          (memrun_fork k b tid path next (record_call (Wrappers.clone3 Constant.sigchld) w))
  unfolding memrun_fork
  memrun_fork-Orderly path next name s w named apart text (pos zero) e fits =
      memrun_child-Orderly path next name s _ named apart text (fits refl)
  memrun_fork-Orderly path next name s w named apart text (pos (suc n)) e fits =
      memrun_parent-Orderly (pos (suc n)) _
        (rw e at (d.wide w.calls (Wrappers.clone3 Constant.sigchld)))
  memrun_fork-Orderly path next name s w named apart text (negsuc n) e fits = anyhow (
      write_err-Orderly k (codes "clone3 error") (negsuc n) _
        (rw e at (d.wide w.calls (Wrappers.clone3 Constant.sigchld))) refl)

  pub cmd_memrun-Orderly :
      (next : ℕ) (s : Text) (w : World)
      → HasText w.buffer next s
      → ((before : List Call)
          → k.rax before (Wrappers.clone3 Constant.sigchld) ≡ pos 0
          → 2 + length (words s) < max_args b.arg_max)
      → Orderly Anyhow (cmd_memrun k b next w)
  unfolding cmd_memrun
  cmd_memrun-Orderly next s w text fits = elim (find_arg-Finds w.buffer next s text) [
    | no_word found none_there ↦ rw found (goes_on tt)
    | word path rest found onward there some_letter ws ↦
        let cut = terminate_arg-Cuts w.buffer path rest there in
        let w1 = record w { buffer = cut.out } in
        rw (found, cut.returns)
          (memrun_fork-Orderly path cut.next (lead rest) (behind rest) w1 cut.word cut.onward
            cut.rest (k.rax w.calls (Wrappers.clone3 Constant.sigchld)) refl
            (λ e. omega (
              arith,
              fits w.calls e,
              ap (λ l. length l) ws,
              split-words (behind rest),
              ap (λ l. length l) (words-behind rest),
            )))
  ]
