-- ===== src/Command/Builtins/Orderly.antt =====
-- init/command.c: time, cat, env, exit and usage do not crash.
use minlinux.Base.{◌≡◌, ℕ, zero, suc, refl, List, [], ◌∷◌, codes, take, arith}
use minlinux.Base.Int.{ℤ, pos, negsuc, IsInt64, to_u64_small}
use minlinux.Memory.Text.{HasText}
use minlinux.System.{Kernel, World, record_call}
use minlinux.System.Abi.{Constant}
use minlinux.System.Wrappers
use minlinux.System.Wrappers.{Text}
use minlinux.System.Print.{Build, stdout}
use minlinux.System.Print.Laws.{after_reboot-ne-crashed}
use minlinux.System.Orderly.{
  Orderly, goes_on, ends, Anyhow, anyhow, and_then-Orderly, write_int-Orderly, write_err-Orderly,
  syscheck-Orderly,
}
use minlinux.Command.Scan.Laws.{no_word, word, find_arg-Finds, terminate_arg-Cuts}
use minlinux.Command.Words.{lead}
use minlinux.Command.Documented.{Documented}
use minlinux.Command.Spawn.Prepared.{text_at_lem}
use minlinux.Command.Builtins.{
  field, place, cmd_time, report_write, cat_loop, report_read, cat_opened, cmd_cat, cmd_env,
  cmd_exit, cmd_usage,
}

module _ (k : Kernel) (b : Build) where
  pub cmd_env-Orderly : (envp : List Text) (w : World) → Orderly Anyhow (cmd_env k b envp w)
  unfolding cmd_env
  cmd_env-Orderly [] w = goes_on tt
  cmd_env-Orderly (e ∷ envp) w = cmd_env-Orderly envp _

  pub cmd_exit-Orderly : (w : World) → Orderly Anyhow (cmd_exit k b w)
  unfolding cmd_exit
  cmd_exit-Orderly w = ends (after_reboot-ne-crashed _)

  module _ (d : Documented k) where
    pub cmd_time-Orderly : (w : World) → Orderly Anyhow (cmd_time k b w)
    unfolding cmd_time
    cmd_time-Orderly w =
        let asked = Wrappers.clock_gettime Constant.clock_realtime in
        let small =
          λ (i : ℕ). to_u64_small (field i (k.fields w.calls asked)) (d.fields w.calls asked i) in
        and_then-Orderly
          (syscheck-Orderly k (place k b (codes ":67")) (k.rax w.calls asked) (record_call asked w)
            (d.wide w.calls asked) refl)
          (λ _ w1 _. and_then-Orderly (write_int-Orderly k _ _ (small 0) refl) (λ _ w2 _.
            and_then-Orderly (write_int-Orderly k _ _ (small 1) refl) (λ _ w3 _. goes_on tt)))

    pub cmd_usage-Orderly : (w : World) → Orderly Anyhow (cmd_usage k b w)
    unfolding cmd_usage
    cmd_usage-Orderly w =
        let asked = Wrappers.sysinfo in
        and_then-Orderly
          (syscheck-Orderly k (place k b (codes ":128")) (k.rax w.calls asked) (record_call asked w)
            (d.wide w.calls asked) refl)
          (λ _ w1 _. and_then-Orderly (write_int-Orderly k _ _ (omega arith) refl) (λ _ w2 _.
            and_then-Orderly (write_int-Orderly k _ _ (omega arith) refl) (λ _ w3 _. goes_on tt)))

    report_write-Orderly :
        (res : ℤ) (w : World) → IsInt64 res → Orderly Anyhow (report_write k b res w)
    unfolding report_write
    report_write-Orderly (pos n) w small = goes_on tt
    report_write-Orderly (negsuc n) w small =
        anyhow (write_err-Orderly k (codes "Error writing to stdout") (negsuc n) w small refl)

    report_read-Orderly :
        (res : ℤ) (w : World) → IsInt64 res → Orderly Anyhow (report_read k b res w)
    unfolding report_read
    report_read-Orderly (pos n) w small = goes_on tt
    report_read-Orderly (negsuc n) w small =
        anyhow (write_err-Orderly k (codes "Error reading file") (negsuc n) w small refl)

    -- The value is the last answer of a read.
    abbrev LastRead : ℤ → World → Type 0
    LastRead res w = IsInt64 res

    cat_round-Orderly :
        (fuel : ℕ) (fd : ℤ) (w : World) (res : ℤ)
        → k.rax w.calls (Wrappers.read fd 1024) ≡ res
        → IsInt64 res
        → ((w : World) → Orderly LastRead (cat_loop k b fuel fd w))
        → Orderly LastRead (cat_loop k b (suc fuel) fd w)
    unfolding cat_loop
    cat_round-Orderly fuel fd w (pos zero) e small rest = rw (e, cat_loop) (goes_on small)
    cat_round-Orderly fuel fd w (pos (suc n)) e small rest =
        let asked = Wrappers.read fd 1024 in
        let put = Wrappers.write stdout (take (suc n) (k.bytes w.calls asked)) in
        rw (e, cat_loop)
          (and_then-Orderly
            (report_write-Orderly (k.rax (asked ∷ w.calls) put) _ (d.wide (asked ∷ w.calls) put))
            (λ _ w' _. rest w'))
    cat_round-Orderly fuel fd w (negsuc n) e small rest = rw (e, cat_loop) (goes_on small)

    cat_loop-Orderly : (fuel : ℕ) (fd : ℤ) (w : World) → Orderly LastRead (cat_loop k b fuel fd w)
    unfolding cat_loop
    cat_loop-Orderly zero fd w = ends (λ e. cc)
    cat_loop-Orderly (suc fuel) fd w =
        let asked = Wrappers.read fd 1024 in
        cat_round-Orderly fuel fd w (k.rax w.calls asked) refl (d.wide w.calls asked)
          (cat_loop-Orderly fuel fd)

    cat_opened-Orderly :
        (fuel : ℕ) (fd : ℤ) (w : World) → IsInt64 fd → Orderly Anyhow (cat_opened k b fuel fd w)
    unfolding cat_opened
    cat_opened-Orderly fuel (negsuc n) w small =
        anyhow (write_err-Orderly k (codes "Couldn't open file") (negsuc n) w small refl)
    cat_opened-Orderly fuel (pos fd) w small =
        and_then-Orderly (cat_loop-Orderly fuel (pos fd) w)
          (λ result w' small'. report_read-Orderly result w' small')

    pub cmd_cat-Orderly :
        (fuel next : ℕ) (s : Text) (w : World)
        → HasText w.buffer next s
        → Orderly Anyhow (cmd_cat k b fuel next w)
    unfolding cmd_cat
    cmd_cat-Orderly fuel next s w text = elim (find_arg-Finds w.buffer next s text) [
      | no_word found none_there ↦ rw found (goes_on tt)
      | word path rest found onward there some_letter ws ↦
          let cut = terminate_arg-Cuts w.buffer path rest there in
          let w1 = record w { buffer = cut.out } in
          let asked = Wrappers.openat2 (lead rest) (Constant.o_rdonly ∷ Constant.o_noatime ∷ []) in
          rw (found, cut.returns, text_at_lem w1 path (lead rest) cut.word)
            (cat_opened-Orderly fuel (k.rax w.calls asked) (record_call asked w1)
              (d.wide w.calls asked))
    ]
