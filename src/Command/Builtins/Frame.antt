-- ===== src/Command/Builtins/Frame.antt =====
-- init/command.c: time, cat, env, exit and usage leave the queue alone.
use minlinux.Base.{
  ◌≡◌, ℕ, zero, suc, refl, ◌+◌, ◌-◌, ◌*◌, ◌%◌, ◌^◌, List, [], ◌∷◌, Option, none, some, codes, take,
}
use minlinux.Base.Int.{ℤ, pos, negsuc, to_u64}
use minlinux.System.{Kernel, World}
use minlinux.System.Abi.{Constant}
use minlinux.System.Wrappers
use minlinux.System.Wrappers.{Text}
use minlinux.System.Print.{Build, stdout}
use minlinux.System.Print.Frame.{
  after_reboot-Accounted, write_int-Kept, write_err-Kept, syscheck-Kept,
}
use minlinux.System.Frame.{later, Same, Kept, goes_on, ends, calls_Same, and_then-Kept}
use minlinux.Command.Frame.{find_in_line-Kept, terminate_in_line-Kept, text_at-Kept}
use minlinux.Command.Builtins.{
  field, place, cmd_time, report_write, cat_loop, report_read, cat_opened, cat_file, cmd_cat,
  cmd_env, cmd_exit, cmd_usage,
}

module _ (k : Kernel) (b : Build) where
  pub cmd_time-Kept : {v w : World} → Same v w → Kept v (cmd_time k b w)
  unfolding cmd_time
  cmd_time-Kept {v} {w} s =
      let asked = Wrappers.clock_gettime Constant.clock_realtime in
      let time = k.fields w.calls asked in
      and_then-Kept
        (syscheck-Kept k (calls_Same s (later refl s.quiet)) (place k b (codes ":67"))
          (k.rax w.calls asked))
        (λ _ w1 s1.
          and_then-Kept
            (write_int-Kept k (calls_Same s1 (later refl s1.quiet)) (to_u64 (field 0 time)))
            (λ _ w2 s2.
              and_then-Kept
                (write_int-Kept k (calls_Same s2 (later refl s2.quiet)) (to_u64 (field 1 time)))
                (λ _ w3 s3. goes_on (calls_Same s3 (later refl s3.quiet)))))

  pub cmd_usage-Kept : {v w : World} → Same v w → Kept v (cmd_usage k b w)
  unfolding cmd_usage
  cmd_usage-Kept {v} {w} s =
      let info = k.fields w.calls Wrappers.sysinfo in
      let total = to_u64 (field 0 info) in
      let free = to_u64 (field 1 info) in
      let unit = to_u64 (field 2 info) in
      and_then-Kept
        (syscheck-Kept k (calls_Same s (later refl s.quiet)) (place k b (codes ":128"))
          (k.rax w.calls Wrappers.sysinfo))
        (λ _ w1 s1.
          and_then-Kept
            (write_int-Kept k (calls_Same s1 (later refl s1.quiet))
              ((total + 2 ^ 64 - free) % 2 ^ 64 * unit % 2 ^ 64))
            (λ _ w2 s2.
              and_then-Kept
                (write_int-Kept k (calls_Same s2 (later refl s2.quiet)) (total * unit % 2 ^ 64))
                (λ _ w3 s3. goes_on (calls_Same s3 (later refl s3.quiet)))))

  pub cmd_env-Kept : (envp : List Text) {v w : World} → Same v w → Kept v (cmd_env k b envp w)
  unfolding cmd_env
  cmd_env-Kept [] s = goes_on s
  cmd_env-Kept (e ∷ envp) s = cmd_env-Kept envp (calls_Same s (later refl (later refl s.quiet)))

  pub cmd_exit-Kept : {v w : World} → Same v w → Kept v (cmd_exit k b w)
  unfolding cmd_exit
  cmd_exit-Kept s = ends (calls_Same s (later refl s.quiet)) (after_reboot-Accounted _ _)

  report_write-Kept : (res : ℤ) {v w : World} → Same v w → Kept v (report_write k b res w)
  unfolding report_write
  report_write-Kept (pos n) s = goes_on s
  report_write-Kept (negsuc n) s = write_err-Kept k s (codes "Error writing to stdout") (negsuc n)

  report_read-Kept : (res : ℤ) {v w : World} → Same v w → Kept v (report_read k b res w)
  unfolding report_read
  report_read-Kept (pos n) s = goes_on s
  report_read-Kept (negsuc n) s = write_err-Kept k s (codes "Error reading file") (negsuc n)

  abbrev CatKept : ℕ → ℤ → Type 0
  CatKept fuel fd = (v w : World) → Same v w → Kept v (cat_loop k b fuel fd w)

  cat_round-Kept :
      (fuel : ℕ) (fd : ℤ) (v w : World) (res : ℤ)
      → k.rax w.calls (Wrappers.read fd 1024) ≡ res
      → Same v w
      → CatKept fuel fd
      → Kept v (cat_loop k b (suc fuel) fd w)
  unfolding cat_loop
  cat_round-Kept fuel fd v w (pos zero) e s rest =
      rw (e, cat_loop) (goes_on (calls_Same s (later refl s.quiet)))
  cat_round-Kept fuel fd v w (pos (suc n)) e s rest =
      let asked = Wrappers.read fd 1024 in
      let put = Wrappers.write stdout (take (suc n) (k.bytes w.calls asked)) in
      rw (e, cat_loop)
        (and_then-Kept
          (report_write-Kept (k.rax (asked ∷ w.calls) put)
            (calls_Same s (later refl (later refl s.quiet))))
          (λ _ w' s'. rest v w' s'))
  cat_round-Kept fuel fd v w (negsuc n) e s rest =
      rw (e, cat_loop) (goes_on (calls_Same s (later refl s.quiet)))

  cat_loop-Kept : (fuel : ℕ) (fd : ℤ) → CatKept fuel fd
  unfolding cat_loop
  cat_loop-Kept zero fd v w s = ends s tt
  cat_loop-Kept (suc fuel) fd v w s =
      cat_round-Kept fuel fd v w (k.rax w.calls (Wrappers.read fd 1024)) refl s
        (cat_loop-Kept fuel fd)

  cat_opened-Kept : (fuel : ℕ) (fd : ℤ) {v w : World} → Same v w → Kept v (cat_opened k b fuel fd w)
  unfolding cat_opened
  cat_opened-Kept fuel (negsuc n) s = write_err-Kept k s (codes "Couldn't open file") (negsuc n)
  cat_opened-Kept fuel (pos fd) s =
      and_then-Kept (cat_loop-Kept fuel (pos fd) _ _ s) (λ result w' s'. report_read-Kept result s')

  cat_file-Kept :
      (fuel : ℕ) (path : Option ℕ) {v w : World} → Same v w → Kept v (cat_file k b fuel path w)
  unfolding cat_file
  cat_file-Kept fuel none s = goes_on (calls_Same s (later refl s.quiet))
  cat_file-Kept fuel (some path) s = and_then-Kept (terminate_in_line-Kept s path) (λ _ w1 s1.
      and_then-Kept (text_at-Kept s1 path) (λ name w2 s2.
        let asked = Wrappers.openat2 name (Constant.o_rdonly ∷ Constant.o_noatime ∷ []) in
        cat_opened-Kept fuel (k.rax w2.calls asked) (calls_Same s2 (later refl s2.quiet))))

  pub cmd_cat-Kept : (fuel next : ℕ) {v w : World} → Same v w → Kept v (cmd_cat k b fuel next w)
  unfolding cmd_cat
  cmd_cat-Kept fuel next s =
      and_then-Kept (find_in_line-Kept s next) (λ path w' s'. cat_file-Kept fuel path s')
