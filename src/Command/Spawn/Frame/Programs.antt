-- ===== src/Command/Spawn/Frame/Programs.antt =====
-- init/command.c: memrun and busybox leave the queue alone, in the parent and in the child.
use minlinux.Base.{ℕ, zero, suc, refl, [], ◌∷◌, Option, none, some, codes, set, drop}
use minlinux.Base.Int.{ℤ, pos, negsuc, to_u64}
use minlinux.System.{Kernel, World}
use minlinux.System.Abi.{Constant, flags, int}
use minlinux.System.Wrappers
use minlinux.System.Wrappers.{Text}
use minlinux.System.Print.{Build, stdout}
use minlinux.System.Print.Frame.{write_int-Kept, write_err-Kept, syscheck-Kept}
use minlinux.System.Frame.{later, Same, Kept, goes_on, calls_Same, and_then-Kept}
use minlinux.Command.Builtins.{field}
use minlinux.Command.Frame.{find_in_line-Kept, terminate_in_line-Kept, text_at-Kept}
use minlinux.Command.Spawn.{
  place, fresh_args, memrun_child, memrun_parent, memrun_fork, memrun_path, cmd_memrun,
  busybox_child, busybox_parent, busybox_fork, busybox,
}
use minlinux.Command.Spawn.Frame.{texts_of-Kept, fill_from-Kept, open_console-Kept, exec-Kept}

module _ (k : Kernel) (b : Build) where
  memrun_child-Kept :
      (path next : ℕ) {v w : World} → Same v w → Kept v (memrun_child k b path next w)
  unfolding memrun_child
  memrun_child-Kept path next s =
      and_then-Kept (fill_from-Kept k b 1 (set (fresh_args k b) 0 (some path)) (some next) s)
        (λ cells w1 s1.
          and_then-Kept (open_console-Kept k b (codes ":174") (codes ":175") (codes ":176") s1)
            (λ _ w2 s2.
              let memfd_call = Wrappers.memfd_create 0 in
              let memfd = k.rax w2.calls memfd_call in
              and_then-Kept (text_at-Kept (calls_Same s2 (later refl s2.quiet)) path) (λ name w3 s3.
                and_then-Kept
                  (syscheck-Kept k (calls_Same s3 (later refl s3.quiet)) (place k b (codes ":183"))
                    (k.rax w3.calls (Wrappers.openat2 name (Constant.o_cloexec ∷ []))))
                  (λ infd w4 s4.
                    let stat_call = Wrappers.fstatat infd [] (Constant.at_empty_path ∷ []) in
                    let size = field 0 (k.fields w4.calls stat_call) in
                    and_then-Kept
                      (syscheck-Kept k (calls_Same s4 (later refl s4.quiet))
                        (place k b (codes ":187")) (k.rax w4.calls stat_call))
                      (λ _ w5 s5.
                        and_then-Kept
                          (syscheck-Kept k (calls_Same s5 (later refl s5.quiet))
                            (place k b (codes ":191"))
                            (k.rax w5.calls (Wrappers.copy_file_range infd memfd size)))
                          (λ _ w6 s6. and_then-Kept (texts_of-Kept cells s6) (λ args w7 s7.
                            exec-Kept k b (codes ":200") (int memfd) [] args
                              (Constant.at_empty_path ∷ []) s7)))))))

  memrun_parent-Kept : (tid : ℤ) {v w : World} → Same v w → Kept v (memrun_parent k b tid w)
  unfolding memrun_parent
  memrun_parent-Kept tid s =
      let wait_call = Wrappers.waitid Constant.p_pid tid (Constant.wexited ∷ []) in
      and_then-Kept (write_int-Kept k (calls_Same s (later refl s.quiet)) (to_u64 tid)) (λ _ w1 s1.
        let before = Wrappers.write stdout (codes "\n") ∷ w1.calls in
        let siginfo = k.fields before wait_call in
        and_then-Kept
          (syscheck-Kept k (calls_Same s1 (later refl (later refl s1.quiet)))
            (place k b (codes ":153")) (k.rax before wait_call))
          (λ _ w2 s2.
            and_then-Kept
              (write_int-Kept k (calls_Same s2 (later refl s2.quiet)) (to_u64 (field 0 siginfo)))
              (λ _ w3 s3.
                and_then-Kept
                  (write_int-Kept k (calls_Same s3 (later refl s3.quiet))
                    (to_u64 (field 1 siginfo)))
                  (λ _ w4 s4. goes_on (calls_Same s4 (later refl s4.quiet))))))

  memrun_fork-Kept :
      (tid : ℤ) (path next : ℕ) {v w : World} → Same v w → Kept v (memrun_fork k b tid path next w)
  unfolding memrun_fork
  memrun_fork-Kept (pos zero) path next s = memrun_child-Kept path next s
  memrun_fork-Kept (pos (suc n)) path next s = memrun_parent-Kept (pos (suc n)) s
  memrun_fork-Kept (negsuc n) path next s = write_err-Kept k s (codes "clone3 error") (negsuc n)

  memrun_path-Kept : (path : Option ℕ) {v w : World} → Same v w → Kept v (memrun_path k b path w)
  unfolding memrun_path
  memrun_path-Kept none s = goes_on (calls_Same s (later refl s.quiet))
  memrun_path-Kept (some path) s = and_then-Kept (terminate_in_line-Kept s path) (λ next w1 s1.
      memrun_fork-Kept (k.rax w1.calls (Wrappers.clone3 Constant.sigchld)) path next
        (calls_Same s1 (later refl s1.quiet)))

  pub cmd_memrun-Kept : (next : ℕ) {v w : World} → Same v w → Kept v (cmd_memrun k b next w)
  unfolding cmd_memrun
  cmd_memrun-Kept next s =
      and_then-Kept (find_in_line-Kept s next) (λ path w' s'. memrun_path-Kept path s')

  busybox_child-Kept :
      (command : ℕ) (next : Option ℕ) {v w : World}
      → Same v w
      → Kept v (busybox_child k b command next w)
  unfolding busybox_child
  busybox_child-Kept command next s =
      and_then-Kept (fill_from-Kept k b 2 (set (fresh_args k b) 1 (some command)) next s)
        (λ cells w1 s1.
          and_then-Kept (open_console-Kept k b (codes ":240") (codes ":241") (codes ":242") s1)
            (λ _ w2 s2. and_then-Kept (texts_of-Kept (drop 1 cells) s2) (λ args w3 s3.
              exec-Kept k b (codes ":251") (flags (Constant.at_fdcwd ∷ [])) (codes "/busybox")
                (codes "/busybox" ∷ args) [] s3)))

  busybox_parent-Kept : (tid : ℤ) {v w : World} → Same v w → Kept v (busybox_parent k b tid w)
  unfolding busybox_parent
  busybox_parent-Kept tid {v} {w} s =
      let wait_call = Wrappers.waitid Constant.p_pid tid (Constant.wexited ∷ []) in
      let siginfo = k.fields w.calls wait_call in
      and_then-Kept
        (syscheck-Kept k (calls_Same s (later refl s.quiet)) (place k b (codes ":219"))
          (k.rax w.calls wait_call))
        (λ _ w1 s1.
          and_then-Kept
            (write_int-Kept k (calls_Same s1 (later refl s1.quiet)) (to_u64 (field 1 siginfo)))
            (λ _ w2 s2. goes_on (calls_Same s2 (later refl s2.quiet))))

  busybox_fork-Kept :
      (tid : ℤ) (command : ℕ) (next : Option ℕ) {v w : World}
      → Same v w
      → Kept v (busybox_fork k b tid command next w)
  unfolding busybox_fork
  busybox_fork-Kept (pos zero) command next s = busybox_child-Kept command next s
  busybox_fork-Kept (pos (suc n)) command next s = busybox_parent-Kept (pos (suc n)) s
  busybox_fork-Kept (negsuc n) command next s = write_err-Kept k s (codes "clone3 error") (negsuc n)

  pub busybox-Kept :
      (command next : ℕ) {v w : World} → Same v w → Kept v (busybox k b command next w)
  unfolding busybox
  busybox-Kept command next s = and_then-Kept (find_in_line-Kept s next) (λ next' w1 s1.
      busybox_fork-Kept (k.rax w1.calls (Wrappers.clone3 Constant.sigchld)) command next'
        (calls_Same s1 (later refl s1.quiet)))
