-- ===== src/System/Print/Frame.antt =====
-- write_int, WRITE_ERR and SYSCHECK leave the queue alone.
use minlinux.Base.{ℕ, ◌+◌, ◌%◌, ◌^◌, refl, List, ◌∷◌, ◌++◌, codes, replicate}
use minlinux.Base.Int.{ℤ, pos, negsuc, of_u64}
use minlinux.Util.Decimal.{Cursor, ltoa, int_to_str}
use minlinux.System.{Kernel, World, and_then, run, stop, exited, syscall, record_call, ◌>>=◌, ◌>>◌}
use minlinux.System.Abi.{Call, linux_reboot_cmd_power_off}
use minlinux.System.Wrappers
use minlinux.Memory.{Run, ok, fault, out_of_fuel}
use minlinux.System.Wrappers.{Text}
use minlinux.System.Print.{
  text_of, ended_text, after_reboot, stdout, write_str, write_int, write_err, syscheck,
}
use minlinux.System.Frame.{
  later, Accounted, reported, refused, Same, Kept, goes_on, ends, calls_Same, and_then-Kept,
  run-Kept,
}

module _ (k : Kernel) {v w : World} (s : Same v w) where
  pub write_int-Kept : (val : ℕ) → Kept v (write_int k val w)
  unfolding write_int
  write_int-Kept val =
      and_then-Kept (run-Kept (text_of (ltoa (of_u64 val) (replicate 21 0))) s)
        (λ str w' s'. goes_on (calls_Same s' (later refl s'.quiet)))

module _ (k : Kernel) {v w : World} (s : Same v w) where
  pub write_err-Kept : (str : Text) (err : ℤ) → Kept v (write_err k str err w)
  write_err-Kept str err =
      and_then-Kept (write_int-Kept k (calls_Same s (later refl (later refl s.quiet))) _)
        (λ _ w' s'. goes_on (calls_Same s' (later refl s'.quiet)))

  pub syscheck-Kept : (place : Text) (res : ℤ) → Kept v (syscheck k place res w)
  unfolding syscheck
  syscheck-Kept place (pos n) = goes_on s
  syscheck-Kept place (negsuc n) = told (int_to_str (negsuc n) (replicate 21 0))
    where
      told :
          (r : Run Cursor)
          → Kept {A = ℤ} v (
              and_then
                (run r (record_call (Wrappers.write stdout (place ++ codes " syscall error ")) w))
                (λ intstr. ended_text intstr >>= λ str.
                  write_str k str
                  >> (write_str k (codes "\n")
                      >> (syscall k (Wrappers.exit ((n + 1) % 2 ^ 16))
                          >> stop (exited ((n + 1) % 2 ^ 16))))))
      told (ok c) = ends (calls_Same s (later refl s.quiet)) (reported place _ refl)
      told fault = ends (calls_Same s (later refl s.quiet)) tt
      told out_of_fuel = ends (calls_Same s (later refl s.quiet)) tt

pub after_reboot-Accounted :
    (res : ℤ) (before : List Call)
    → Accounted (after_reboot res) (Wrappers.reboot_hard linux_reboot_cmd_power_off ∷ before)
after_reboot-Accounted (pos n) before = tt
after_reboot-Accounted (negsuc n) before = refused before refl
