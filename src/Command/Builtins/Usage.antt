-- ===== src/Command/Builtins/Usage.antt =====
-- init/command.c: what usage writes.
use minlinux.Base.{ℕ, ◌+◌, ◌-◌, ◌*◌, ◌%◌, ◌^◌, ◌≤◌, ◌<◌, ◌≡◌, refl, [], ◌∷◌, ◌++◌, arith, codes}
use native.Mathlib.Nat.{mul-le-mul_right}
use minlinux.Base.Int.{ℤ, pos, negsuc, IsInt64, of_u64}
use minlinux.Util.Decimal.Numeral.{IsDecimal}
use minlinux.System.{Kernel, World, Outcome, returned, Unit0, and_then, record_call, ◌>>◌}
use minlinux.System.Wrappers
use minlinux.System.Wrappers.{Text}
use minlinux.System.Print.{Build, stdout, write_str, write_int, syscheck}
use minlinux.System.Print.Laws.{Writes, write_int-Writes, Breaks, syscheck-Checks}
use minlinux.Command.Builtins.{cmd_usage}

-- The memory in use and all memory, in bytes, written in decimal.
pub record TellsUsage (total free unit : ℕ) (w : World) (run : Outcome Unit0) : Type 0 where
  pub used : Text
  pub all : Text
  pub used_decimal : IsDecimal (pos ((total - free) * unit)) used
  pub all_decimal : IsDecimal (pos (total * unit)) all
  pub returns :
      run
      ≡ returned tt (record w {
        calls =
            Wrappers.write stdout (codes " bytes\n")
            ∷ Wrappers.write stdout all
            ∷ Wrappers.write stdout (codes "/")
            ∷ Wrappers.write stdout used
            ∷ Wrappers.write stdout (codes "Memory Used/Total: ")
            ∷ Wrappers.sysinfo
            ∷ w.calls;
      })

small_Writes :
    (k : Kernel) (n val : ℕ) (w : World)
    → val ≡ n
    → n < 2 ^ 63
    → Writes (pos n) w (write_int k val w)
small_Writes k n val w e h =
    let p = write_int-Writes k n w (omega arith) in
    let same : of_u64 n ≡ pos n = ground arith in rw (e, ← same) p

module _ (k : Kernel) (b : Build) (total free unit : ℕ) (w : World) where
  -- What usage leaves, where sysinfo answered `res`.
  abbrev pub Tells : ℤ → Outcome Unit0 → Type 0
  Tells (pos n) run = TellsUsage total free unit w run
  Tells (negsuc n) run = Breaks (b.command_c ++ codes ":128") (record_call Wrappers.sysinfo w) run

  module _ (some_free : free ≤ total) (wide_total : total < 2 ^ 64)
      (fits : total * unit < 2 ^ 63) where
    used_le : (total - free) * unit ≤ total * unit
    used_le = mul-le-mul_right unit (omega arith)

    used_lem : (total + 2 ^ 64 - free) % 2 ^ 64 * unit % 2 ^ 64 ≡ (total - free) * unit
    used_lem =
        let difference : (total + 2 ^ 64 - free) % 2 ^ 64 ≡ total - free = omega arith in
        rw difference (omega (arith, used_le))

    -- usage, where sysinfo gives no more free memory than memory, fewer than 2^64 units of it and
    -- fewer than 2^63 bytes: it writes the bytes in use and all bytes, in decimal and without
    -- overflow, and returns; if sysinfo fails it writes the place and comes to the text of the
    -- error, which has ended, so that what follows is undefined.
    pub cmd_usage-Tells :
        k.fields w.calls Wrappers.sysinfo ≡ pos total ∷ pos free ∷ pos unit ∷ []
        → IsInt64 (k.rax w.calls Wrappers.sysinfo)
        → Tells (k.rax w.calls Wrappers.sysinfo) (cmd_usage k b w)
    unfolding cmd_usage
    cmd_usage-Tells info wide = rw info (answered (k.rax w.calls Wrappers.sysinfo) wide)
      where
        answered :
            (res : ℤ)
            → IsInt64 res
            → Tells res (
                and_then
                  (syscheck k (b.command_c ++ codes ":128") res (record_call Wrappers.sysinfo w))
                  (λ _.
                    write_str k (codes "Memory Used/Total: ")
                    >> (write_int k ((total + 2 ^ 64 - free) % 2 ^ 64 * unit % 2 ^ 64)
                        >> (write_str k (codes "/")
                            >> (write_int k (total * unit % 2 ^ 64)
                                >> write_str k (codes " bytes\n"))))))
        answered (pos n) h =
            let head = Wrappers.write stdout (codes "Memory Used/Total: ") in
            let p =
              small_Writes k ((total - free) * unit) _
                (record w { calls = head ∷ Wrappers.sysinfo ∷ w.calls }) used_lem
                (omega (arith, used_le)) in
            let between = Wrappers.write stdout (codes "/") in
            let number = Wrappers.write stdout p.notation in
            let q =
              small_Writes k (total * unit) (total * unit % 2 ^ 64)
                (record w { calls = between ∷ number ∷ head ∷ Wrappers.sysinfo ∷ w.calls })
                (omega arith) fits in
            let checked =
              syscheck-Checks k (b.command_c ++ codes ":128") (pos n)
                (record_call Wrappers.sysinfo w) h in
            record {
              used = p.notation;
              all = q.notation;
              used_decimal = p.decimal;
              all_decimal = q.decimal;
              returns = rw (checked, p.returns, q.returns) refl;
            }
        answered (negsuc n) h =
            rw
              (syscheck-Checks k (b.command_c ++ codes ":128") (negsuc n)
                (record_call Wrappers.sysinfo w) h)
              refl
