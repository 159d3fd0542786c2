-- ===== src/System/Print/Laws.antt =====
-- util/util.c and include/minlinux/util.h: write_int and SYSCHECK.
use minlinux.Base.{
  ℕ, zero, suc, ◌^◌, ◌<◌, ◌≡◌, ◌≢◌, ◌⊎◌, inl, inr, refl, ap, some, List, [], ◌∷◌, ◌++◌, arith, take,
  drop, length, get_elem?, codes, replicate,
}
use minlinux.Base.Int.{ℤ, pos, negsuc, IsInt64, of_u64}
use minlinux.Memory.{Memory, Run, ok}
use minlinux.Memory.Text.{HasText}
use minlinux.Util.Text.Laws.{strlen_lem}
use minlinux.Util.Decimal.{Cursor, ltoa}
use minlinux.Util.Decimal.Numeral.{IsDecimal}
use minlinux.Util.Decimal.Laws.{PrintsDecimal, prints_decimal}
use minlinux.System.{
  Kernel, World, Outcome, returned, stopped, crashed, undefined, Unit0, record_call,
}
use minlinux.System.Wrappers
use minlinux.System.Wrappers.{Text}
use minlinux.System.Print.{text_of, write_int, syscheck, stdout, after_reboot}

drop_text : (m : Memory) (p : ℕ) (c : ℕ) → get_elem? m p ≡ some c → drop p m ≡ c ∷ drop (suc p) m
drop_text [] p c h = absurd (cc)
drop_text (x ∷ m) zero c h = cc
drop_text (x ∷ m) (suc p) c h = drop_text m p c h

pub take_text : (m : Memory) (p : ℕ) (s : List ℕ) → HasText m p s → take (length s) (drop p m) ≡ s
take_text m p [] h = refl
take_text m p (c ∷ s) (read, _, h) =
    rw (drop_text m p c read) (ap (λ l. c ∷ l) (take_text m (suc p) s h))

text_of_decimal : (i : ℤ) (r : Run Cursor) (p : PrintsDecimal i r) → text_of r ≡ ok p.notation
unfolding text_of
text_of_decimal i r p =
    let (counts, _) = strlen_lem p.cursor.bytes p.cursor.next in
    let counted = (counts (length p.notation)).1 (p.notation, p.text, refl) in
    rw (p.returns, counted, take_text p.cursor.bytes p.cursor.next p.notation p.text) refl

of_u64-IsInt64 : (val : ℕ) → val < 2 ^ 64 → IsInt64 (of_u64 val)
of_u64-IsInt64 val small = ground arith

-- A program that only wrote the decimal notation of `i`.
pub record Writes (i : ℤ) (w : World) (run : Outcome Unit0) : Type 0 where
  pub notation : Text
  pub decimal : IsDecimal i notation
  pub returns : run ≡ returned tt (record_call (Wrappers.write stdout notation) w)

-- write_int of a number below 2^64 makes one call, which writes the decimal notation of the `long` that the 64 bits of its
-- argument stand for, and returns.
pub write_int-Writes :
    (k : Kernel) (val : ℕ) (w : World) → val < 2 ^ 64 → Writes (of_u64 val) w (write_int k val w)
unfolding write_int
write_int-Writes k val w small =
    let p = (prints_decimal (of_u64 val) (replicate 21 0) (of_u64-IsInt64 val small) refl).0 in
    record {
      notation = p.notation;
      decimal = p.decimal;
      returns = rw (text_of_decimal (of_u64 val) (ltoa (of_u64 val) (replicate 21 0)) p) refl;
    }

-- A program that wrote the place of a failed call and then read the text of the error through a
-- pointer to an object that had ended.
abbrev pub Breaks : {A : Type 0} → Text → World → Outcome A → Type 0
Breaks place w run =
    run
    ≡ stopped undefined (record_call (Wrappers.write stdout (place ++ codes " syscall error ")) w)

abbrev pub Checks : Text → ℤ → World → Outcome ℤ → Type 0
Checks place (pos n) w run = run ≡ returned (pos n) w
Checks place (negsuc n) w run = Breaks place w run

-- SYSCHECK gives a result that is not negative back and makes no call. For an error it writes the
-- place, and then reads through the pointer that int_to_str left to its own ended object.
pub syscheck-Checks :
    (k : Kernel) (place : Text) (res : ℤ) (w : World)
    → IsInt64 res
    → Checks place res w (syscheck k place res w)
unfolding syscheck
syscheck-Checks k place (pos n) w small = refl
syscheck-Checks k place (negsuc n) w small =
    let p = (prints_decimal (negsuc n) (replicate 21 0) small refl).1 in rw (p.returns) refl

-- A checked call goes on with its result, or it failed and the text of its error is gone.
pub syscheck_cases :
    (k : Kernel) (place : Text) (res : ℤ) (w : World)
    → IsInt64 res
    → (syscheck k place res w ≡ returned res w)
      ⊎ ((n : ℕ) × (res ≡ negsuc n) × Breaks place w (syscheck k place res w))
syscheck_cases k place (pos n) w small = inl (syscheck-Checks k place (pos n) w small)
syscheck_cases k place (negsuc n) w small =
    inr (n, refl, syscheck-Checks k place (negsuc n) w small)

pub after_reboot-ne-crashed : (res : ℤ) → after_reboot res ≢ crashed
after_reboot-ne-crashed (pos n) e = cc
after_reboot-ne-crashed (negsuc n) e = cc
