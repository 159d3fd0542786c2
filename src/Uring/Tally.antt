-- ===== src/Uring/Tally.antt =====
-- The requests and completions in the rings of util/uring_ctl.c, counted by their user data.
use minlinux.Base.{
  ℕ, ◌+◌, ◌≡◌, refl, ap, ◌∙◌, Option, none, some, List, [], ◌∷◌, ◌++◌, All, arith, length, false,
}
use minlinux.Uring.{Uring, Sqe, Cqe}
use minlinux.System.Abi.{Call}
use minlinux.System.Frame.{is_enter}
use minlinux.Uring.Complete.{IsCqValid, completions}
use minlinux.Uring.Contract.{count, requests, answers, handed}

pub count-append : (x : ℕ) (ys zs : List ℕ) → count x (ys ++ zs) ≡ count x ys + count x zs
count-append x [] zs = omega arith
count-append x (y ∷ ys) zs = omega (arith, count-append x ys zs)

pub answers-append : (es fs : List (Option Cqe)) → answers (es ++ fs) ≡ answers es ++ answers fs
answers-append [] fs = refl
answers-append (none ∷ es) fs = answers-append es fs
answers-append (some e ∷ es) fs = ap (λ l. e.user_data ∷ l) (answers-append es fs)

pub requests-append : (es fs : List (Option Sqe)) → requests (es ++ fs) ≡ requests es ++ requests fs
requests-append [] fs = refl
requests-append (none ∷ es) fs = requests-append es fs
requests-append (some e ∷ es) fs = ap (λ l. e.user_data ∷ l) (requests-append es fs)

pub All-append {ℓ} :
    {A : Type ℓ} (P : A → Type 0) (xs ys : List A) → All P xs → All P ys → All P (xs ++ ys)
All-append P [] ys h h' = h'
All-append P (x ∷ xs) ys (p, h) h' = (p, All-append P xs ys h h')

pub handed_quiet :
    (ks : ℕ) (c : Call) (before : List Call)
    → is_enter c.number ≡ false
    → handed ks (c ∷ before) ≡ handed ks before
handed_quiet ks c before quiet = rw quiet refl

-- The completion ring of a queue with the same fields.
module _ (kc : ℕ) (u u' : Uring)
    (same : (u'.cqes ≡ u.cqes)
      × (u'.cq_head ≡ u.cq_head)
      × (u'.cq_tail ≡ u.cq_tail)
      × (u'.cq_mask ≡ u.cq_mask)) where
  pub completions_same : completions kc u' ≡ completions kc u
  completions_same = rw (same.0, same.1, same.2) refl

  pub IsCqValid-same : IsCqValid kc u → IsCqValid kc u'
  IsCqValid-same v = record {
    order = v.order;
    mask = same.3 ∙ v.mask;
    size = ap (λ l. length l) same.0 ∙ v.size;
    head_small = omega (arith, same.1, v.head_small);
    tail_small = omega (arith, same.2, v.tail_small);
    fits = rw (same.1, same.2) v.fits;
  }
