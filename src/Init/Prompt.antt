-- ===== src/Init/Prompt.antt =====
-- init/init.c: create_console_prompt and submit_sig_listen on the submission ring.
use minlinux.Base.{
  ℕ, ◌+◌, ◌^◌, ◌≤◌, ◌<◌, ◌≡◌, ap, ◌∙◌, Option, some, List, [], ◌∷◌, ◌++◌, append_assoc, arith, inl,
  inr, length, length-append, get_elem?,
}
use minlinux.Uring.{
  Uring, Sqe, fill, ioring_op_read, ioring_op_write, io_link, prompt_text, console_buffer,
}
use minlinux.Base.Int.{pos}
use minlinux.Uring.Window.{length-window}
use minlinux.Uring.Valid.{published, taken, IsValid, visible, queued, entry_of, slot}
use minlinux.Uring.Submit.{uring_new_submission_lem}
use minlinux.System.{World, Outcome, returned, stopped, crashed, Unit0}
use minlinux.Init.{submit, create_console_prompt, prompt_sqe, read_sqe}

-- The entries in use, on both sides of the kernel's tail.
abbrev pub used : ℕ → Uring → ℕ
used k u = length (visible k u) + length (queued k u)

used_lem : (k : ℕ) (u : Uring) → used k u ≡ published u + taken u
used_lem k u = omega (
  arith,
  length-window (λ c. entry_of u.sqes (get_elem? u.sq_array (slot k c))) u.sq_head (published u),
  length-window (λ c. get_elem? u.sqes (slot k c)) u.sq_list_head (taken u),
)

-- A program that only put the entries `new` behind those waiting in the ring.
pub record Queues (k : ℕ) (w : World) (new : List (Option Sqe)) (run : Outcome Unit0) : Type 0 where
  pub after : Uring
  pub returns : run ≡ returned tt (record w { uring = after })
  pub valid : IsValid k after
  pub same_visible : visible k after ≡ visible k w.uring
  pub at_end : queued k after ≡ queued k w.uring ++ new
  pub same_completions :
      (after.cqes ≡ w.uring.cqes)
      × (after.cq_head ≡ w.uring.cq_head)
      × (after.cq_tail ≡ w.uring.cq_tail)
      × (after.cq_mask ≡ w.uring.cq_mask)

pub submit-Queues :
    (k : ℕ) (w : World) (e : Sqe)
    → IsValid k w.uring
    → used k w.uring < 2 ^ k
    → Queues k w (some e ∷ []) (submit e w)
submit-Queues k w e v room = elim (uring_new_submission_lem k w.uring e v) [
  | inl (full, _) ↦ absurd (omega (arith, used_lem k w.uring))
  | inr (_, t) ↦ record {
    after = fill t.after t.index e;
    returns = rw t.returns;
    valid = t.valid;
    same_visible = t.same_visible;
    at_end = t.at_end;
    same_completions = t.same_completions;
  }
]

submit_full :
    (k : ℕ) (w : World) (e : Sqe)
    → IsValid k w.uring
    → used k w.uring ≡ 2 ^ k
    → submit e w ≡ stopped crashed w
submit_full k w e v full = elim (uring_new_submission_lem k w.uring e v) [
  | inl (_, refused) ↦ rw refused
  | inr (room, _) ↦ absurd (omega (arith, used_lem k w.uring))
]

-- With two entries of a well-formed ring free, create_console_prompt makes no system call and puts
-- two entries last among those taken: the write of the nine bytes of the prompt to the standard
-- output, linked to the entry behind it, and the read of at most 1024 bytes of the standard input
-- into the console buffer. What the kernel may read is unchanged and the ring stays well formed.
pub create_console_prompt-Queues :
    (k : ℕ) (w : World)
    → IsValid k w.uring
    → used k w.uring + 2 ≤ 2 ^ k
    → Queues k w
        (some (record {
          opcode = ioring_op_write;
          fd = pos 1;
          addr = prompt_text;
          len = 9;
          flags = io_link ∷ [];
          ioprio = 0;
          user_data = 2;
        })
          ∷ some (record {
            opcode = ioring_op_read;
            fd = pos 0;
            addr = console_buffer;
            len = 1024;
            flags = [];
            ioprio = 0;
            user_data = 0;
          })
          ∷ [])
        (create_console_prompt w)
unfolding create_console_prompt
create_console_prompt-Queues k w v room =
    let q = submit-Queues k w prompt_sqe v (omega arith) in
    let w' = record w { uring = q.after } in
    let longer : used k q.after ≡ used k w.uring + 1 =
      rw (q.same_visible, q.at_end, length-append (queued k w.uring)) (omega arith) in
    let q' = submit-Queues k w' read_sqe q.valid (omega (arith, longer)) in
    record {
      after = q'.after;
      returns = rw (q.returns, q'.returns);
      valid = q'.valid;
      same_visible = q'.same_visible ∙ q.same_visible;
      at_end =
          q'.at_end
          ∙ ap (λ l. l ++ (some read_sqe ∷ [])) q.at_end
          ∙ append_assoc (queued k w.uring) _ _;
      same_completions =
          let p = q.same_completions in
          let p' = q'.same_completions in (p'.0 ∙ p.0, p'.1 ∙ p.1, p'.2 ∙ p.2, p'.3 ∙ p.3);
    }
