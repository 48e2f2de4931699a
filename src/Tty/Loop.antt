-- ===== src/Tty/Loop.antt =====
-- The loop of `copy_to_cooked` (ver05/kernel/chr_drv/tty_io.c).
use linux_0_12_study.Base.{
  Bool, Bool-cases, ap, arith, false, if◌then◌else◌, inl, inr, length, refl, subst, suc, sym, true,
  zero, ℕ, ◌+◌, ◌<◌, ◌∙◌, ◌≡◌, ◌≤◌,
}
use linux_0_12_study.Tty.{Tty, empty, chars, full, tty_buf_size, inc}
use linux_0_12_study.Tty.Cooked.{input_char, cook_or_skip, copy_loop, copy_to_cooked}
use linux_0_12_study.Tty.Ring.{IsQueue, line, input, input-getch, input-empty}
use linux_0_12_study.Tty.Edit.{
  edit_or_skip, edits, ends_in, KeepsInput, Edited, Cooked, length-edit, length-line,
}
use linux_0_12_study.Tty.Step.{take_char-Edited}

-- A round puts its character in front of those that follow.
step-Cooked :
    (t u s : Tty)
    → IsQueue t.read_q
    → empty t.read_q ≡ false
    → Edited
        (record t { read_q = record t.read_q { tail = inc t.read_q.tail } })
        u
        (edit_or_skip t.termios
          (input_char t.termios (t.read_q.buf t.read_q.tail))
          (line t.secondary))
    → Cooked u s
    → Cooked t s
step-Cooked t u s r e one rest = record {
  taken = rest.taken;
  cooked_range = rest.cooked_range;
  cooked =
      rest.cooked
      ∙ ap (λ x. edits x (input u.read_q) (line u.secondary)) one.settings
      ∙ ap (λ x. edits t.termios (input x) (line u.secondary)) one.rest
      ∙ ap (edits t.termios (input (record t.read_q { tail = inc t.read_q.tail }))) one.text
      ∙ sym (ap (λ x. edits t.termios x (line t.secondary)) (input-getch t.read_q r e));
  cooked_lines = λ n.
      rest.cooked_lines (
        one.counted n
        ∙ ap
            (λ x. ends_in x (
              edit_or_skip t.termios (input_char t.termios (t.read_q.buf t.read_q.tail))
                (line t.secondary)))
            (sym one.settings)
        ∙ ap (ends_in u.termios) (sym one.text))
      ∙ ap (λ x. ends_in x (line s.secondary)) one.settings;
}

module _ (write : Tty → Tty) (is_orphaned_pgrp : ℕ → Bool) (keeps : KeepsInput write) where
  loop-Edited :
      (fuel : ℕ) (t : Tty)
      → IsQueue t.read_q
      → IsQueue t.secondary
      → chars t.read_q < fuel
      → chars t.read_q + chars t.secondary < tty_buf_size
      → Cooked t (copy_loop write is_orphaned_pgrp fuel t)
  unfolding copy_loop
  loop-Edited zero t r w h room = absurd (omega arith)
  loop-Edited (suc fuel) t r w h room = elim (Bool-cases (empty t.read_q)) [
    | inl e ↦ rw e (record {
      taken = e;
      cooked_range = w;
      cooked = rw (input-empty t.read_q e) refl;
      cooked_lines = λ n. n;
    })
    | inr e ↦
        let f : full t.secondary ≡ false =
          ground (arith, r.head_range, r.tail_range, w.head_range, w.tail_range) in
        let q = record t.read_q { tail = inc t.read_q.tail } in
        let v = record t { read_q = q } in
        let o = input_char t.termios (t.read_q.buf t.read_q.tail) in
        let u = cook_or_skip write is_orphaned_pgrp o v in
        let one = take_char-Edited write is_orphaned_pgrp keeps o v w f in
        let n : chars t.read_q ≡ suc (chars q) = ground (arith, r.head_range, r.tail_range) in
        let grown : chars u.secondary ≤ suc (chars t.secondary) = omega (
          arith,
          ap length one.text,
          length-line u.secondary,
          length-line t.secondary,
          length-edit t.termios o (line t.secondary),
        ) in
        let q_range : IsQueue q = record { head_range = r.head_range; tail_range = omega arith } in
        let q_chars : chars u.read_q ≡ chars q = ap chars one.rest in
        let rest =
          loop-Edited fuel u (subst (λ x. IsQueue x) (sym one.rest) q_range) one.range
            (omega (arith, q_chars)) (omega (arith, q_chars)) in
        rw (e, f) (step-Cooked t u (copy_loop write is_orphaned_pgrp fuel u) r e one rest)
  ]

  -- If the driver's `write` leaves the other queues and the settings alone, and what is in both queues
  -- fits into one, then `copy_to_cooked` takes all of the read queue, in the order of arrival, and
  -- the secondary queue becomes what editing makes of its characters: kill back to the end of the
  -- last line, erase one character of the line, and append. `lines` goes on counting the characters
  -- that end a line.
  pub copy_to_cooked-Cooked :
      (t : Tty)
      → t.has_queues ≡ true
      → IsQueue t.read_q
      → IsQueue t.secondary
      → chars t.read_q + chars t.secondary < tty_buf_size
      → Cooked t (copy_to_cooked write is_orphaned_pgrp t)
  unfolding copy_to_cooked
  copy_to_cooked-Cooked t on r w room =
      subst (λ b. Cooked t (if b then copy_loop write is_orphaned_pgrp tty_buf_size t else t))
        (sym on) (loop-Edited tty_buf_size t r w (omega arith) room)
