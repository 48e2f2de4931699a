-- ===== src/Tty/Step.antt =====
-- One character of `copy_to_cooked` (ver05/kernel/chr_drv/tty_io.c) and what it does to the lines.
use linux_0_12_study.Base.{
  Bool, Bool-cases, List, Option, ap, arith, false, inl, inr, none, refl, some, subst, suc, sym,
  word, zero, ℕ, ◌&&◌, ◌+◌, ◌<◌, ◌==◌, ◌∙◌, ◌∷◌, ◌≡◌,
}
use linux_0_12_study.Tty.{Tty, Queue, empty, last, l_echo, chars, putch, full, tty_buf_size}
use linux_0_12_study.Tty.Cooked.{
  kills, erases, stops, starts, accepts, ends_line, echo_erase, at_start, erase_char, kill_line,
  drop_last, signals, echo, accept, rubbed_out, echoed, send, cook, Action, action_of, perform,
  cook_or_skip,
}
use linux_0_12_study.Tty.Ring.{IsQueue, line, line-putch}
use linux_0_12_study.Tty.Edit.{
  rub_line, rub_char, edit, edit_or_skip, ends_in, Same, KeepsInput, Edited, drop, drop-IsQueue,
  rub_line-start, rub_line-drop, ends_in-lt,
}

-- The parts of `t` and `r` that a step compares, when the secondary queue of r is q.
Edited-queue :
    (t r : Tty) (q : Queue) (l : List ℕ)
    → r.secondary ≡ q
    → r.read_q ≡ t.read_q
    → r.termios ≡ t.termios
    → IsQueue q
    → line q ≡ l
    → (t.secondary.lines ≡ ends_in t.termios (line t.secondary) → q.lines ≡ ends_in t.termios l)
    → Edited t r l
Edited-queue t r q l s a b w e c = record {
  range = subst (λ x. IsQueue x) (sym s) w;
  text = ap line s ∙ e;
  counted = λ h. ap (λ x. x.lines) s ∙ c h;
  rest = a;
  settings = b;
}

module _ (write : Tty → Tty) (is_orphaned_pgrp : ℕ → Bool) (keeps : KeepsInput write) where
  write_q-Same : (q : Queue) (t : Tty) → Same (write (record t { write_q = q })) t
  write_q-Same q t =
      let k = keeps (record t { write_q = q }) in
      record {
        secondary_same = k.secondary_same;
        read_same = k.read_same;
        termios_same = k.termios_same;
      }

  echo_erase-Same : (c : ℕ) (t : Tty) → Same (echo_erase write is_orphaned_pgrp c t) t
  echo_erase-Same c t = elim (Bool-cases (l_echo t.termios)) [
    | inl e ↦ rw e (write_q-Same (rubbed_out c t.write_q) t)
    | inr e ↦ rw e (record { secondary_same = refl; read_same = refl; termios_same = refl })
  ]

  -- One character is rubbed out.
  erased-Edited :
      (t : Tty)
      → IsQueue t.secondary
      → at_start t ≡ false
      → Edited t
          (drop_last write is_orphaned_pgrp
            (echo_erase write is_orphaned_pgrp (last t.secondary) t))
          (line (drop t.secondary))
  erased-Edited t w h =
      let u = echo_erase write is_orphaned_pgrp (last t.secondary) t in
      let k = echo_erase-Same (last t.secondary) t in
      let (_, _, n) = rub_line-drop t.termios t.secondary w h in
      Edited-queue t (drop_last write is_orphaned_pgrp u) (drop t.secondary)
        (line (drop t.secondary)) (ap drop k.secondary_same) k.read_same k.termios_same
        (drop-IsQueue t.secondary w) refl (λ c. c ∙ n)

  Edited-trans : (t r s : Tty) (l m : List ℕ) → Edited t r l → Edited r s m → Edited t s m
  Edited-trans t r s l m a b = record {
    range = b.range;
    text = b.text;
    counted = λ h.
        b.counted (
          a.counted h
          ∙ ap (λ x. ends_in x l) (sym a.settings)
          ∙ ap (ends_in r.termios) (sym a.text))
        ∙ ap (λ x. ends_in x m) a.settings;
    rest = b.rest ∙ a.rest;
    settings = b.settings ∙ a.settings;
  }

  unchanged-Edited : (t : Tty) → IsQueue t.secondary → Edited t t (line t.secondary)
  unchanged-Edited t w = record {
    range = w;
    text = refl;
    counted = λ h. h;
    rest = refl;
    settings = refl;
  }

  erase_char-Edited :
      (t : Tty)
      → IsQueue t.secondary
      → Edited t (erase_char write is_orphaned_pgrp t) (rub_char t.termios (line t.secondary))
  unfolding erase_char
  erase_char-Edited t w = elim (Bool-cases (at_start t)) [
    | inl e ↦
        let (_, r) = rub_line-start t.termios t.secondary w e in rw (e, r) (unchanged-Edited t w)
    | inr e ↦
        let (_, r, _) = rub_line-drop t.termios t.secondary w e in rw (e, r) (erased-Edited t w e)
  ]

  kill_line-Edited :
      (fuel : ℕ) (t : Tty)
      → IsQueue t.secondary
      → chars t.secondary < fuel
      → Edited t (kill_line write is_orphaned_pgrp fuel t) (rub_line t.termios (line t.secondary))
  unfolding kill_line
  kill_line-Edited zero t w h = absurd (omega arith)
  kill_line-Edited (suc fuel) t w h = elim (Bool-cases (at_start t)) [
    | inl e ↦
        let (r, _) = rub_line-start t.termios t.secondary w e in rw (e, r) (unchanged-Edited t w)
    | inr e ↦
        let u =
          drop_last write is_orphaned_pgrp
            (echo_erase write is_orphaned_pgrp (last t.secondary) t) in
        let one = erased-Edited t w e in
        let (r, _, _) = rub_line-drop t.termios t.secondary w e in
        let q : u.secondary ≡ drop t.secondary =
          ap drop (echo_erase-Same (last t.secondary) t).secondary_same in
        let some_char : empty t.secondary ≡ false = ground arith in
        let n : chars (drop t.secondary) < fuel =
          ground (arith, w.head_range, w.tail_range, some_char) in
        let go = kill_line-Edited fuel u one.range (subst (λ x. chars x < fuel) (sym q) n) in
        rw (e, r)
          (Edited-trans t u (kill_line write is_orphaned_pgrp fuel u) (line (drop t.secondary))
            (rub_line t.termios (line (drop t.secondary))) one
            (subst (λ l. Edited u (kill_line write is_orphaned_pgrp fuel u) l)
              (ap (λ x. rub_line x (line u.secondary)) one.settings
                ∙ ap (rub_line t.termios) one.text)
              go))
  ]

  echo-Same : (c : ℕ) (t : Tty) → Same (echo write is_orphaned_pgrp c t) t
  echo-Same c t = elim (Bool-cases (l_echo t.termios)) [
    | inl e ↦ rw e (write_q-Same (echoed t.termios c t.write_q) t)
    | inr e ↦ rw e (record { secondary_same = refl; read_same = refl; termios_same = refl })
  ]

  accept-Edited :
      (c : ℕ) (t : Tty)
      → IsQueue t.secondary
      → full t.secondary ≡ false
      → Edited t (accept write is_orphaned_pgrp c t) (c ∷ line t.secondary)
  unfolding accept
  accept-Edited c t w h = elim (Bool-cases (ends_line t.termios c)) [
    | inl e ↦
        let q = record t.secondary { lines = word (t.secondary.lines + 1) } in
        let counted = record t { secondary = q } in
        let k = echo-Same c counted in
        rw e (
          Edited-queue t
            (record (echo write is_orphaned_pgrp c counted) {
              secondary = putch c (echo write is_orphaned_pgrp c counted).secondary;
            })
            (putch c q) (c ∷ line t.secondary) (ap (putch c) k.secondary_same) k.read_same
            k.termios_same
            (record { head_range = omega (arith, w.head_range); tail_range = w.tail_range })
            (line-putch q c (record { head_range = w.head_range; tail_range = w.tail_range }) h)
            (λ n. rw e (omega (arith, n, ends_in-lt t.termios t.secondary w))))
    | inr e ↦
        let k = echo-Same c t in
        rw e (
          Edited-queue t
            (record (echo write is_orphaned_pgrp c t) {
              secondary = putch c (echo write is_orphaned_pgrp c t).secondary;
            })
            (putch c t.secondary) (c ∷ line t.secondary) (ap (putch c) k.secondary_same) k.read_same
            k.termios_same
            (record { head_range = omega (arith, w.head_range); tail_range = w.tail_range })
            (line-putch t.secondary c w h) (λ n. rw e n))
  ]

  set_stopped-Edited :
      (v : ℕ) (t : Tty)
      → IsQueue t.secondary
      → Edited t (write (record t { stopped = v })) (line t.secondary)
  set_stopped-Edited v t w =
      let k = keeps (record t { stopped = v }) in
      Edited-queue t (write (record t { stopped = v })) t.secondary (line t.secondary)
        k.secondary_same k.read_same k.termios_same w refl (λ n. n)

  send-Edited :
      (sig : ℕ) (t : Tty)
      → IsQueue t.secondary
      → Edited t (send write is_orphaned_pgrp sig t) (line t.secondary)
  send-Edited sig t w = elim (Bool-cases ((sig == 20) && is_orphaned_pgrp t.pgrp)) [
    | inl e ↦ rw e (unchanged-Edited t w)
    | inr e ↦ rw e (
        Edited-queue t (record t { killed = (t.pgrp, sig) ∷ t.killed }) t.secondary
          (line t.secondary) refl refl refl w refl (λ n. n))
  ]

  perform-Edited :
      (a : Action) (c : ℕ) (t : Tty)
      → IsQueue t.secondary
      → full t.secondary ≡ false
      → Edited t (perform write is_orphaned_pgrp a c t) (edit t.termios a c (line t.secondary))
  unfolding perform
  perform-Edited kills c t w h = kill_line-Edited tty_buf_size t w (omega arith)
  perform-Edited erases c t w h = erase_char-Edited t w
  perform-Edited stops c t w h = set_stopped-Edited 1 t w
  perform-Edited starts c t w h = set_stopped-Edited 0 t w
  perform-Edited (signals sig) c t w h = send-Edited sig t w
  perform-Edited accepts c t w h = accept-Edited c t w h

  -- A round of the loop.
  pub take_char-Edited :
      (o : Option ℕ) (t : Tty)
      → IsQueue t.secondary
      → full t.secondary ≡ false
      → Edited t
          (cook_or_skip write is_orphaned_pgrp o t)
          (edit_or_skip t.termios o (line t.secondary))
  unfolding cook
  take_char-Edited none t w h = unchanged-Edited t w
  take_char-Edited (some c) t w h = perform-Edited (action_of t.termios c) c t w h
