-- ===== src/Tty/Send.antt =====
-- What `tty_write` of ver05/kernel/chr_drv/tty_io.c puts into the write queue.
use linux_0_12_study.Base.{
  Bool-cases, List, [], ap, arith, false, if◌then◌else◌, inl, inr, int_le, refl, suc, sym, true,
  word_sub, zero, ℕ, ◌*◌, ◌+◌, ◌<◌, ◌^◌, ◌∙◌, ◌∷◌, ◌≡◌, ◌≤◌,
}
use linux_0_12_study.Tty.{Queue, Termios, full, chars, tty_buf_size, putch}
use linux_0_12_study.Tty.Ring.{IsQueue, line, line-putch}
use linux_0_12_study.Tty.Transfer.{Output, fill_loop, posted_char, needs_cr, put_char}

-- The n bytes of the user's buffer from b on.
abbrev pub bytes_of : (ℕ → ℕ) → ℕ → ℕ → List ℕ
bytes_of buf zero b = []
bytes_of buf (suc n) b = buf b ∷ bytes_of buf n (b + 1)

-- The write queue, the latest character first, after these bytes: a newline that needs one gets a
-- carriage return in front. `cr` says that the first byte has got its carriage return already.
abbrev pub posted : Termios → ℕ → List ℕ → List ℕ → List ℕ
posted t cr [] l = l
posted t cr (c ∷ cs) l = posted t 0 cs (posted_char t c ∷ (if needs_cr t cr c then 13 ∷ l else l))

abbrev pub at : ℕ → ℕ → ℕ → Queue → Output
at done n cr q = record { done = done; nr = n; cr = cr; queue = q }

-- All n bytes are sent.
pub record Filled (t : Termios) (buf : ℕ → ℕ) (done n cr : ℕ) (q : Queue) (r : Output)
    : Type 0 where
  pub all_done : r.done ≡ done + n
  pub none_left : r.nr ≡ 0
  pub sent : line r.queue ≡ posted t cr (bytes_of buf n done) (line q)

fill_step :
    (t : Termios) (buf : ℕ → ℕ) (fuel done n cr : ℕ) (q : Queue)
    → suc n < 2 ^ 31
    → full q ≡ false
    → fill_loop t buf (suc fuel) (at done (suc n) cr q)
      ≡ fill_loop t buf fuel (put_char t (buf done) (at done (suc n) cr q))
unfolding fill_loop
fill_step t buf fuel done n cr q s f =
    let p : int_le (suc n) 0 ≡ false = ground arith in rw (p, f) refl

fill_none :
    (t : Termios) (buf : ℕ → ℕ) (fuel done cr : ℕ) (q : Queue)
    → fill_loop t buf fuel (at done 0 cr q) ≡ at done 0 cr q
unfolding fill_loop
fill_none t buf zero done cr q = refl
fill_none t buf (suc fuel) done cr q = refl

putch-IsQueue : (q : Queue) (c : ℕ) → IsQueue q → IsQueue (putch c q)
putch-IsQueue q c w = record { head_range = omega arith; tail_range = w.tail_range }

chars-putch : (q : Queue) (c : ℕ) → IsQueue q → full q ≡ false → chars (putch c q) ≡ suc (chars q)
chars-putch q c w f = ground (arith, w.head_range, w.tail_range)

-- The carriage return that a newline needs is sent before its round.
posted-cr :
    (t : Termios) (c cr : ℕ) (cs : List ℕ) (q : Queue)
    → needs_cr t cr c ≡ true
    → line (putch 13 q) ≡ 13 ∷ line q
    → posted t 1 (c ∷ cs) (line (putch 13 q)) ≡ posted t cr (c ∷ cs) (line q)
posted-cr t c cr cs q e l =
    let d = posted_char t c in
    let n : needs_cr t 1 c ≡ false = ground arith in
    ap (λ b. posted t 0 cs (d ∷ (if b then 13 ∷ line (putch 13 q) else line (putch 13 q)))) n
    ∙ ap (λ k. posted t 0 cs (d ∷ k)) l
    ∙ sym (ap (λ b. posted t 0 cs (d ∷ (if b then 13 ∷ line q else line q))) e)

-- With room for two characters for each byte, the inner loop of `tty_write` sends all of its n bytes:
-- the position is behind them, nothing is left, and the write queue has got their characters in
-- order, a carriage return in front of each newline that needs one and has not got it.
pub fill_loop-Filled :
    (t : Termios) (buf : ℕ → ℕ) (fuel done n cr : ℕ) (q : Queue)
    → IsQueue q
    → cr ≤ 1
    → 2 * n ≤ fuel + cr
    → chars q + 2 * n < tty_buf_size + cr
    → Filled t buf done n cr q (fill_loop t buf fuel (at done n cr q))
fill_loop-Filled t buf fuel done zero cr q w c f room =
    rw (fill_none t buf fuel done cr q)
      (record { all_done = omega arith; none_left = refl; sent = refl })
fill_loop-Filled t buf zero done (suc n) cr q w c f room = absurd (omega arith)
fill_loop-Filled t buf (suc fuel) done (suc n) cr q w c f room =
    let free : full q ≡ false = ground (arith, w.head_range, w.tail_range) in
    let step = fill_step t buf fuel done n cr q (omega arith) free in
    rw step (elim (Bool-cases (needs_cr t cr (buf done))) [
      | inl e ↦
          let z : cr ≡ 0 = ground (arith, e) in
          let k =
            fill_loop-Filled t buf fuel done (suc n) 1 (putch 13 q) (putch-IsQueue q 13 w)
              (omega arith) (omega (arith, z)) (omega (arith, z, chars-putch q 13 w free)) in
          rw e (record {
            all_done = k.all_done;
            none_left = k.none_left;
            sent =
                k.sent
                ∙ posted-cr t (buf done) cr (bytes_of buf n (done + 1)) q e
                    (line-putch q 13 w free);
          })
      | inr e ↦
          let d = posted_char t (buf done) in
          let less : word_sub (suc n) 1 ≡ n = omega arith in
          let k =
            fill_loop-Filled t buf fuel (done + 1) n 0 (putch d q) (putch-IsQueue q d w)
              (omega arith) (omega arith) (omega (arith, chars-putch q d w free)) in
          rw (e, less)
            (record {
              all_done = omega (arith, k.all_done);
              none_left = k.none_left;
              sent =
                  k.sent
                  ∙ ap (posted t 0 (bytes_of buf n (done + 1))) (line-putch q d w free)
                  ∙ sym (
                      ap
                        (λ x.
                          posted t 0 (bytes_of buf n (done + 1))
                            (d ∷ (if x then 13 ∷ line q else line q)))
                        e);
            })
    ])
