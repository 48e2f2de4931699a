-- ===== src/Tty/Ring.antt =====
-- A queue as the list of the characters that are in it, the latest first (`line`) or the oldest first
-- (`input`).
use linux_0_12_study.Base.{
  List, [], ap, arith, false, if◌then◌else◌, length, refl, suc, true, zero, ℕ, ◌%◌, ◌+◌, ◌-◌, ◌<◌,
  ◌==◌, ◌∷◌, ◌≡◌,
}
use linux_0_12_study.Tty.{Queue, tty_buf_size, chars, putch, last, inc, dec, empty, full}

pub record IsQueue (q : Queue) : Type 0 where
  pub head_range : q.head < tty_buf_size
  pub tail_range : q.tail < tty_buf_size

-- n characters back from the offset h
abbrev pub latest : (ℕ → ℕ) → ℕ → ℕ → List ℕ
latest buf zero h = []
latest buf (suc n) h = buf (dec h) ∷ latest buf n (dec h)

abbrev pub line : Queue → List ℕ
line q = latest q.buf (chars q) q.head

-- n characters on from the offset t
abbrev pub oldest : (ℕ → ℕ) → ℕ → ℕ → List ℕ
oldest buf zero t = []
oldest buf (suc n) t = buf t ∷ oldest buf n (inc t)

abbrev pub input : Queue → List ℕ
input q = oldest q.buf (chars q) q.tail

latest-put :
    (buf : ℕ → ℕ) (c k n h : ℕ)
    → k < tty_buf_size
    → h < tty_buf_size
    → n + (k + tty_buf_size - h) % tty_buf_size < tty_buf_size
    → latest (λ i. if i == k then c else buf i) n h ≡ latest buf n h
latest-put buf c k zero h p q r = refl
latest-put buf c k (suc n) h p q r =
    let e : (dec h == k) ≡ false = ground arith in
    let rest = latest-put buf c k n (dec h) p (omega arith) (omega arith) in rw (e, rest) refl

pub line-putch : (q : Queue) (c : ℕ) → IsQueue q → full q ≡ false → line (putch c q) ≡ c ∷ line q
line-putch q c w h =
    let room : chars q + 1 < tty_buf_size = ground (arith, w.head_range, w.tail_range) in
    let n : chars (putch c q) ≡ suc (chars q) = omega (arith, w.head_range, w.tail_range) in
    let back : dec (inc q.head) ≡ q.head = omega (arith, w.head_range) in
    let self : (q.head == q.head) ≡ true = ground arith in
    rw (n, back, self)
      (ap (λ l. c ∷ l)
        (latest-put q.buf c q.head (chars q) q.head w.head_range w.head_range
          (omega (arith, w.head_range))))

pub line-empty : (q : Queue) → empty q ≡ true → line q ≡ []
line-empty q h = let n : chars q ≡ 0 = ground arith in rw n refl

-- The queue without its last character.
pub line-last :
    (q : Queue)
    → IsQueue q
    → empty q ≡ false
    → line q ≡ last q ∷ line (record q { head = dec q.head })
line-last q w h =
    let n : chars q ≡ suc (chars (record q { head = dec q.head })) =
      ground (arith, w.head_range, w.tail_range) in
    rw n refl

pub input-getch :
    (q : Queue)
    → IsQueue q
    → empty q ≡ false
    → input q ≡ q.buf q.tail ∷ input (record q { tail = inc q.tail })
input-getch q w h =
    let n : chars q ≡ suc (chars (record q { tail = inc q.tail })) =
      ground (arith, w.head_range, w.tail_range) in
    rw n refl

pub input-empty : (q : Queue) → empty q ≡ true → input q ≡ []
input-empty q h = let n : chars q ≡ 0 = ground arith in rw n refl

pub length-latest : (buf : ℕ → ℕ) (n h : ℕ) → length (latest buf n h) ≡ n
length-latest buf zero h = refl
length-latest buf (suc n) h = ap suc (length-latest buf n (dec h))
