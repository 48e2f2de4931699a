-- ===== src/Tty/Edit.antt =====
-- Line editing: what `copy_to_cooked` of ver05/kernel/chr_drv/tty_io.c makes of the lines that wait to
-- be read, as a function on lists with the latest character first.
use linux_0_12_study.Base.{
  Bool-cases, List, Option, [], arith, false, if◌then◌else◌, inl, inr, length, none, refl, some,
  suc, true, zero, ℕ, ◌<◌, ◌||◌, ◌∷◌, ◌≡◌, ◌≤◌,
}
use linux_0_12_study.Tty.{Tty, Queue, Termios, dec, empty, last, chars, tty_buf_size}
use linux_0_12_study.Tty.Cooked.{
  kills, erases, stops, starts, accepts, ends_line, input_char, signals, Action, action_of,
}
use linux_0_12_study.Tty.Ring.{IsQueue, line, input, line-empty, line-last, latest, length-latest}

module _ (t : Termios) where
  -- the kill character: back to the end of the line before
  abbrev pub rub_line : List ℕ → List ℕ
  rub_line [] = []
  rub_line (c ∷ l) = if ends_line t c then c ∷ l else rub_line l

  -- the erase character
  abbrev pub rub_char : List ℕ → List ℕ
  rub_char [] = []
  rub_char (c ∷ l) = if ends_line t c then c ∷ l else l

  abbrev pub edit : Action → ℕ → List ℕ → List ℕ
  edit kills c l = rub_line l
  edit erases c l = rub_char l
  edit stops c l = l
  edit starts c l = l
  edit (signals sig) c l = l
  edit accepts c l = c ∷ l

  abbrev pub edit_or_skip : Option ℕ → List ℕ → List ℕ
  edit_or_skip none l = l
  edit_or_skip (some c) l = edit (action_of t c) c l

  -- all the characters of the read queue
  abbrev pub edits : List ℕ → List ℕ → List ℕ
  edits [] l = l
  edits (c ∷ cs) l = edits cs (edit_or_skip (input_char t c) l)

  -- the number of characters that end a line
  abbrev pub ends_in : List ℕ → ℕ
  ends_in [] = 0
  ends_in (c ∷ l) = if ends_line t c then suc (ends_in l) else ends_in l

-- What the driver's `write` leaves alone.
pub record Same (r t : Tty) : Type 0 where
  pub secondary_same : r.secondary ≡ t.secondary
  pub read_same : r.read_q ≡ t.read_q
  pub termios_same : r.termios ≡ t.termios

abbrev pub KeepsInput : (Tty → Tty) → Type 0
KeepsInput write = (t : Tty) → Same (write t) t

-- From t to r the lines in the secondary queue have become l, and `lines` still counts their ends.
pub record Edited (t r : Tty) (l : List ℕ) : Type 0 where
  pub range : IsQueue r.secondary
  pub text : line r.secondary ≡ l
  pub counted :
      t.secondary.lines ≡ ends_in t.termios (line t.secondary)
      → r.secondary.lines ≡ ends_in t.termios l
  pub rest : r.read_q ≡ t.read_q
  pub settings : r.termios ≡ t.termios

ends_in-le : (t : Termios) (buf : ℕ → ℕ) (n h : ℕ) → ends_in t (latest buf n h) ≤ n
ends_in-le t buf zero h = omega arith
ends_in-le t buf (suc n) h = ground (arith, ends_in-le t buf n (dec h))

pub ends_in-lt : (t : Termios) (q : Queue) → IsQueue q → ends_in t (line q) < tty_buf_size
ends_in-lt t q w = omega (arith, ends_in-le t q.buf (chars q) q.head)

-- All of the read queue has been taken: r is empty there, and its lines are those of t, edited.
pub record Cooked (t r : Tty) : Type 0 where
  pub taken : empty r.read_q ≡ true
  pub cooked_range : IsQueue r.secondary
  pub cooked : line r.secondary ≡ edits t.termios (input t.read_q) (line t.secondary)
  pub cooked_lines :
      t.secondary.lines ≡ ends_in t.termios (line t.secondary)
      → r.secondary.lines ≡ ends_in t.termios (line r.secondary)

abbrev pub drop : Queue → Queue
drop q = record q { head = dec q.head }

pub drop-IsQueue : (q : Queue) → IsQueue q → IsQueue (drop q)
drop-IsQueue q w = record { head_range = omega arith; tail_range = w.tail_range }

pub rub_line-start :
    (t : Termios) (q : Queue)
    → IsQueue q
    → (empty q || ends_line t (last q)) ≡ true
    → (rub_line t (line q) ≡ line q) × (rub_char t (line q) ≡ line q)
rub_line-start t q w h = elim (Bool-cases (empty q)) [
  | inl e ↦ rw (line-empty q e) (refl, refl)
  | inr e ↦
      let s : ends_line t (last q) ≡ true = ground (arith, e) in
      rw (line-last q w e, s) (refl, refl)
]

pub rub_line-drop :
    (t : Termios) (q : Queue)
    → IsQueue q
    → (empty q || ends_line t (last q)) ≡ false
    → (rub_line t (line q) ≡ rub_line t (line (drop q)))
      × (rub_char t (line q) ≡ line (drop q))
      × (ends_in t (line q) ≡ ends_in t (line (drop q)))
rub_line-drop t q w h =
    let e : empty q ≡ false = ground arith in
    let s : ends_line t (last q) ≡ false = ground (arith, e) in
    rw (line-last q w e, s) (refl, refl, refl)

pub length-line : (q : Queue) → length (line q) ≡ chars q
length-line q = length-latest q.buf (chars q) q.head

length-rub_line : (t : Termios) (l : List ℕ) → length (rub_line t l) ≤ length l
length-rub_line t [] = omega arith
length-rub_line t (c ∷ l) = ground (arith, length-rub_line t l)

length-rub_char : (t : Termios) (l : List ℕ) → length (rub_char t l) ≤ length l
length-rub_char t [] = omega arith
length-rub_char t (c ∷ l) = ground arith

length-action :
    (t : Termios) (a : Action) (c : ℕ) (l : List ℕ) → length (edit t a c l) ≤ suc (length l)
length-action t kills c l = omega (arith, length-rub_line t l)
length-action t erases c l = omega (arith, length-rub_char t l)
length-action t stops c l = omega arith
length-action t starts c l = omega arith
length-action t (signals sig) c l = omega arith
length-action t accepts c l = omega arith

pub length-edit :
    (t : Termios) (o : Option ℕ) (l : List ℕ) → length (edit_or_skip t o l) ≤ suc (length l)
length-edit t none l = omega arith
length-edit t (some c) l = length-action t (action_of t c) c l
