-- ===== src/Pipe/Write.antt =====
-- Writing to a pipe that has room.
use linux_0_12_study.Base.{
  List, [], ap, arith, dec_lt, false, int_le, le→leb, lt→ltb, refl, some, subst, suc, sym, true,
  word_sub, zero, ℕ, ◌!=◌, ◌%◌, ◌++◌, ◌+◌, ◌-◌, ◌<◌, ◌^◌, ◌∙◌, ◌∷◌, ◌≡◌, ◌≢◌, ◌≤◌, ◌⊎◌,
}
use linux_0_12_study.Pipe.{
  Pipe, page_size, pipe_size, chunk, put_chunk, room, write_loop, write_pipe,
}
use linux_0_12_study.Pipe.Contents.{bytes, contents, IsPipe, bytes-append, bytes-mod, bytes-ext}

-- The bytes of the user's buffer.
abbrev pub listed : (ℕ → ℕ) → ℕ → List ℕ
listed buf zero = []
listed buf (suc n) = buf 0 ∷ listed (λ i. buf (suc i)) n

-- `count` bytes have been put behind the head.
pub record IsWritten (buf : ℕ → ℕ) (count : ℕ) (p p' : Pipe) : Type 0 where
  pub new : (i : ℕ) → i < count → p'.page ((p.head + i) % page_size) ≡ buf i
  pub old :
      (x : ℕ) → x < page_size → count ≤ (x + page_size - p.head) % page_size → p'.page x ≡ p.page x
  pub ahead : p'.head ≡ (p.head + count) % page_size
  pub same_tail : p'.tail ≡ p.tail

module _ (buf : ℕ → ℕ) (p : Pipe) (c left : ℕ) (w : IsPipe p) (fits : p.head + c ≤ page_size)
    (less : c + left < page_size) where
  put_chunk-inside :
      (x : ℕ) → p.head ≤ x → x < p.head + c → (put_chunk buf c p).page x ≡ buf (x - p.head)
  put_chunk-inside x lo hi = rw (le→leb p.head x lo, lt→ltb x (p.head + c) hi) refl

  put_chunk-outside :
      (x : ℕ) → (x < p.head) ⊎ (p.head + c ≤ x) → (put_chunk buf c p).page x ≡ p.page x
  put_chunk-outside x o = ground arith

  IsWritten-chunk :
      {p' : Pipe}
      → IsWritten (λ i. buf (c + i)) left (put_chunk buf c p) p'
      → IsWritten buf (c + left) p p'
  IsWritten-chunk {p'} r = record {
    new = λ i l. elim (dec_lt i c) [
      | yes first ↦
          r.old ((p.head + i) % page_size) (omega arith) (omega (arith, w.head_range))
          ∙ put_chunk-inside ((p.head + i) % page_size) (omega arith) (omega arith)
          ∙ ap buf {x = (p.head + i) % page_size - p.head} {y = i} (omega arith)
      | no later ↦
          ap p'.page {x = (p.head + i) % page_size}
            {y = ((p.head + c) % page_size + (i - c)) % page_size} (omega arith)
          ∙ r.new (i - c) (omega arith)
          ∙ ap buf {x = c + (i - c)} {y = i} (omega arith)
    ];
    old = λ x lt far.
        r.old x lt (omega (arith, w.head_range))
        ∙ put_chunk-outside x (omega (arith, w.head_range));
    ahead = r.ahead ∙ omega arith;
    same_tail = r.same_tail;
  }

room-after :
    (h t c left : ℕ)
    → h < page_size
    → t < page_size
    → c + left ≤ page_size - 1 - word_sub h t % page_size
    → left ≤ page_size - 1 - word_sub ((h + c) % page_size) t % page_size
room-after h t c left a b e = omega arith

size-written :
    (h t c : ℕ)
    → h < page_size
    → t < page_size
    → c ≤ page_size - 1 - word_sub h t % page_size
    → word_sub ((h + c) % page_size) t % page_size ≡ word_sub h t % page_size + c
size-written h t c a b e = omega arith

far :
    (h t c j : ℕ)
    → h < page_size
    → t < page_size
    → c ≤ page_size - 1 - word_sub h t % page_size
    → j < word_sub h t % page_size
    → c ≤ ((t + j) % page_size + page_size - h) % page_size
far h t c j a b e l = omega arith

module _ (others : Pipe → Pipe) where
  write_loop-step :
      (fuel : ℕ) (buf : ℕ → ℕ) (count written : ℕ) (p : Pipe)
      → 0 < count
      → count < 2 ^ 31
      → room p ≢ 0
      → let chars = chunk p.head count (room p) in
        write_loop others (suc fuel) buf count written p
        ≡ write_loop others fuel
            (λ i. buf (chars + i))
            (count - chars)
            (written + chars)
            (put_chunk buf chars p)
  unfolding write_loop
  write_loop-step fuel buf count written p pos small ne =
      let more : int_le count 0 ≡ false = ground arith in
      let some_room : (room p != 0) ≡ true = ground (arith, ne) in rw (more, some_room) refl

  write_loop-done :
      (fuel : ℕ) (buf : ℕ → ℕ) (written : ℕ) (p : Pipe)
      → write_loop others (suc fuel) buf 0 written p ≡ some (written, p)
  unfolding write_loop
  write_loop-done fuel buf written p = refl

  write_loop-IsWritten :
      (fuel : ℕ) (buf : ℕ → ℕ) (count written : ℕ) (p : Pipe)
      → IsPipe p
      → count ≤ room p
      → count < fuel
      → (p' : Pipe) × (write_loop others fuel buf count written p ≡ some (written + count, p'))
        × IsWritten buf count p p'
  write_loop-IsWritten zero buf count written p w le h = absurd (omega arith)
  write_loop-IsWritten (suc fuel) buf zero written p w le h =
      let e : written + 0 ≡ written = omega arith in
      (
        p,
        write_loop-done fuel buf written p ∙ rw e refl,
        record {
          new = λ i l. absurd (omega arith);
          old = λ x l f. refl;
          ahead = omega (arith, w.head_range);
          same_tail = refl;
        },
      )
  write_loop-IsWritten (suc fuel) buf (suc count) written p w le h =
      let c = chunk p.head (suc count) (room p) in
      let small : c ≤ suc count = omega arith in
      let below : c ≤ room p = omega arith in
      let fits : p.head + c ≤ page_size = omega (arith, w.head_range) in
      let some_c : 0 < c = omega (arith, w.head_range) in
      let left = suc count - c in
      let all : c + left ≡ suc count = omega arith in
      let total : written + c + left ≡ written + suc count = omega arith in
      let (p', run, i) =
        write_loop-IsWritten fuel (λ i. buf (c + i)) left (written + c) (put_chunk buf c p)
          (record { head_range = omega arith; tail_range = w.tail_range })
          (room-after p.head p.tail c left w.head_range w.tail_range (omega arith)) (omega arith) in
      (
        p',
        write_loop-step fuel buf (suc count) written p (omega arith) (omega arith) (omega arith)
            ∙ run
            ∙ rw total refl,
        subst (λ n. IsWritten buf n p p') all (IsWritten-chunk buf p c left w fits (omega arith) i),
      )

listed-bytes :
    (page buf : ℕ → ℕ) (n h : ℕ)
    → ((i : ℕ) → i < n → page ((h + i) % page_size) ≡ buf i)
    → bytes page n h ≡ listed buf n
listed-bytes page buf zero h e = refl
listed-bytes page buf (suc n) h e =
    let z : (h + 0) % page_size ≡ h % page_size = omega arith in
    let first : page (h % page_size) ≡ buf 0 = ap page (sym z) ∙ e 0 (omega arith) in
    let rest =
      listed-bytes page (λ i. buf (suc i)) n (h + 1)
        (λ i l.
          ap page {x = (h + 1 + i) % page_size} {y = (h + suc i) % page_size} (omega arith)
          ∙ e (suc i) (omega arith)) in
    rw (first, rest) refl

tail-to-head :
    (h t : ℕ) → h < page_size → t < page_size → (t + word_sub h t % page_size) % page_size ≡ h
tail-to-head h t a b = omega arith

module _ (buf : ℕ → ℕ) (count : ℕ) (p : Pipe) (w : IsPipe p) (le : count ≤ room p) {p' : Pipe}
    (i : IsWritten buf count p p') where
  size-IsWritten : pipe_size p' ≡ pipe_size p + count
  size-IsWritten =
      ap (λ h. word_sub h p'.tail % page_size) i.ahead
      ∙ ap (λ t. word_sub ((p.head + count) % page_size) t % page_size) i.same_tail
      ∙ size-written p.head p.tail count w.head_range w.tail_range le

  kept : bytes p'.page (pipe_size p) p.tail ≡ contents p
  kept = bytes-ext p.page p'.page (pipe_size p) p.tail (λ j l.
      i.old ((p.tail + j) % page_size) (omega arith)
        (far p.head p.tail count j w.head_range w.tail_range le l))

  added : bytes p'.page count (p.tail + pipe_size p) ≡ listed buf count
  added =
      sym (bytes-mod p'.page count (p.tail + pipe_size p))
      ∙ ap (bytes p'.page count) (tail-to-head p.head p.tail w.head_range w.tail_range)
      ∙ listed-bytes p'.page buf count p.head i.new

  contents-IsWritten : contents p' ≡ contents p ++ listed buf count
  contents-IsWritten =
      ap (bytes p'.page (pipe_size p')) i.same_tail
      ∙ ap (λ n. bytes p'.page n p.tail) size-IsWritten
      ∙ bytes-append p'.page (pipe_size p) count p.tail
      ∙ ap (λ l. l ++ bytes p'.page count (p.tail + pipe_size p)) kept
      ∙ ap (λ l. contents p ++ l) added

  IsPipe-IsWritten : IsPipe p'
  IsPipe-IsWritten = record {
    head_range = omega (arith, i.ahead);
    tail_range = omega (arith, i.same_tail, w.tail_range);
  }

-- To a pipe whose offsets lie in its page and that has room for `count` bytes, `write_pipe` writes all
-- of them, without sleeping, given more rounds than `count`: they follow the bytes that were in it.
pub write_pipe-contents :
    (others : Pipe → Pipe) (fuel : ℕ) (buf : ℕ → ℕ) (count : ℕ) (p : Pipe)
    → IsPipe p
    → count ≤ room p
    → count < fuel
    → (p' : Pipe) × (write_pipe others fuel buf count p ≡ some (count, p'))
      × (contents p' ≡ contents p ++ listed buf count)
      × IsPipe p'
unfolding write_pipe
write_pipe-contents others fuel buf count p w le h =
    let (p', run, i) = write_loop-IsWritten others fuel buf count 0 p w le h in
    let z : 0 + count ≡ count = omega arith in
    (
      p',
      run ∙ rw z refl,
      contents-IsWritten buf count p w le i,
      IsPipe-IsWritten buf count p w le i,
    )
