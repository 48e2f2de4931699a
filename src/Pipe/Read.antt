-- ===== src/Pipe/Read.antt =====
-- Reading a pipe that holds enough bytes.
use linux_0_12_study.Base.{
  List, [], ap, append-nil, append_assoc, arith, false, int_le, length, refl, some, suc, sym, true,
  word_sub, zero, ℕ, ◌!=◌, ◌%◌, ◌++◌, ◌+◌, ◌-◌, ◌<◌, ◌^◌, ◌∙◌, ◌≡◌, ◌≢◌, ◌≤◌,
}
use linux_0_12_study.Pipe.{
  Pipe, page_size, pipe_size, fetch, chunk, take_chunk, read_loop, read_pipe,
}
use linux_0_12_study.Pipe.Contents.{bytes, contents, IsPipe, fetch-bytes, bytes-append, bytes-mod}

abbrev pub taken : ℕ → Pipe → Pipe
taken n p = record p { tail = (p.tail + n) % page_size }

size-after :
    (h t c : ℕ)
    → h < page_size
    → t < page_size
    → t + c ≤ page_size
    → c ≤ word_sub h t % page_size
    → word_sub h ((t + c) % page_size) % page_size ≡ word_sub h t % page_size - c
size-after h t c a b d e = omega arith

-- A first chunk and the rest are the whole.
bytes-join :
    (page : ℕ → ℕ) (c left n t : ℕ) (out : List ℕ)
    → t + c ≤ page_size
    → c + left ≡ n
    → (out ++ fetch page c t) ++ bytes page left ((t + c) % page_size) ≡ out ++ bytes page n t
bytes-join page c left n t out h e =
    append_assoc out (fetch page c t) (bytes page left ((t + c) % page_size))
    ∙ ap (λ l. out ++ l)
        (rw (fetch-bytes page c t h, bytes-mod page left (t + c)) refl
          ∙ sym (bytes-append page c left t)
          ∙ ap (λ m. bytes page m t) e)

module _ (others : Pipe → Pipe) where
  read_loop-done :
      (fuel read : ℕ) (out : List ℕ) (p : Pipe)
      → read_loop others (suc fuel) 0 read out p ≡ some (read, out, p)
  unfolding read_loop
  read_loop-done fuel read out p = refl

  read_loop-step :
      (fuel count read : ℕ) (out : List ℕ) (p : Pipe)
      → 0 < count
      → count < 2 ^ 31
      → pipe_size p ≢ 0
      → let chars = chunk p.tail count (pipe_size p) in
        read_loop others (suc fuel) count read out p
        ≡ read_loop others fuel
            (count - chars)
            (read + chars)
            (out ++ fetch p.page chars p.tail)
            (take_chunk chars p)
  unfolding read_loop
  read_loop-step fuel count read out p pos small ne =
      let more : int_le count 0 ≡ false = ground arith in
      let some_size : (pipe_size p != 0) ≡ true = ground (arith, ne) in rw (more, some_size) refl

  read_loop-contents :
      (fuel count read : ℕ) (out : List ℕ) (p : Pipe)
      → IsPipe p
      → count ≤ pipe_size p
      → count < fuel
      → read_loop others fuel count read out p
        ≡ some (read + count, out ++ bytes p.page count p.tail, taken count p)
  read_loop-contents zero count read out p w le h = absurd (omega arith)
  read_loop-contents (suc fuel) zero read out p w le h =
      let e : read + 0 ≡ read = omega arith in
      let f : (p.tail + 0) % page_size ≡ p.tail = omega (arith, w.tail_range) in
      read_loop-done fuel read out p ∙ rw (e, f, append-nil out) refl
  read_loop-contents (suc fuel) (suc count) read out p w le h =
      let c = chunk p.tail (suc count) (pipe_size p) in
      let small : c ≤ suc count = omega arith in
      let fits : p.tail + c ≤ page_size = omega (arith, w.tail_range) in
      let some_c : 0 < c = omega (arith, w.tail_range) in
      let left = suc count - c in
      let size : pipe_size (take_chunk c p) ≡ pipe_size p - c =
        size-after p.head p.tail c w.head_range w.tail_range fits (omega arith) in
      let all : c + left ≡ suc count = omega arith in
      let total : read + c + left ≡ read + suc count = omega arith in
      let ends : ((p.tail + c) % page_size + left) % page_size ≡ (p.tail + suc count) % page_size =
        omega arith in
      read_loop-step fuel (suc count) read out p (omega arith) (omega arith) (omega arith)
      ∙ read_loop-contents fuel left (read + c) (out ++ fetch p.page c p.tail) (take_chunk c p)
          (record { head_range = w.head_range; tail_range = omega arith }) (omega (arith, size))
          (omega arith)
      ∙ rw (total, bytes-join p.page c left (suc count) p.tail out fits all, ends) refl

length-bytes : (page : ℕ → ℕ) (n t : ℕ) → length (bytes page n t) ≡ n
length-bytes page zero t = refl
length-bytes page (suc n) t = ap suc (length-bytes page n (t + 1))

size-taken :
    (h t c : ℕ)
    → h < page_size
    → t < page_size
    → c ≤ word_sub h t % page_size
    → word_sub h ((t + c) % page_size) % page_size ≡ word_sub h t % page_size - c
size-taken h t c a b e = omega arith

-- From a pipe whose offsets lie in its page and that holds at least `count` bytes, `read_pipe` reads
-- the first `count` of them, without sleeping, and leaves the others, given more rounds than `count`.
pub read_pipe-contents :
    (others : Pipe → Pipe) (fuel count : ℕ) (p : Pipe)
    → IsPipe p
    → count ≤ pipe_size p
    → count < fuel
    → (out : List ℕ) × (p' : Pipe) × (read_pipe others fuel count p ≡ some (count, out, p'))
      × (contents p ≡ out ++ contents p')
      × (length out ≡ count)
      × IsPipe p'
unfolding read_pipe
read_pipe-contents others fuel count p w le h =
    let rest = pipe_size p - count in
    let zero_first : 0 + count ≡ count = omega arith in
    let all : pipe_size p ≡ count + rest = omega arith in
    let left : pipe_size (taken count p) ≡ rest =
      size-taken p.head p.tail count w.head_range w.tail_range le in
    (
      bytes p.page count p.tail,
      taken count p,
      read_loop-contents others fuel count 0 [] p w le h ∙ rw zero_first refl,
      ap (λ m. bytes p.page m p.tail) all
          ∙ bytes-append p.page count rest p.tail
          ∙ ap (λ l. bytes p.page count p.tail ++ l)
              (sym (bytes-mod p.page rest (p.tail + count))
                ∙ ap (λ m. bytes p.page m ((p.tail + count) % page_size)) (sym left)),
      length-bytes p.page count p.tail,
      record { head_range = w.head_range; tail_range = omega arith },
    )
