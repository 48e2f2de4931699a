-- ===== src/Files/Dup.antt =====
-- What `dupfd` and `sys_close` do to the descriptors and to the counts of the files.
use linux_0_12_study.Base.{
  Bool-cases, List, Option, Option-cases, ap, arith, dec_lt, eq→==, if◌then◌else◌, inl, inr,
  is_some, lt→leb_false, neg, ne→==_false, none, refl, some, suc, true, zero, ℕ, ℕ_discrete, ◌!=◌,
  ◌+◌, ◌-◌, ◌<◌, ◌==◌, ◌^◌, ◌∙◌, ◌∷◌, ◌≡◌, ◌≢◌, ◌≤◌,
}
use linux_0_12_study.Ids.{einval}
use linux_0_12_study.Base.Bits.{clear_bit}
use linux_0_12_study.Files.{
  Files, nr_open, next_free, dup_to, dupfd, close_file, sys_close, sys_dup2, put_filp, add_count,
}

abbrev pub one : Option ℕ → ℕ → ℕ
one none j = 0
one (some i) j = if i == j then 1 else 0

-- How many of the n first descriptors lead to the file j.
unfoldable pub refs : (ℕ → Option ℕ) → ℕ → ℕ → ℕ
refs filp j zero = 0
refs filp j (suc n) = refs filp j n + one (filp n) j

-- The count of each file is the number of the descriptors that lead to it, here and in other tasks.
abbrev pub IsCounted : (ℕ → ℕ) → Files → Type 0
IsCounted others s = (j : ℕ) → (s.file_table j).f_count ≡ refs s.filp j nr_open + others j

abbrev pub put : (ℕ → Option ℕ) → ℕ → Option ℕ → ℕ → Option ℕ
put filp fd p i = if fd == i then p else filp i

refs-above :
    (filp : ℕ → Option ℕ) (j fd : ℕ) (p : Option ℕ) (n : ℕ)
    → n ≤ fd
    → refs (put filp fd p) j n ≡ refs filp j n
unfolding refs
refs-above filp j fd p zero h = refl
refs-above filp j fd p (suc n) h =
    rw (ne→==_false fd n (omega arith), refs-above filp j fd p n (omega arith)) refl

refs-put :
    (filp : ℕ → Option ℕ) (j fd : ℕ) (p : Option ℕ) (n : ℕ)
    → fd < n
    → refs (put filp fd p) j n + one (filp fd) j ≡ refs filp j n + one p j
unfolding refs
refs-put filp j fd p zero h = absurd (omega arith)
refs-put filp j fd p (suc n) h = elim (ℕ_discrete fd n) [
  | yes e ↦
      rw (eq→== fd n e, refs-above filp j fd p n (omega arith))
        (omega (arith, ap (λ k. one (filp k) j) e))
  | no ne ↦ rw (ne→==_false fd n ne) (omega (arith, refs-put filp j fd p n (omega arith)))
]

next_free_lem :
    (rounds : ℕ) (filp : ℕ → Option ℕ) (arg : ℕ)
    → let r = next_free rounds filp arg in
      (arg ≤ r)
      × (r ≤ arg + rounds)
      × ((i : ℕ) → arg ≤ i → i < r → is_some (filp i) ≡ true)
      × (r < arg + rounds → filp r ≡ none)
unfolding next_free
next_free_lem zero filp arg =
    (omega arith, omega arith, (λ i a b. absurd (omega arith)), (λ h. absurd (omega arith)))
next_free_lem (suc rounds) filp arg =
    let ih = next_free_lem rounds filp (arg + 1) in
    elim (Option-cases (filp arg)) [
      | inl free ↦ rw free (omega arith, omega arith, (λ i a b. absurd (omega arith)), (λ h. free))
      | inr (j, taken) ↦ rw taken (
        omega (arith, ih.0),
        omega (arith, ih.1),
        (λ i a b. elim (ℕ_discrete i arg) [
          | yes e ↦ ap (λ k. is_some (filp k)) e ∙ ap is_some taken
          | no ne ↦ ih.2 i (omega arith) b
        ]),
        (λ h. ih.3 (omega arith)),
      )
    ]

module _ (others : ℕ → ℕ) (s : Files) where
  dup_to-IsCounted :
      (to j : ℕ)
      → IsCounted others s
      → s.filp to ≡ none
      → to < nr_open
      → (s.file_table j).f_count < 2 ^ 16 - 1
      → IsCounted others (dup_to s to j)
  dup_to-IsCounted to j c free lt room i =
      let r = refs-put s.filp i to (some j) nr_open lt in
      let z : one (s.filp to) i ≡ 0 = ap (λ o. one o i) free in
      ground (arith, r, z, c i, ap (λ k. (s.file_table k).f_count) {x = j} {y = i})

  closed-IsCounted :
      (fd j : ℕ)
      → IsCounted others s
      → s.filp fd ≡ some j
      → fd < nr_open
      → (s.file_table j).f_count < 2 ^ 16
      → ((s.file_table j).f_count ≢ 0)
        × IsCounted others (add_count (put_filp s fd none) j (2 ^ 16 - 1))
  closed-IsCounted fd j c leads lt small =
      let at = λ (i : ℕ). refs-put s.filp i fd none nr_open lt in
      let o = λ (i : ℕ). ap (λ p. one p i) leads in
      (
        ground (arith, at j, o j, c j),
        λ i. ground (
          arith,
          at i,
          o i,
          c i,
          at j,
          o j,
          c j,
          ap (λ k. (s.file_table k).f_count) {x = j} {y = i},
        ),
      )

-- A free descriptor is found at once where it is asked for.
dupfd-free :
    (fd arg j : ℕ) (s : Files)
    → fd < nr_open
    → arg < nr_open
    → s.filp fd ≡ some j
    → s.filp arg ≡ none
    → dupfd fd arg s ≡ (arg, dup_to s arg j)
unfolding dupfd
dupfd-free fd arg j s lf la f free =
    let r = next_free_lem (nr_open - arg) s.filp arg in
    let here : next_free (nr_open - arg) s.filp arg ≡ arg =
      elim (dec_lt arg (next_free (nr_open - arg) s.filp arg)) [
        | yes l ↦ absurd (cc (r.2 arg (omega arith) l, ap is_some free))
        | no n ↦ omega (arith, r.0)
      ] in
    rw (lt→leb_false fd nr_open lf, f) (rw (here, lt→leb_false arg nr_open la) refl)

-- What `sys_close` does to a descriptor in range: it is free afterwards.
record IsClosed (others : ℕ → ℕ) (fd : ℕ) (s s' : Files) : Type 0 where
  counted : IsCounted others s'
  free : s'.filp fd ≡ none
  rest : (i : ℕ) → i ≢ fd → s'.filp i ≡ s.filp i
  bounded : (j : ℕ) → (s'.file_table j).f_count ≤ (s.file_table j).f_count

module _ (others : ℕ → ℕ) (fd : ℕ) (s : Files) (c : IsCounted others s) (lt : fd < nr_open)
    (small : (j : ℕ) → (s.file_table j).f_count < 2 ^ 16) where
  abbrev marked : Files
  marked = record s { close_on_exec = clear_bit s.close_on_exec fd }

  close_file-IsClosed :
      (o : Option ℕ)
      → s.filp fd ≡ o
      → (r : ℕ) × (s' : Files) × (close_file fd marked o ≡ some (r, s')) × IsClosed others fd s s'
  close_file-IsClosed none e = (
    neg einval,
    marked,
    refl,
    record { counted = c; free = e; rest = λ i ne. refl; bounded = λ j. omega arith },
  )
  close_file-IsClosed (some j) e =
      let closed = add_count (put_filp marked fd none) j (2 ^ 16 - 1) in
      let k = closed-IsCounted others marked fd j c e lt (small j) in
      let is_closed = λ (l : List ℕ).
        let t : IsClosed others fd s (record closed { iputs = l }) = record {
          counted = k.1;
          free = ground arith;
          rest = λ i ne. ground arith;
          bounded =
              λ i. ground (arith, k.0, small j, ap (λ m. (s.file_table m).f_count) {x = j} {y = i});
        } in
        t in
      elim (Bool-cases ((s.file_table j).f_count != 1)) [
        | inl more ↦ (0, closed, rw (ne→==_false _ 0 k.0, more) refl, is_closed s.iputs)
        | inr last ↦ (
          0,
          record closed { iputs = (s.file_table j).f_inode ∷ s.iputs },
          rw (ne→==_false _ 0 k.0, last) refl,
          is_closed ((s.file_table j).f_inode ∷ s.iputs),
        )
      ]

  sys_close-IsClosed :
      (r : ℕ) × (s' : Files) × (sys_close fd s ≡ some (r, s')) × IsClosed others fd s s'
  unfolding sys_close
  sys_close-IsClosed = rw (lt→leb_false fd nr_open lt) (close_file-IsClosed (s.filp fd) refl)

-- If the counts of the files are right and below 65535, `dup2` of an open descriptor to another one in
-- range succeeds without a panic, whether that one was open or not: it then leads to the same file,
-- no other descriptor has changed, and the counts are right again.
pub sys_dup2-IsCounted :
    (others : ℕ → ℕ) (old new j : ℕ) (s : Files)
    → IsCounted others s
    → ((i : ℕ) → (s.file_table i).f_count < 2 ^ 16 - 1)
    → old < nr_open
    → new < nr_open
    → old ≢ new
    → s.filp old ≡ some j
    → (s' : Files) × (sys_dup2 old new s ≡ some (new, s'))
      × (s'.filp new ≡ some j)
      × ((i : ℕ) → i ≢ new → s'.filp i ≡ s.filp i)
      × IsCounted others s'
unfolding sys_dup2
sys_dup2-IsCounted others old new j s c small lo ln ne e =
    let (r, t, run, k) = sys_close-IsClosed others new s c ln (λ i. omega (arith, small i)) in
    let f : t.filp old ≡ some j = k.rest old ne ∙ e in
    (
      dup_to t new j,
      rw run (ap some (dupfd-free old new j t lo ln f k.free)),
      ground arith,
      (λ i d. ground (arith, k.rest i d)),
      dup_to-IsCounted others t new j k.counted k.free ln (omega (arith, k.bounded j, small j)),
    )
