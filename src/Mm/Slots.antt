-- ===== src/Mm/Slots.antt =====
-- The bit map of the swap device: a slot is free if its bit is set.
use linux_0_12_study.Base.{
  Bool-cases, arith, false, if◌then◌else◌, inl, inr, ltb, lt→ltb, ne→==_false, refl, subst, suc,
  sym, true, zero, ℕ, ℕ_discrete, ◌!=◌, ◌%◌, ◌&&◌, ◌+◌, ◌<◌, ◌==◌, ◌∙◌, ◌≡◌, ◌≢◌, ◌≤◌, ◌⊎◌,
}
use linux_0_12_study.Base.Bits.{
  bit, set_bit, clear_bit, bit-set_bit_self, bit-set_bit_ne, bit-clear_bit_self, bit-clear_bit_ne,
  bit-le_one,
}
use linux_0_12_study.Mm.State.{Mm, ok, update}
use linux_0_12_study.Mm.Swap.{
  clrbit, setbit, find_swap_page, get_swap_page, swap_free, word_address, swap_bits,
}

abbrev pub slot_bit : (ℕ → ℕ) → ℕ → ℕ → ℕ
slot_bit mem addr n = bit (mem (word_address addr n)) (n % 32)

module _ (mem : ℕ → ℕ) (addr nr n : ℕ) where
  slot_bit-set :
      slot_bit
        (update mem (word_address addr nr) (set_bit (mem (word_address addr nr)) (nr % 32)))
        addr
        n
      ≡ (if n == nr then 1 else slot_bit mem addr n)
  slot_bit-set =
      let w = mem (word_address addr nr) in
      ground (arith, bit-set_bit_self w (nr % 32), bit-set_bit_ne w (nr % 32) (n % 32))

  slot_bit-clear :
      slot_bit
        (update mem (word_address addr nr) (clear_bit (mem (word_address addr nr)) (nr % 32)))
        addr
        n
      ≡ (if n == nr then 0 else slot_bit mem addr n)
  slot_bit-clear =
      let w = mem (word_address addr nr) in
      ground (arith, bit-clear_bit_self w (nr % 32), bit-clear_bit_ne w (nr % 32) (n % 32))

-- What `find_swap_page` has done from the slot nr on: the result r is the first free slot, which is
-- free no more, or 0 if there is none; the other slots are as before.
pub record IsFirst (addr nr rounds : ℕ) (s : Mm) (r : ℕ) (s' : Mm) : Type 0 where
  pub bits :
      (n : ℕ) → slot_bit s'.mem addr n ≡ (if (n == r) && (r != 0) then 0 else slot_bit s.mem addr n)
  pub earlier : (n : ℕ) → nr ≤ n → n < nr + rounds → (n < r) ⊎ (r ≡ 0) → slot_bit s.mem addr n ≡ 0
  pub found : r ≢ 0 → (nr ≤ r) × (r < nr + rounds) × (slot_bit s.mem addr r ≡ 1)
  pub bitmap : s'.swap_bitmap ≡ s.swap_bitmap

abbrev cleared : ℕ → ℕ → Mm → Mm
cleared addr nr s =
    let w = word_address addr nr in
    record s { mem = update s.mem w (clear_bit (s.mem w) (nr % 32)) }

find_swap_page-IsFirst :
    (rounds addr nr : ℕ) (s : Mm)
    → 0 < nr
    → (r : ℕ) × (s' : Mm) × (find_swap_page rounds addr nr s ≡ ok r s')
      × IsFirst addr nr rounds s r s'
unfolding find_swap_page clrbit
find_swap_page-IsFirst zero addr nr s pos = (
  0,
  s,
  refl,
  record {
    bits = λ n. ground arith;
    earlier = λ n a b c. absurd (omega arith);
    found = λ ne. absurd (ne refl);
    bitmap = refl;
  },
)
find_swap_page-IsFirst (suc rounds) addr nr s pos =
    let was = slot_bit s.mem addr nr in
    elim (Bool-cases (was == 1)) [
      | inl free ↦ (
        nr,
        cleared addr nr s,
        rw free,
        record {
          bits = λ n. ground (arith, slot_bit-clear s.mem addr nr n);
          earlier = λ n a b c. absurd (ground arith);
          found = λ ne. (omega arith, omega arith, ground arith);
          bitmap = refl;
        },
      )
      | inr taken ↦
          let (r, s', run, f) =
            find_swap_page-IsFirst rounds addr (nr + 1) (cleared addr nr s) (omega arith) in
          let zero_bit : was ≡ 0 =
            ground (arith, bit-le_one (s.mem (word_address addr nr)) (nr % 32)) in
          (
            r,
            s',
            rw taken run,
            record {
              bits = λ n. ground (arith, f.bits n, slot_bit-clear s.mem addr nr n);
              earlier = λ n a b c. elim (ℕ_discrete n nr) [
                | yes e ↦ subst (λ k. slot_bit s.mem addr k ≡ 0) (sym e) zero_bit
                | no ne ↦ ground (
                  arith,
                  f.earlier n (omega arith) (omega arith) c,
                  slot_bit-clear s.mem addr nr n,
                )
              ];
              found = λ ne.
                  let g = f.found ne in
                  (
                    omega (arith, g),
                    omega (arith, g),
                    ground (arith, g, slot_bit-clear s.mem addr nr r),
                  );
              bitmap = f.bitmap;
            },
          )
    ]

-- With a bit map `get_swap_page` returns the first free slot from 1 to 32767 and takes it, or 0 if
-- none of these is free; the other slots are as before.
pub get_swap_page-IsFirst :
    (s : Mm)
    → s.swap_bitmap ≢ 0
    → (r : ℕ) × (s' : Mm) × (get_swap_page s ≡ ok r s') × IsFirst s.swap_bitmap 1 32767 s r s'
unfolding get_swap_page
get_swap_page-IsFirst s h =
    rw (ne→==_false s.swap_bitmap 0 h)
      (find_swap_page-IsFirst 32767 s.swap_bitmap 1 s (omega arith))

swap_free-found :
    (s : Mm) (r : ℕ) (s' : Mm)
    → s.swap_bitmap ≢ 0
    → r ≢ 0
    → IsFirst s.swap_bitmap 1 32767 s r s'
    → (s'' : Mm) × (swap_free r s' ≡ ok tt s'')
      × ((n : ℕ) → slot_bit s''.mem s.swap_bitmap n ≡ slot_bit s.mem s.swap_bitmap n)
unfolding swap_free setbit
swap_free-found s r s' h ne f =
    let g = f.found ne in
    let addr = s.swap_bitmap in
    let w = word_address addr r in
    let some_r : (r == 0) ≡ false = ne→==_false r 0 ne in
    let some_map : (s.swap_bitmap != 0) ≡ true = ground arith in
    let small : ltb r swap_bits ≡ true = lt→ltb r swap_bits (omega (arith, g)) in
    (
      record s' { mem = update s'.mem w (set_bit (s'.mem w) (r % 32)) },
      rw (some_r, f.bitmap, some_map, small),
      λ n. elim (ℕ_discrete n r) [
        | yes e ↦
            subst
              (λ k.
                slot_bit (update s'.mem w (set_bit (s'.mem w) (r % 32))) addr k
                ≡ slot_bit s.mem addr k)
              (sym e) (slot_bit-set s'.mem addr r r ∙ ground (arith, g.2))
        | no out ↦ slot_bit-set s'.mem addr r n ∙ ground (arith, f.bits n)
      ],
    )

-- A free slot is taken, the first one, and can be given back; or there is none.
abbrev pub Taken : Mm → ℕ → Mm → Type 0
Taken s r s' =
    ((r ≡ 0)
      × ((n : ℕ) → 0 < n → n < swap_bits → slot_bit s.mem s.swap_bitmap n ≡ 0)
      × ((n : ℕ) → slot_bit s'.mem s.swap_bitmap n ≡ slot_bit s.mem s.swap_bitmap n))
    ⊎ ((0 < r)
        × (r < swap_bits)
        × (slot_bit s.mem s.swap_bitmap r ≡ 1)
        × (slot_bit s'.mem s.swap_bitmap r ≡ 0)
        × ((n : ℕ) → 0 < n → n < r → slot_bit s.mem s.swap_bitmap n ≡ 0)
        × ((n : ℕ) → n ≢ r → slot_bit s'.mem s.swap_bitmap n ≡ slot_bit s.mem s.swap_bitmap n)
        × ((s'' : Mm) × (swap_free r s' ≡ ok tt s'')
            × ((n : ℕ) → slot_bit s''.mem s.swap_bitmap n ≡ slot_bit s.mem s.swap_bitmap n)))

none_free : (s : Mm) (s' : Mm) → IsFirst s.swap_bitmap 1 32767 s 0 s' → Taken s 0 s'
none_free s s' f = inl (
  refl,
  (λ n a b. f.earlier n (omega arith) (omega arith) (inr refl)),
  (λ n. ground (arith, f.bits n)),
)

-- With a bit map, `get_swap_page` returns 0 if no slot from 1 to 32767 is free, and leaves every
-- bit as it is; or else it returns the first free slot, whose bit was set and is cleared, with all
-- other bits as before, and `swap_free` of it then makes every bit what it was before.
pub get_swap_page-swap_free :
    (s : Mm) → s.swap_bitmap ≢ 0 → (r : ℕ) × (s' : Mm) × (get_swap_page s ≡ ok r s') × Taken s r s'
get_swap_page-swap_free s h =
    let (r, s', run, f) = get_swap_page-IsFirst s h in
    elim (ℕ_discrete r 0) [
      | yes z ↦ (
        r,
        s',
        run,
        subst (λ k. Taken s k s') (sym z)
            (none_free s s' (subst (λ k. IsFirst s.swap_bitmap 1 32767 s k s') z f)),
      )
      | no ne ↦
          let g = f.found ne in
          (
            r,
            s',
            run,
            inr (
              omega (arith, ne),
              omega (arith, g),
              g.2,
              ground (arith, f.bits r, ne),
              (λ n a b. f.earlier n (omega (arith, a)) (omega (arith, g, b)) (inl b)),
              (λ n out. ground (arith, f.bits n, out)),
              swap_free-found s r s' h ne f,
            ),
          )
    ]
