-- ===== src/Mm/Ends.antt =====
-- `swap_out` ends: its loops do not run out of rounds.
use linux_0_12_study.Base.{
  Bool-cases, Option, arith, inl, inr, int_le, ltb, none, some, subst, suc, word, word_sub, zero, ℕ,
  ◌!=◌, ◌%◌, ◌*◌, ◌+◌, ◌-◌, ◌<◌, ◌==◌, ◌≢◌, ◌≤◌,
}
use linux_0_12_study.Mm.State.{
  Mm, M, Run, ok, panic, no_fuel, run_then, low_mem, page_of, map_nr, is_present, update,
  paging_memory,
}
use linux_0_12_study.Base.Bits.{bit, clear_bit}
use linux_0_12_study.Mm.Pages.{free_page}
use linux_0_12_study.Mm.Swap.{
  clrbit, find_swap_page, get_swap_page, write_swap_page, swap_out_dirty, try_to_swap_out, seek_dir,
  next_table, swap_loop, swap_out, word_address, next_dir, next_entry, swap_at, vm_pages,
}

-- The run does not lack rounds, and a result has the property.
abbrev Ends : {A : Type 0} → (A → Type 0) → Run A → Type 0
Ends P (ok a s) = P a
Ends P panic = Unit
Ends P no_fuel = ⊥

Ends-then :
    {A B : Type 0} (P : A → Type 0) (Q : B → Type 0) (r : Run A) (f : A → M B)
    → Ends P r
    → ((a : A) (s : Mm) → P a → Ends Q (f a s))
    → Ends Q (run_then r f)
Ends-then P Q (ok a s) f e next = next a s e
Ends-then P Q panic f e next = tt
Ends-then P Q no_fuel f e next = absurd e

abbrev Any : {A : Type 0} → A → Type 0
Any _ = Unit

free_page-Ends : (addr : ℕ) (s : Mm) → Ends Any (free_page addr s)
unfolding free_page
free_page-Ends addr s = ground arith

find_swap_page-Ends : (rounds addr nr : ℕ) (s : Mm) → Ends Any (find_swap_page rounds addr nr s)
unfolding find_swap_page clrbit
find_swap_page-Ends zero addr nr s = tt
find_swap_page-Ends (suc rounds) addr nr s =
    let w = word_address addr nr in
    ground (
      arith,
      find_swap_page-Ends rounds addr (nr + 1)
          (record s { mem = update s.mem w (clear_bit (s.mem w) (nr % 32)) }),
    )

get_swap_page-Ends : (s : Mm) → Ends Any (get_swap_page s)
unfolding get_swap_page
get_swap_page-Ends s = ground (arith, find_swap_page-Ends 32767 s.swap_bitmap 1 s)

swap_out_dirty-Ends : (t page : ℕ) (s : Mm) → Ends Any (swap_out_dirty t page s)
unfolding swap_out_dirty write_swap_page
swap_out_dirty-Ends t page s = elim (Bool-cases (s.mem_map (map_nr page) != 1)) [
  | inl many ↦ rw many tt
  | inr one ↦ rw one (
      Ends-then Any Any (get_swap_page s) _ (get_swap_page-Ends s) λ nr s' _.
        elim (Bool-cases (nr == 0)) [
          | inl none_left ↦ rw none_left tt
          | inr found ↦
              rw found
                (Ends-then Any Any (free_page page _) _ (free_page-Ends page _) (λ _ _ _. tt))
        ])
]

try_to_swap_out-Ends : (t : ℕ) (s : Mm) → Ends Any (try_to_swap_out t s)
unfolding try_to_swap_out
try_to_swap_out-Ends t s = elim (Bool-cases (is_present (s.mem t))) [
  | inr gone ↦ rw gone tt
  | inl here ↦ rw here (elim (Bool-cases (ltb paging_memory (word_sub (s.mem t) low_mem))) [
    | inl out ↦ rw out tt
    | inr paged ↦ rw paged (elim (Bool-cases (bit (s.mem t) 6 == 1)) [
      | inl dirty ↦ rw dirty (swap_out_dirty-Ends t (page_of (s.mem t)) s)
      | inr clean ↦
          rw clean
            (Ends-then Any Any (free_page (s.mem t) _) _ (free_page-Ends (s.mem t) _) (λ _ _ _. tt))
    ])
  ])
]

Ends-weaken :
    {A : Type 0} (P Q : A → Type 0) (r : Run A) → ((a : A) → P a → Q a) → Ends P r → Ends Q r
Ends-weaken P Q (ok a s) f e = f a e
Ends-weaken P Q panic f e = tt
Ends-weaken P Q no_fuel f e = e

seek_dir-Ends :
    (fuel counter : ℕ) (s : Mm)
    → counter + 1023 < 1024 * fuel
    → Ends (λ r. r.0 ≤ counter) (seek_dir fuel counter s)
unfolding seek_dir
seek_dir-Ends zero counter s h = absurd (omega arith)
seek_dir-Ends (suc fuel) counter s h = elim (Bool-cases (counter == 0)) [
  | inl done ↦ rw done (omega arith)
  | inr more ↦ rw more (elim (Bool-cases (is_present (s.mem (s.dir_entry * 4)))) [
    | inl here ↦ rw here (omega arith)
    | inr gone ↦ rw gone (
        Ends-weaken (λ r. r.0 ≤ counter - 1024) (λ r. r.0 ≤ counter)
          (seek_dir fuel (counter - 1024) (record s { dir_entry = next_dir s.dir_entry }))
          (λ r l. omega arith) (seek_dir-Ends fuel (counter - 1024) _ (ground arith)))
  ])
]

-- What is left of `counter` does not grow.
abbrev Left : ℕ → Option (ℕ × ℕ) → Type 0
Left counter none = Unit
Left counter (some (l, _)) = l ≤ counter

Left-le : (c d : ℕ) (r : Option (ℕ × ℕ)) → c ≤ d → Left c r → Left d r
Left-le c d none h l = tt
Left-le c d (some (n, t)) h l = omega arith

next_table-Ends :
    (fuel counter : ℕ) (s : Mm)
    → counter < 1024 * fuel
    → Ends (Left counter) (next_table fuel counter s)
unfolding next_table
next_table-Ends zero counter s h = absurd (omega arith)
next_table-Ends (suc fuel) counter s h =
    elim (Bool-cases (is_present (s.mem (next_dir s.dir_entry * 4)))) [
      | inl here ↦ rw here (omega arith)
      | inr gone ↦ rw gone (elim (Bool-cases (ltb 1024 counter)) [
        | inr last ↦ rw last tt
        | inl more ↦ rw more (
            Ends-weaken (Left (counter - 1024)) (Left counter)
              (next_table fuel (counter - 1024) (record s { dir_entry = next_dir s.dir_entry }))
              (λ r l. Left-le (counter - 1024) counter r (omega arith) l)
              (next_table-Ends fuel (counter - 1024) _ (ground arith)))
      ])
    ]

next_entry-Ends :
    (counter table : ℕ) (s : Mm)
    → counter < 1024 * 1009
    → Ends (Left counter) (next_entry counter table s)
unfolding next_entry
next_entry-Ends counter table s h = elim (Bool-cases (int_le 1024 (word (s.page_entry + 1)))) [
  | inl past ↦ rw past (next_table-Ends 1009 counter _ h)
  | inr same ↦ rw same (omega arith)
]

swap_at-Ends :
    (counter : ℕ) (again : ℕ → ℕ → M ℕ) (r : Option (ℕ × ℕ)) (s : Mm)
    → Left counter r
    → ((l t : ℕ) (s : Mm) → l ≤ counter → Ends Any (again l t s))
    → Ends Any (swap_at again r s)
unfolding swap_at
swap_at-Ends counter again none s left next = tt
swap_at-Ends counter again (some (l, t)) s left next =
    Ends-then Any Any (try_to_swap_out (t + s.page_entry * 4) s) _
      (try_to_swap_out-Ends (t + s.page_entry * 4) s)
      λ done s' _. elim (Bool-cases (done == 1)) [
        | inl yes_done ↦ rw yes_done tt
        | inr failed ↦ rw failed (next l t s' left)
      ]

swap_loop-Ends :
    (fuel counter table : ℕ) (s : Mm)
    → counter < fuel
    → counter < 1024 * 1009
    → Ends Any (swap_loop fuel counter table s)
unfolding swap_loop
swap_loop-Ends zero counter table s h k = absurd (omega arith)
swap_loop-Ends (suc fuel) counter table s h k = elim (Bool-cases (counter == 0)) [
  | inl done ↦ rw done tt
  | inr more ↦ rw more (
      Ends-then (Left (counter - 1)) Any (next_entry (counter - 1) table s) _
        (next_entry-Ends (counter - 1) table s (omega arith))
        λ r s' left.
          swap_at-Ends (counter - 1) (swap_loop fuel) r s' left
            λ l t s'' le. swap_loop-Ends fuel l t s'' (ground arith) (omega arith))
]

-- Whatever the page tables hold, `swap_out` ends: it returns or panics within the rounds of its
-- loops.
pub swap_out-ne-no_fuel : (s : Mm) → swap_out s ≢ no_fuel
unfolding swap_out
swap_out-ne-no_fuel s e = subst (Ends Any) e (
    Ends-then (λ r. r.0 ≤ vm_pages) Any (seek_dir 1009 vm_pages s) _
      (seek_dir-Ends 1009 vm_pages s (omega arith))
      λ r s' left. swap_loop-Ends (vm_pages + 1) r.0 (page_of r.1) s' (omega arith) (omega arith))
