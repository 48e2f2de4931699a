-- ===== src/Mm/Free.antt =====
-- What `get_free_page` and `free_page` promise.
use linux_0_12_study.Base.{
  ==_iff, Bool-cases, arith, dec_lt, false, if◌then◌else◌, inl, inr, leb, lt→leb_false, some, subst,
  suc, zero, ℕ, ◌*◌, ◌+◌, ◌<◌, ◌==◌, ◌≡◌, ◌≢◌,
}
use linux_0_12_study.Mm.State.{Mm, ok, update, paging_pages, in_page, low_mem}
use linux_0_12_study.Mm.Pages.{clear_page}
use linux_0_12_study.Mm.Swap.{last_free, get_free_page, try_page}

last_free-some :
    (mem_map : ℕ → ℕ) (n : ℕ) {i : ℕ}
    → last_free mem_map n ≡ some i
    → (i < n) × (mem_map i ≡ 0) × ((j : ℕ) → i < j → j < n → mem_map j ≢ 0)
unfolding last_free
last_free-some mem_map zero e = absurd (cc)
last_free-some mem_map (suc n) {i} e = elim (Bool-cases (mem_map n == 0)) [
  | inl free ↦
      let same : some n ≡ some i = rw free at e in
      let q : n ≡ i = cc in
      (
        omega arith,
        subst (λ k. mem_map k ≡ 0) q ((==_iff (mem_map n) 0).0 free),
        λ j a b. absurd (omega arith),
      )
  | inr busy ↦
      let ih = last_free-some mem_map n (rw busy at e) in
      (
        omega (arith, ih.0),
        ih.1,
        λ j a b z. elim (dec_lt j n) [
          | yes l ↦ ih.2 j a l z
          | no g ↦ let q : j ≡ n = omega arith in cc (rw (subst (λ k. mem_map k ≡ 0) q z) at busy)
        ],
      )
]

-- What the code does to the page with the number i.
abbrev pub taken : ℕ → Mm → Mm
taken i s = record s {
  mem_map = update s.mem_map i 1;
  mem = λ a. if in_page (i * 4096 + low_mem) a then 0 else s.mem a;
}

get_free_page-taken :
    (fuel i : ℕ) (s : Mm)
    → last_free s.mem_map paging_pages ≡ some i
    → leb s.high_memory (i * 4096 + low_mem) ≡ false
    → get_free_page (suc fuel) s ≡ ok (i * 4096 + low_mem) (taken i s)
unfolding get_free_page try_page clear_page
get_free_page-taken fuel i s e high = rw e (rw high)

-- If the last page of `mem_map` that is free lies below `HIGH_MEMORY`, then `get_free_page` returns
-- its address: that page had no user and now has one, its words are 0, and the counts of the other
-- pages and all memory outside of it are as before. No page above it was free.
pub get_free_page-last_free :
    (fuel : ℕ) (s : Mm) {i : ℕ}
    → last_free s.mem_map paging_pages ≡ some i
    → i * 4096 + low_mem < s.high_memory
    → (get_free_page (suc fuel) s ≡ ok (i * 4096 + low_mem) (taken i s))
      × (i < paging_pages)
      × (s.mem_map i ≡ 0)
      × ((j : ℕ) → i < j → j < paging_pages → s.mem_map j ≢ 0)
get_free_page-last_free fuel s {i} e h =
    let r = last_free-some s.mem_map paging_pages e in
    (get_free_page-taken fuel i s e (lt→leb_false _ _ h), r.0, r.1, r.2)
