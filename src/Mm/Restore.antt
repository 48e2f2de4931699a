-- ===== src/Mm/Restore.antt =====
-- Freeing a page table, and that it undoes the counts of copying it.
use linux_0_12_study.Base.{
  Bool-cases, ap, arith, eq→==, false, if◌then◌else◌, inl, inr, leb, leb→le, le→ltb_false,
  lt→leb_false, lt→ltb, none, refl, suc, true, zero, ℕ, ◌!=◌, ◌%◌, ◌*◌, ◌+◌, ◌-◌, ◌/◌, ◌<◌, ◌==◌,
  ◌∙◌, ◌≡◌, ◌≢◌, ◌≤◌, ◌⊎◌,
}
use linux_0_12_study.Mm.State.{Mm, ok, page_of, low_mem, is_present, update}
use linux_0_12_study.Mm.Pages.{free_page}
use linux_0_12_study.Mm.Tables.{free_entry, free_entries, copy_entries}
use linux_0_12_study.Mm.Counts.{
  maps, users, NoneSwapped, in_table, shared, clear_one, maps-shared, users-frame,
  NoneSwapped-frame, Apart, Empty, copy_entries-IsCopied,
}

-- What one round does.
abbrev freed : ℕ → Mm → Mm
freed a s =
    let e = s.mem a in
    let n = (page_of e - low_mem) / 4096 in
    if e == 0
    then s
    else if leb low_mem (page_of e)
    then record s {
      mem = update s.mem a 0;
      mem_map = update s.mem_map n ((s.mem_map n + 255) % 256);
    }
    else record s { mem = update s.mem a 0 }

free_page-low : (addr : ℕ) (s : Mm) → addr < low_mem → free_page addr s ≡ ok tt s
unfolding free_page
free_page-low addr s h = rw (lt→ltb addr low_mem h)

free_page-used :
    (addr : ℕ) (s : Mm)
    → low_mem ≤ addr
    → addr < s.high_memory
    → 0 < s.mem_map ((addr - low_mem) / 4096)
    → free_page addr s
      ≡ ok tt (record s {
        mem_map =
            update s.mem_map
              ((addr - low_mem) / 4096)
              ((s.mem_map ((addr - low_mem) / 4096) + 255) % 256);
      })
unfolding free_page
free_page-used addr s low high count =
    let some_user : (s.mem_map ((addr - low_mem) / 4096) != 0) ≡ true = ground arith in
    rw (le→ltb_false low_mem addr low, lt→leb_false addr s.high_memory high, some_user)

module _ (a : ℕ) (s : Mm) (p : (s.mem a ≡ 0) ⊎ (is_present (s.mem a) ≡ true)) where
  free_entry-freed :
      page_of (s.mem a) < s.high_memory
      → ((i : ℕ) → maps (s.mem a) i ≡ true → 0 < s.mem_map i)
      → free_entry a s ≡ ok tt (freed a s)
  unfolding free_entry
  free_entry-freed high user = elim p [
    | inl z ↦ rw (eq→== (s.mem a) 0 z)
    | inr here ↦
        let ne : (s.mem a == 0) ≡ false = ground arith in
        elim (Bool-cases (leb low_mem (page_of (s.mem a)))) [
          | inl low ↦
              rw (ne, here)
                (rw (
                  low,
                  free_page-used (page_of (s.mem a)) s (leb→le low_mem _ low) high
                      (user _ (ground arith)),
                ))
          | inr under ↦
              rw (ne, here) (rw (under, free_page-low (page_of (s.mem a)) s (ground arith)))
        ]
  ]

  freed-elsewhere : (x : ℕ) → x ≢ a → (freed a s).mem x ≡ s.mem x
  freed-elsewhere x h = ground arith

  freed-empty : (freed a s).mem a ≡ 0
  freed-empty = ground arith

  freed-counts :
      (i : ℕ)
      → s.mem_map i < 256
      → (maps (s.mem a) i ≡ true → 0 < s.mem_map i)
      → (freed a s).mem_map i + (if maps (s.mem a) i then 1 else 0) ≡ s.mem_map i
  freed-counts i byte user = ground arith

  freed-high : (freed a s).high_memory ≡ s.high_memory
  freed-high = ground arith

-- The pages of the table's entries lie below `HIGH_MEMORY`.
abbrev pub Below : (ℕ → ℕ) → ℕ → ℕ → ℕ → Type 0
Below mem high zero a = Unit
Below mem high (suc nr) a = (page_of (mem a) < high) × Below mem high nr (a + 4)

-- Each page counts at least the entries of the table that map it.
abbrev pub Counted : Mm → ℕ → ℕ → Type 0
Counted s nr a = (i : ℕ) → (users s.mem nr a i ≤ s.mem_map i) × (s.mem_map i < 256)

pub Below-frame :
    (m m' : ℕ → ℕ) (high high' nr a : ℕ)
    → high' ≡ high
    → ((x : ℕ) → in_table nr a x ≡ true → m' x ≡ m x)
    → Below m high nr a
    → Below m' high' nr a
Below-frame m m' high high' zero a e h b = tt
Below-frame m m' high high' (suc nr) a e h b = (
  omega (arith, ap page_of (h a (ground arith)), b.0),
  Below-frame m m' high high' nr (a + 4) e (λ x l. h x (ground arith)) b.1,
)

pub record IsFreed (nr a : ℕ) (s s' : Mm) : Type 0 where
  pub counts : (i : ℕ) → s'.mem_map i + users s.mem nr a i ≡ s.mem_map i
  pub empty : Empty s'.mem nr a
  pub elsewhere : (x : ℕ) → in_table nr a x ≡ false → s'.mem x ≡ s.mem x

-- One round moves one entry's share out of the counts.
freed-step :
    (nr a i : ℕ) (s : Mm)
    → (s.mem a ≡ 0) ⊎ (is_present (s.mem a) ≡ true)
    → Counted s (suc nr) a
    → ((freed a s).mem_map i + users s.mem (suc nr) a i
        ≡ s.mem_map i + users (freed a s).mem nr (a + 4) i)
      × ((freed a s).mem_map i < 256)
unfolding users
freed-step nr a i s p c =
    let same =
      users-frame s.mem (freed a s).mem nr (a + 4) i
        (λ x l. freed-elsewhere a s p x (ground arith)) in
    let one = freed-counts a s p i (c i).1 (λ m. ground (arith, m, c i)) in
    (omega (arith, one, same), omega (arith, one, c i))

Empty-cons :
    (nr a : ℕ) (s : Mm) {s' : Mm}
    → (s.mem a ≡ 0) ⊎ (is_present (s.mem a) ≡ true)
    → IsFreed nr (a + 4) (freed a s) s'
    → Empty s'.mem (suc nr) a
Empty-cons nr a s {s'} p f zero h =
    let e : a + 4 * 0 ≡ a = omega arith in rw e (f.elsewhere a (ground arith) ∙ freed-empty a s p)
Empty-cons nr a s {s'} p f (suc k) h =
    let e : a + 4 * suc k ≡ a + 4 + 4 * k = omega arith in rw e (f.empty k (omega arith))

users-pos : (mem : ℕ → ℕ) (nr a i : ℕ) → maps (mem a) i ≡ true → 0 < users mem (suc nr) a i
unfolding users
users-pos mem nr a i m = rw m (omega arith)

-- If none of nr entries is swapped out, their pages lie below `HIGH_MEMORY` and each page counts
-- its entries, freeing them returns normally, empties the table, takes from each page's count the
-- number of its entries, and leaves all other memory alone.
pub free_entries-IsFreed :
    (nr a : ℕ) (s : Mm)
    → NoneSwapped s.mem nr a
    → Below s.mem s.high_memory nr a
    → Counted s nr a
    → (s' : Mm) × (free_entries nr a s ≡ ok tt s') × IsFreed nr a s s'
unfolding free_entries
free_entries-IsFreed zero a s n b c = (
  s,
  refl,
  record {
    counts = λ i. unfold users in omega arith;
    empty = λ k h. absurd (omega arith);
    elsewhere = λ x o. refl;
  },
)
free_entries-IsFreed (suc nr) a s n b c =
    let s₁ = freed a s in
    let same =
      λ (x : ℕ) (l : in_table nr (a + 4) x ≡ true). freed-elsewhere a s n.0 x (ground arith) in
    let step = λ (i : ℕ). freed-step nr a i s n.0 c in
    let (s', run, f) =
      free_entries-IsFreed nr (a + 4) s₁ (NoneSwapped-frame s.mem s₁.mem nr (a + 4) same n.1)
        (Below-frame s.mem s₁.mem s.high_memory s₁.high_memory nr (a + 4) (freed-high a s n.0) same
          b.1)
        (λ i. (omega (arith, step i, c i), (step i).1)) in
    (
      s',
      rw (free_entry-freed a s n.0 b.0 (λ i m. omega (arith, users-pos s.mem nr a i m, c i))) run,
      record {
        counts = λ i. omega (arith, f.counts i, step i);
        empty = Empty-cons nr a s n.0 f;
        elsewhere = λ x o. f.elsewhere x (ground arith) ∙ freed-elsewhere a s n.0 x (ground arith);
      },
    )

-- The table at `to` holds the entries of the one at `from`, without the write bit.
abbrev SharedTable : (m m' : ℕ → ℕ) (nr from to : ℕ) → Type 0
SharedTable m m' nr from to = (k : ℕ) → k < nr → m' (to + 4 * k) ≡ shared (m (from + 4 * k))

module _ (m m' : ℕ → ℕ) where
  table_head : (nr from to : ℕ) → SharedTable m m' (suc nr) from to → m' to ≡ shared (m from)
  table_head nr from to h =
      ap m' (omega arith) ∙ h 0 (omega arith) ∙ ap (λ x. shared (m x)) (omega arith)

  table_tail :
      (nr from to : ℕ) → SharedTable m m' (suc nr) from to → SharedTable m m' nr (from + 4) (to + 4)
  table_tail nr from to h k l =
      ap m' (omega arith) ∙ h (suc k) (omega arith) ∙ ap (λ x. shared (m x)) (omega arith)

  users-SharedTable :
      (nr from to i : ℕ) → SharedTable m m' nr from to → users m' nr to i ≡ users m nr from i
  unfolding users
  users-SharedTable zero from to i h = refl
  users-SharedTable (suc nr) from to i h = ground (
    arith,
    table_head nr from to h,
    maps-shared (m from) i,
    users-SharedTable nr (from + 4) (to + 4) i (table_tail nr from to h),
  )

  NoneSwapped-SharedTable :
      (nr from to : ℕ) → SharedTable m m' nr from to → NoneSwapped m nr from → NoneSwapped m' nr to
  NoneSwapped-SharedTable zero from to h n = tt
  NoneSwapped-SharedTable (suc nr) from to h n = (
    rw (table_head nr from to h, clear_one (m from)) (ground (arith, n.0)),
    NoneSwapped-SharedTable nr (from + 4) (to + 4) (table_tail nr from to h) n.1,
  )

  Below-SharedTable :
      (high high' nr from to : ℕ)
      → high' ≡ high
      → SharedTable m m' nr from to
      → Below m high nr from
      → Below m' high' nr to
  Below-SharedTable high high' zero from to e h b = tt
  Below-SharedTable high high' (suc nr) from to e h b = (
    omega (arith, table_head nr from to h, clear_one (m from), b.0),
    Below-SharedTable high high' nr (from + 4) (to + 4) e (table_tail nr from to h) b.1,
  )

-- The round trip of a fork and an exit: copying the entries of a table and then freeing the copy
-- brings every page's count back to what it was.
pub copy_entries-free_entries :
    (nr from to : ℕ) (s : Mm)
    → Apart nr from to
    → NoneSwapped s.mem nr from
    → Below s.mem s.high_memory nr from
    → Empty s.mem nr to
    → ((i : ℕ) → s.mem_map i + users s.mem nr from i < 256)
    → (s' s'' : Mm) × (copy_entries nr from to s ≡ ok none s')
      × (free_entries nr to s' ≡ ok tt s'')
      × ((i : ℕ) → s''.mem_map i ≡ s.mem_map i)
      × Empty s''.mem nr to
copy_entries-free_entries nr from to s apart n b z room =
    let (s', run, c) = copy_entries-IsCopied nr from to s apart n z room in
    let same = λ (i : ℕ). users-SharedTable s.mem s'.mem nr from to i c.child in
    let (s'', run', f) =
      free_entries-IsFreed nr to s' (NoneSwapped-SharedTable s.mem s'.mem nr from to c.child n)
        (Below-SharedTable s.mem s'.mem s.high_memory s'.high_memory nr from to c.same_high c.child
          b)
        (λ i. (omega (arith, same i, c.counts i), omega (arith, c.counts i, room i))) in
    (s', s'', run, run', (λ i. omega (arith, f.counts i, c.counts i, same i)), f.empty)
