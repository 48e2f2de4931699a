-- ===== src/Mm/Counts.antt =====
-- The counts of `mem_map` while a page table is copied and freed.
use linux_0_12_study.Base.{
  Bool, Bool-cases, ap, arith, eq→==, false, if◌then◌else◌, inl, inr, leb, ltb, none, refl, subst,
  suc, sym, true, zero, ℕ, ◌%◌, ◌&&◌, ◌*◌, ◌+◌, ◌-◌, ◌/◌, ◌<◌, ◌==◌, ◌∙◌, ◌≡◌, ◌≢◌, ◌≤◌, ◌⊎◌,
}
use linux_0_12_study.Base.Bits.{clear_bit}
use linux_0_12_study.Mm.State.{Mm, ok, is_present, low_mem, page_of, update}
use linux_0_12_study.Mm.Tables.{copy_entry, copy_entries}

-- The entry as it is shared: without the bit that lets users write.
abbrev pub shared : ℕ → ℕ
shared entry = clear_bit entry 1

pub clear_one : (x : ℕ) → clear_bit x 1 ≡ x / 4 * 4 + x % 2
unfolding clear_bit
clear_one x = omega arith

-- Does the entry map the page with the number i of `mem_map`?
abbrev pub maps : ℕ → ℕ → Bool
maps entry i =
    is_present entry && leb low_mem (page_of entry) && ((page_of entry - low_mem) / 4096 == i)

-- How many of the nr entries from the address a on map the page i.
unfoldable pub users : (ℕ → ℕ) → ℕ → ℕ → ℕ → ℕ
users mem zero a i = 0
users mem (suc nr) a i = (if maps (mem a) i then 1 else 0) + users mem nr (a + 4) i

-- The nr entries from a on are empty or present.
abbrev pub NoneSwapped : (ℕ → ℕ) → ℕ → ℕ → Type 0
NoneSwapped mem zero a = Unit
NoneSwapped mem (suc nr) a =
    ((mem a ≡ 0) ⊎ (is_present (mem a) ≡ true)) × NoneSwapped mem nr (a + 4)

abbrev pub in_table : ℕ → ℕ → ℕ → Bool
in_table nr a x = leb a x && ltb x (a + 4 * nr)

-- What one round does.
abbrev copied : ℕ → ℕ → Mm → Mm
copied from to s =
    let e = s.mem from in
    let n = (shared e - low_mem) / 4096 in
    if e == 0
    then s
    else if ltb low_mem (shared e)
    then record s {
      mem = update (update s.mem to (shared e)) from (shared e);
      mem_map = update s.mem_map n ((s.mem_map n + 1) % 256);
    }
    else record s { mem = update s.mem to (shared e) }

copy_entry-copied :
    (from to : ℕ) (s : Mm)
    → (s.mem from ≡ 0) ⊎ (is_present (s.mem from) ≡ true)
    → copy_entry from to s ≡ ok none (copied from to s)
unfolding copy_entry
copy_entry-copied from to s (inl z) = rw (eq→== (s.mem from) 0 z)
copy_entry-copied from to s (inr p) =
    let ne : (s.mem from == 0) ≡ false = ground arith in
    elim (Bool-cases (ltb low_mem (shared (s.mem from)))) [
      | inl high ↦ rw (ne, p) (rw high)
      | inr low ↦ rw (ne, p) (rw low)
    ]

pub maps-shared : (e i : ℕ) → maps (shared e) i ≡ maps e i
maps-shared e i = rw (clear_one e) (ground arith)

module _ (from to : ℕ) (s : Mm) (ne : from ≢ to)
    (p : (s.mem from ≡ 0) ⊎ (is_present (s.mem from) ≡ true)) where
  copied-elsewhere : (x : ℕ) → x ≢ from → x ≢ to → (copied from to s).mem x ≡ s.mem x
  copied-elsewhere x a b = ground arith

  copied-child : s.mem to ≡ 0 → (copied from to s).mem to ≡ shared (s.mem from)
  copied-child z = ground (arith, clear_one (s.mem from))

  copied-parent :
      (copied from to s).mem from
      ≡ (if ltb low_mem (shared (s.mem from)) then shared (s.mem from) else s.mem from)
  copied-parent = ground (arith, clear_one (s.mem from))

  copied-counts :
      (i : ℕ)
      → s.mem_map i + (if maps (s.mem from) i then 1 else 0) < 256
      → (copied from to s).mem_map i ≡ s.mem_map i + (if maps (s.mem from) i then 1 else 0)
  copied-counts i room = ground (arith, clear_one (s.mem from))

pub users-frame :
    (m m' : ℕ → ℕ) (nr a i : ℕ)
    → ((x : ℕ) → in_table nr a x ≡ true → m' x ≡ m x)
    → users m' nr a i ≡ users m nr a i
unfolding users
users-frame m m' zero a i h = refl
users-frame m m' (suc nr) a i h =
    ground (arith, h a (ground arith), users-frame m m' nr (a + 4) i (λ x l. h x (ground arith)))

pub NoneSwapped-frame :
    (m m' : ℕ → ℕ) (nr a : ℕ)
    → ((x : ℕ) → in_table nr a x ≡ true → m' x ≡ m x)
    → NoneSwapped m nr a
    → NoneSwapped m' nr a
NoneSwapped-frame m m' zero a h n = tt
NoneSwapped-frame m m' (suc nr) a h n = (
  subst (λ e. (e ≡ 0) ⊎ (is_present e ≡ true)) (sym (h a (ground arith))) n.0,
  NoneSwapped-frame m m' nr (a + 4) (λ x l. h x (ground arith)) n.1,
)

-- Two tables of nr entries that do not meet.
abbrev pub Apart : ℕ → ℕ → ℕ → Type 0
Apart nr a b = (a + 4 * nr ≤ b) ⊎ (b + 4 * nr ≤ a)

abbrev pub Empty : (ℕ → ℕ) → ℕ → ℕ → Type 0
Empty mem nr a = (k : ℕ) → k < nr → mem (a + 4 * k) ≡ 0

-- The tables after copying.
pub record IsCopied (nr from to : ℕ) (s s' : Mm) : Type 0 where
  pub counts : (i : ℕ) → s'.mem_map i ≡ s.mem_map i + users s.mem nr from i
  pub child : (k : ℕ) → k < nr → s'.mem (to + 4 * k) ≡ shared (s.mem (from + 4 * k))
  pub parent :
      (k : ℕ)
      → k < nr
      → let e = s.mem (from + 4 * k) in
        s'.mem (from + 4 * k) ≡ (if ltb low_mem (shared e) then shared e else e)
  pub elsewhere :
      (x : ℕ) → in_table nr from x ≡ false → in_table nr to x ≡ false → s'.mem x ≡ s.mem x
  pub same_high : s'.high_memory ≡ s.high_memory

module _ (nr from to : ℕ) (s s' : Mm) (apart : Apart (suc nr) from to)
    (p : (s.mem from ≡ 0) ⊎ (is_present (s.mem from) ≡ true))
    (c : IsCopied nr (from + 4) (to + 4) (copied from to s) s') where
  child-cons :
      s.mem to ≡ 0 → (k : ℕ) → k < suc nr → s'.mem (to + 4 * k) ≡ shared (s.mem (from + 4 * k))
  child-cons z zero h =
      let e : to + 4 * 0 ≡ to = omega arith in
      let f : from + 4 * 0 ≡ from = omega arith in
      rw (e, f)
        (c.elsewhere to (ground arith) (ground arith) ∙ copied-child from to s (omega arith) p z)
  child-cons z (suc k) h =
      let e : to + 4 * suc k ≡ to + 4 + 4 * k = omega arith in
      let f : from + 4 * suc k ≡ from + 4 + 4 * k = omega arith in
      rw (e, f)
        (c.child k (omega arith)
          ∙ ap shared (
              copied-elsewhere from to s (omega arith) p (from + 4 + 4 * k) (omega arith)
                (omega arith)))

  parent-cons :
      (k : ℕ)
      → k < suc nr
      → let e = s.mem (from + 4 * k) in
        s'.mem (from + 4 * k) ≡ (if ltb low_mem (shared e) then shared e else e)
  parent-cons zero h =
      let f : from + 4 * 0 ≡ from = omega arith in
      rw f
        (c.elsewhere from (ground arith) (ground arith) ∙ copied-parent from to s (omega arith) p)
  parent-cons (suc k) h =
      let f : from + 4 * suc k ≡ from + 4 + 4 * k = omega arith in
      rw f (
        c.parent k (omega arith)
        ∙ ap (λ e. if ltb low_mem (shared e) then shared e else e)
            (copied-elsewhere from to s (omega arith) p (from + 4 + 4 * k) (omega arith)
              (omega arith)))

-- One round moves one entry's share into the counts.
counts-step :
    (nr from to i : ℕ) (s : Mm)
    → Apart (suc nr) from to
    → (s.mem from ≡ 0) ⊎ (is_present (s.mem from) ≡ true)
    → s.mem_map i + users s.mem (suc nr) from i < 256
    → (copied from to s).mem_map i + users (copied from to s).mem nr (from + 4) i
      ≡ s.mem_map i + users s.mem (suc nr) from i
unfolding users
counts-step nr from to i s apart p room = omega (
  arith,
  copied-counts from to s (omega arith) p i (omega arith),
  users-frame s.mem (copied from to s).mem nr (from + 4) i
      (λ x l. copied-elsewhere from to s (omega arith) p x (ground arith) (ground arith)),
)

IsCopied-cons :
    (nr from to : ℕ) (s s' : Mm)
    → Apart (suc nr) from to
    → (s.mem from ≡ 0) ⊎ (is_present (s.mem from) ≡ true)
    → s.mem to ≡ 0
    → ((i : ℕ) → s.mem_map i + users s.mem (suc nr) from i < 256)
    → IsCopied nr (from + 4) (to + 4) (copied from to s) s'
    → IsCopied (suc nr) from to s s'
IsCopied-cons nr from to s s' apart p z room c = record {
  counts = λ i. c.counts i ∙ counts-step nr from to i s apart p (room i);
  child = child-cons nr from to s s' apart p c z;
  parent = parent-cons nr from to s s' apart p c;
  elsewhere = λ x a b.
      c.elsewhere x (ground arith) (ground arith)
      ∙ copied-elsewhere from to s (omega arith) p x (ground arith) (ground arith);
  same_high = c.same_high ∙ ground arith;
}

-- If the entries of a page table are empty or present, the table to copy to is empty and apart,
-- and each count and the number of the entries that map its page are together below 256, then
-- copying returns normally: the new table gets each entry without the write bit, the old one loses
-- that bit where the page lies at or above `LOW_MEM`, the count of each page grows by the number
-- of the entries that map it, and all memory outside the two tables is as before.
pub copy_entries-IsCopied :
    (nr from to : ℕ) (s : Mm)
    → Apart nr from to
    → NoneSwapped s.mem nr from
    → Empty s.mem nr to
    → ((i : ℕ) → s.mem_map i + users s.mem nr from i < 256)
    → (s' : Mm) × (copy_entries nr from to s ≡ ok none s') × IsCopied nr from to s s'
unfolding copy_entries
copy_entries-IsCopied zero from to s apart n z room = (
  s,
  refl,
  record {
    counts = λ i. unfold users in omega arith;
    child = λ k h. absurd (omega arith);
    parent = λ k h. absurd (omega arith);
    elsewhere = λ x a b. refl;
    same_high = refl;
  },
)
copy_entries-IsCopied (suc nr) from to s apart n z room =
    let s₁ = copied from to s in
    let ne : from ≢ to = omega arith in
    let first : s.mem to ≡ 0 = subst (λ x. s.mem x ≡ 0) (omega arith) (z 0 (omega arith)) in
    let (s', run, c) =
      copy_entries-IsCopied nr (from + 4) (to + 4) s₁ (omega arith)
        (NoneSwapped-frame s.mem s₁.mem nr (from + 4)
          (λ x l. copied-elsewhere from to s ne n.0 x (ground arith) (ground arith)) n.1)
        (λ k h.
          copied-elsewhere from to s ne n.0 (to + 4 + 4 * k) (omega arith) (omega arith)
          ∙ subst (λ x. s.mem x ≡ 0) (omega arith) (z (suc k) (omega arith)))
        (λ i. omega (arith, room i, counts-step nr from to i s apart n.0 (room i))) in
    (
      s',
      rw (copy_entry-copied from to s n.0) run,
      IsCopied-cons nr from to s s' apart n.0 first room c,
    )
