-- ===== src/Buffers/Chains.antt =====
-- The queues of ver05/fs/buffer.c: what `remove_from_queues` and `insert_into_queues` change.
use linux_0_12_study.Base.{
  Bool, Option, ap, arith, eq→==, false, if◌then◌else◌, ne→==_false, none, refl, some, subst, suc,
  sym, true, zero, ℕ, ◌<◌, ◌==◌, ◌∙◌, ◌≡◌, ◌≢◌,
}
use linux_0_12_study.Buffers.{
  Buffer, Cache, at_buffer, holds, find_buffer, find_from, put_hash, enter_free, enter_hash,
  insert_into_queues, remove_from_queues, hashfn, leave_hash, leave_free, same_pointer,
  insert_before,
}
use linux_0_12_study.Buffers.Runs.{Run, done, panics, asleep}
use linux_0_12_study.Buffers.Blocks.{attempt}

-- No buffer has changed its block, nor its count and flags.
pub record SameBlock (a b : Buffer) : Type 0 where
  pub same_dev : a.b_dev ≡ b.b_dev
  pub same_block : a.b_blocknr ≡ b.b_blocknr
  pub same_count : a.b_count ≡ b.b_count
  pub same_uptodate : a.b_uptodate ≡ b.b_uptodate

-- Only links have changed.
pub record Relinked (c d : Cache) : Type 0 where
  pub blocks : (j : ℕ) → SameBlock (d.buffer j) (c.buffer j)
  pub same_nr : d.nr_buffers ≡ c.nr_buffers

same-SameBlock : (a : Buffer) → SameBlock a a
same-SameBlock a = record {
  same_dev = refl;
  same_block = refl;
  same_count = refl;
  same_uptodate = refl;
}

SameBlock-trans : (a b c : Buffer) → SameBlock a b → SameBlock b c → SameBlock a c
SameBlock-trans a b c p q = record {
  same_dev = p.same_dev ∙ q.same_dev;
  same_block = p.same_block ∙ q.same_block;
  same_count = p.same_count ∙ q.same_count;
  same_uptodate = p.same_uptodate ∙ q.same_uptodate;
}

if-SameBlock :
    (t : Bool) (a b c : Buffer) → SameBlock a c → SameBlock b c → SameBlock (if t then a else b) c
if-SameBlock true a b c p q = p
if-SameBlock false a b c p q = q

-- A change of links only.
abbrev IsRelink : (Buffer → Buffer) → Type 0
IsRelink f = (b : Buffer) → SameBlock (f b) b

at_buffer-Relinked :
    (o : Option ℕ) (f : Buffer → Buffer) (c d : Cache)
    → IsRelink f
    → Relinked c d
    → Relinked c (at_buffer o f d)
at_buffer-Relinked none f c d h r = r
at_buffer-Relinked (some i) f c d h r = record {
  blocks = λ j.
      if-SameBlock (i == j) (f (d.buffer j)) (d.buffer j) (c.buffer j)
        (SameBlock-trans (f (d.buffer j)) (d.buffer j) (c.buffer j) (h (d.buffer j)) (r.blocks j))
        (r.blocks j);
  same_nr = r.same_nr;
}

if-Relinked :
    (t : Bool) (c d e : Cache) → Relinked c d → Relinked c e → Relinked c (if t then d else e)
if-Relinked true c d e p q = p
if-Relinked false c d e p q = q

same-Relinked : (c : Cache) → Relinked c c
same-Relinked c = record { blocks = λ j. same-SameBlock (c.buffer j); same_nr = refl }

Relinked-trans : (c d e : Cache) → Relinked c d → Relinked d e → Relinked c e
Relinked-trans c d e p q = record {
  blocks = λ j. SameBlock-trans (e.buffer j) (d.buffer j) (c.buffer j) (q.blocks j) (p.blocks j);
  same_nr = q.same_nr ∙ p.same_nr;
}

enter_free-Relinked : (bh f : ℕ) (c : Cache) → Relinked c (enter_free bh f c)
enter_free-Relinked bh f c =
    let last = (c.buffer f).b_prev_free in
    let set_new : Buffer → Buffer = λ b. record b { b_next_free = some f; b_prev_free = last } in
    let set_next : Buffer → Buffer = λ b. record b { b_next_free = some bh } in
    let set_prev : Buffer → Buffer = λ b. record b { b_prev_free = some bh } in
    at_buffer-Relinked (some f) set_prev c (at_buffer last set_next (at_buffer (some bh) set_new c))
      (λ b. record { same_dev = refl; same_block = refl; same_count = refl; same_uptodate = refl })
      (at_buffer-Relinked last set_next c (at_buffer (some bh) set_new c)
        (λ b. record {
          same_dev = refl;
          same_block = refl;
          same_count = refl;
          same_uptodate = refl;
        })
        (at_buffer-Relinked (some bh) set_new c c
          (λ b. record {
            same_dev = refl;
            same_block = refl;
            same_count = refl;
            same_uptodate = refl;
          })
          (same-Relinked c)))

enter_hash-Relinked : (bh : ℕ) (c : Cache) → Relinked c (enter_hash bh c)
unfolding enter_hash
enter_hash-Relinked bh c =
    let b = c.buffer bh in
    let h = hashfn b.b_dev b.b_blocknr in
    let set_none : Buffer → Buffer = λ n. record n { b_prev = none; b_next = none } in
    let c₁ = at_buffer (some bh) set_none c in
    let first = c₁.hash_table h in
    let set_next : Buffer → Buffer = λ n. record n { b_next = first } in
    let set_prev : Buffer → Buffer = λ n. record n { b_prev = some bh } in
    let c₂ = at_buffer (some bh) set_next c₁ in
    let r₁ =
      at_buffer-Relinked (some bh) set_none c c
        (λ b. record {
          same_dev = refl;
          same_block = refl;
          same_count = refl;
          same_uptodate = refl;
        })
        (same-Relinked c) in
    let r₂ =
      at_buffer-Relinked (some bh) set_next c c₁
        (λ b. record {
          same_dev = refl;
          same_block = refl;
          same_count = refl;
          same_uptodate = refl;
        })
        r₁ in
    let r₃ : Relinked c (put_hash h (some bh) c₂) = record {
      blocks = r₂.blocks;
      same_nr = r₂.same_nr;
    } in
    if-Relinked (b.b_dev == 0) c c₁ (at_buffer first set_prev (put_hash h (some bh) c₂)) r₁ (
      at_buffer-Relinked first set_prev c (put_hash h (some bh) c₂)
        (λ b. record {
          same_dev = refl;
          same_block = refl;
          same_count = refl;
          same_uptodate = refl;
        })
        r₃)

leave_hash-Relinked : (bh : ℕ) (c : Cache) → Relinked c (leave_hash bh c)
unfolding leave_hash
leave_hash-Relinked bh c =
    let b = c.buffer bh in
    let h = hashfn b.b_dev b.b_blocknr in
    let set_prev : Buffer → Buffer = λ n. record n { b_prev = b.b_prev } in
    let set_next : Buffer → Buffer = λ p. record p { b_next = b.b_next } in
    let c₁ = at_buffer b.b_next set_prev c in
    let c₂ = at_buffer b.b_prev set_next c₁ in
    let r₁ =
      at_buffer-Relinked b.b_next set_prev c c
        (λ b. record {
          same_dev = refl;
          same_block = refl;
          same_count = refl;
          same_uptodate = refl;
        })
        (same-Relinked c) in
    let r₂ =
      at_buffer-Relinked b.b_prev set_next c c₁
        (λ b. record {
          same_dev = refl;
          same_block = refl;
          same_count = refl;
          same_uptodate = refl;
        })
        r₁ in
    if-Relinked (same_pointer (c₂.hash_table h) bh) c (put_hash h b.b_next c₂) c₂
      (record { blocks = r₂.blocks; same_nr = r₂.same_nr }) r₂

get_some : Cache → Option Cache → Cache
get_some d none = d
get_some d (some c) = c

some-inj : (c d : Cache) → some c ≡ some d → c ≡ d
unfolding get_some
some-inj c d h = ap (get_some d) h

leave_free-Relinked :
    (bh : ℕ) (p n : Option ℕ) (c d : Cache) → leave_free bh p n c ≡ some d → Relinked c d
leave_free-Relinked bh none n c d h = ground arith
leave_free-Relinked bh (some p) none c d h = ground arith
leave_free-Relinked bh (some p) (some n) c d h =
    let set_next : Buffer → Buffer = λ b. record b { b_next_free = some n } in
    let set_prev : Buffer → Buffer = λ b. record b { b_prev_free = some p } in
    let c₁ = at_buffer (some p) set_next c in
    let c₂ = at_buffer (some n) set_prev c₁ in
    let r₁ =
      at_buffer-Relinked (some p) set_next c c
        (λ b. record {
          same_dev = refl;
          same_block = refl;
          same_count = refl;
          same_uptodate = refl;
        })
        (same-Relinked c) in
    let r₂ =
      at_buffer-Relinked (some n) set_prev c c₁
        (λ b. record {
          same_dev = refl;
          same_block = refl;
          same_count = refl;
          same_uptodate = refl;
        })
        r₁ in
    let c₃ = record c₂ { free_list = (c₂.buffer bh).b_next_free } in
    let t = same_pointer c₂.free_list bh in
    subst (λ e. Relinked c e) (some-inj (if t then c₃ else c₂) d h)
      (if-Relinked t c c₃ c₂ (record { blocks = r₂.blocks; same_nr = r₂.same_nr }) r₂)

pub remove-Relinked : (bh : ℕ) (c d : Cache) → remove_from_queues bh c ≡ some d → Relinked c d
unfolding remove_from_queues
remove-Relinked bh c d h =
    let c' = leave_hash bh c in
    Relinked-trans c c' d (leave_hash-Relinked bh c)
      (leave_free-Relinked bh (c'.buffer bh).b_prev_free (c'.buffer bh).b_next_free c' d h)

at_buffer-hash :
    (o : Option ℕ) (f : Buffer → Buffer) (c : Cache) (h : ℕ)
    → (at_buffer o f c).hash_table h ≡ c.hash_table h
at_buffer-hash none f c h = refl
at_buffer-hash (some i) f c h = refl

-- The buffer is the first one of the queue of its block.
enter_hash-first :
    (bh : ℕ) (c : Cache)
    → (c.buffer bh).b_dev ≢ 0
    → (enter_hash bh c).hash_table (hashfn (c.buffer bh).b_dev (c.buffer bh).b_blocknr) ≡ some bh
unfolding enter_hash
enter_hash-first bh c n =
    let b = c.buffer bh in
    let h = hashfn b.b_dev b.b_blocknr in
    let c₁ = at_buffer (some bh) (λ n. record n { b_prev = none; b_next = none }) c in
    let first = c₁.hash_table h in
    let c₂ = at_buffer (some bh) (λ n. record n { b_next = first }) c₁ in
    let c₃ = put_hash h (some bh) c₂ in
    let f : Buffer → Buffer = λ n. record n { b_prev = some bh } in
    ap (λ t. (if t then c₁ else at_buffer first f c₃).hash_table h) (ne→==_false b.b_dev 0 n)
    ∙ at_buffer-hash first f c₃ h
    ∙ ap (λ t. if t then some bh else c₂.hash_table h) (eq→== h h refl)

-- What `insert_into_queues` leaves behind for a buffer with a device.
pub record Inserted (bh : ℕ) (c d : Cache) : Type 0 where
  pub relinked : Relinked c d
  pub first :
      (c.buffer bh).b_dev ≢ 0
      → d.hash_table (hashfn (c.buffer bh).b_dev (c.buffer bh).b_blocknr) ≡ some bh

insert-Inserted :
    (o : Option ℕ) (bh : ℕ) (c d : Cache) → insert_before o bh c ≡ some d → Inserted bh c d
insert-Inserted none bh c d h = ground arith
insert-Inserted (some f) bh c d h =
    let e = enter_free bh f c in
    let r = enter_free-Relinked bh f c in
    let s = r.blocks bh in
    subst (λ x. Inserted bh c x) (some-inj (enter_hash bh e) d h)
      (record {
        relinked = Relinked-trans c e (enter_hash bh e) r (enter_hash-Relinked bh e);
        first = λ n.
            ap (λ x. (enter_hash bh e).hash_table (hashfn x (c.buffer bh).b_blocknr))
              (sym s.same_dev)
            ∙ ap (λ x. (enter_hash bh e).hash_table (hashfn (e.buffer bh).b_dev x))
                (sym s.same_block)
            ∙ enter_hash-first bh e (λ z. n (sym s.same_dev ∙ z));
      })

pub inserted : (bh : ℕ) (c d : Cache) → insert_into_queues bh c ≡ some d → Inserted bh c d
unfolding insert_into_queues
inserted bh c d h = insert-Inserted c.free_list bh c d h

abbrev cache_of : Cache → Run (Unit {0}) → Option Cache
cache_of c (done a d) = some d
cache_of c panics = none
cache_of c asleep = none

pub attempt-done : (o : Option Cache) (a : Unit {0}) (d : Cache) → attempt o ≡ done a d → o ≡ some d
attempt-done none a d h = ground arith
attempt-done (some c) a d h = ap (λ r. cache_of c r) h

-- From c to d the buffer bh has been given to the block.
pub record Taken (dev block bh : ℕ) (c d : Cache) : Type 0 where
  pub taken_dev : (d.buffer bh).b_dev ≡ dev
  pub taken_block : (d.buffer bh).b_blocknr ≡ block
  pub used_once : (d.buffer bh).b_count ≡ 1
  pub not_read : (d.buffer bh).b_uptodate ≡ 0
  pub in_front : d.hash_table (hashfn dev block) ≡ some bh
  pub same_number : d.nr_buffers ≡ c.nr_buffers

find_from-first :
    (n dev block bh : ℕ) (c : Cache)
    → 0 < n
    → holds dev block (c.buffer bh) ≡ true
    → find_from n (some bh) dev block c ≡ some bh
unfolding find_from
find_from-first zero dev block bh c n h = absurd (omega arith)
find_from-first (suc n) dev block bh c l h =
    ap (λ t. if t then some bh else find_from n (c.buffer bh).b_next dev block c) h

pub find_first :
    (dev block bh : ℕ) (c : Cache)
    → 0 < c.nr_buffers
    → c.hash_table (hashfn dev block) ≡ some bh
    → (c.buffer bh).b_dev ≡ dev
    → (c.buffer bh).b_blocknr ≡ block
    → find_buffer dev block c ≡ some bh
unfolding find_buffer
find_first dev block bh c n h d b =
    ap (λ o. find_from c.nr_buffers o dev block c) h
    ∙ find_from-first c.nr_buffers dev block bh c n (ground (arith, d, b))

pub at_buffer_self :
    (i : ℕ) (f : Buffer → Buffer) (c : Cache) → (at_buffer (some i) f c).buffer i ≡ f (c.buffer i)
at_buffer_self i f c = ap (λ t. if t then f (c.buffer i) else c.buffer i) (eq→== i i refl)
