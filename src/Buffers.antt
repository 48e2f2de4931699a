-- ===== src/Buffers.antt =====
-- The buffer cache: ver05/fs/buffer.c. A pointer to a `struct buffer_head` is its number in the array
-- at `start_buffer`. A cache may change while the code sleeps: `others` is what is done to it until
-- the task goes on, `write` and `read` are what `ll_rw_block` does, and `sync_inodes` writes inodes
-- into buffers (ver05/fs/inode.c). The loops that may sleep run on fuel.
pub mod Runs
pub mod Blocks
pub mod Chains
pub mod Getblk
mod Tests
use linux_0_12_study.Base.{
  Bool, Option, false, if◌then◌else◌, ltb, none, some, suc, true, zero, ℕ, ◌%◌, ◌&&◌, ◌*◌, ◌+◌, ◌/◌,
  ◌==◌, ◌||◌,
}

abbrev pub nr_hash : ℕ
nr_hash = 307

-- `struct buffer_head`; the data stays where it is, at `b_data`
pub record Buffer : Type 0 where
  pub b_blocknr : ℕ
  pub b_dev : ℕ
  pub b_uptodate : ℕ
  pub b_dirt : ℕ
  pub b_count : ℕ
  pub b_lock : ℕ
  pub b_prev : Option ℕ
  pub b_next : Option ℕ
  pub b_prev_free : Option ℕ
  pub b_next_free : Option ℕ

pub record Cache : Type 0 where
  pub buffer : ℕ → Buffer
  pub hash_table : ℕ → Option ℕ
  pub free_list : Option ℕ
  pub nr_buffers : ℕ

-- a ^ b of words of `w` bits
unfoldable pub bit_xor : ℕ → ℕ → ℕ → ℕ
bit_xor zero a b = 0
bit_xor (suc w) a b = bit_xor w (a / 2) (b / 2) * 2 + (a % 2 + b % 2) % 2

unfoldable pub hashfn : ℕ → ℕ → ℕ
unfolding bit_xor
hashfn dev block = bit_xor 32 dev block % nr_hash

-- A change of the buffer that a pointer leads to.
abbrev pub at_buffer : Option ℕ → (Buffer → Buffer) → Cache → Cache
at_buffer none f c = c
at_buffer (some i) f c = record c { buffer = λ j. if i == j then f (c.buffer j) else c.buffer j }

abbrev pub same_pointer : Option ℕ → ℕ → Bool
same_pointer none i = false
same_pointer (some j) i = j == i

abbrev pub put_hash : ℕ → Option ℕ → Cache → Cache
put_hash h p c = record c { hash_table = λ i. if h == i then p else c.hash_table i }

-- The first half of `remove_from_queues`.
unfoldable pub leave_hash : ℕ → Cache → Cache
leave_hash bh c =
    let b = c.buffer bh in
    let h = hashfn b.b_dev b.b_blocknr in
    let c₁ = at_buffer b.b_next (λ n. record n { b_prev = b.b_prev }) c in
    let c₂ = at_buffer b.b_prev (λ p. record p { b_next = b.b_next }) c₁ in
    if same_pointer (c₂.hash_table h) bh then put_hash h b.b_next c₂ else c₂

-- The second half; `none` is the panic.
abbrev pub leave_free : ℕ → Option ℕ → Option ℕ → Cache → Option Cache
leave_free bh none next c = none
leave_free bh prev none c = none
leave_free bh (some p) (some n) c =
    let c₁ = at_buffer (some p) (λ b. record b { b_next_free = some n }) c in
    let c₂ = at_buffer (some n) (λ b. record b { b_prev_free = some p }) c₁ in
    some (
      if same_pointer c₂.free_list bh
      then record c₂ { free_list = (c₂.buffer bh).b_next_free }
      else c₂)

unfoldable pub remove_from_queues : ℕ → Cache → Option Cache
remove_from_queues bh c =
    let c' = leave_hash bh c in
    leave_free bh (c'.buffer bh).b_prev_free (c'.buffer bh).b_next_free c'

-- At the end of the free list, which is in front of its first buffer f.
abbrev pub enter_free : ℕ → ℕ → Cache → Cache
enter_free bh f c =
    let last = (c.buffer f).b_prev_free in
    let c₁ = at_buffer (some bh) (λ b. record b { b_next_free = some f; b_prev_free = last }) c in
    let c₂ = at_buffer last (λ b. record b { b_next_free = some bh }) c₁ in
    at_buffer (some f) (λ b. record b { b_prev_free = some bh }) c₂

-- In front of the hash queue of its block, if the buffer has a device.
unfoldable pub enter_hash : ℕ → Cache → Cache
enter_hash bh c =
    let c₁ = at_buffer (some bh) (λ b. record b { b_prev = none; b_next = none }) c in
    let b = c.buffer bh in
    let h = hashfn b.b_dev b.b_blocknr in
    let first = c₁.hash_table h in
    let c₂ = at_buffer (some bh) (λ n. record n { b_next = first }) c₁ in
    let c₃ = put_hash h (some bh) c₂ in
    if b.b_dev == 0 then c₁ else at_buffer first (λ n. record n { b_prev = some bh }) c₃

-- The free list is never empty: `none` would be a read through a null pointer.
abbrev pub insert_before : Option ℕ → ℕ → Cache → Option Cache
insert_before none bh c = none
insert_before (some f) bh c = some (enter_hash bh (enter_free bh f c))

unfoldable pub insert_into_queues : ℕ → Cache → Option Cache
insert_into_queues bh c = insert_before c.free_list bh c

abbrev pub holds : ℕ → ℕ → Buffer → Bool
holds dev block b = (b.b_dev == dev) && (b.b_blocknr == block)

-- for (tmp = hash(dev,block) ; tmp != NULL ; tmp = tmp->b_next), at most n buffers
unfoldable pub find_from : ℕ → Option ℕ → ℕ → ℕ → Cache → Option ℕ
find_from zero tmp dev block c = none
find_from (suc n) none dev block c = none
find_from (suc n) (some b) dev block c =
    let rest = find_from n (c.buffer b).b_next dev block c in
    if holds dev block (c.buffer b) then some b else rest

unfoldable pub find_buffer : ℕ → ℕ → Cache → Option ℕ
find_buffer dev block c = find_from c.nr_buffers (c.hash_table (hashfn dev block)) dev block c

abbrev pub badness : Buffer → ℕ
badness b = b.b_dirt * 2 + b.b_lock

-- Does a round of the search take tmp in place of the best so far?
abbrev pub is_worse : Cache → ℕ → Option ℕ → Bool
is_worse c tmp none = true
is_worse c tmp (some bh) = ltb (badness (c.buffer tmp)) (badness (c.buffer bh))

abbrev pub replaces : Cache → ℕ → Option ℕ → Bool
replaces c tmp bh = ((c.buffer tmp).b_count == 0) && is_worse c tmp bh

abbrev pub is_end : Cache → Option ℕ → Bool
is_end c none = true
is_end c (some n) = same_pointer c.free_list n

-- do ... while ((tmp = tmp->b_next_free) != free_list), at most n buffers
unfoldable pub choose_from : ℕ → Option ℕ → Option ℕ → Cache → Option ℕ
choose_from zero tmp bh c = bh
choose_from (suc n) none bh c = bh
choose_from (suc n) (some tmp) bh c =
    let taken = replaces c tmp bh in
    let best = if taken then some tmp else bh in
    let next = (c.buffer tmp).b_next_free in
    let rest = choose_from n next best c in
    if (taken && (badness (c.buffer tmp) == 0)) || is_end c next then best else rest
