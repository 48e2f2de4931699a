-- ===== src/Buffers/Blocks.antt =====
-- `get_hash_table`, `getblk`, `brelse`, `bread`, `breada` and the writing of buffers, of
-- ver05/fs/buffer.c.
use linux_0_12_study.Base.{
  Bool, List, Option, [], false, if◌then◌else◌, is_some, none, not, some, suc, true, zero, ℕ, ◌!=◌,
  ◌%◌, ◌&&◌, ◌+◌, ◌-◌, ◌==◌, ◌^◌, ◌||◌, ◌∷◌,
}
use linux_0_12_study.Buffers.{
  Buffer, Cache, at_buffer, holds, find_buffer, choose_from, remove_from_queues, insert_into_queues,
}
use linux_0_12_study.Buffers.Runs.{
  Run, Op, done, panics, asleep, ◌>>=◌, ◌>>◌, pure, panic, gets, modify,
}

-- b_count, an `unsigned char`
abbrev pub count_up : Buffer → Buffer
count_up b = record b { b_count = (b.b_count + 1) % 256 }

abbrev pub count_down : Buffer → Buffer
count_down b = record b { b_count = (b.b_count + 255) % 256 }

abbrev pub change : ℕ → (Buffer → Buffer) → Op (Unit {0})
change bh f = modify (at_buffer (some bh) f)

abbrev pub look : ℕ → Op Buffer
look bh = gets (λ c. c.buffer bh)

-- Both queues can be changed, or the code reads through a null pointer or panics.
abbrev pub attempt : Option Cache → Run (Unit {0})
attempt none = panics
attempt (some c) = done tt c

abbrev pub try : (Cache → Option Cache) → Op (Unit {0})
try f c = attempt (f c)

module _ (others : Cache → Cache) (write read : ℕ → Cache → Cache)
    (sync_inodes : Cache → Cache) where
  -- while (bh->b_lock) sleep_on(&bh->b_wait)
  unfoldable pub wait_on_buffer : ℕ → ℕ → Op (Unit {0})
  wait_on_buffer zero bh c = asleep
  wait_on_buffer (suc fuel) bh c =
      let next = wait_on_buffer fuel bh (others c) in
      if (c.buffer bh).b_lock != 0 then next else done tt c

  -- The body of the loop of `sync_dev`; b_dev is an `unsigned short`.
  abbrev pub sync_one : ℕ → ℕ → ℕ → Op (Unit {0})
  sync_one fuel dev bh c =
      if (c.buffer bh).b_dev != dev
      then done tt c
      else (do
        wait_on_buffer fuel bh
        b ← look bh
        if (b.b_dev == dev) && (b.b_dirt != 0) then modify (write bh) else pure tt)
          c

  -- The last n buffers of the cache.
  unfoldable pub sync_from : ℕ → ℕ → ℕ → Op (Unit {0})
  sync_from fuel dev zero = pure tt
  sync_from fuel dev (suc n) = do
    total ← gets (λ c. c.nr_buffers)
    sync_one fuel dev (total - suc n)
    sync_from fuel dev n

  unfoldable pub sync_dev : ℕ → ℕ → Op (Unit {0})
  sync_dev fuel dev = do
    n ← gets (λ c. c.nr_buffers)
    sync_from fuel dev n
    modify sync_inodes
    m ← gets (λ c. c.nr_buffers)
    sync_from fuel dev m

  unfoldable pub write_from : ℕ → ℕ → Op (Unit {0})
  write_from fuel zero = pure tt
  write_from fuel (suc n) = do
    total ← gets (λ c. c.nr_buffers)
    wait_on_buffer fuel (total - suc n)
    b ← look (total - suc n)
    (if b.b_dirt != 0 then modify (write (total - suc n)) else pure tt)
    write_from fuel n

  unfoldable pub sys_sync : ℕ → Op (Unit {0})
  sys_sync fuel = do modify sync_inodes; n ← gets (λ c. c.nr_buffers); write_from fuel n

  -- The body of `for (;;)`, for what `find_buffer` has found; `again` is the next round.
  abbrev pub on_found : Op (Option ℕ) → ℕ → ℕ → ℕ → Option ℕ → Op (Option ℕ)
  on_found again fuel dev block none = pure none
  on_found again fuel dev block (some bh) = do
    change bh count_up
    wait_on_buffer fuel bh
    b ← look bh
    if holds dev block b then pure (some bh) else (change bh count_down >> again)

  unfoldable pub get_hash_table : ℕ → ℕ → ℕ → Op (Option ℕ)
  get_hash_table zero dev block c = asleep
  get_hash_table (suc fuel) dev block c =
      on_found (get_hash_table fuel dev block) fuel dev block (find_buffer dev block c) c

  -- while (bh->b_dirt): true when the buffer is clean, false for `goto repeat`
  unfoldable pub clean : ℕ → ℕ → Op Bool
  clean zero bh c = asleep
  clean (suc fuel) bh c =
      let written = (do
        sync_dev fuel (c.buffer bh).b_dev
        wait_on_buffer fuel bh
        b ← look bh
        if b.b_count != 0 then pure false else clean fuel bh) in
      if (c.buffer bh).b_dirt != 0 then written c else done true c

  -- The buffer bh becomes that of the block.
  abbrev pub take : ℕ → ℕ → ℕ → Op ℕ
  take dev block bh = do
    change bh (λ b. record b { b_count = 1; b_dirt = 0; b_uptodate = 0 })
    try (remove_from_queues bh)
    change bh (λ b. record b { b_dev = dev % 2 ^ 16; b_blocknr = block })
    try (insert_into_queues bh)
    pure bh

  -- From the choice of bh on; `repeat` is where the code goes back to.
  abbrev pub claim : Op ℕ → ℕ → ℕ → ℕ → ℕ → Op ℕ
  claim repeat fuel dev block bh = do
    wait_on_buffer fuel bh
    b ← look bh
    (if b.b_count != 0 then repeat else do
      ready ← clean fuel bh
      again ← gets (find_buffer dev block)
      if not ready || is_some again then repeat else take dev block bh)

  abbrev pub on_best : Op ℕ → ℕ → ℕ → ℕ → Option ℕ → Op ℕ
  on_best repeat fuel dev block none = modify others >> repeat
  on_best repeat fuel dev block (some bh) = claim repeat fuel dev block bh

  abbrev pub on_hashed : Op ℕ → ℕ → ℕ → ℕ → Option ℕ → Op ℕ
  on_hashed repeat fuel dev block (some bh) = pure bh
  on_hashed repeat fuel dev block none = do
    best ← gets (λ c. choose_from c.nr_buffers c.free_list none c)
    on_best repeat fuel dev block best

  unfoldable pub getblk : ℕ → ℕ → ℕ → Op ℕ
  getblk zero dev block c = asleep
  getblk (suc fuel) dev block c =
      (get_hash_table (suc fuel) dev block >>= λ r.
      on_hashed (getblk fuel dev block) fuel dev block r)
        c

  -- `buf` is not NULL; waking the tasks that wait for a buffer changes nothing here.
  unfoldable pub brelse : ℕ → ℕ → Op (Unit {0})
  brelse fuel buf = do
    wait_on_buffer fuel buf
    b ← look buf
    change buf count_down
    if b.b_count == 0 then panic else pure tt

  -- The end of `bread` and `breada`: the buffer, if it can be read.
  abbrev pub read_in : ℕ → ℕ → Op (Option ℕ)
  read_in fuel bh = do
    wait_on_buffer fuel bh
    b ← look bh
    if b.b_uptodate != 0 then pure (some bh) else (brelse fuel bh >> pure none)

  unfoldable pub bread : ℕ → ℕ → ℕ → Op (Option ℕ)
  bread fuel dev block = do
    bh ← getblk fuel dev block
    b ← look bh
    if b.b_uptodate != 0 then pure (some bh) else (modify (read bh) >> read_in fuel bh)

  -- while ((first=va_arg(args,int))>=0): `ahead` is a request for READA, which is made for bh and not
  -- for the block ahead.
  unfoldable pub read_ahead : (ℕ → Cache → Cache) → ℕ → ℕ → ℕ → List ℕ → Op (Unit {0})
  read_ahead ahead fuel dev bh [] = pure tt
  read_ahead ahead fuel dev bh (block ∷ blocks) = do
    tmp ← getblk fuel dev block
    b ← look tmp
    (if b.b_uptodate != 0 then pure tt else modify (ahead bh))
    change tmp count_down
    read_ahead ahead fuel dev bh blocks

  unfoldable pub breada : (ℕ → Cache → Cache) → ℕ → ℕ → ℕ → List ℕ → Op (Option ℕ)
  breada ahead fuel dev first blocks = do
    bh ← getblk fuel dev first
    b ← look bh
    (if b.b_uptodate != 0 then pure tt else modify (read bh))
    read_ahead ahead fuel dev bh blocks
    read_in fuel bh
