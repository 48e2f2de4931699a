-- ===== src/Buffers/Tests.antt =====
-- A cache of one buffer, free or with a block in it.
use linux_0_12_study.Base.{arith, none, refl, some, ℕ, ◌≡◌}
use linux_0_12_study.Buffers.{Buffer, Cache, find_buffer, find_from}
use linux_0_12_study.Buffers.Runs.{Ends, done, ◌>>=◌}
use linux_0_12_study.Buffers.Blocks.{getblk, brelse, take}
use linux_0_12_study.Buffers.Getblk.{IsBuffer, getblk-IsBuffer, take-found, getblk-brelse}

abbrev free_buffer : Buffer
free_buffer = record {
  b_blocknr = 0;
  b_dev = 0;
  b_uptodate = 0;
  b_dirt = 0;
  b_count = 0;
  b_lock = 0;
  b_prev = none;
  b_next = none;
  b_prev_free = some 0;
  b_next_free = some 0;
}

abbrev one_free : Cache
one_free = record {
  buffer = λ j. free_buffer;
  hash_table = λ h. none;
  free_list = some 0;
  nr_buffers = 1;
}

-- Block 5 of device 3.
abbrev one_block : Cache
one_block = record one_free {
  buffer = λ j. record free_buffer { b_blocknr = 5; b_dev = 3; b_uptodate = 1 };
  hash_table = λ h. some 0;
}

getblk-IsBuffer_example :
    Ends
      (IsBuffer (λ c. c) (λ b c. c) (λ b c. c) (λ c. c) 3 5)
      (getblk (λ c. c) (λ b c. c) (λ b c. c) (λ c. c) 4 3 5 one_free)
getblk-IsBuffer_example =
    getblk-IsBuffer (λ c. c) (λ b c. c) (λ b c. c) (λ c. c) 4 3 5 one_free (omega arith)
      (omega arith)

take-found_example :
    Ends
      (λ r d.
        (find_buffer 3 5 d ≡ some r) × ((d.buffer r).b_count ≡ 1) × ((d.buffer r).b_uptodate ≡ 0))
      (take (λ c. c) (λ b c. c) (λ b c. c) (λ c. c) 3 5 0 one_free)
take-found_example =
    take-found (λ c. c) (λ b c. c) (λ b c. c) (λ c. c) 3 5 0 one_free (omega arith) (omega arith)
      (omega arith)

getblk-brelse_example :
    (d : Cache) × ((getblk (λ c. c) (λ b c. c) (λ b c. c) (λ c. c) 2 3 5 >>= λ r.
    brelse (λ c. c) (λ b c. c) (λ b c. c) (λ c. c) 1 r)
        one_block
      ≡ done tt d)
    × ((j : ℕ) → d.buffer j ≡ one_block.buffer j)
unfolding find_buffer find_from
getblk-brelse_example =
    getblk-brelse (λ c. c) (λ b c. c) (λ b c. c) (λ c. c) 0 3 5 0 one_block refl refl refl
      (omega arith)
