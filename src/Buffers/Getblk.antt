-- ===== src/Buffers/Getblk.antt =====
-- The buffer that `getblk` of ver05/fs/buffer.c returns is that of the block.
use linux_0_12_study.Base.{
  Bool, Option, ap, arith, false, if◌then◌else◌, is_some, ne→==_false, none, not, refl, some, subst,
  suc, sym, true, zero, ℕ, ◌!=◌, ◌%◌, ◌+◌, ◌<◌, ◌==◌, ◌^◌, ◌||◌, ◌∙◌, ◌≡◌, ◌≢◌,
}
use linux_0_12_study.Buffers.{
  Buffer, Cache, at_buffer, holds, find_buffer, choose_from, insert_into_queues, remove_from_queues,
  hashfn,
}
use linux_0_12_study.Buffers.Runs.{
  Op, Ends, Ends-bind, done, follow, ◌>>=◌, ◌>>◌, pure, panic, gets, Ends-map, Ends-if,
}
use linux_0_12_study.Buffers.Blocks.{
  count_up, count_down, change, look, take, get_hash_table, getblk, brelse, attempt, try, on_found,
  claim, on_best, on_hashed, wait_on_buffer, clean,
}
use linux_0_12_study.Buffers.Chains.{
  Taken, remove-Relinked, inserted, attempt-done, find_first, at_buffer_self,
}

restored :
    (t : Bool) (b : Buffer)
    → (t ≡ true → b.b_count < 255)
    → (if t then count_down (if t then count_up b else b) else (if t then count_up b else b)) ≡ b
restored true b h =
    ap (λ n. record b { b_count = n }) {x = ((b.b_count + 1) % 256 + 255) % 256} {y = b.b_count}
      (omega (arith, h refl))
restored false b h = refl

module _ (others : Cache → Cache) (write read : ℕ → Cache → Cache)
    (sync_inodes : Cache → Cache) where
  -- The last part of `getblk`, for a buffer that has been chosen.
  pub take-Taken :
      (dev block bh : ℕ) (c : Cache)
      → 0 < dev
      → dev < 2 ^ 16
      → Ends
          (λ r d. (r ≡ bh) × Taken dev block bh c d)
          (take others write read sync_inodes dev block bh c)
  take-Taken dev block bh c p q =
      let c₁ = at_buffer (some bh) (λ b. record b { b_count = 1; b_dirt = 0; b_uptodate = 0 }) c in
      Ends-bind (λ r d. (r ≡ bh) × Taken dev block bh c d) (attempt (remove_from_queues bh c₁))
        (λ _.
          change bh (λ b. record b { b_dev = dev % 2 ^ 16; b_blocknr = block })
          >> (try (insert_into_queues bh) >> pure bh))
        λ _ c₂ h.
          let r = remove-Relinked bh c₁ c₂ (attempt-done (remove_from_queues bh c₁) tt c₂ h) in
          let c₃ =
            at_buffer (some bh) (λ b. record b { b_dev = dev % 2 ^ 16; b_blocknr = block }) c₂ in
          Ends-bind (λ r d. (r ≡ bh) × Taken dev block bh c d) (attempt (insert_into_queues bh c₃))
            (λ _. pure bh)
            λ _ d h'.
              let i = inserted bh c₃ d (attempt-done (insert_into_queues bh c₃) tt d h') in
              let b₁ =
                at_buffer_self bh (λ b. record b { b_count = 1; b_dirt = 0; b_uptodate = 0 }) c in
              let b₃ =
                at_buffer_self bh (λ b. record b { b_dev = dev % 2 ^ 16; b_blocknr = block }) c₂ in
              let s₂ = r.blocks bh in
              let s = i.relinked.blocks bh in
              let is_dev : (c₃.buffer bh).b_dev ≡ dev = ap (λ b. b.b_dev) b₃ ∙ omega arith in
              let is_block : (c₃.buffer bh).b_blocknr ≡ block = ap (λ b. b.b_blocknr) b₃ in
              (
                refl,
                record {
                  taken_dev = s.same_dev ∙ is_dev;
                  taken_block = s.same_block ∙ is_block;
                  used_once =
                      s.same_count
                      ∙ ap (λ b. b.b_count) b₃
                      ∙ s₂.same_count
                      ∙ ap (λ b. b.b_count) b₁;
                  not_read =
                      s.same_uptodate
                      ∙ ap (λ b. b.b_uptodate) b₃
                      ∙ s₂.same_uptodate
                      ∙ ap (λ b. b.b_uptodate) b₁;
                  in_front =
                      ap (λ x. d.hash_table (hashfn x block)) (sym is_dev)
                      ∙ ap (λ x. d.hash_table (hashfn (c₃.buffer bh).b_dev x)) (sym is_block)
                      ∙ i.first (λ z. absurd (omega (arith, z, is_dev)));
                  same_number = i.relinked.same_nr ∙ r.same_nr;
                },
              )

  -- When `getblk` has chosen a buffer and does not panic, it returns that buffer, which then holds the
  -- block, with a count of 1 and not up to date, and the next search for the block finds it.
  pub take-found :
      (dev block bh : ℕ) (c : Cache)
      → 0 < dev
      → dev < 2 ^ 16
      → 0 < c.nr_buffers
      → Ends
          (λ r d.
            (find_buffer dev block d ≡ some r)
            × ((d.buffer r).b_count ≡ 1)
            × ((d.buffer r).b_uptodate ≡ 0))
          (take others write read sync_inodes dev block bh c)
  take-found dev block bh c p q n =
      Ends-map (λ r d. (r ≡ bh) × Taken dev block bh c d)
        (λ r d.
          (find_buffer dev block d ≡ some r)
          × ((d.buffer r).b_count ≡ 1)
          × ((d.buffer r).b_uptodate ≡ 0))
        (take others write read sync_inodes dev block bh c)
        (λ r d (e, t).
          subst
            (λ x.
              (find_buffer dev block d ≡ some x)
              × ((d.buffer x).b_count ≡ 1)
              × ((d.buffer x).b_uptodate ≡ 0))
            (sym e)
            (
              find_first dev block bh d (omega (arith, t.same_number)) t.in_front t.taken_dev
                  t.taken_block,
              t.used_once,
              t.not_read,
            ))
        (take-Taken dev block bh c p q)

  -- The buffer holds the block.
  abbrev pub IsBuffer : ℕ → ℕ → ℕ → Cache → Type 0
  IsBuffer dev block r d = holds dev block (d.buffer r) ≡ true

  abbrev pub IsFound : ℕ → ℕ → Option ℕ → Cache → Type 0
  IsFound dev block none d = Unit
  IsFound dev block (some r) d = IsBuffer dev block r d

  on_found-IsFound :
      (again : Op (Option ℕ)) (fuel dev block : ℕ) (o : Option ℕ) (c : Cache)
      → ((d : Cache) → Ends (IsFound dev block) (again d))
      → Ends (IsFound dev block) (on_found others write read sync_inodes again fuel dev block o c)
  on_found-IsFound again fuel dev block none c h = tt
  on_found-IsFound again fuel dev block (some bh) c h =
      let c₁ = at_buffer (some bh) count_up c in
      Ends-bind (IsFound dev block) (wait_on_buffer others write read sync_inodes fuel bh c₁)
        (λ _. look bh >>= λ b.
          if holds dev block b then pure (some bh) else (change bh count_down >> again))
        (λ _ d _.
          Ends-if (IsFound dev block) (holds dev block (d.buffer bh)) (pure (some bh))
            (change bh count_down >> again) d (λ e. e) (h (at_buffer (some bh) count_down d)))

  get_hash_table-IsFound :
      (fuel dev block : ℕ) (c : Cache)
      → Ends (IsFound dev block) (get_hash_table others write read sync_inodes fuel dev block c)
  unfolding get_hash_table
  get_hash_table-IsFound zero dev block c = tt
  get_hash_table-IsFound (suc fuel) dev block c =
      on_found-IsFound (get_hash_table others write read sync_inodes fuel dev block) fuel dev block
        (find_buffer dev block c) c (λ d. get_hash_table-IsFound fuel dev block d)

  take-IsBuffer :
      (dev block bh : ℕ) (c : Cache)
      → 0 < dev
      → dev < 2 ^ 16
      → Ends (IsBuffer dev block) (take others write read sync_inodes dev block bh c)
  take-IsBuffer dev block bh c p q =
      Ends-map (λ r d. (r ≡ bh) × Taken dev block bh c d) (IsBuffer dev block)
        (take others write read sync_inodes dev block bh c)
        (λ r d (e, t).
          subst (λ x. IsBuffer dev block x d) (sym e) (ground (arith, t.taken_dev, t.taken_block)))
        (take-Taken dev block bh c p q)

  claim-IsBuffer :
      (repeat : Op ℕ) (fuel dev block bh : ℕ) (c : Cache)
      → 0 < dev
      → dev < 2 ^ 16
      → ((d : Cache) → Ends (IsBuffer dev block) (repeat d))
      → Ends (IsBuffer dev block) (claim others write read sync_inodes repeat fuel dev block bh c)
  claim-IsBuffer repeat fuel dev block bh c p q h =
      let cleaned : Op ℕ = clean others write read sync_inodes fuel bh >>= λ ready.
      gets (find_buffer dev block) >>= λ again.
      if not ready || is_some again
      then repeat
      else take others write read sync_inodes dev block bh in
      Ends-bind (IsBuffer dev block) (wait_on_buffer others write read sync_inodes fuel bh c)
        (λ _. look bh >>= λ b. if b.b_count != 0 then repeat else cleaned)
        (λ _ d _.
          Ends-if (IsBuffer dev block) ((d.buffer bh).b_count != 0) repeat cleaned d (λ _. h d)
            (Ends-bind (IsBuffer dev block) (clean others write read sync_inodes fuel bh d)
              (λ ready. gets (find_buffer dev block) >>= λ again.
                if not ready || is_some again
                then repeat
                else take others write read sync_inodes dev block bh)
              (λ ready e _.
                Ends-if (IsBuffer dev block) (not ready || is_some (find_buffer dev block e)) repeat
                  (take others write read sync_inodes dev block bh) e (λ _. h e)
                  (take-IsBuffer dev block bh e p q))))

  on_best-IsBuffer :
      (repeat : Op ℕ) (fuel dev block : ℕ) (o : Option ℕ) (c : Cache)
      → 0 < dev
      → dev < 2 ^ 16
      → ((d : Cache) → Ends (IsBuffer dev block) (repeat d))
      → Ends (IsBuffer dev block) (on_best others write read sync_inodes repeat fuel dev block o c)
  on_best-IsBuffer repeat fuel dev block none c p q h = h (others c)
  on_best-IsBuffer repeat fuel dev block (some bh) c p q h =
      claim-IsBuffer repeat fuel dev block bh c p q h

  on_hashed-IsBuffer :
      (repeat : Op ℕ) (fuel dev block : ℕ) (o : Option ℕ) (c : Cache)
      → 0 < dev
      → dev < 2 ^ 16
      → ((d : Cache) → Ends (IsBuffer dev block) (repeat d))
      → IsFound dev block o c
      → Ends
          (IsBuffer dev block)
          (on_hashed others write read sync_inodes repeat fuel dev block o c)
  on_hashed-IsBuffer repeat fuel dev block (some bh) c p q h found = found
  on_hashed-IsBuffer repeat fuel dev block none c p q h found =
      on_best-IsBuffer repeat fuel dev block (choose_from c.nr_buffers c.free_list none c) c p q h

  -- Whatever happens while the task sleeps, the buffer that `getblk` returns is that of the block.
  pub getblk-IsBuffer :
      (fuel dev block : ℕ) (c : Cache)
      → 0 < dev
      → dev < 2 ^ 16
      → Ends (IsBuffer dev block) (getblk others write read sync_inodes fuel dev block c)
  unfolding getblk
  getblk-IsBuffer zero dev block c p q = tt
  getblk-IsBuffer (suc fuel) dev block c p q =
      let repeat = getblk others write read sync_inodes fuel dev block in
      Ends-bind (IsBuffer dev block)
        (get_hash_table others write read sync_inodes (suc fuel) dev block c)
        (λ r. on_hashed others write read sync_inodes repeat fuel dev block r)
        (λ r d e.
          on_hashed-IsBuffer repeat fuel dev block r d p q
            (λ d'. getblk-IsBuffer fuel dev block d' p q)
            (subst (λ x. Ends (IsFound dev block) x) e
              (get_hash_table-IsFound (suc fuel) dev block c)))

  -- The buffer is cached and unlocked: it is got at once, with its count raised.
  hit :
      (fuel dev block bh : ℕ) (c : Cache)
      → find_buffer dev block c ≡ some bh
      → holds dev block (c.buffer bh) ≡ true
      → (c.buffer bh).b_lock ≡ 0
      → get_hash_table others write read sync_inodes (suc (suc fuel)) dev block c
        ≡ done (some bh) (at_buffer (some bh) count_up c)
  unfolding get_hash_table wait_on_buffer
  hit fuel dev block bh c e h l =
      let c₁ = at_buffer (some bh) count_up c in
      let b = at_buffer_self bh count_up c in
      let again = get_hash_table others write read sync_inodes (suc fuel) dev block in
      let unlocked : ((c₁.buffer bh).b_lock != 0) ≡ false =
        ap (λ x. x.b_lock != 0) b ∙ ap (λ n. n != 0) l in
      let held : holds dev block (c₁.buffer bh) ≡ true = ap (holds dev block) b ∙ h in
      ap (λ o. on_found others write read sync_inodes again (suc fuel) dev block o c) e
      ∙ ap
          (λ t.
            follow
              (if t
                then wait_on_buffer others write read sync_inodes fuel bh (others c₁)
                else done tt c₁)
              (λ _. look bh >>= λ b.
                if holds dev block b then pure (some bh) else (change bh count_down >> again)))
          unlocked
      ∙ ap (λ t. (if t then pure (some bh) else (change bh count_down >> again)) c₁) held

  getblk-hit :
      (fuel dev block bh : ℕ) (c : Cache)
      → find_buffer dev block c ≡ some bh
      → holds dev block (c.buffer bh) ≡ true
      → (c.buffer bh).b_lock ≡ 0
      → getblk others write read sync_inodes (suc (suc fuel)) dev block c
        ≡ done bh (at_buffer (some bh) count_up c)
  unfolding getblk
  getblk-hit fuel dev block bh c e h l =
      let repeat = getblk others write read sync_inodes (suc fuel) dev block in
      ap
        (λ x. follow x (λ r. on_hashed others write read sync_inodes repeat (suc fuel) dev block r))
        (hit fuel dev block bh c e h l)

  brelse-unlocked :
      (fuel bh : ℕ) (c : Cache)
      → (c.buffer bh).b_lock ≡ 0
      → (c.buffer bh).b_count ≢ 0
      → brelse others write read sync_inodes (suc fuel) bh c
        ≡ done tt (at_buffer (some bh) count_down c)
  unfolding brelse wait_on_buffer
  brelse-unlocked fuel bh c l n =
      let d = at_buffer (some bh) count_down c in
      ap
        (λ t.
          follow
            (if t
              then wait_on_buffer others write read sync_inodes fuel bh (others c)
              else done tt c)
            (λ _.
              look bh >>= λ b. change bh count_down >> (if b.b_count == 0 then panic else pure tt)))
        (ap (λ x. x != 0) l)
      ∙ ap (λ t. (if t then panic else pure tt) d) (ne→==_false (c.buffer bh).b_count 0 n)

  -- A block that is in the cache, in a buffer that nobody has locked, is got without sleeping, and
  -- releasing the buffer leaves every buffer as it was before.
  pub getblk-brelse :
      (fuel dev block bh : ℕ) (c : Cache)
      → find_buffer dev block c ≡ some bh
      → holds dev block (c.buffer bh) ≡ true
      → (c.buffer bh).b_lock ≡ 0
      → (c.buffer bh).b_count < 255
      → (d : Cache) × ((getblk others write read sync_inodes (suc (suc fuel)) dev block >>= λ r.
              brelse others write read sync_inodes (suc fuel) r)
            c
          ≡ done tt d)
        × ((j : ℕ) → d.buffer j ≡ c.buffer j)
  getblk-brelse fuel dev block bh c e h l n =
      let c₁ = at_buffer (some bh) count_up c in
      let b = at_buffer_self bh count_up c in
      let lock : (c₁.buffer bh).b_lock ≡ 0 = ap (λ x. x.b_lock) b ∙ l in
      let count : (c₁.buffer bh).b_count ≢ 0 =
        λ z. absurd (omega (arith, ap (λ x. x.b_count) b, z)) in
      (
        at_buffer (some bh) count_down c₁,
        ap (λ x. follow x (λ r. brelse others write read sync_inodes (suc fuel) r))
              (getblk-hit fuel dev block bh c e h l)
            ∙ brelse-unlocked fuel bh c₁ lock count,
        λ j.
            restored (bh == j) (c.buffer j)
              (λ t. subst (λ i. (c.buffer i).b_count < 255) (ground (arith, t)) n),
      )
