-- ===== src/Requests.antt =====
-- The request queue of ver05/kernel/blk_drv/ll_rw_blk.c. A pointer into `request` is the slot's
-- number, a buffer head is its number, and `waiting` a task's. A request that starts an idle device
-- is logged in `started`, newest first: what `request_fn` does is the driver's. Where the code waits
-- for a buffer or a free request the outcome says so: what follows is not modelled.
pub mod Insert
mod Tests
use linux_0_12_study.Base.{
  Bool, List, Option, if◌then◌else◌, int_lt, is_negative, is_some, leb, ltb, none, not, some, suc,
  true, word, zero, ℕ, ◌!=◌, ◌&&◌, ◌*◌, ◌/◌, ◌==◌, ◌||◌, ◌∷◌,
}

abbrev pub nr_request : ℕ
nr_request = 32

abbrev pub nr_blk_dev : ℕ
nr_blk_dev = 7

-- `cmd`
abbrev pub read : ℕ
read = 0

abbrev pub write : ℕ
write = 1

abbrev pub reada : ℕ
reada = 2

abbrev pub writea : ℕ
writea = 3

-- `struct request`; `dev` is -1 if it is free.
pub record Request : Type 0 where
  pub dev : ℕ
  pub cmd : ℕ
  pub errors : ℕ
  pub sector : ℕ
  pub nr_sectors : ℕ
  pub buffer : ℕ
  pub waiting : Option ℕ
  pub bh : Option ℕ
  pub next : Option ℕ

-- The fields of a buffer head that are read here.
pub record Buffer : Type 0 where
  pub b_data : ℕ
  pub b_blocknr : ℕ
  pub b_dev : ℕ
  pub b_uptodate : ℕ
  pub b_dirt : ℕ
  pub b_lock : ℕ

pub record Queue : Type 0 where
  pub request : ℕ → Request
  pub buffers : ℕ → Buffer
  -- for each major number: the current request, and whether there is a `request_fn`
  pub current_request : ℕ → Option ℕ
  pub request_fn : ℕ → Bool
  pub started : List ℕ

pub data Outcome : Type 0 where
  done : Queue → Outcome
  sleeps_on_buffer : Outcome
  sleeps_on_request : Queue → Outcome
  panics : Outcome

-- `int` comparisons of cmd and dev, an unsigned one of the sectors
pub in_order : Request → Request → Bool
in_order s1 s2 =
    if int_lt s1.cmd s2.cmd
    then true
    else if (s1.cmd == s2.cmd) && int_lt s1.dev s2.dev
    then true
    else (s1.dev == s2.dev) && ltb s1.sector s2.sector

abbrev pub put_request : Queue → ℕ → Request → Queue
put_request q i r = record q { request = λ j. if i == j then r else q.request j }

abbrev pub put_buffer : Queue → ℕ → Buffer → Queue
put_buffer q i b = record q { buffers = λ j. if i == j then b else q.buffers j }

-- May `req`, with this `bh`, stand between the requests tmp and n?
abbrev pub fits_for : Option ℕ → Request → Request → Request → Bool
fits_for none req tmp n = is_some n.bh
fits_for (some _) req tmp n = (in_order tmp req || not (in_order tmp n)) && in_order req n

pub fits : Request → Request → Request → Bool
fits req tmp n = fits_for req.bh req tmp n

-- One round of the loop at tmp: `rest` goes on from the next request.
abbrev pub stop_or_go : (ℕ → Request) → Request → ℕ → (ℕ → ℕ) → Option ℕ → ℕ
stop_or_go request req tmp rest none = tmp
stop_or_go request req tmp rest (some n) =
    if fits req (request tmp) (request n) then tmp else rest n

-- The loop over the queue, on fuel: the request to insert behind.
pub find_place : ℕ → (ℕ → Request) → Request → ℕ → ℕ
find_place zero request req tmp = tmp
find_place (suc fuel) request req tmp =
    stop_or_go request req tmp (find_place fuel request req) (request tmp).next

abbrev pub clean : Queue → Option ℕ → Queue
clean q none = q
clean q (some b) = put_buffer q b (record (q.buffers b) { b_dirt = 0 })

abbrev pub insert_after : Queue → ℕ → ℕ → Queue
insert_after q tmp r =
    let q₁ = put_request q r (record (q.request r) { next = (q.request tmp).next }) in
    put_request q₁ tmp (record (q₁.request tmp) { next = some r })

-- A queue holds each request at most once: `nr_request` rounds are enough.
abbrev pub enqueue : Queue → ℕ → ℕ → Option ℕ → Queue
enqueue q major r none = record q {
  current_request = λ m. if major == m then some r else q.current_request m;
  started = r ∷ q.started;
}
enqueue q major r (some first) =
    insert_after q (find_place nr_request q.request (q.request r) first) r

pub add_request : ℕ → ℕ → Queue → Queue
add_request major r q =
    let q₁ = put_request q r (record (q.request r) { next = none }) in
    let q₂ = clean q₁ (q₁.request r).bh in enqueue q₂ major r (q₂.current_request major)

-- `while (--req >= request) if (req->dev<0) break;`
unfoldable pub find_free : ℕ → (ℕ → Request) → Option ℕ
find_free zero request = none
find_free (suc i) request =
    let rest = find_free i request in if is_negative (request i).dev then some i else rest

abbrev pub lock : Queue → ℕ → ℕ → Queue
lock q b n = put_buffer q b (record (q.buffers b) { b_lock = n })

-- The command without the ahead, which is only a hint.
abbrev pub plain : ℕ → ℕ
plain rw = if rw == reada then read else if rw == writea then write else rw

abbrev pub buffer_request : Buffer → ℕ → ℕ → Request
buffer_request b bh cmd = record {
  dev = b.b_dev;
  cmd = cmd;
  errors = 0;
  sector = word (b.b_blocknr * 2);
  nr_sectors = 2;
  buffer = b.b_data;
  waiting = none;
  bh = some bh;
  next = none;
}

-- After `repeat`: a slot, or the wait for one, which an ahead gives up. Writes leave the last third
-- of the slots to reads.
abbrev pub with_slot : ℕ → ℕ → Bool → ℕ → Queue → Option ℕ → Outcome
with_slot major cmd ahead bh q none = if ahead then done (lock q bh 0) else sleeps_on_request q
with_slot major cmd ahead bh q (some r) =
    done (add_request major r (put_request q r (buffer_request (q.buffers bh) bh cmd)))

abbrev pub limit : ℕ → ℕ
limit cmd = if cmd == read then nr_request else nr_request * 2 / 3

unfoldable pub make_request : ℕ → ℕ → ℕ → Queue → Outcome
make_request major rw bh q =
    let ahead = (rw == reada) || (rw == writea) in
    let cmd = plain rw in
    let b = q.buffers bh in
    let q₁ = lock q bh 1 in
    if ahead && (b.b_lock != 0)
    then done q
    else if (cmd != read) && (cmd != write)
    then panics
    else if b.b_lock != 0
    then sleeps_on_buffer
    else if ((cmd == write) && (b.b_dirt == 0)) || ((cmd == read) && (b.b_uptodate != 0))
    then done (lock q₁ bh 0)
    else with_slot major cmd ahead bh q₁ (find_free (limit cmd) q₁.request)

-- `MAJOR(dev)`: the high byte of the low 16 bits and what is above
abbrev pub major_of : ℕ → ℕ
major_of dev = dev / 256

unfoldable pub ll_rw_block : ℕ → ℕ → Queue → Outcome
ll_rw_block rw bh q =
    let major = major_of (q.buffers bh).b_dev in
    if leb nr_blk_dev major || not (q.request_fn major) then done q else make_request major rw bh q
