-- ===== src/Requests/Tests.antt =====
-- A device with two requests in its queue.
use linux_0_12_study.Base.{[], arith, if◌then◌else◌, none, refl, some, true, ℕ, ◌==◌, ◌∷◌, ◌≡◌}
use linux_0_12_study.Requests.{Request, Queue, add_request}
use linux_0_12_study.Requests.Insert.{Links, inserted, ready, add_request-Links}

abbrev reading : ℕ → Request
reading sector = record {
  dev = 0x301;
  cmd = 0;
  errors = 0;
  sector = sector;
  nr_sectors = 2;
  buffer = 0;
  waiting = none;
  bh = some 4;
  next = none;
}

-- Slot 5 is read now, slot 6 swaps a page in, slot 7 is to be added.
abbrev slots : ℕ → Request
slots i =
    if i == 5
    then record (reading 10) { next = some 6 }
    else if i == 6
    then record (reading 30) { bh = none }
    else reading 20

abbrev two_requests : Queue
two_requests = record {
  request = slots;
  buffers = λ b. record {
    b_data = 0;
    b_blocknr = 0;
    b_dev = 0x301;
    b_uptodate = 0;
    b_dirt = 1;
    b_lock = 1;
  };
  current_request = λ m. if m == 3 then some 5 else none;
  request_fn = λ m. true;
  started = [];
}

add_request_example :
    let new = add_request 3 7 two_requests in
    (new.current_request 3 ≡ some 5)
    × Links new.request
        (some 5)
        (inserted (ready two_requests 7).request ((ready two_requests 7).request 7) 7 5 (6 ∷ []))
add_request_example =
    add_request-Links two_requests 3 7 5 (6 ∷ []) refl (refl, (refl, refl)) (refl, (refl, tt)) refl
      (omega arith)
