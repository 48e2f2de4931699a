-- ===== src/Requests/Insert.antt =====
-- The queue of a device as a list of request slots.
use linux_0_12_study.Base.{
  Bool-cases, List, Option, Option-cases, [], ap, arith, false, has, if◌then◌else◌, inl, inr,
  length, none, refl, some, subst, suc, sym, true, zero, ℕ, ◌<◌, ◌==◌, ◌∙◌, ◌∷◌, ◌≡◌, ◌≢◌,
}
use linux_0_12_study.Requests.{
  Request, Queue, nr_request, in_order, fits_for, fits, stop_or_go, find_place, insert_after,
  put_request, enqueue, clean, add_request,
}

-- From h the `next` pointers lead through the slots of the list.
abbrev pub Links : (ℕ → Request) → Option ℕ → List ℕ → Type 0
Links request h [] = h ≡ none
Links request h (r ∷ rs) = (h ≡ some r) × Links request (request r).next rs

abbrev pub Distinct : List ℕ → Type 0
Distinct [] = Unit
Distinct (r ∷ rs) = (has r rs ≡ false) × Distinct rs

-- The elevator on lists: r goes behind tmp if it fits there or tmp is the last.
abbrev pub inserted : (ℕ → Request) → Request → ℕ → ℕ → List ℕ → List ℕ
inserted request req r tmp [] = tmp ∷ r ∷ []
inserted request req r tmp (n ∷ rs) =
    if fits req (request tmp) (request n)
    then tmp ∷ r ∷ n ∷ rs
    else tmp ∷ inserted request req r n rs

Links-frame :
    (request request' : ℕ → Request) (h : Option ℕ) (rs : List ℕ)
    → ((i : ℕ) → has i rs ≡ true → (request' i).next ≡ (request i).next)
    → Links request h rs
    → Links request' h rs
Links-frame request request' h [] same l = l
Links-frame request request' h (r ∷ rs) same (e, l) = (
  e,
  subst (λ o. Links request' o rs) (sym (same r (ground arith)))
      (Links-frame request request' (request r).next rs (λ i m. same i (ground arith)) l),
)

module _ (q : Queue) (r : ℕ) where
  abbrev req : Request
  req = q.request r

  -- The slot that the loop stops at.
  abbrev place : ℕ → ℕ → ℕ
  place fuel tmp = find_place fuel q.request req tmp

  find_place-last : (fuel tmp : ℕ) → (q.request tmp).next ≡ none → place (suc fuel) tmp ≡ tmp
  unfolding find_place
  find_place-last fuel tmp e = ap (stop_or_go q.request req tmp (find_place fuel q.request req)) e

  find_place-next :
      (fuel tmp n : ℕ)
      → (q.request tmp).next ≡ some n
      → place (suc fuel) tmp
        ≡ (if fits req (q.request tmp) (q.request n) then tmp else place fuel n)
  unfolding find_place
  find_place-next fuel tmp n e = ap (stop_or_go q.request req tmp (find_place fuel q.request req)) e

  -- The next pointers after the insertion behind the slot x.
  next-insert_after :
      (x i : ℕ)
      → x ≢ r
      → ((insert_after q x r).request i).next
        ≡ (if i == x then some r else if i == r then (q.request x).next else (q.request i).next)
  next-insert_after x i ne = ground arith

  -- The chain from tmp on, once r is behind one of its slots.
  insert-here :
      (tmp : ℕ) (rs : List ℕ)
      → Links q.request (q.request tmp).next rs
      → has tmp rs ≡ false
      → has r rs ≡ false
      → tmp ≢ r
      → Links (insert_after q tmp r).request (some tmp) (tmp ∷ r ∷ rs)
  insert-here tmp rs l a b ne =
      let new = (insert_after q tmp r).request in
      let first : (new tmp).next ≡ some r = next-insert_after tmp tmp ne ∙ ground arith in
      let second : (new r).next ≡ (q.request tmp).next =
        next-insert_after tmp r ne ∙ ground arith in
      (
        refl,
        (
          first,
          subst (λ o. Links new o rs) (sym second)
              (Links-frame q.request new (q.request tmp).next rs
                (λ i m.
                  next-insert_after tmp i ne
                  ∙ ground (
                    arith,
                    m,
                    a,
                    b,
                    ap (λ k. has k rs) {x = i} {y = tmp},
                    ap (λ k. has k rs) {x = i} {y = r},
                  ))
                l),
        ),
      )

  -- The chain of the whole queue, from tmp on, with r inserted.
  insert-Links :
      (fuel tmp : ℕ) (rs : List ℕ)
      → Links q.request (q.request tmp).next rs
      → Distinct (tmp ∷ rs)
      → has r (tmp ∷ rs) ≡ false
      → length rs < fuel
      → (has (place fuel tmp) (tmp ∷ rs) ≡ true)
        × Links
            (insert_after q (place fuel tmp) r).request
            (some tmp)
            (inserted q.request req r tmp rs)
  insert-Links zero tmp rs l d b h = absurd (omega arith)
  insert-Links (suc fuel) tmp [] l d b h =
      let e = find_place-last fuel tmp l in
      (
        ground (arith, e),
        subst (λ x. Links (insert_after q x r).request (some tmp) (tmp ∷ r ∷ [])) (sym e)
            (insert-here tmp [] l refl refl (ground (arith, b))),
      )
  insert-Links (suc fuel) tmp (n ∷ rs) (e, l) (a, d) b h =
      let go = find_place-next fuel tmp n e in
      elim (Bool-cases (fits req (q.request tmp) (q.request n))) [
        | inl stop ↦
            let x : place (suc fuel) tmp ≡ tmp = go ∙ rw stop refl in
            (
              ground (arith, x),
              rw stop (
                  subst (λ x. Links (insert_after q x r).request (some tmp) (tmp ∷ r ∷ n ∷ rs))
                    (sym x)
                    (insert-here tmp (n ∷ rs) (e, l) a (ground (arith, b)) (ground (arith, b)))),
            )
        | inr on ↦
            let x : place (suc fuel) tmp ≡ place fuel n = go ∙ rw on refl in
            let ih = insert-Links fuel n rs l d (ground (arith, b)) (omega arith) in
            let y : has (place (suc fuel) tmp) (n ∷ rs) ≡ true =
              ap (λ k. has k (n ∷ rs)) x ∙ ih.0 in
            let ne : place (suc fuel) tmp ≢ r =
              λ z. ground (arith, y, b, ap (λ k. has k (n ∷ rs)) z) in
            let nt : place (suc fuel) tmp ≢ tmp =
              λ z. ground (arith, y, a, ap (λ k. has k (n ∷ rs)) z) in
            let first : ((insert_after q (place (suc fuel) tmp) r).request tmp).next ≡ some n =
              next-insert_after (place (suc fuel) tmp) tmp ne ∙ ground (arith, b, nt, e) in
            (
              ground (arith, y),
              rw on (
                refl,
                subst
                    (λ o.
                      Links (insert_after q (place (suc fuel) tmp) r).request o
                        (inserted q.request req r n rs))
                    (sym first)
                    (subst
                      (λ x.
                        Links (insert_after q x r).request (some n) (inserted q.request req r n rs))
                      (sym x) ih.1),
              ),
            )
      ]

-- The state in which the queue is searched: r ends the queue and its buffer is clean.
abbrev pub ready : Queue → ℕ → Queue
ready q r =
    let q₁ = put_request q r (record (q.request r) { next = none }) in clean q₁ (q.request r).bh

ready-next : (q : Queue) (r i : ℕ) → i ≢ r → ((ready q r).request i).next ≡ (q.request i).next
ready-next q r i ne = elim (Option-cases (q.request r).bh) [
  | inl e ↦ rw e (ground arith)
  | inr (b, e) ↦ rw e (ground arith)
]

ready-current : (q : Queue) (r m : ℕ) → (ready q r).current_request m ≡ q.current_request m
ready-current q r m = elim (Option-cases (q.request r).bh) [
  | inl e ↦ rw e refl
  | inr (b, e) ↦ rw e refl
]

add_request-busy :
    (q : Queue) (major r first : ℕ)
    → q.current_request major ≡ some first
    → add_request major r q ≡ insert_after (ready q r) (place (ready q r) r nr_request first) r
unfolding add_request
add_request-busy q major r first e =
    let q₁ = put_request q r (record (q.request r) { next = none }) in
    let same : (q₁.request r).bh ≡ (q.request r).bh = ground arith in
    ap (λ o. enqueue (clean q₁ o) major r ((clean q₁ o).current_request major)) same
    ∙ ap (enqueue (ready q r) major r) (ready-current q r major ∙ e)

-- If a device is busy with a queue of at most 32 different requests and the new request is none of
-- them, `add_request` inserts it where the elevator's rule puts it on the list of the queue: no
-- request of the queue is lost, and the first one stays the current one.
pub add_request-Links :
    (q : Queue) (major r first : ℕ) (rs : List ℕ)
    → q.current_request major ≡ some first
    → Links q.request (some first) (first ∷ rs)
    → Distinct (first ∷ rs)
    → has r (first ∷ rs) ≡ false
    → length rs < nr_request
    → let new = add_request major r q in
      (new.current_request major ≡ some first)
      × Links new.request
          (some first)
          (inserted (ready q r).request ((ready q r).request r) r first rs)
add_request-Links q major r first rs e (_, l) d b h =
    let t = ready q r in
    let ne : first ≢ r = ground (arith, b) in
    let same : (t.request first).next ≡ (q.request first).next = ready-next q r first ne in
    let l' : Links t.request (t.request first).next rs =
      subst (λ o. Links t.request o rs) (sym same)
        (Links-frame q.request t.request (q.request first).next rs
          (λ i m. ready-next q r i (λ z. ground (arith, m, b, ap (λ k. has k rs) z))) l) in
    let x = place t r nr_request first in
    let go = add_request-busy q major r first e in
    (
      ap (λ s. s.current_request major) go ∙ (ready-current q r major ∙ e),
      subst (λ s. Links s.request (some first) (inserted t.request (t.request r) r first rs))
          (sym go) (insert-Links t r nr_request first rs l' d b h).1,
    )

-- Although swap requests are to go before all others, a request for a buffer is put before one if
-- `IN_ORDER` puts it between that one and its predecessor.
pub inserted-before_swap :
    (request : ℕ → Request) (req : Request) (r tmp n b : ℕ) (rs : List ℕ)
    → req.bh ≡ some b
    → (request n).bh ≡ none
    → in_order (request tmp) req ≡ true
    → in_order req (request n) ≡ true
    → inserted request req r tmp (n ∷ rs) ≡ tmp ∷ r ∷ n ∷ rs
unfolding fits
inserted-before_swap request req r tmp n b rs e swap before after =
    let between : fits req (request tmp) (request n) ≡ true =
      ap (λ o. fits_for o req (request tmp) (request n)) e ∙ rw (before, after) refl in
    rw between refl

-- `IN_ORDER` is no order: a read of a later sector comes before a write of an earlier one of the same
-- device, and the write before the read.
pub in_order-both :
    (s1 s2 : Request)
    → s1.cmd ≡ 0
    → s2.cmd ≡ 1
    → s1.dev ≡ s2.dev
    → s2.sector < s1.sector
    → (in_order s1 s2 ≡ true) × (in_order s2 s1 ≡ true)
unfolding in_order
in_order-both s1 s2 c1 c2 d l = (ground (arith, c1, c2, d, l), ground (arith, c1, c2, d, l))
