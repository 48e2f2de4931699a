-- ===== src/Timer/Insert.antt =====
-- `add_timer` on the cells of the queue.
use linux_0_12_study.Base.{
  ==_iff, Bool-cases, List, [], ap, arith, false, get_or-set_ne, get_or-set_self, has,
  if◌then◌else◌, inl, inr, int_le, int_lt, length, length-set, ltb, ltb→lt, none, refl, set, some,
  subst, suc, sym, true, word_sub, zero, ℕ, ◌+◌, ◌-◌, ◌<◌, ◌==◌, ◌^◌, ◌∙◌, ◌∷◌, ◌≡◌, ◌≤◌,
}
use linux_0_12_study.Timer.{
  Slot, Timers, empty_slot, slot, sink, sink_loop, find_slot, add_timer, put_slot, time_requests,
}
use linux_0_12_study.Timer.Queue.{
  IsQueue, not-has_of_free, Chain-length, Cells, at, slots, Chain, SameOutside, Chain-frame,
}

pub at-set :
    (l : List Slot) (p a : ℕ) (x : Slot)
    → p < length l
    → at (set l p x) a ≡ (if p == a then x else at l a)
at-set l p a x h =
    ground (arith, get_or-set_self l p x empty_slot, get_or-set_ne l p a x empty_slot)

-- The contents move along the slots.
unfoldable pub sink_cells : ℕ → ℕ → ℕ → Cells → Cells
sink_cells p j f [] = (p, j, f) ∷ []
sink_cells p j f ((q, d, g) ∷ cs) =
    if ltb d j then (p, d, g) ∷ sink_cells q (j - d) f cs else (p, j, f) ∷ (q, d, g) ∷ cs

slots-sink_cells : (p j f : ℕ) (cs : Cells) → slots (sink_cells p j f cs) ≡ p ∷ slots cs
unfolding sink_cells
slots-sink_cells p j f [] = refl
slots-sink_cells p j f ((q, d, g) ∷ cs) = ground (arith, slots-sink_cells q (j - d) f cs)

record Sunk (ps : List ℕ) (p : ℕ) (cs : Cells) (t t' : Timers) : Type 0 where
  chain : Chain t'.timer_list (some p) cs
  outside : SameOutside ps t.timer_list t'.timer_list
  head : t'.next_timer ≡ t.next_timer
  log : t'.ran ≡ t.ran

module _ (t : Timers) (p q : ℕ) where
  abbrev first : Slot
  first = record (slot t p) { jiffies = (slot t q).jiffies; fn = (slot t q).fn }

  abbrev second : Slot
  second = record (slot t q) {
    jiffies = word_sub (slot t p).jiffies (slot t q).jiffies;
    fn = (slot t p).fn;
  }

  at-sink :
      (a : ℕ)
      → p < length t.timer_list
      → q < length t.timer_list
      → at (sink t p q).timer_list a
        ≡ (if q == a then second else if p == a then first else at t.timer_list a)
  unfolding sink
  at-sink a h k = ground (
    arith,
    at-set (set t.timer_list p first) q a second,
    at-set t.timer_list p a first,
    length-set t.timer_list p first,
  )

  length-sink : length (sink t p q).timer_list ≡ length t.timer_list
  unfolding sink
  length-sink = length-set (set t.timer_list p first) q second ∙ length-set t.timer_list p first

-- One round leaves the new timer in the slot q, with what is left of its delta.
sink-Chain :
    (t : Timers) (p j f q d g : ℕ) (cs : Cells)
    → d < j
    → Chain t.timer_list (some p) ((p, j, f) ∷ (q, d, g) ∷ cs)
    → Chain (sink t p q).timer_list (some q) ((q, j - d, f) ∷ cs)
sink-Chain t p j f q d g cs lt
      (_, pin, pj, pf, jp, jw, fp, out, (nq, qin, qd, qg, dp, dw, gp, out', rest)) =
    let here : at (sink t p q).timer_list q ≡ second t p q =
      at-sink t p q q pin qin ∙ ground arith in
    let len = length-sink t p q in
    let rest' =
      Chain-frame t.timer_list (sink t p q).timer_list (at t.timer_list q).next cs len
        (λ a m. at-sink t p q a pin qin ∙ ground arith) rest in
    (
      refl,
      omega arith,
      ap Slot.jiffies here ∙ ground arith,
      ap Slot.fn here ∙ pf,
      omega arith,
      omega arith,
      fp,
      out',
      subst (λ (s : Slot). Chain (sink t p q).timer_list s.next cs) (sym here) rest',
    )

-- Putting the slot p back in front of what the later rounds have done.
Sunk-cons :
    (t t' : Timers) (p j f q d g : ℕ) (cs : Cells)
    → Chain t.timer_list (some p) ((p, j, f) ∷ (q, d, g) ∷ cs)
    → Sunk (q ∷ slots cs) q (sink_cells q (j - d) f cs) (sink t p q) t'
    → Sunk (p ∷ q ∷ slots cs) p ((p, d, g) ∷ sink_cells q (j - d) f cs) t t'
unfolding sink
Sunk-cons t t' p j f q d g cs
      (_, pin, pj, pf, jp, jw, fp, out, (nq, qin, qd, qg, dp, dw, gp, out', rest)) u =
    let len = length-sink t p q in
    let there : at t'.timer_list p ≡ first t p q =
      u.outside.same p out ∙ at-sink t p q p pin qin ∙ ground arith in
    record {
      chain = (
        refl,
        omega (arith, u.outside.len),
        ap Slot.jiffies there ∙ qd,
        ap Slot.fn there ∙ qg,
        dp,
        dw,
        gp,
        rw (slots-sink_cells q (j - d) f cs) out,
        subst (λ h. Chain t'.timer_list h (sink_cells q (j - d) f cs))
            (sym (ap Slot.next there ∙ nq)) u.chain,
      );
      outside = record {
        len = u.outside.len ∙ len;
        same = λ a o. u.outside.same a (ground arith) ∙ at-sink t p q a pin qin ∙ ground arith;
      };
      head = u.head;
      log = u.log;
    }

sink_loop-Sunk :
    (fuel : ℕ) (t : Timers) (p j f : ℕ) (cs : Cells)
    → length cs < fuel
    → Chain t.timer_list (some p) ((p, j, f) ∷ cs)
    → Sunk (p ∷ slots cs) p (sink_cells p j f cs) t (sink_loop fuel t p)
unfolding sink_loop sink_cells
sink_loop-Sunk zero t p j f cs h c = absurd (omega arith)
sink_loop-Sunk (suc fuel) t p j f [] h c =
    let last : (slot t p).next ≡ none = c.8 in
    rw (last, sink_loop)
      (record {
        chain = c;
        outside = record { len = refl; same = λ a o. refl };
        head = refl;
        log = refl;
      })
sink_loop-Sunk (suc fuel) t p j f ((q, d, g) ∷ cs) h c =
    let more : (slot t p).next ≡ some q = c.8.0 in
    rw (more, sink_loop)
      (elim (Bool-cases (ltb d j)) [
        | inl lt ↦
            let test : int_lt (slot t q).jiffies (slot t p).jiffies ≡ true = ground arith in
            rw (lt, test)
              (Sunk-cons t (sink_loop fuel (sink t p q) q) p j f q d g cs c (
                sink_loop-Sunk fuel (sink t p q) q (j - d) f cs (omega arith)
                  (sink-Chain t p j f q d g cs (ltb→lt d j lt) c)))
        | inr ge ↦
            let test : int_lt (slot t q).jiffies (slot t p).jiffies ≡ false = ground arith in
            rw (ge, test)
              (record {
                chain = c;
                outside = record { len = refl; same = λ a o. refl };
                head = refl;
                log = refl;
              })
      ])

find_slot-free :
    (ss : List Slot) (i : ℕ) {p : ℕ}
    → find_slot ss i ≡ some p
    → (i ≤ p) × (p < i + length ss) × ((at ss (p - i)).fn ≡ 0)
unfolding find_slot
find_slot-free [] i e = absurd (cc)
find_slot-free (s ∷ ss) i {p} e = elim (Bool-cases (s.fn == 0)) [
  | inl z ↦
      let same : some i ≡ some p = rw z at e in
      let q : i ≡ p = cc in
      let k : p - i ≡ 0 = omega arith in (omega arith, omega arith, rw k ((==_iff s.fn 0).0 z))
  | inr n ↦
      let ih = find_slot-free ss (i + 1) (rw n at e) in
      let k : p - i ≡ suc (p - (i + 1)) = omega (arith, ih) in
      (omega (arith, ih), omega (arith, ih), rw k ih.2)
]

-- The queue after `add_timer`, and what it leaves alone.
pub record Added (t : Timers) (p j f : ℕ) (cs : Cells) (t' : Timers) : Type 0 where
  pub queue : IsQueue t' (sink_cells p j f cs)
  pub same_log : t'.ran ≡ t.ran

-- The queue with the new timer in front, as it stands before the loop.
abbrev start : Timers → ℕ → ℕ → ℕ → Timers
start t p j f = record (put_slot t p (record { jiffies = j; fn = f; next = t.next_timer })) {
  next_timer = some p;
}

module _ (j f : ℕ) (t : Timers) (cs : Cells) (q : IsQueue t cs) (fp : 0 < f) (jp : 0 < j)
    (jw : j < 2 ^ 31) where
  start-Chain :
      {p : ℕ}
      → find_slot t.timer_list 0 ≡ some p
      → Chain (start t p j f).timer_list (some p) ((p, j, f) ∷ cs)
  start-Chain {p} e =
      let free = find_slot-free t.timer_list 0 e in
      let pin : p < length t.timer_list = omega (arith, free) in
      let unused : (at t.timer_list p).fn ≡ 0 =
        subst (λ k. (at t.timer_list k).fn ≡ 0) (omega arith) free.2 in
      let out : has p (slots cs) ≡ false =
        not-has_of_free t.timer_list t.next_timer cs p q.chain unused in
      let new : Slot = record { jiffies = j; fn = f; next = t.next_timer } in
      let here : at (start t p j f).timer_list p ≡ new =
        at-set t.timer_list p p new pin ∙ ground arith in
      let len = length-set t.timer_list p new in
      (
        refl,
        omega (arith, len),
        ap Slot.jiffies here,
        ap Slot.fn here,
        jp,
        jw,
        fp,
        out,
        subst (λ h. Chain (start t p j f).timer_list h cs) (sym (ap Slot.next here))
            (Chain-frame t.timer_list (start t p j f).timer_list t.next_timer cs len
              (λ a m. at-set t.timer_list p a new pin ∙ ground arith) q.chain),
      )

  add_timer-start :
      {p : ℕ}
      → find_slot t.timer_list 0 ≡ some p
      → add_timer j f t ≡ some (sink_loop time_requests (start t p j f) p)
  unfolding add_timer
  add_timer-start e =
      let a : (f == 0) ≡ false = ground arith in
      let b : int_le j 0 ≡ false = ground arith in rw (a, b, e)

  start-Added :
      {p : ℕ}
      → find_slot t.timer_list 0 ≡ some p
      → Added t p j f cs (sink_loop time_requests (start t p j f) p)
  start-Added {p} e =
      let c = start-Chain e in
      let len : length (start t p j f).timer_list ≡ length t.timer_list =
        length-set t.timer_list p _ in
      let short = Chain-length (start t p j f).timer_list (some p) ((p, j, f) ∷ cs) c in
      let u = sink_loop-Sunk time_requests (start t p j f) p j f cs (omega (arith, q.size)) c in
      record {
        queue = record {
          size = u.outside.len ∙ len ∙ q.size;
          chain =
              subst
                (λ h.
                  Chain (sink_loop time_requests (start t p j f) p).timer_list h
                    (sink_cells p j f cs))
                (sym u.head) u.chain;
        };
        same_log = u.log;
      }

  -- With a free slot `add_timer` succeeds.
  pub add_timer-sink_cells :
      {p : ℕ}
      → find_slot t.timer_list 0 ≡ some p
      → (t' : Timers) × (add_timer j f t ≡ some t') × Added t p j f cs t'
  add_timer-sink_cells {p} e =
      (sink_loop time_requests (start t p j f) p, add_timer-start e, start-Added e)
