-- ===== src/Timer/Queue.antt =====
-- The timers in the order of `next_timer`: where each stands, its delta and its function.
use linux_0_12_study.Base.{
  ==_iff, Bool-cases, List, Option, [], ap, arith, false, get_or, has, inl, inr, length, none, refl,
  some, subst, suc, sym, true, ℕ, ◌<◌, ◌==◌, ◌^◌, ◌∙◌, ◌∷◌, ◌≡◌, ◌≤◌,
}
use linux_0_12_study.Base.Pigeonhole.{Distinct, AllBelow, pigeonhole}
use linux_0_12_study.Timer.{Slot, empty_slot, Timers, time_requests}

-- a slot's number, its delta and its function
abbrev pub Cells : Type 0
Cells = List (ℕ × ℕ × ℕ)

abbrev pub at : List Slot → ℕ → Slot
at l p = get_or l p empty_slot

abbrev pub slots : Cells → List ℕ
slots [] = []
slots ((p, _, _) ∷ cs) = p ∷ slots cs

-- From h the `next` pointers lead through the slots of cs, all different, in range and in use,
-- with these contents. Each delta is positive, and no `int` overflows.
abbrev pub Chain : List Slot → Option ℕ → Cells → Type 0
Chain l h [] = h ≡ none
Chain l h ((p, d, f) ∷ cs) =
    (h ≡ some p)
    × (p < length l)
    × ((at l p).jiffies ≡ d)
    × ((at l p).fn ≡ f)
    × (0 < d)
    × (d < 2 ^ 31)
    × (0 < f)
    × (has p (slots cs) ≡ false)
    × Chain l (at l p).next cs

-- `l'` differs from l at most at the slots ps.
pub record SameOutside (ps : List ℕ) (l l' : List Slot) : Type 0 where
  pub len : length l' ≡ length l
  pub same : (a : ℕ) → has a ps ≡ false → at l' a ≡ at l a

pub Chain-frame :
    (l l' : List Slot) (h : Option ℕ) (cs : Cells)
    → length l' ≡ length l
    → ((a : ℕ) → has a (slots cs) ≡ true → at l' a ≡ at l a)
    → Chain l h cs
    → Chain l' h cs
Chain-frame l l' h [] n e c = c
Chain-frame l l' h ((p, d, f) ∷ cs) n e (a, b, c, g, i, j, k, m, r) =
    let q : at l' p ≡ at l p = e p (ground arith) in
    let r' : Chain l' (at l p).next cs =
      Chain-frame l l' (at l p).next cs n (λ x y. e x (ground arith)) r in
    (
      a,
      omega arith,
      ap Slot.jiffies q ∙ c,
      ap Slot.fn q ∙ g,
      i,
      j,
      k,
      m,
      subst (λ s. Chain l' s.next cs) (sym q) r',
    )

-- The queue of all timers.
pub record IsQueue (t : Timers) (cs : Cells) : Type 0 where
  pub size : length t.timer_list ≡ time_requests
  pub chain : Chain t.timer_list t.next_timer cs

-- What the timers stand for, in order: a delta and a function each.
abbrev pub contents : Cells → List (ℕ × ℕ)
contents [] = []
contents ((_, d, f) ∷ cs) = (d, f) ∷ contents cs

pub Chain-Distinct :
    (l : List Slot) (h : Option ℕ) (cs : Cells) → Chain l h cs → Distinct (slots cs)
Chain-Distinct l h [] c = tt
Chain-Distinct l h ((p, d, f) ∷ cs) c = (c.7, Chain-Distinct l (at l p).next cs c.8)

Chain-AllBelow :
    (l : List Slot) (h : Option ℕ) (cs : Cells) → Chain l h cs → AllBelow (length l) (slots cs)
Chain-AllBelow l h [] c = tt
Chain-AllBelow l h ((p, d, f) ∷ cs) c = (c.1, Chain-AllBelow l (at l p).next cs c.8)

length-slots : (cs : Cells) → length (slots cs) ≡ length cs
length-slots [] = refl
length-slots ((p, d, f) ∷ cs) = ap suc (length-slots cs)

-- The queue is no longer than the array.
pub Chain-length : (l : List Slot) (h : Option ℕ) (cs : Cells) → Chain l h cs → length cs ≤ length l
Chain-length l h cs c = omega (
  arith,
  length-slots cs,
  pigeonhole (length l) (slots cs) (Chain-Distinct l h cs c) (Chain-AllBelow l h cs c),
)

-- A slot whose `fn` is NULL is in no queue.
pub not-has_of_free :
    (l : List Slot) (h : Option ℕ) (cs : Cells) (a : ℕ)
    → Chain l h cs
    → (at l a).fn ≡ 0
    → has a (slots cs) ≡ false
not-has_of_free l h [] a c z = refl
not-has_of_free l h ((p, d, f) ∷ cs) a c z =
    let ne : (a == p) ≡ false = elim (Bool-cases (a == p)) [
      | inl e ↦ absurd (omega (arith, subst (λ k. (at l k).fn ≡ 0) ((==_iff a p).0 e) z, c.3, c.6))
      | inr e ↦ e
    ] in
    rw ne (not-has_of_free l (at l p).next cs a c.8 z)
