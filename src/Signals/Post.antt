-- ===== src/Signals/Post.antt =====
-- A task never has SIGCONT and a stop signal pending at once.
use linux_0_12_study.Base.{
  Bool-cases, ap, arith, false, if◌then◌else◌, inl, inr, int_le, leb, refl, subst, sym, true,
  word_sub, ℕ, ℕ_discrete, ◌%◌, ◌&&◌, ◌-◌, ◌<◌, ◌==◌, ◌||◌, ◌∙◌, ◌≡◌, ◌≤◌, ◌⊎◌,
}
use linux_0_12_study.Base.Bits.{
  bit, set_bit, clear_bit, bit-set_bit_ne, bit-clear_bit_self, bit-clear_bit_ne,
}
use linux_0_12_study.Task.{Task}
use linux_0_12_study.Signals.{clear_stops, resume, post, send_task}

-- If SIGCONT is pending, then no stop signal is.
abbrev pub Exclusive : ℕ → Type 0
Exclusive signal = bit signal 17 ≡ 1 → (k : ℕ) → 18 ≤ k → k ≤ 21 → bit signal k ≡ 0

clear_stops-bit : (s k : ℕ) → bit (clear_stops s) k ≡ (if leb 18 k && leb k 21 then 0 else bit s k)
clear_stops-bit s k =
    let s₁ = clear_bit s 18 in
    let s₂ = clear_bit s₁ 19 in
    let s₃ = clear_bit s₂ 20 in
    ground (
      arith,
      bit-clear_bit_self s 18,
      bit-clear_bit_self s₁ 19,
      bit-clear_bit_self s₂ 20,
      bit-clear_bit_self s₃ 21,
      bit-clear_bit_ne s 18 k,
      bit-clear_bit_ne s₁ 19 k,
      bit-clear_bit_ne s₂ 20 k,
      bit-clear_bit_ne s₃ 21 k,
    )

clear_stops-Exclusive : (s : ℕ) → Exclusive (clear_stops s)
clear_stops-Exclusive s _ k lo hi = clear_stops-bit s k ∙ ground arith

set-Exclusive : (s j : ℕ) → Exclusive s → (j < 17) ⊎ (21 < j) → Exclusive (set_bit s j)
set-Exclusive s j h o c k lo hi =
    let c' : bit s 17 ≡ 1 = sym (bit-set_bit_ne s j 17 (omega arith)) ∙ c in
    bit-set_bit_ne s j k (omega arith) ∙ h c' k lo hi

resume-cleared :
    (sig : ℕ) (t : Task)
    → (sig == 9) || (sig == 18) ≡ true
    → (resume sig t).signal ≡ clear_stops t.signal
unfolding resume
resume-cleared sig t e = rw e refl

resume-kept : (sig : ℕ) (t : Task) → ((sig == 9) || (sig == 18)) ≡ false → resume sig t ≡ t
unfolding resume
resume-kept sig t e = rw e refl

resume-Exclusive : (sig : ℕ) (t : Task) → Exclusive t.signal → Exclusive (resume sig t).signal
resume-Exclusive sig t h = elim (Bool-cases ((sig == 9) || (sig == 18))) [
  | inl e ↦ subst Exclusive (sym (resume-cleared sig t e)) (clear_stops-Exclusive t.signal)
  | inr e ↦ subst (λ u. Exclusive u.signal) (sym (resume-kept sig t e)) h
]

stopping : (s j : ℕ) → 17 < j → Exclusive (set_bit (clear_bit s 17) j)
stopping s j h c k lo hi =
    absurd (
      omega (arith, c, bit-set_bit_ne (clear_bit s 17) j 17 (omega arith), bit-clear_bit_self s 17))

continuing : (s : ℕ) → ((k : ℕ) → 18 ≤ k → k ≤ 21 → bit s k ≡ 0) → Exclusive (set_bit s 17)
continuing s z c k lo hi = bit-set_bit_ne s 17 k (omega arith) ∙ z k lo hi

post-stop :
    (sig : ℕ) (t : Task)
    → 19 ≤ sig
    → sig ≤ 22
    → ((post sig t).signal ≡ t.signal)
      ⊎ ((post sig t).signal ≡ set_bit (clear_bit t.signal 17) (sig - 1))
unfolding post
post-stop sig t lo hi =
    let j : word_sub sig 1 % 32 ≡ sig - 1 = omega arith in
    let stop : (int_le 19 sig && int_le sig 22) ≡ true = ground arith in
    rw (j, stop)
      (elim (Bool-cases ((t.sigaction (word_sub sig 1)).sa_handler == 1)) [
        | inl e ↦ rw e (inl refl)
        | inr e ↦ rw e (inr refl)
      ])

post-other :
    (sig : ℕ) (t : Task)
    → 0 < sig
    → sig ≤ 32
    → (sig < 19) ⊎ (22 < sig)
    → ((post sig t).signal ≡ t.signal) ⊎ ((post sig t).signal ≡ set_bit t.signal (sig - 1))
unfolding post
post-other sig t lo hi o =
    let j : word_sub sig 1 % 32 ≡ sig - 1 = omega arith in
    let stop : (int_le 19 sig && int_le sig 22) ≡ false = ground arith in
    rw (j, stop)
      (elim (Bool-cases ((t.sigaction (word_sub sig 1)).sa_handler == 1)) [
        | inl e ↦ rw e (inl refl)
        | inr e ↦ rw e (inr refl)
      ])

by_cases : (s s' n : ℕ) → Exclusive s → Exclusive n → (s' ≡ s) ⊎ (s' ≡ n) → Exclusive s'
by_cases s s' n h g (inl e) = subst Exclusive (sym e) h
by_cases s s' n h g (inr e) = subst Exclusive (sym e) g

-- Sending a signal from 1 to 32 keeps SIGCONT and the stop signals apart: if SIGCONT is pending, then
-- no stop signal is.
pub send_task-Exclusive :
    (sig : ℕ) (t : Task)
    → 0 < sig
    → sig ≤ 32
    → Exclusive t.signal
    → Exclusive (send_task sig t).signal
send_task-Exclusive sig t lo hi h =
    let r = resume sig t in
    let hr = resume-Exclusive sig t h in
    elim (Bool-cases (leb 19 sig && leb sig 22)) [
      | inl stop ↦
          by_cases r.signal _ _ hr (stopping r.signal (sig - 1) (ground (arith, stop)))
            (post-stop sig r (ground (arith, stop)) (ground (arith, stop)))
      | inr other ↦
          let o : (sig < 19) ⊎ (22 < sig) = ground (arith, other) in
          let new : Exclusive (set_bit r.signal (sig - 1)) = elim (ℕ_discrete sig 18) [
            | yes e ↦
                let c = resume-cleared sig t (ground (arith, e)) in
                let z = λ (k : ℕ) (l : 18 ≤ k) (u : k ≤ 21).
                  ap (λ s. bit s k) c ∙ clear_stops-bit t.signal k ∙ ground arith in
                subst (λ j. Exclusive (set_bit r.signal j)) {x = 17} {y = sig - 1} (omega arith)
                  (continuing r.signal z)
            | no ne ↦ set-Exclusive r.signal (sig - 1) hr (omega arith)
          ] in
          by_cases r.signal _ _ hr new (post-other sig r lo hi o)
    ]
