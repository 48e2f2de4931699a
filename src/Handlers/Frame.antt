-- ===== src/Handlers/Frame.antt =====
-- The frame that a handler finds on its stack.
use linux_0_12_study.Base.{
  Bool-cases, List, [], ap, arith, false, get_or, if◌then◌else◌, inl, inr, length, ne→==_false,
  refl, suc, true, zero, ℕ, ◌*◌, ◌+◌, ◌<◌, ◌==◌, ◌^◌, ◌∙◌, ◌∷◌, ◌≡◌, ◌≤◌, ◌⊎◌,
}
use linux_0_12_study.Task.{Sigaction}
use linux_0_12_study.Handlers.{Machine, has_flag, push_words, frame, call_handler}

push_words-at :
    (user : ℕ → ℕ) (esp : ℕ) (ws : List ℕ) (i : ℕ)
    → i < length ws
    → push_words user esp ws (esp + 4 * i) ≡ get_or ws i 0
push_words-at user esp [] i h = absurd (omega arith)
push_words-at user esp (w ∷ ws) zero h =
    let e : (esp + 4 * 0 == esp) ≡ true = ground arith in rw e refl
push_words-at user esp (w ∷ ws) (suc i) h =
    let e : (esp + 4 * suc i == esp) ≡ false = ground arith in
    let f : esp + 4 * suc i ≡ esp + 4 + 4 * i = omega arith in
    rw e (ap (push_words user (esp + 4) ws) f ∙ push_words-at user (esp + 4) ws i (omega arith))

push_words-outside :
    (user : ℕ → ℕ) (esp : ℕ) (ws : List ℕ) (a : ℕ)
    → (a < esp) ⊎ (esp + 4 * length ws ≤ a)
    → push_words user esp ws a ≡ user a
push_words-outside user esp [] a h = refl
push_words-outside user esp (w ∷ ws) a h =
    rw (ne→==_false a esp (omega arith)) (push_words-outside user (esp + 4) ws a (omega arith))

length-frame :
    (signr : ℕ) (sa : Sigaction) (m : Machine)
    → length (frame signr sa m.task.blocked m.regs) ≡ (if has_flag 30 sa then 7 else 8)
length-frame signr sa m = elim (Bool-cases (has_flag 30 sa)) [
  | inl e ↦ rw e refl
  | inr e ↦ rw e refl
]

-- If the stack has room for 8 words, the words of the handler's frame stand in their order from the
-- new stack pointer up to the old one, and no other word of the user's memory has changed.
pub call_handler-frame :
    (signr : ℕ) (sa : Sigaction) (m : Machine)
    → 32 ≤ m.regs.esp
    → m.regs.esp < 2 ^ 32
    → let m' = call_handler signr sa m in
      let ws = frame signr sa m.task.blocked m.regs in
      (m'.regs.esp + 4 * length ws ≡ m.regs.esp)
      × ((i : ℕ) → i < length ws → m'.user (m'.regs.esp + 4 * i) ≡ get_or ws i 0)
      × ((a : ℕ) → (a < m'.regs.esp) ⊎ (m.regs.esp ≤ a) → m'.user a ≡ m.user a)
unfolding call_handler
call_handler-frame signr sa m room small =
    let m' = call_handler signr sa m in
    let ws = frame signr sa m.task.blocked m.regs in
    let total : m'.regs.esp + 4 * length ws ≡ m.regs.esp =
      ground (arith, length-frame signr sa m, room, small) in
    (
      total,
      (λ i h. push_words-at m.user m'.regs.esp ws i h),
      (λ a o. push_words-outside m.user m'.regs.esp ws a (omega (arith, total, o))),
    )
