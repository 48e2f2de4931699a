-- ===== src/Handlers/Escape.antt =====
-- SIGKILL and SIGSTOP after calls of `sigaction` and `ssetmask`.
use linux_0_12_study.Base.{
  Bool, List, Option, [], ap, arith, if◌then◌else◌, inl, inr, refl, some, subst, suc, sym, zero, ℕ,
  ℕ_discrete, ◌+◌, ◌-◌, ◌<◌, ◌==◌, ◌∙◌, ◌∷◌, ◌≡◌, ◌≤◌, ◌⊎◌,
}
use linux_0_12_study.Base.Bits.{
  bit, clear_bit, bit_and_not, bit-clear_bit_self, bit-clear_bit_ne, bit-bit_and_not, bit-le_one,
}
use linux_0_12_study.Task.{Task, Sigaction, task_stopped}
use linux_0_12_study.Handlers.{
  sys_ssetmask, sys_sigaction, Machine, exits, next_signal, handle, restart_call, default_action,
  call_handler, do_signal, bit, Outcome, ret_from_sys_call, lowest_from, bit_and_not, deliver,
}

-- SIGKILL and SIGSTOP have their default actions and are not blocked.
pub record Defaults (t : Task) : Type 0 where
  pub kill : (t.sigaction 8).sa_handler ≡ 0
  pub stop : (t.sigaction 18).sa_handler ≡ 0
  pub kill_open : bit t.blocked 8 ≡ 0
  pub stop_open : bit t.blocked 18 ≡ 0

-- Calls about signals. `sigsuspend` is none of them, nor is the call of a handler, which adds its mask.
pub data Act : Type 0 where
  action : ℕ → Sigaction → Bool → Act
  mask : ℕ → Act

abbrev pub act : Act → Task → Task
act (action signum sa old) t = (sys_sigaction signum sa old t).2
act (mask m) t = (sys_ssetmask m t).1

abbrev pub acts : List Act → Task → Task
acts [] t = t
acts (a ∷ rest) t = acts rest (act a t)

action-Defaults :
    (signum : ℕ) (sa : Sigaction) (old : Bool) (t : Task)
    → Defaults t
    → Defaults (sys_sigaction signum sa old t).2
unfolding sys_sigaction
action-Defaults signum sa old t d =
    let k = d.kill in
    let s = d.stop in
    let a = d.kill_open in
    let b = d.stop_open in
    record {
      kill = ground (arith, k);
      stop = ground (arith, s);
      kill_open = ground (arith, a);
      stop_open = ground (arith, b);
    }

mask-Defaults : (m : ℕ) (t : Task) → Defaults t → Defaults (sys_ssetmask m t).1
unfolding sys_ssetmask
mask-Defaults m t d = record {
  kill = d.kill;
  stop = d.stop;
  kill_open = bit-clear_bit_ne (clear_bit m 8) 18 8 (omega arith) ∙ bit-clear_bit_self m 8;
  stop_open = bit-clear_bit_self (clear_bit m 8) 18;
}

acts-Defaults : (l : List Act) (t : Task) → Defaults t → Defaults (acts l t)
acts-Defaults [] t d = d
acts-Defaults (action n sa old ∷ l) t d = acts-Defaults l _ (action-Defaults n sa old t d)
acts-Defaults (mask m ∷ l) t d = acts-Defaults l _ (mask-Defaults m t d)

do_signal-default :
    (signr : ℕ) (m : Machine)
    → (m.task.sigaction (signr - 1)).sa_handler ≡ 0
    → do_signal signr m
      ≡ default_action signr
          (record m { regs = restart_call signr (m.task.sigaction (signr - 1)) m.regs })
unfolding do_signal
do_signal-default signr m h =
    let sa = m.task.sigaction (signr - 1) in
    let m₁ = record m { regs = restart_call signr sa m.regs } in
    ap
      (λ h.
        if h == 1
        then next_signal m₁
        else if h == 0
        then default_action signr m₁
        else handle (call_handler signr sa m₁))
      h

default_action-kill : (m : Machine) → default_action 9 m ≡ exits 9
unfolding default_action
default_action-kill m = refl

default_action-stop :
    (m : Machine)
    → (m' : Machine) × (default_action 19 m ≡ next_signal m') × (m'.task.state ≡ task_stopped)
unfolding default_action
default_action-stop m = (_, refl, refl)

lowest_from-at :
    (n k j x : ℕ)
    → k ≤ j
    → j < k + n
    → bit x j ≡ 1
    → ((i : ℕ) → i < j → bit x i ≡ 0)
    → lowest_from n k x ≡ some j
unfolding lowest_from
lowest_from-at zero k j x a b h low = absurd (omega arith)
lowest_from-at (suc n) k j x a b h low = elim (ℕ_discrete k j) [
  | yes z ↦ let q : bit x k ≡ 1 = ap (bit x) z ∙ h in rw q (ap some z)
  | no ne ↦
      let q : bit x k ≡ 0 = low k (omega arith) in
      rw q (lowest_from-at n (suc k) j x (omega arith) (omega arith) h low)
]

-- The program is ended by SIGKILL, or stopped by SIGSTOP.
abbrev pub Obeys : ℕ → Option Outcome → Type 0
Obeys signr o =
    ((signr ≡ 9) × (o ≡ some (exits 9)))
    ⊎ ((signr ≡ 19)
        × ((m' : Machine) × (o ≡ some (next_signal m')) × (m'.task.state ≡ task_stopped)))

delivered :
    (signr : ℕ) (m : Machine)
    → (signr ≡ 9) ⊎ (signr ≡ 19)
    → (m.task.sigaction (signr - 1)).sa_handler ≡ 0
    → Obeys signr (some (do_signal signr m))
delivered signr m (inl e) h =
    let m₁ = record m { regs = restart_call signr (m.task.sigaction (signr - 1)) m.regs } in
    inl (
      e,
      ap some
          (do_signal-default signr m h ∙ ap (λ n. default_action n m₁) e ∙ default_action-kill m₁),
    )
delivered signr m (inr e) h =
    let m₁ = record m { regs = restart_call signr (m.task.sigaction (signr - 1)) m.regs } in
    let (m', run, stopped) = default_action-stop m₁ in
    inr (
      e,
      (m', ap some (do_signal-default signr m h ∙ ap (λ n. default_action n m₁) e ∙ run), stopped),
    )

-- The machine in which a signal is delivered: it is pending no more.
abbrev taken : ℕ → Machine → Machine
taken k m = record m { task = record (m.task) { signal = clear_bit m.task.signal k } }

ret-found :
    (k : ℕ) (m : Machine)
    → lowest_from 32 0 (bit_and_not 32 m.task.signal m.task.blocked) ≡ some k
    → ret_from_sys_call m ≡ some (do_signal (suc k) (taken k m))
unfolding ret_from_sys_call
ret-found k m h = ap (deliver m) h

-- If a task has neither handlers for SIGKILL and SIGSTOP nor blocks them, and then makes calls of
-- `sigaction` and `ssetmask` only, whatever these ask for: when SIGKILL or SIGSTOP is pending and
-- all pending signals with a lower number are blocked, the return to its program through
-- `ret_from_sys_call` delivers it, and SIGKILL ends the task with the code 9, SIGSTOP stops it.
pub ret_from_sys_call-Obeys :
    (l : List Act) (t : Task) (signal signr : ℕ) (m : Machine)
    → Defaults t
    → m.task ≡ record (acts l t) { signal = signal }
    → (signr ≡ 9) ⊎ (signr ≡ 19)
    → bit signal (signr - 1) ≡ 1
    → ((i : ℕ) → i < signr - 1 → (bit signal i ≡ 0) ⊎ (bit (acts l t).blocked i ≡ 1))
    → Obeys signr (ret_from_sys_call m)
ret_from_sys_call-Obeys l t signal signr m d e which sent low =
    let kept = acts-Defaults l t d in
    let k = kept.kill in
    let s = kept.stop in
    let a = kept.kill_open in
    let b = kept.stop_open in
    let blocked = (acts l t).blocked in
    let open_bit : bit blocked (signr - 1) ≡ 0 = elim which [
      | inl x ↦ ap (λ n. bit blocked (n - 1)) x ∙ a
      | inr x ↦ ap (λ n. bit blocked (n - 1)) x ∙ b
    ] in
    let handler : ((acts l t).sigaction (signr - 1)).sa_handler ≡ 0 = elim which [
      | inl x ↦ ap (λ n. ((acts l t).sigaction (n - 1)).sa_handler) x ∙ k
      | inr x ↦ ap (λ n. ((acts l t).sigaction (n - 1)).sa_handler) x ∙ s
    ] in
    let range : (signr - 1 < 32) × (0 < signr) = omega (arith, which) in
    let found : lowest_from 32 0 (bit_and_not 32 signal blocked) ≡ some (signr - 1) =
      lowest_from-at 32 0 (signr - 1) (bit_and_not 32 signal blocked) (omega arith)
        (omega (arith, range)) (bit-bit_and_not 32 signal blocked (signr - 1) range.0 ∙ omega arith)
        (λ i h.
          bit-bit_and_not 32 signal blocked i (omega (arith, range))
          ∙ omega (arith, low i h, bit-le_one signal i)) in
    let m₁ = taken (signr - 1) m in
    let run : ret_from_sys_call m ≡ some (do_signal (suc (signr - 1)) m₁) =
      ret-found (signr - 1) m
        (ap (λ (u : Task). lowest_from 32 0 (bit_and_not 32 u.signal u.blocked)) e ∙ found) in
    let same : suc (signr - 1) ≡ signr = omega (arith, range) in
    subst (Obeys signr) (sym (run ∙ ap (λ n. some (do_signal n m₁)) same)) (
      delivered signr m₁ which
        (ap (λ (u : Task). (u.sigaction (signr - 1)).sa_handler) e ∙ handler))
