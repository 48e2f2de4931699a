-- ===== src/Handlers/Tests.antt =====
-- A task that tries to catch SIGKILL and to block everything.
use linux_0_12_study.Base.{
  List, [], ap, arith, inl, inr, refl, suc, sym, true, zero, ℕ, ℕ_discrete, ◌+◌, ◌<◌, ◌^◌, ◌∙◌, ◌∷◌,
  ◌≡◌, ◌⊎◌,
}
use linux_0_12_study.Base.Bits.{bit, bit-set_bit_ne, bit-set_bit_self, set_bit, clear_bit}
use linux_0_12_study.Task.{Sigaction}
use linux_0_12_study.Task.Samples.{sample}
use linux_0_12_study.Handlers.{Machine, ret_from_sys_call, sys_sigaction, sys_ssetmask}
use linux_0_12_study.Handlers.Escape.{Act, action, mask, acts, Obeys, ret_from_sys_call-Obeys}

abbrev tries : List Act
tries =
    action 9 (record { sa_handler = 1; sa_mask = 0; sa_flags = 0; sa_restorer = 0 }) true
    ∷ mask 0xffffffff
    ∷ []

-- SIGSTOP is sent to it, and SIGUSR1, which it blocks.
abbrev interrupted : Machine
interrupted = record {
  task = record (acts tries sample) { signal = 2 ^ 9 + 2 ^ 18 };
  parent = sample;
  regs = record { eax = 1; ecx = 2; edx = 3; orig_eax = 4; eip = 5; eflags = 6; esp = 7000 };
  user = λ a. 0;
}

zero_bits : (k : ℕ) → bit 0 k ≡ 0
unfolding bit
zero_bits zero = refl
zero_bits (suc k) = zero_bits k

-- SIGUSR1 is the only signal below SIGSTOP.
blocked_below :
    (i : ℕ) → i < 18 → (bit (2 ^ 9 + 2 ^ 18) i ≡ 0) ⊎ (bit (acts tries sample).blocked i ≡ 1)
unfolding bit sys_sigaction sys_ssetmask set_bit clear_bit
blocked_below i h = elim (ℕ_discrete i 9) [
  | yes z ↦ inr (ap (bit (acts tries sample).blocked) z ∙ refl)
  | no ne ↦ inl (
      bit-set_bit_ne (2 ^ 9) 18 i (omega arith)
      ∙ bit-set_bit_ne 0 9 i (λ e. ne (sym e))
      ∙ zero_bits i)
]

ret_from_sys_call-Obeys_example : Obeys 19 (ret_from_sys_call interrupted)
unfolding set_bit
ret_from_sys_call-Obeys_example =
    ret_from_sys_call-Obeys tries sample (2 ^ 9 + 2 ^ 18) 19 interrupted
      (record { kill = refl; stop = refl; kill_open = zero_bits 8; stop_open = zero_bits 18 }) refl
      (inr refl) (bit-set_bit_self (2 ^ 9) 18) blocked_below

abbrev caught : Sigaction
caught = record { sa_handler = 99; sa_mask = 0; sa_flags = 0; sa_restorer = 77 }
