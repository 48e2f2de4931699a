-- ===== src/Signals/Orphans.antt =====
-- Orphaned process groups.
use linux_0_12_study.Base.{
  Bool-cases, Option-cases, ap, arith, false, inl, inr, refl, some, subst, suc, sym, zero, ℕ,
  ℕ_discrete, ◌<◌, ◌↔◌, ◌∙◌, ◌≡◌, ◌≤◌,
}
use linux_0_12_study.Task.{Task, Tasks}
use linux_0_12_study.Signals.{links, orphaned_from, is_orphaned_pgrp}

module _ (at_null : Task) (pgrp : ℕ) (task : Tasks) where
  -- No task in the slots from 1 to n links the group to another one.
  abbrev NoLink : ℕ → Type 0
  NoLink n =
      (i : ℕ) (t : Task) → task i ≡ some t → 0 < i → i ≤ n → links at_null task pgrp t ≡ false

  NoLink-suc :
      (n : ℕ)
      → NoLink n
      → ((t : Task) → task (suc n) ≡ some t → links at_null task pgrp t ≡ false)
      → NoLink (suc n)
  NoLink-suc n h last i t e lo hi = elim (ℕ_discrete i (suc n)) [
    | yes same ↦ last t (ap task (sym same) ∙ e)
    | no ne ↦ h i t e lo (omega arith)
  ]

  orphaned_from-NoLink : (n : ℕ) → (orphaned_from at_null n pgrp task ≡ 1) ↔ NoLink n
  unfolding orphaned_from
  orphaned_from-NoLink zero = ((λ _ i t e lo hi. absurd (omega arith)), (λ _. refl))
  orphaned_from-NoLink (suc n) =
      let ih = orphaned_from-NoLink n in
      elim (Option-cases (task (suc n))) [
        | inl free ↦
            rw (free, orphaned_from)
              (
                (λ e. NoLink-suc n (ih.0 e) (λ t q. absurd (cc (sym free ∙ q)))),
                (λ h. ih.1 (λ i t e lo hi. h i t e lo (omega arith))),
              )
        | inr (t, there) ↦ elim (Bool-cases (links at_null task pgrp t)) [
          | inl link ↦
              rw (there, orphaned_from)
                (rw link (
                  (λ e. absurd (omega arith)),
                  (λ h. absurd (cc (sym link ∙ h (suc n) t there (omega arith) (omega arith)))),
                ))
          | inr no_link ↦
              rw (there, orphaned_from)
                (rw no_link (
                  (λ e. NoLink-suc n (ih.0 e) (λ u q.
                      let same : some t ≡ some u = sym there ∙ q in
                      let v : t ≡ u = cc in
                      subst (λ w. links at_null task pgrp w ≡ false) v no_link)),
                  (λ h. ih.1 (λ i t e lo hi. h i t e lo (omega arith))),
                ))
        ]
      ]

  -- A process group is orphaned exactly if no task in the slots from 1 to 63 is a member of it, not a
  -- zombie and not a child of process 1, whose parent is in another group of the same session.
  pub is_orphaned_pgrp-NoLink : (is_orphaned_pgrp at_null pgrp task ≡ 1) ↔ NoLink 63
  unfolding is_orphaned_pgrp
  is_orphaned_pgrp-NoLink = orphaned_from-NoLink 63
