-- ===== src/Ids/Tests.antt =====
-- The calls on ids, groups and limits at one task.
use linux_0_12_study.Base.{[], arith, has, inl, inr, refl, ℕ, ◌<◌, ◌==◌, ◌^◌, ◌||◌, ◌∷◌, ◌≡◌, ◌≢◌}
use linux_0_12_study.Task.Samples.{sample}
use linux_0_12_study.Task.{Task}
use linux_0_12_study.Ids.{sys_setreuid, sys_setgroups, sys_getgroups, in_group_p}
use linux_0_12_study.Ids.Uids.{set_uid, set_reuid, runs, Holds, runs-Holds}
use linux_0_12_study.Ids.Groups.{sys_setgroups-sys_getgroups}

-- `sample` is a task of user 5 that runs a program of user 6.
abbrev root : Task
root = record sample { euid = 0 }

runs-Holds_example : Holds 5 6 6 (runs (set_uid 5 ∷ set_reuid 0 6 ∷ set_uid 7 ∷ []) sample)
runs-Holds_example =
    runs-Holds 5 6 6 (omega arith) (omega arith) (omega arith) (omega arith) (omega arith)
      (omega arith) (set_uid 5 ∷ set_reuid 0 6 ∷ set_uid 7 ∷ []) sample
      (record { real = inl refl; effective = inr (inl refl); saved = inr (inl refl) })

setreuid_run : (sys_setreuid 6 9 sample).0 ≢ 0
unfolding sys_setreuid
setreuid_run = omega arith

sys_setgroups-sys_getgroups_example :
    let t' = (sys_setgroups (3 ∷ 8 ∷ []) root).1 in
    ((sys_setgroups (3 ∷ 8 ∷ []) root).0 ≡ 0)
    × (sys_getgroups 32 t' ≡ (2, 3 ∷ 8 ∷ []))
    × ((g : ℕ) → g < 2 ^ 16 → in_group_p g t' ≡ ((g == 5) || has g (3 ∷ 8 ∷ [])))
sys_setgroups-sys_getgroups_example =
    sys_setgroups-sys_getgroups (3 ∷ 8 ∷ []) 32 root refl (omega arith, (omega arith, tt))
      (omega arith) refl (omega arith) (omega arith)
