-- ===== src/Fork/Tests.antt =====
-- A task in slot 1 with a child in slot 2.
use linux_0_12_study.Base.{[], arith, if◌then◌else◌, neg, none, refl, some, ℕ, ◌==◌, ◌∷◌, ◌≡◌}
use linux_0_12_study.Task.{Task, Tasks}
use linux_0_12_study.Task.Samples.{sample}
use linux_0_12_study.Fork.{find_empty_process, link_child, scan, Event}
use linux_0_12_study.Fork.Pids.{Fresh, find_empty_process-Fresh}
use linux_0_12_study.Fork.Siblings.{Siblings, Finds, link_child-Siblings, scan-first}

abbrev parent : Task
parent = record sample { p_cptr = some 2 }

-- a zombie
abbrev child : Task
child = record sample { pid = 9; state = 3; p_pptr = some 1 }

abbrev family : Tasks
family i = if i == 1 then some parent else if i == 2 then some child else none

find_empty_process-Fresh_example :
    (pid : ℕ) × (slot : ℕ) × (find_empty_process 259 6 family ≡ some (pid, slot))
    × Fresh family pid slot
find_empty_process-Fresh_example = find_empty_process-Fresh 6 family (omega arith)

link_child-Siblings_example :
    (me' : Task) × (link_child 3 1 (some 2) child family 1 ≡ some me')
    × Siblings (link_child 3 1 (some 2) child family) none me'.p_cptr (3 ∷ 2 ∷ [])
link_child-Siblings_example =
    link_child-Siblings 3 1 parent child family (2 ∷ []) refl (omega arith) refl refl (refl, tt)
      (refl, (child, refl, refl, refl))

scan-first_example :
    (e : Event) × (scan 2 (neg 1) 0 parent family (some 2) 0 ≡ some e)
    × Finds (neg 1) 0 parent family (2 ∷ []) 0 e
scan-first_example =
    scan-first (neg 1) 0 parent family (2 ∷ []) 2 none (some 2) 0 (omega arith)
      (refl, (child, refl, refl, refl)) (omega arith)
