-- ===== src/Files/Tests.antt =====
-- A task with one open file.
use linux_0_12_study.Base.{[], arith, if◌then◌else◌, none, refl, some, ℕ, ◌==◌, ◌≡◌, ◌≢◌}
use linux_0_12_study.Files.{Files, sys_dup2}
use linux_0_12_study.Files.Dup.{refs, IsCounted, sys_dup2-IsCounted}

-- Descriptor 0 leads to the file 3.
abbrev one_file : Files
one_file = record {
  filp = λ i. if i == 0 then some 3 else none;
  close_on_exec = 5;
  file_table = λ j. record {
    f_mode = 1;
    f_flags = 0;
    f_count = if j == 3 then 1 else 0;
    f_inode = 9;
    f_pos = 0;
  };
  iputs = [];
}

one_file-IsCounted : IsCounted (λ j. 0) one_file
unfolding refs
one_file-IsCounted j = ground arith

sys_dup2_example :
    (s' : Files) × (sys_dup2 0 2 one_file ≡ some (2, s'))
    × (s'.filp 2 ≡ some 3)
    × ((i : ℕ) → i ≢ 2 → s'.filp i ≡ one_file.filp i)
    × IsCounted (λ j. 0) s'
sys_dup2_example =
    sys_dup2-IsCounted (λ j. 0) 0 2 3 one_file one_file-IsCounted (λ i. ground arith) (omega arith)
      (omega arith) (omega arith) refl
