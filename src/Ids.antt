-- ===== src/Ids.antt =====
-- The system calls of ver05/kernel/sys.c that act on the running task: its ids, groups, process
-- group, session, limits and break. Each takes the task and returns its result, a 32-bit pattern, and
-- the task after it. An `int` argument is a 32-bit pattern, and an assignment of one to a field of
-- `unsigned short` keeps 16 bits.
pub mod Uids
pub mod Groups
mod Tests
use linux_0_12_study.Base.{
  Bool, List, [], false, if◌then◌else◌, int_le, int_lt, leb, length, ltb, neg, not, set, true,
  word_sub, ℕ, ◌!=◌, ◌%◌, ◌&&◌, ◌++◌, ◌+◌, ◌==◌, ◌^◌, ◌||◌, ◌∷◌,
}
use linux_0_12_study.Task.{Task, Rlimit}

abbrev pub eperm : ℕ
eperm = 1

abbrev pub einval : ℕ
einval = 22

abbrev pub ngroups : ℕ
ngroups = 32

abbrev pub nogroup : ℕ
nogroup = neg 1

abbrev pub suser : Task → Bool
suser t = t.euid == 0

abbrev pub short : ℕ → ℕ
short n = n % 2 ^ 16

abbrev positive : ℕ → Bool
positive n = int_lt 0 n

pub sys_setregid : ℕ → ℕ → Task → ℕ × Task
sys_setregid rgid egid t =
    let set_real = record t { gid = short rgid } in
    let refuse_real = positive rgid && not ((t.gid == rgid) || suser t) in
    let t₁ = if positive rgid then set_real else t in
    if refuse_real
    then (neg eperm, t)
    else if not (positive egid)
    then (0, t₁)
    else if (t₁.gid == egid) || (t₁.egid == egid) || suser t₁
    then (0, record t₁ { egid = short egid; sgid = short egid })
    else (neg eperm, t₁)

unfoldable pub sys_setgid : ℕ → Task → ℕ × Task
sys_setgid gid t =
    if suser t
    then (0, record t { gid = short gid; egid = short gid; sgid = short gid })
    else if (gid == t.gid) || (gid == t.sgid)
    then (0, record t { egid = short gid })
    else (neg eperm, t)

pub sys_setreuid : ℕ → ℕ → Task → ℕ × Task
sys_setreuid ruid euid t =
    let refuse_real = positive ruid && not ((t.euid == ruid) || (t.uid == ruid) || suser t) in
    let t₁ = if positive ruid then record t { uid = short ruid } else t in
    if refuse_real
    then (neg eperm, t)
    else if not (positive euid)
    then (0, t₁)
    else if (t.uid == euid) || (t₁.euid == euid) || suser t₁
    then (0, record t₁ { euid = short euid; suid = short euid })
    else (neg eperm, record t₁ { uid = t.uid })

pub sys_setuid : ℕ → Task → ℕ × Task
sys_setuid uid t =
    if suser t
    then (0, record t { uid = short uid; euid = short uid; suid = short uid })
    else if (uid == t.uid) || (uid == t.suid)
    then (0, record t { euid = short uid })
    else (neg eperm, t)

-- The break lies from the end of the code on and 16384 bytes below the stack; unsigned comparisons.
unfoldable pub sys_brk : ℕ → Task → ℕ × Task
sys_brk end_data_seg t =
    let t₁ =
      if leb t.end_code end_data_seg && ltb end_data_seg (word_sub t.start_stack 16384)
      then record t { brk = end_data_seg }
      else t in
    (t₁.brk, t₁)

unfoldable pub sys_setsid : Task → ℕ × Task
sys_setsid t =
    if (t.leader != 0) && not (suser t)
    then (neg eperm, t)
    else (t.pid, record t { leader = 1; session = t.pid; pgrp = t.pid; tty = neg 1 })

unfoldable pub sys_umask : ℕ → Task → ℕ × Task
sys_umask mask t = (t.umask, record t { umask = mask % 512 })

abbrev pub rlim_nlimits : ℕ
rlim_nlimits = 6

-- The new limits are those that `get_fs_long` reads; a resource below 0, which the code lets pass,
-- is an index like any other here.
pub sys_setrlimit : ℕ → Rlimit → Task → ℕ × Task
sys_setrlimit resource new t =
    let old = t.rlim resource in
    if int_le rlim_nlimits resource
    then (neg einval, t)
    else if (int_lt old.rlim_max new.rlim_cur || int_lt old.rlim_max new.rlim_max) && not (suser t)
    then (neg eperm, t)
    else (0, record t { rlim = λ r. if r == resource then new else t.rlim r })

-- The groups up to the first `NOGROUP`.
abbrev pub group_list : List ℕ → List ℕ
group_list [] = []
group_list (g ∷ gs) = if g == nogroup then [] else g ∷ group_list gs

-- The loop over `groups[i]`, with the rest of the array from i on: what is written to user space and
-- the result.
pub get_groups : ℕ → ℕ → List ℕ → List ℕ → ℕ × List ℕ
get_groups size i [] out = (i, out)
get_groups size i (g ∷ gs) out =
    let rest = get_groups size (i + 1) gs (if size != 0 then out ++ (short g ∷ []) else out) in
    if g == nogroup
    then (i, out)
    else if (size != 0) && int_le size i
    then (neg einval, out)
    else rest

pub sys_getgroups : ℕ → Task → ℕ × List ℕ
sys_getgroups gidsetsize t = get_groups gidsetsize 0 t.groups []

-- `groups[i]` for i from 0 on: the user's list, then the end mark if there is room.
pub put_groups : ℕ → List ℕ → List ℕ → List ℕ
put_groups i [] groups = if ltb i ngroups then set groups i nogroup else groups
put_groups i (g ∷ gs) groups = put_groups (i + 1) gs (set groups i (short g))

-- The list in user space has the length `gidsetsize`.
pub sys_setgroups : List ℕ → Task → ℕ × Task
sys_setgroups grouplist t =
    if not (suser t)
    then (neg eperm, t)
    else if ltb ngroups (length grouplist)
    then (neg einval, t)
    else (0, record t { groups = put_groups 0 grouplist t.groups })

pub in_groups : ℕ → List ℕ → Bool
in_groups grp [] = false
in_groups grp (g ∷ gs) =
    let rest = in_groups grp gs in if g == nogroup then false else if g == grp then true else rest

pub in_group_p : ℕ → Task → Bool
in_group_p grp t = if grp == t.egid then true else in_groups grp t.groups
