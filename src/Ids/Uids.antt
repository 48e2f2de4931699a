-- ===== src/Ids/Uids.antt =====
-- What a task without privileges can do about its ids and limits.
use linux_0_12_study.Base.{List, [], arith, false, int_le, true, ℕ, ◌<◌, ◌^◌, ◌∷◌, ◌≡◌, ◌≢◌, ◌⊎◌}
use linux_0_12_study.Task.{Task, Rlimit}
use linux_0_12_study.Ids.{sys_setreuid, sys_setuid, sys_setregid, sys_setrlimit, suser}

-- A change of the user ids.
pub data Call : Type 0 where
  set_uid : ℕ → Call
  set_reuid : ℕ → ℕ → Call

abbrev pub run : Call → Task → Task
run (set_uid uid) t = (sys_setuid uid t).1
run (set_reuid ruid euid) t = (sys_setreuid ruid euid t).1

abbrev pub runs : List Call → Task → Task
runs [] t = t
runs (c ∷ cs) t = runs cs (run c t)

abbrev pub OneOf : ℕ → ℕ → ℕ → ℕ → Type 0
OneOf a b c x = (x ≡ a) ⊎ (x ≡ b) ⊎ (x ≡ c)

-- The ids of the task are among a, b and c.
pub record Holds (a b c : ℕ) (t : Task) : Type 0 where
  pub real : OneOf a b c t.uid
  pub effective : OneOf a b c t.euid
  pub saved : OneOf a b c t.suid

module _ (a b c : ℕ) (pa : 0 < a) (pb : 0 < b) (pc : 0 < c) (la : a < 2 ^ 16) (lb : b < 2 ^ 16)
    (lc : c < 2 ^ 16) where
  setuid-Holds : (uid : ℕ) (t : Task) → Holds a b c t → Holds a b c (sys_setuid uid t).1
  unfolding sys_setuid
  setuid-Holds uid t h =
      let r = h.real in
      let e = h.effective in
      let s = h.saved in
      record {
        real = ground (arith, r, e, s);
        effective = ground (arith, r, e, s);
        saved = ground (arith, r, e, s);
      }

  setreuid-saved :
      (ruid euid : ℕ) (t : Task)
      → t.euid ≢ 0
      → t.uid < 2 ^ 16
      → t.euid < 2 ^ 16
      → let t' = (sys_setreuid ruid euid t).1 in
        (t'.suid ≡ t.suid) ⊎ (t'.suid ≡ t.uid) ⊎ (t'.suid ≡ t.euid)
  unfolding sys_setreuid
  setreuid-saved ruid euid t ne lu le = ground arith

  OneOf-lt : (x : ℕ) → OneOf a b c x → (x < 2 ^ 16) × (x ≢ 0)
  OneOf-lt x h = (omega arith, omega arith)

  setreuid-Holds :
      (ruid euid : ℕ) (t : Task) → Holds a b c t → Holds a b c (sys_setreuid ruid euid t).1
  setreuid-Holds ruid euid t h =
      let lu = (OneOf-lt t.uid h.real).0 in
      let le = OneOf-lt t.euid h.effective in
      let r = h.real in
      let e = h.effective in
      let s = h.saved in
      record {
        real = unfold sys_setreuid in ground (arith, r, e);
        effective = unfold sys_setreuid in ground (arith, r, e);
        saved = omega (arith, setreuid-saved ruid euid t le.1 lu le.0, r, e, s);
      }

  run-Holds : (call : Call) (t : Task) → Holds a b c t → Holds a b c (run call t)
  run-Holds (set_uid uid) t h = setuid-Holds uid t h
  run-Holds (set_reuid ruid euid) t h = setreuid-Holds ruid euid t h

  -- A task whose real, effective and saved user ids are among three nonzero numbers of 16 bits never
  -- gets another one, whatever calls of `setuid` and `setreuid` it makes.
  pub runs-Holds : (calls : List Call) (t : Task) → Holds a b c t → Holds a b c (runs calls t)
  runs-Holds [] t h = h
  runs-Holds (call ∷ calls) t h = runs-Holds calls (run call t) (run-Holds call t h)

-- A call of `setreuid` that fails leaves the task as it was, and so does one of `setregid`.
pub setreuid-atomic :
    (ruid euid : ℕ) (t : Task)
    → t.uid < 2 ^ 16
    → t.gid < 2 ^ 16
    → ((sys_setreuid ruid euid t).0 ≢ 0 → (sys_setreuid ruid euid t).1 ≡ t)
      × ((sys_setregid ruid euid t).0 ≢ 0 → (sys_setregid ruid euid t).1 ≡ t)
unfolding sys_setreuid sys_setregid
setreuid-atomic ruid euid t lu lg = (λ ne. ground arith, λ ne. ground arith)

-- Without privileges `setrlimit` raises no limit above its maximum and no maximum.
pub setrlimit-le :
    (resource : ℕ) (new : Rlimit) (t : Task) (r : ℕ)
    → suser t ≡ false
    → int_le (t.rlim r).rlim_cur (t.rlim r).rlim_max ≡ true
    → let t' = (sys_setrlimit resource new t).1 in
      (int_le (t'.rlim r).rlim_max (t.rlim r).rlim_max ≡ true)
      × (int_le (t'.rlim r).rlim_cur (t.rlim r).rlim_max ≡ true)
unfolding sys_setrlimit
setrlimit-le resource new t r user ok = (ground (arith, user, ok), ground (arith, user, ok))
