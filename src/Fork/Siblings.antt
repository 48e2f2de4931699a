-- ===== src/Fork/Siblings.antt =====
-- The children of a task as a list, for `copy_process` of ver05/kernel/fork.c and `sys_waitpid` of
-- ver05/kernel/exit.c.
use linux_0_12_study.Base.{
  Bool-cases, List, Option, [], ap, arith, eq→==, false, has, inl, inr, length, ne→==_false, none,
  refl, some, suc, sym, true, word, zero, ℕ, ℕ_discrete, ◌%◌, ◌-◌, ◌/◌, ◌<◌, ◌^◌, ◌∙◌, ◌∷◌, ◌≡◌,
  ◌≢◌, ◌≤◌, ◌⊎◌,
}
use linux_0_12_study.Base.Pigeonhole.{Distinct}
use linux_0_12_study.Task.{Task, Tasks}
use linux_0_12_study.Fork.{
  reports, goes_on, link_child, scan, Event, nothing, stopped, zombie, verdict, follow, is_waited,
  is_reported,
}

-- From the pointer o on, the slots are l, the youngest first; y is the one before, if any.
abbrev pub Siblings : Tasks → Option ℕ → Option ℕ → List ℕ → Type 0
Siblings task y o [] = o ≡ none
Siblings task y o (i ∷ l) =
    (o ≡ some i)
    × ((t : Task) × (task i ≡ some t) × (t.p_ysptr ≡ y) × Siblings task (some i) t.p_osptr l)

-- The children that the first argument of `waitpid`, a word of 32 bits, stands for: one process, the
-- group of the caller, any, or the group of the number.
abbrev pub Waits : ℕ → Task → Task → Type 0
Waits pid me t =
    ((0 < pid) × (pid < 2 ^ 31) × (t.pid ≡ pid))
    ⊎ ((pid ≡ 0) × (t.pgrp ≡ me.pgrp))
    ⊎ (pid ≡ 2 ^ 32 - 1)
    ⊎ ((2 ^ 31 ≤ pid) × (pid < 2 ^ 32 - 1) × (t.pgrp ≡ 2 ^ 32 - pid))

-- WUNTRACED is 2, TASK_STOPPED 4 and TASK_ZOMBIE 3: a stop is reported once, if it is asked for.
abbrev pub IsReported : ℕ → Task → Type 0
IsReported options t = (t.state ≡ 4) × (options / 2 % 2 ≡ 1) × (t.exit_code ≢ 0)

abbrev pub IsPassed : ℕ → Task → Type 0
IsPassed options t = (t.state ≡ 4) × ((options / 2 % 2 ≡ 0) ⊎ (t.exit_code ≡ 0))

-- What is found among the children l, in their order: the first that is a zombie or whose stop is
-- reported, or else nothing, with 1 instead of the flag if some child is alive.
pub data Finds (pid options : ℕ) (me : Task) (task : Tasks) : List ℕ → ℕ → Event → Type 0 where
  at_end : {flag : ℕ} → Finds pid options me task [] flag (nothing flag)
  at_zombie :
      {i flag : ℕ} {l : List ℕ} (t : Task)
      → task i ≡ some t
      → Waits pid me t
      → t.state ≡ 3
      → Finds pid options me task (i ∷ l) flag (zombie i)
  at_stopped :
      {i flag : ℕ} {l : List ℕ} (t : Task)
      → task i ≡ some t
      → Waits pid me t
      → IsReported options t
      → Finds pid options me task (i ∷ l) flag (stopped i)
  alive :
      {i flag : ℕ} {l : List ℕ} {e : Event} (t : Task)
      → task i ≡ some t
      → Waits pid me t
      → t.state ≢ 3
      → t.state ≢ 4
      → Finds pid options me task l 1 e
      → Finds pid options me task (i ∷ l) flag e
  passed :
      {i flag : ℕ} {l : List ℕ} {e : Event} (t : Task)
      → task i ≡ some t
      → (Waits pid me t → IsPassed options t)
      → Finds pid options me task l flag e
      → Finds pid options me task (i ∷ l) flag e

module _ (pid options : ℕ) (me t : Task) where
  is_waited_yes : pid < 2 ^ 32 → is_waited pid me t ≡ true → Waits pid me t
  is_waited_yes w h = ground arith

  is_waited_no : is_waited pid me t ≡ false → ¬ Waits pid me t
  is_waited_no h w = ground (arith, w)

  verdict-cases :
      (i flag : ℕ)
      → pid < 2 ^ 32
      → ((verdict pid options me i flag t ≡ reports (zombie i)) × Waits pid me t × (t.state ≡ 3))
        ⊎ ((verdict pid options me i flag t ≡ reports (stopped i))
            × Waits pid me t
            × IsReported options t)
        ⊎ ((verdict pid options me i flag t ≡ goes_on 1)
            × Waits pid me t
            × (t.state ≢ 3)
            × (t.state ≢ 4))
        ⊎ ((verdict pid options me i flag t ≡ goes_on flag) × (Waits pid me t → IsPassed options t))
  unfolding verdict
  verdict-cases i flag word = elim (Bool-cases (is_waited pid me t)) [
    | inr other ↦ inr (inr (inr (rw other refl, λ w. absurd (is_waited_no other w))))
    | inl mine ↦
        let w = is_waited_yes word mine in
        elim (ℕ_discrete t.state 3) [
          | yes z ↦ inl (rw (mine, z) refl, w, z)
          | no nz ↦ elim (ℕ_discrete t.state 4) [
            | no ns ↦ inr (
                inr (
                  inl (
                    rw (mine, ne→==_false t.state 4 ns, ne→==_false t.state 3 nz) refl,
                    w,
                    nz,
                    ns,
                  )))
            | yes s ↦ elim (Bool-cases (is_reported options t)) [
              | inl r ↦ inr (inl (rw (mine, s, r) refl, w, (s, ground arith, ground arith)))
              | inr u ↦ inr (inr (inr (rw (mine, s, u) refl, λ _. (s, ground arith))))
            ]
          ]
        ]
  ]

scan-verdict :
    (pid options : ℕ) (me t : Task) (task : Tasks) (fuel i flag : ℕ) (o : Option ℕ)
    → o ≡ some i
    → task i ≡ some t
    → scan (suc fuel) pid options me task o flag
      ≡ follow (verdict pid options me i flag t) (λ f. scan fuel pid options me task t.p_osptr f)
unfolding scan
scan-verdict pid options me t task fuel i flag o p e =
    ap (λ q. scan (suc fuel) pid options me task q flag) p
    ∙ ap
        (λ (x : Option Task). elim x as (λ _. Option Event) [
          | none ↦ none
          | some u ↦
              follow (verdict pid options me i flag u)
                (λ k. scan fuel pid options me task u.p_osptr k)
        ])
        e

-- If the children from a pointer on are linked as a list and the first argument is a word of 32
-- bits, the loop of `sys_waitpid` over them, given more rounds than the list is long, finds the
-- first child that the argument stands for and that is a zombie, or is stopped with a code not
-- reported yet and asked for by WUNTRACED; or else that there is none, with 1 instead of the flag
-- if a child that the argument stands for is neither a zombie nor stopped.
pub scan-first :
    (pid options : ℕ) (me : Task) (task : Tasks) (l : List ℕ) (fuel : ℕ) (y o : Option ℕ) (flag : ℕ)
    → pid < 2 ^ 32
    → Siblings task y o l
    → length l < fuel
    → (e : Event) × (scan fuel pid options me task o flag ≡ some e)
      × Finds pid options me task l flag e
unfolding scan
scan-first pid options me task l zero y o flag word s f = absurd (omega arith)
scan-first pid options me task [] (suc fuel) y o flag word s f =
    (nothing flag, ap (λ q. scan (suc fuel) pid options me task q flag) s, at_end)
scan-first pid options me task (i ∷ l) (suc fuel) y o flag word (p, (t, at_i, b, rest)) f =
    let head = scan-verdict pid options me t task fuel i flag o p at_i in
    let next = λ (k : ℕ). scan fuel pid options me task t.p_osptr k in
    let later = λ (k : ℕ).
      scan-first pid options me task l fuel (some i) t.p_osptr k word rest (omega arith) in
    elim (verdict-cases pid options me t i flag word) [
      | inl (v, w, z) ↦ (zombie i, head ∙ ap (λ d. follow d next) v, at_zombie t at_i w z)
      | inr (inl (v, w, r)) ↦ (stopped i, head ∙ ap (λ d. follow d next) v, at_stopped t at_i w r)
      | inr (inr (inl (v, w, nz, ns))) ↦
          let (e, run, found) = later 1 in
          (e, head ∙ ap (λ d. follow d next) v ∙ run, alive t at_i w nz ns found)
      | inr (inr (inr (v, unless))) ↦
          let (e, run, found) = later flag in
          (e, head ∙ ap (λ d. follow d next) v ∙ run, passed t at_i unless found)
    ]

-- Siblings depend on no other slots.
Siblings-frame :
    (task task' : Tasks) (y o : Option ℕ) (l : List ℕ)
    → ((i : ℕ) → has i l ≡ true → task' i ≡ task i)
    → Siblings task y o l
    → Siblings task' y o l
Siblings-frame task task' y o [] same s = s
Siblings-frame task task' y o (i ∷ l) same (p, (t, e, b, rest)) = (
  p,
  (
    t,
    same i (ground arith) ∙ e,
    b,
    Siblings-frame task task' (some i) t.p_osptr l (λ j h. same j (ground (arith, h))) rest,
  ),
)

has-ne : (x j : ℕ) (l : List ℕ) → has j l ≡ true → has x l ≡ false → x ≢ j
has-ne x j l h k q = let w : true ≡ false = sym h ∙ ap (λ y. has y l) (sym q) ∙ k in ground arith

some_ne : (i j : ℕ) → i ≢ j → some i ≢ some j
some_ne i j h q = h (ap (λ o. elim o as (λ _. ℕ) [ none ↦ 0 | some x ↦ x ]) q)

head_ne :
    (task : Tasks) (y o : Option ℕ) (l : List ℕ) (x : ℕ)
    → Siblings task y o l
    → has x l ≡ false
    → o ≢ some x
head_ne task y o [] x s h q = let w : none ≡ some x = sym s ∙ q in ground arith
head_ne task y o (i ∷ l) x (p, _) h q =
    let d : i ≢ x = λ r. absurd (ground (arith, r, h)) in some_ne i x d (sym p ∙ q)

module _ (nr current : ℕ) (me p : Task) (task : Tasks) (here : task current ≡ some me)
    (apart : nr ≢ current) where
  linked_self :
      (o : Option ℕ)
      → o ≢ some nr
      → link_child nr current o p task nr
        ≡ some (record p {
          p_pptr = some current;
          p_cptr = none;
          p_ysptr = none;
          p_osptr = o;
          state = 0;
        })
  unfolding link_child
  linked_self none h = ground (arith, apart)
  linked_self (some o) h = let e : o ≢ nr = λ q. h (ap some q) in ground (arith, apart, e)

  linked_other :
      (o : Option ℕ) (j : ℕ)
      → o ≢ some j
      → nr ≢ j
      → current ≢ j
      → link_child nr current o p task j ≡ task j
  unfolding link_child
  linked_other none j h a b = ground (arith, a, b)
  linked_other (some o) j h a b = let e : o ≢ j = λ q. h (ap some q) in ground (arith, a, b, e)

  linked_older :
      (o : ℕ) (t : Task)
      → task o ≡ some t
      → nr ≢ o
      → current ≢ o
      → link_child nr current (some o) p task o ≡ some (record t { p_ysptr = some nr })
  unfolding link_child
  linked_older o t e a b = rw (eq→== o o refl, ne→==_false nr o a, ne→==_false current o b, e) refl

  linked_parent :
      (o : Option ℕ)
      → o ≢ some current
      → link_child nr current o p task current ≡ some (record me { p_cptr = some nr })
  unfolding link_child
  linked_parent none h = rw (eq→== current current refl, ne→==_false nr current apart, here) refl
  linked_parent (some o) h =
      rw
        (
          eq→== current current refl,
          ne→==_false nr current apart,
          ne→==_false o current (λ q. h (ap some q)),
          here,
        )
        refl

  linked-Siblings :
      (o : Option ℕ) (l : List ℕ)
      → has nr l ≡ false
      → has current l ≡ false
      → Distinct l
      → Siblings task none o l
      → Siblings (link_child nr current o p task) (some nr) o l
  linked-Siblings o [] a b d s = s
  linked-Siblings o (i ∷ l) a b d (q, (t, e, y, rest)) =
      let ni : nr ≢ i = has-ne nr i (i ∷ l) (ground arith) a in
      let ci : current ≢ i = has-ne current i (i ∷ l) (ground arith) b in
      (
        q,
        (
          record t { p_ysptr = some nr },
          ap (λ r. link_child nr current r p task i) q ∙ linked_older i t e ni ci,
          refl,
          Siblings-frame task (link_child nr current o p task) (some i) t.p_osptr l
              (λ j h.
                let ij : i ≢ j = has-ne i j l h d.0 in
                linked_other o j (λ r. some_ne i j ij (sym q ∙ r)) (has-ne nr j l h (ground arith))
                  (has-ne current j l h (ground arith)))
              rest,
        ),
      )

-- `copy_process` makes the new task the youngest child of its parent, in front of the others.
pub link_child-Siblings :
    (nr current : ℕ) (me p : Task) (task : Tasks) (l : List ℕ)
    → task current ≡ some me
    → nr ≢ current
    → has nr l ≡ false
    → has current l ≡ false
    → Distinct l
    → Siblings task none me.p_cptr l
    → (me' : Task) × (link_child nr current me.p_cptr p task current ≡ some me')
      × Siblings (link_child nr current me.p_cptr p task) none me'.p_cptr (nr ∷ l)
link_child-Siblings nr current me p task l e n a b d s =
    let o = me.p_cptr in
    (
      record me { p_cptr = some nr },
      linked_parent nr current me p task e n o (head_ne task none o l current s b),
      (
        refl,
        (
          record p { p_pptr = some current; p_cptr = none; p_ysptr = none; p_osptr = o; state = 0 },
          linked_self nr current me p task e n o (head_ne task none o l nr s a),
          refl,
          linked-Siblings nr current me p task e n o l a b d s,
        ),
      ),
    )
