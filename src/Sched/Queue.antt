-- ===== src/Sched/Queue.antt =====
-- The wait queue of `sleep_on` (ver05/kernel/sched.c): the tasks that sleep are linked through their
-- local variables.
use linux_0_12_study.Base.{
  ==_iff, Bool, Bool-cases, List, Option, [], ap, arith, eq→==, false, has, if◌then◌else◌, inl, inr,
  ne→==_false, none, refl, some, subst, sym, true, ℕ, ◌<◌, ◌==◌, ◌||◌, ◌∙◌, ◌∷◌, ◌≡◌, ◌≢◌, ◌⊎◌,
}
use linux_0_12_study.Task.{Kernel}
use linux_0_12_study.Sched.Sleep.{
  Waiting, make_ready, put_tmp, begin_sleep, queued, leave, wait_again, go_on_from, go_on,
  with_kernel, Step, sleeps, resumes, wakes, other, Reach, here, next,
}

-- From the pointer q on, the tasks are those of the list.
abbrev pub Links : (ℕ → Option (Option ℕ)) → Option ℕ → List ℕ → Type 0
Links tmp q [] = q ≡ none
Links tmp q (i ∷ l) = (q ≡ some i) × ((t : Option ℕ) × (tmp i ≡ some t) × Links tmp t l)

abbrev pub NoTwice : List ℕ → Type 0
NoTwice [] = Unit {0}
NoTwice (i ∷ l) = (has i l ≡ false) × NoTwice l

-- The queue holds exactly the tasks that are inside of the call, each once, and not task 0.
pub record IsQueue (w : Waiting) (l : List ℕ) : Type 0 where
  pub links : Links w.tmp w.queue l
  pub no_twice : NoTwice l
  pub all_in : (j : ℕ) (t : Option ℕ) → w.tmp j ≡ some t → has j l ≡ true
  pub all_inside : (j : ℕ) → has j l ≡ true → (0 < j) × (j < 64)

has-cons : (i j : ℕ) (l : List ℕ) → has i (j ∷ l) ≡ false → (i ≢ j) × (has i l ≡ false)
has-cons i j l h = (ground (arith, h), ground (arith, h))

Links-put :
    (i : ℕ) (v : Option (Option ℕ)) (w : Waiting) (q : Option ℕ) (l : List ℕ)
    → has i l ≡ false
    → Links w.tmp q l
    → Links (put_tmp i v w) q l
Links-put i v w q [] _ h = h
Links-put i v w q (j ∷ l) out (p, (t, e, rest)) =
    let (ne, out') = has-cons i j l out in
    (p, (t, rw (ne→==_false j i (λ s. ne (sym s))) e, Links-put i v w t l out' rest))

put_tmp-ne :
    (i : ℕ) (v : Option (Option ℕ)) (w : Waiting) (j : ℕ)
    → (j == i) ≡ false
    → put_tmp i v w j ≡ w.tmp j
put_tmp-ne i v w j s = rw s refl

has-tail : (j i : ℕ) (l : List ℕ) → (j == i) ≡ false → has j (i ∷ l) ≡ true → has j l ≡ true
has-tail j i l s m = sym (ap (λ t. t || has j l) s) ∙ m

has-later : (j i : ℕ) (l : List ℕ) → has j l ≡ true → has j (i ∷ l) ≡ true
has-later j i l m = ground (arith, m)

outside-has :
    (w : Waiting) (i : ℕ) (q : Option ℕ) (l : List ℕ)
    → Links w.tmp q l
    → w.tmp i ≡ none
    → has i l ≡ false
outside-has w i q [] h out = refl
outside-has w i q (j ∷ l) (p, (t, e, rest)) out =
    let other : i ≢ j = λ s. cc in rw (ne→==_false i j other) (outside-has w i t l rest out)

-- A task that begins to sleep stands in front.
queued-IsQueue :
    (state : ℕ) (w : Waiting) (l : List ℕ)
    → w.tmp w.kernel.current ≡ none
    → 0 < w.kernel.current
    → w.kernel.current < 64
    → IsQueue w l
    → IsQueue (queued state w) (w.kernel.current ∷ l)
queued-IsQueue state w l outside positive small h =
    let i = w.kernel.current in
    let out = outside-has w i w.queue l h.links outside in
    record {
      links = (
        refl,
        (w.queue, rw (eq→== i i refl) refl, Links-put i (some w.queue) w w.queue l out h.links),
      );
      no_twice = (out, h.no_twice);
      all_in = λ j t e. elim (Bool-cases (j == i)) [
        | inl s ↦ rw s refl
        | inr s ↦ rw s (h.all_in j t (sym (put_tmp-ne i (some w.queue) w j s) ∙ e))
      ];
      all_inside = λ j m. elim (Bool-cases (j == i)) [
        | inl s ↦ subst (λ x. (0 < x) × (x < 64)) (sym ((==_iff j i).0 s)) (positive, small)
        | inr s ↦ h.all_inside j (has-tail j i l s m)
      ];
    }

if-some : (b : Bool) (x y : Waiting) → (if b then none else some x) ≡ some y → (b ≡ false) × (x ≡ y)
if-some true x y e = absurd (cc e)
if-some false x y e = (refl, cc)

begin_sleep-IsQueue :
    (state : ℕ) (w w' : Waiting) (l : List ℕ)
    → w.tmp w.kernel.current ≡ none
    → w.kernel.current < 64
    → begin_sleep state w ≡ some w'
    → IsQueue w l
    → IsQueue w' (w.kernel.current ∷ l)
unfolding begin_sleep
begin_sleep-IsQueue state w w' l outside small e h =
    let (z, inj) = if-some (w.kernel.current == 0) (queued state w) w' e in
    subst (λ v. IsQueue v (w.kernel.current ∷ l)) inj
      (queued-IsQueue state w l outside (ground (arith, z)) small h)

-- The first task of the queue leaves it.
leave-IsQueue :
    (t : Option ℕ) (w : Waiting) (l : List ℕ)
    → w.tmp w.kernel.current ≡ some t
    → IsQueue w (w.kernel.current ∷ l)
    → IsQueue (leave t w) l
leave-IsQueue t w l e h =
    let i = w.kernel.current in
    let (_, (u, f, rest)) = h.links in
    let same : u ≡ t = cc in
    record {
      links = Links-put i none w t l h.no_twice.0 (subst (λ q. Links w.tmp q l) same rest);
      no_twice = h.no_twice.1;
      all_in = λ j v g. elim (Bool-cases (j == i)) [
        | inl s ↦ absurd (cc (rw s at g))
        | inr s ↦ has-tail j i l s (h.all_in j v (sym (put_tmp-ne i none w j s) ∙ g))
      ];
      all_inside = λ j m. h.all_inside j (has-later j i l m);
    }

-- What a task does that goes on: it leaves the queue if it is the first, and else waits again.
abbrev pub Turn : Option ℕ → Waiting → List ℕ → Type 0
Turn t w l =
    ((rest : List ℕ) × (l ≡ w.kernel.current ∷ rest)
      × (go_on t w ≡ leave t w)
      × IsQueue (leave t w) rest)
    ⊎ ((head : ℕ) × (rest : List ℕ) × (l ≡ head ∷ rest)
        × (head ≢ w.kernel.current)
        × (go_on t w ≡ wait_again head w)
        × IsQueue (wait_again head w) l)

pub go_on-Turn :
    (t : Option ℕ) (w : Waiting) (l : List ℕ)
    → w.tmp w.kernel.current ≡ some t
    → IsQueue w l
    → Turn t w l
unfolding go_on_from
go_on-Turn t w [] e h = absurd (cc (h.all_in w.kernel.current t e))
go_on-Turn t w (head ∷ rest) e h =
    let i = w.kernel.current in
    let step : go_on t w ≡ go_on_from (some head) t w = ap (λ q. go_on_from q t w) h.links.0 in
    elim (Bool-cases (head == i)) [
      | inl s ↦
          let first : head ≡ i = (==_iff head i).0 s in
          inl (
            rest,
            ap (λ x. x ∷ rest) first,
            step ∙ (rw s refl),
            leave-IsQueue t w rest e (subst (λ x. IsQueue w (x ∷ rest)) first h),
          )
      | inr s ↦ inr (
        head,
        rest,
        refl,
        (λ same. cc (eq→== head i same)),
        step ∙ (rw s refl),
        record {
          links = h.links;
          no_twice = h.no_twice;
          all_in = h.all_in;
          all_inside = h.all_inside;
        },
      )
    ]

-- What holds of a queue whatever the tasks are, so also with other tasks.
pub with_kernel-IsQueue :
    (k : Kernel) (w : Waiting) (l : List ℕ) → IsQueue w l → IsQueue (with_kernel k w) l
with_kernel-IsQueue k w l h = record {
  links = h.links;
  no_twice = h.no_twice;
  all_in = h.all_in;
  all_inside = h.all_inside;
}

pub Turn-IsQueue :
    (t : Option ℕ) (w : Waiting) (l : List ℕ) → Turn t w l → (l' : List ℕ) × IsQueue (go_on t w) l'
Turn-IsQueue t w l (inl (rest, _, e, h)) = (rest, subst (λ v. IsQueue v rest) (sym e) h)
Turn-IsQueue t w l (inr (_, _, _, _, e, h)) = (l, subst (λ v. IsQueue v l) (sym e) h)

Step-IsQueue :
    {w w' : Waiting} → Step w w' → (l : List ℕ) → IsQueue w l → (l' : List ℕ) × IsQueue w' l'
Step-IsQueue {w} {w'} (sleeps state outside small e) l h =
    (w.kernel.current ∷ l, begin_sleep-IsQueue state w w' l outside small e h)
Step-IsQueue {w} (resumes fuel t {k = k} e f) l h =
    Turn-IsQueue t (with_kernel k w) l
      (go_on-Turn t (with_kernel k w) l f (with_kernel-IsQueue k w l h))
Step-IsQueue {w} wakes l h = (l, with_kernel-IsQueue (make_ready w.queue w.kernel) w l h)
Step-IsQueue {w} (other k) l h = (l, with_kernel-IsQueue k w l h)

-- A queue that nobody waits in.
abbrev pub IsFresh : Waiting → Type 0
IsFresh w = (w.queue ≡ none) × ((j : ℕ) → w.tmp j ≡ none)

IsFresh-IsQueue : (w : Waiting) → IsFresh w → IsQueue w []
IsFresh-IsQueue w (e, out) = record {
  links = e;
  no_twice = tt;
  all_in = λ j t f. absurd (cc (out j, f));
  all_inside = λ j m. absurd (cc m);
}

pub Reach-IsQueue : {s w : Waiting} → IsFresh s → Reach s w → (l : List ℕ) × IsQueue w l
Reach-IsQueue {s} fresh here = ([], IsFresh-IsQueue s fresh)
Reach-IsQueue fresh (next r st) = let (l, h) = Reach-IsQueue fresh r in Step-IsQueue st l h

some_queue :
    (w : Waiting) (l : List ℕ) (j : ℕ) (t : Option ℕ)
    → IsQueue w l
    → w.tmp j ≡ some t
    → w.queue ≢ none
some_queue w [] j t h e = absurd (cc (h.all_in j t e))
some_queue w (i ∷ l) j t h e = λ z. cc (h.links.0, z)

-- However tasks go to sleep on a queue that was empty, are woken and run on, and whatever is done
-- to the tasks besides: the tasks that are inside of the call are linked as a list from the queue
-- on, each once, task 0 is none of them, and as long as there is one, the queue is not NULL, so
-- that the warning about it is never printed.
pub Reach-linked :
    {s w : Waiting}
    → IsFresh s
    → Reach s w
    → (l : List ℕ) × IsQueue w l × ((j : ℕ) (t : Option ℕ) → w.tmp j ≡ some t → w.queue ≢ none)
Reach-linked {s} {w} fresh r =
    let (l, h) = Reach-IsQueue fresh r in (l, h, λ j t e. some_queue w l j t h e)
