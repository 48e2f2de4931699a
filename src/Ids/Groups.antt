-- ===== src/Ids/Groups.antt =====
-- The supplementary groups as a list.
use linux_0_12_study.Base.{
  Bool-cases, List, [], ap, append-nil, append_assoc, arith, dec_lt, drop, false, get_or,
  get_or-set_ne, get_or-set_self, has, if◌then◌else◌, inl, inr, int_le, length, length-set,
  le→ltb_false, ltb, lt→ltb, ne→==_false, refl, set, subst, suc, sym, true, zero, ℕ, ◌!=◌, ◌++◌,
  ◌+◌, ◌<◌, ◌==◌, ◌^◌, ◌||◌, ◌∙◌, ◌∷◌, ◌≡◌, ◌≢◌, ◌≤◌,
}
use linux_0_12_study.Task.{Task}
use linux_0_12_study.Ids.{
  nogroup, ngroups, group_list, get_groups, sys_getgroups, put_groups, sys_setgroups, in_groups,
  in_group_p, suser, short,
}

-- Group numbers of 16 bits.
abbrev pub Shorts : List ℕ → Type 0
Shorts [] = Unit
Shorts (g ∷ gs) = (g < 2 ^ 16) × Shorts gs

drop-cons : (xs : List ℕ) (i d : ℕ) → i < length xs → drop i xs ≡ get_or xs i d ∷ drop (suc i) xs
drop-cons [] i d h = absurd (omega arith)
drop-cons (x ∷ xs) zero d h = refl
drop-cons (x ∷ xs) (suc i) d h = drop-cons xs i d (omega arith)

drop-next : (xs : List ℕ) (i d : ℕ) → i < length xs → drop i xs ≡ get_or xs i d ∷ drop (i + 1) xs
drop-next xs i d h =
    drop-cons xs i d h ∙ ap (λ j. get_or xs i d ∷ drop j xs) {x = suc i} {y = i + 1} (omega arith)

drop-all : (xs : List ℕ) (i : ℕ) → length xs ≤ i → drop i xs ≡ []
drop-all [] zero h = refl
drop-all [] (suc i) h = refl
drop-all (x ∷ xs) zero h = absurd (omega arith)
drop-all (x ∷ xs) (suc i) h = drop-all xs i (omega arith)

put_groups-before :
    (i : ℕ) (gs groups : List ℕ) (j : ℕ)
    → j < i
    → get_or (put_groups i gs groups) j 0 ≡ get_or groups j 0
unfolding put_groups
put_groups-before i [] groups j h = ground (arith, get_or-set_ne groups i j nogroup 0)
put_groups-before i (g ∷ gs) groups j h =
    put_groups-before (i + 1) gs (set groups i (short g)) j (omega arith)
    ∙ get_or-set_ne groups i j (short g) 0 (omega arith)

length-put_groups : (i : ℕ) (gs groups : List ℕ) → length (put_groups i gs groups) ≡ length groups
unfolding put_groups
length-put_groups i [] groups = ground (arith, length-set groups i nogroup)
length-put_groups i (g ∷ gs) groups =
    length-put_groups (i + 1) gs (set groups i (short g)) ∙ length-set groups i (short g)

group_list-cons : (g : ℕ) (gs : List ℕ) → g ≢ nogroup → group_list (g ∷ gs) ≡ g ∷ group_list gs
group_list-cons g gs ne = rw (ne→==_false g nogroup ne) refl

put_groups-mark :
    (i : ℕ) (groups : List ℕ)
    → i < ngroups
    → i < length groups
    → get_or (put_groups i [] groups) i 0 ≡ nogroup
unfolding put_groups
put_groups-mark i groups h l = rw (lt→ltb i ngroups h) (get_or-set_self groups i nogroup 0 l)

put_groups-here :
    (i g : ℕ) (gs groups : List ℕ)
    → i < length groups
    → get_or (put_groups i (g ∷ gs) groups) i 0 ≡ short g
unfolding put_groups
put_groups-here i g gs groups l =
    put_groups-before (i + 1) gs (set groups i (short g)) i (omega arith)
    ∙ get_or-set_self groups i (short g) 0 l

put_groups-next :
    (i g : ℕ) (gs groups : List ℕ)
    → put_groups i (g ∷ gs) groups ≡ put_groups (i + 1) gs (set groups i (short g))
unfolding put_groups
put_groups-next i g gs groups = refl

group_list-put_groups :
    (i : ℕ) (gs groups : List ℕ)
    → Shorts gs
    → length groups ≡ ngroups
    → i + length gs ≤ ngroups
    → group_list (drop i (put_groups i gs groups)) ≡ gs
group_list-put_groups i [] groups s n le =
    let size = length-put_groups i [] groups in
    elim (dec_lt i ngroups) [
      | no g ↦ rw (drop-all (put_groups i [] groups) i (omega (arith, size))) refl
      | yes l ↦
          rw
            (
              drop-next (put_groups i [] groups) i 0 (omega (arith, size)),
              put_groups-mark i groups l (omega arith),
            )
            refl
    ]
group_list-put_groups i (g ∷ gs) groups (h, s) n le =
    let xs = put_groups i (g ∷ gs) groups in
    let here : get_or xs i 0 ≡ g = put_groups-here i g gs groups (omega arith) ∙ omega arith in
    let rest : group_list (drop (i + 1) xs) ≡ gs =
      ap (λ ys. group_list (drop (i + 1) ys)) (put_groups-next i g gs groups)
      ∙ group_list-put_groups (i + 1) gs (set groups i (short g)) s
          (length-set groups i (short g) ∙ n) (omega arith) in
    ap group_list (
      drop-next xs i 0 (omega (arith, length-put_groups i (g ∷ gs) groups))
      ∙ ap (λ x. x ∷ drop (i + 1) xs) here)
    ∙ group_list-cons g (drop (i + 1) xs) (omega arith)
    ∙ ap (λ ys. g ∷ ys) rest

get_groups-step :
    (size i g : ℕ) (gs out : List ℕ)
    → i < size
    → size < 2 ^ 31
    → g < 2 ^ 16
    → get_groups size i (g ∷ gs) out ≡ get_groups size (i + 1) gs (out ++ (g ∷ []))
unfolding get_groups
get_groups-step size i g gs out l b s =
    let more : (g == nogroup) ≡ false = ne→==_false g nogroup (omega arith) in
    let some_size : (size != 0) ≡ true = ground arith in
    let room : int_le size i ≡ false = ground arith in
    let same : short g ≡ g = omega arith in rw (more, some_size, room, same) refl

get_groups-group_list :
    (size i : ℕ) (gs out : List ℕ)
    → size < 2 ^ 31
    → Shorts (group_list gs)
    → i + length (group_list gs) ≤ size
    → get_groups size i gs out ≡ (i + length (group_list gs), out ++ group_list gs)
get_groups-group_list size i [] out b s le =
    let e : i + 0 ≡ i = omega arith in unfold get_groups in rw (e, append-nil out) refl
get_groups-group_list size i (g ∷ gs) out b s le = elim (Bool-cases (g == nogroup)) [
  | inl last ↦
      let e : i + 0 ≡ i = omega arith in unfold get_groups in rw last (rw (e, append-nil out) refl)
  | inr more ↦
      let l : group_list (g ∷ gs) ≡ g ∷ group_list gs = rw more refl in
      let s' : Shorts (g ∷ group_list gs) = subst Shorts l s in
      let n : length (group_list (g ∷ gs)) ≡ suc (length (group_list gs)) = ap length l in
      let e : i + 1 + length (group_list gs) ≡ i + length (group_list (g ∷ gs)) = omega arith in
      get_groups-step size i g gs out (omega arith) b s'.0
      ∙ get_groups-group_list size (i + 1) gs (out ++ (g ∷ [])) b s'.1 (omega arith)
      ∙ ap (λ m. (m, (out ++ (g ∷ [])) ++ group_list gs)) e
      ∙ ap (λ xs. (i + length (group_list (g ∷ gs)), xs))
          (append_assoc out (g ∷ []) (group_list gs) ∙ ap (λ ys. out ++ ys) (sym l))
]

in_groups-group_list : (g : ℕ) (gs : List ℕ) → g ≢ nogroup → in_groups g gs ≡ has g (group_list gs)
unfolding in_groups
in_groups-group_list g [] ne = refl
in_groups-group_list g (x ∷ gs) ne = ground (arith, in_groups-group_list g gs ne)

member :
    (g : ℕ) (groups gs : List ℕ) (e : ℕ)
    → g < 2 ^ 16
    → group_list groups ≡ gs
    → (if g == e then true else in_groups g groups) ≡ ((g == e) || has g gs)
member g groups gs e h same =
    let i : in_groups g groups ≡ has g gs =
      in_groups-group_list g groups (omega arith) ∙ ap (has g) same in
    ground (arith, i)

-- If the super user sets a list of at most 32 groups of 16 bits, `setgroups` succeeds, `getgroups` with
-- room for them returns their number and the list, and exactly these and the effective group are
-- groups of the task for `in_group_p`.
pub sys_setgroups-sys_getgroups :
    (gs : List ℕ) (size : ℕ) (t : Task)
    → suser t ≡ true
    → Shorts gs
    → length gs ≤ ngroups
    → length t.groups ≡ ngroups
    → length gs ≤ size
    → size < 2 ^ 31
    → let t' = (sys_setgroups gs t).1 in
      ((sys_setgroups gs t).0 ≡ 0)
      × (sys_getgroups size t' ≡ (length gs, gs))
      × ((g : ℕ) → g < 2 ^ 16 → in_group_p g t' ≡ ((g == t.egid) || has g gs))
unfolding sys_setgroups sys_getgroups in_group_p
sys_setgroups-sys_getgroups gs size t su s few n le b =
    let groups = put_groups 0 gs t.groups in
    let same : group_list groups ≡ gs = group_list-put_groups 0 gs t.groups s n (omega arith) in
    let fits : ltb ngroups (length gs) ≡ false = le→ltb_false (length gs) ngroups few in
    let read =
      get_groups-group_list size 0 groups [] b (subst Shorts (sym same) s)
        (omega (arith, ap length same)) in
    (
      rw (su, fits) refl,
      rw (su, fits)
          (read
            ∙ ap (λ m. (m, group_list groups)) {x = 0 + length (group_list groups)}
                {y = length (group_list groups)} (omega arith)
            ∙ ap (λ xs. (length xs, xs)) same),
      λ g h. rw (su, fits) (member g groups gs t.egid h same),
    )
