-- ===== src/CertCheck/Pool/Steps.antt =====
-- Each round of the pool of src/cert_check.rs keeps its books: the map holds the tasks that run, no
-- task has the number of another, and no target is lost.
use mathlib.Core.List.{Perm, append_assoc, map-append}
use mathlib.Core.List.Perm
use httprove.Base.{
  ℕ, zero, suc, ◌+◌, ◌<◌, List, [], ◌∷◌, ◌++◌, Option, none, some, true, false, ◌==◌, map, length,
  All, All-append, ◌≡◌, ◌≢◌, refl, sym, ap, subst, ◌∙◌, arith, ==_iff,
}
use httprove.Types.{Text}
use httprove.CertCheck.{CheckRow}
use httprove.CertCheck.Pool.{
  Pool, Event, behind, pick, find_task, remove_task, spawn_from, row_of, on_joined, step,
  outcome_of,
}

-- `y` stands in the list, and the last list holds the others.
pub data Picked : List ℕ → ℕ → List ℕ → Type 0 where
  here : {x : ℕ} {xs : List ℕ} → Picked (x ∷ xs) x xs
  there : {x y : ℕ} {xs ys : List ℕ} → Picked xs y ys → Picked (x ∷ xs) y (x ∷ ys)

abbrev pub IsPick : List ℕ → Option (ℕ × List ℕ) → Type 0
IsPick xs none = xs ≡ []
IsPick xs (some (y, ys)) = Picked xs y ys

behind-IsPick :
    (x z : ℕ) (xs : List ℕ) (r : Option (ℕ × List ℕ))
    → IsPick (z ∷ xs) r
    → IsPick (x ∷ z ∷ xs) (behind x r)
behind-IsPick x z xs none p = absurd (let e = p in cc)
behind-IsPick x z xs (some (y, ys)) p = there p

pub pick-IsPick : (n : ℕ) (xs : List ℕ) → IsPick xs (pick n xs)
unfolding pick
pick-IsPick n [] = refl
pick-IsPick zero (x ∷ xs) = here
pick-IsPick (suc n) (x ∷ []) = here
pick-IsPick (suc n) (x ∷ y ∷ xs) = behind-IsPick x y xs (pick n (y ∷ xs)) (pick-IsPick n (y ∷ xs))

Picked-All : (P : ℕ → Type 0) {xs ys : List ℕ} {y : ℕ} → Picked xs y ys → All P xs → P y × All P ys
Picked-All P here (p, ps) = (p, ps)
Picked-All P (there m) (p, ps) = let (q, qs) = Picked-All P m ps in (q, (p, qs))

pub Picked-length : {xs ys : List ℕ} {y : ℕ} → Picked xs y ys → length xs ≡ suc (length ys)
Picked-length here = refl
Picked-length (there m) = ap suc (Picked-length m)

abbrev pub AreDistinct : List ℕ → Type 0
AreDistinct [] = Unit
AreDistinct (x ∷ xs) = All (λ y. x ≢ y) xs × AreDistinct xs

Picked-AreDistinct : {xs ys : List ℕ} {y : ℕ} → Picked xs y ys → AreDistinct xs → AreDistinct ys
Picked-AreDistinct here (d, ds) = ds
Picked-AreDistinct (there {x} m) (d, ds) =
    ((Picked-All (λ z. x ≢ z) m d).1, Picked-AreDistinct m ds)

AreDistinct-append :
    (xs : List ℕ) (y : ℕ) → AreDistinct xs → All (λ x. x ≢ y) xs → AreDistinct (xs ++ (y ∷ []))
AreDistinct-append [] y d f = (tt, tt)
AreDistinct-append (x ∷ xs) y (d, ds) (f, fs) =
    (All-append (λ z. x ≢ z) xs (y ∷ []) d (f, tt), AreDistinct-append xs y ds fs)

abbrev Task : Type 0
Task = ℕ × (Text × ℕ)

abbrev pub ids : List Task → List ℕ
ids [] = []
ids ((i, target) ∷ l) = i ∷ ids l

abbrev pub goals : List Task → List (Text × ℕ)
goals [] = []
goals ((i, target) ∷ l) = target ∷ goals l

-- The map gives up exactly the task that has ended.
remove_task-Picked :
    (l : List Task) {xs ys : List ℕ} {y : ℕ}
    → Picked xs y ys
    → ids l ≡ xs
    → AreDistinct xs
    → (ids (remove_task y l) ≡ ys) × Perm (goals l) (find_task y l ∷ goals (remove_task y l))
unfolding remove_task find_task
remove_task-Picked [] here e d = absurd (let f = e in cc)
remove_task-Picked [] (there m) e d = absurd (let f = e in cc)
remove_task-Picked ((i, t) ∷ l) (here {x} {xs}) e d =
    let h : (i == x) ≡ true = (==_iff i x).1 (cc) in
    let same : ids l ≡ xs = cc in rw h (same, Perm.refl _)
remove_task-Picked ((i, t) ∷ l) (there {x} {y} {xs} {ys} m) e (d, ds) =
    let first : i ≡ x = cc in
    let same : ids l ≡ xs = cc in
    let apart = (Picked-All (λ z. x ≢ z) m d).0 in
    let h : (i == y) ≡ false = ground (arith, first, apart) in
    let (agree, perm) = remove_task-Picked l m same ds in
    let both : (i ∷ ids (remove_task y l)) ≡ (x ∷ ys) = cc in
    rw h (both, Perm.trans (Perm.cons t perm) (Perm.swap _ _ _))

ids-append : (l : List Task) (t : Task) → ids (l ++ (t ∷ [])) ≡ ids l ++ (t.0 ∷ [])
ids-append [] t = refl
ids-append ((i, target) ∷ l) t = ap (◌∷◌ i) (ids-append l t)

goals-append : (l : List Task) (t : Task) → goals (l ++ (t ∷ [])) ≡ goals l ++ (t.1 ∷ [])
goals-append [] t = refl
goals-append ((i, target) ∷ l) t = ap (◌∷◌ target) (goals-append l t)

-- What a row is about.
abbrev pub goal : CheckRow → Text × ℕ
goal r = (r.host, r.port)

-- The pool when one task has been reported and none is spawned yet.
abbrev pub reported : (ℕ → Text) → Pool → Event → ℕ → List ℕ → Pool
reported number p e id others = record p {
  join_set = others;
  inflight = remove_task id p.inflight;
  rows = p.rows ++ (row_of number (find_task id p.inflight) (outcome_of e.ended) ∷ []);
}

module _ (id_of : ℕ → ℕ) where
  abbrev pub IsIssued : ℕ → ℕ → Type 0
  IsIssued bound i = (k : ℕ) × (k < bound) × (i ≡ id_of k)

  -- The books of the pool, when `all` is what it has to report.
  pub record IsKept (all : List (Text × ℕ)) (p : Pool) : Type 0 where
    pub agree : ids p.inflight ≡ p.join_set
    pub distinct : AreDistinct p.join_set
    pub issued : All (IsIssued p.spawned) p.join_set
    pub accounted : Perm (map goal p.rows ++ (goals p.inflight ++ p.pending)) all

  IsIssued-suc : (n : ℕ) (l : List ℕ) → All (IsIssued n) l → All (IsIssued (n + 1)) l
  IsIssued-suc n [] h = tt
  IsIssued-suc n (x ∷ l) ((k, lt, e), h) = ((k, omega (arith, lt), e), IsIssued-suc n l h)

  module _ (injective : (m n : ℕ) → id_of m ≡ id_of n → m ≡ n) where
    IsIssued-ne : (n : ℕ) (l : List ℕ) → All (IsIssued n) l → All (λ x. x ≢ id_of n) l
    IsIssued-ne n [] h = tt
    IsIssued-ne n (x ∷ l) ((k, lt, e), h) =
        (λ q. let same = injective k n (sym e ∙ q) in omega (arith, lt, same), IsIssued-ne n l h)

    pub spawn_from-IsKept :
        (all : List (Text × ℕ)) (p : Pool) (pending : List (Text × ℕ))
        → p.pending ≡ pending
        → IsKept all p
        → IsKept all (spawn_from id_of p pending)
    spawn_from-IsKept all p [] e h = h
    spawn_from-IsKept all p (target ∷ pending) e h = record {
      agree =
          ids-append p.inflight (id_of p.spawned, target)
          ∙ ap (λ l. l ++ (id_of p.spawned ∷ [])) h.agree;
      distinct =
          AreDistinct-append p.join_set (id_of p.spawned) h.distinct
            (IsIssued-ne p.spawned p.join_set h.issued);
      issued =
          All-append (IsIssued (p.spawned + 1)) p.join_set (id_of p.spawned ∷ [])
            (IsIssued-suc p.spawned p.join_set h.issued) ((p.spawned, omega arith, refl), tt);
      accounted =
          let moved =
            ap (λ l. l ++ pending) (goals-append p.inflight (id_of p.spawned, target))
            ∙ (append_assoc (goals p.inflight) (target ∷ []) pending
                ∙ ap (◌++◌ (goals p.inflight)) (sym e)) in
          subst (λ l. Perm (map goal p.rows ++ l) all) (sym moved) h.accounted;
    }

    module _ (number : ℕ → Text) where
      reported-IsKept :
          (all : List (Text × ℕ)) (p : Pool) (e : Event) (id : ℕ) (others : List ℕ)
          → Picked p.join_set id others
          → IsKept all p
          → IsKept all (reported number p e id others)
      reported-IsKept all p e id others m h =
          let (agree, perm) = remove_task-Picked p.inflight m h.agree h.distinct in
          let target = find_task id p.inflight in
          let left = goals (remove_task id p.inflight) in
          let done = map goal p.rows in
          let moved =
            ap (λ l. l ++ (left ++ p.pending))
              (map-append goal p.rows (row_of number target (outcome_of e.ended) ∷ []))
            ∙ append_assoc done (target ∷ []) (left ++ p.pending) in
          record {
            agree = agree;
            distinct = Picked-AreDistinct m h.distinct;
            issued = (Picked-All (IsIssued p.spawned) m h.issued).1;
            accounted =
                subst (λ l. Perm l all) (sym moved)
                  (Perm.trans (Perm.symm (Perm.append_left done (Perm.append_right p.pending perm)))
                    h.accounted);
          }

      on_joined-IsKept :
          (all : List (Text × ℕ)) (p : Pool) (e : Event) (r : Option (ℕ × List ℕ))
          → IsPick p.join_set r
          → IsKept all p
          → IsKept all (on_joined id_of number p e r)
      on_joined-IsKept all p e none m h = h
      on_joined-IsKept all p e (some (id, others)) m h =
          spawn_from-IsKept all (reported number p e id others) p.pending refl
            (reported-IsKept all p e id others m h)

      pub step-IsKept :
          (all : List (Text × ℕ)) (p : Pool) (e : Event)
          → IsKept all p
          → IsKept all (step id_of number p e)
      unfolding step
      step-IsKept all p e h =
          on_joined-IsKept all p e (pick e.place p.join_set) (pick-IsPick e.place p.join_set) h
