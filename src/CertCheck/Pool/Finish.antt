-- ===== src/CertCheck/Pool/Finish.antt =====
-- The pool of src/cert_check.rs comes to its end: every target is reported once, in whatever order
-- the checks end.
use mathlib.Core.List.{Perm, append-nil}
use mathlib.Core.List.Perm
use httprove.Base.{
  ℕ, zero, suc, ◌≤◌, List, [], ◌∷◌, ◌++◌, Bool, ◌||◌, not, map, length, Result, ok, err, ◌≡◌, refl,
  ap, subst, ◌∙◌, arith, Bool-cases, inl, inr,
}
use httprove.Types.{Text}
use httprove.CertCheck.{
  Target, CheckRow, invalid_rows, queue_of, insert_row, sort_rows, has_failure, row_le,
}
use httprove.CertCheck.Pool.{
  Pool, Event, spawn_next, prime, step, run_pool, start, after, max_concurrency, run_cert_check,
}
use httprove.CertCheck.Pool.Steps.{IsKept, ids, goals, goal, spawn_from-IsKept, step-IsKept}
use httprove.CertCheck.Pool.Counts.{any_ended, has_failure-sort_rows, after-IsFilled}

insert_row-perm : (r : CheckRow) (rows : List CheckRow) → Perm (insert_row r rows) (r ∷ rows)
unfolding insert_row
insert_row-perm r [] = Perm.refl _
insert_row-perm r (s ∷ rows) = elim (Bool-cases (row_le r s)) [
  | inl e ↦ rw e (Perm.refl _)
  | inr e ↦ rw e (Perm.trans (Perm.cons s (insert_row-perm r rows)) (Perm.swap _ _ _))
]

sort_rows-perm : (rows : List CheckRow) → Perm (sort_rows rows) rows
unfolding sort_rows
sort_rows-perm [] = Perm.refl _
sort_rows-perm (r ∷ rows) =
    Perm.trans (insert_row-perm r (sort_rows rows)) (Perm.cons r (sort_rows-perm rows))

-- Each target has one row, and the exit code says whether a target could not be tried or a check
-- ended badly.
abbrev pub Reports : List Target → List Event → Result Text (Bool × List CheckRow) → Type 0
Reports targets es (err e) = ⊥
Reports targets es (ok (success, rows)) =
    Perm (map goal rows) (map goal (invalid_rows targets) ++ queue_of targets)
    × (success
        ≡ not (has_failure (invalid_rows targets) || any_ended (length (queue_of targets)) es))

length-nil : {A : Type 0} (l : List A) → length l ≡ 0 → l ≡ []
length-nil [] h = refl
length-nil (x ∷ xs) h = absurd (omega (arith, h))

ids-nil : (l : List (ℕ × (Text × ℕ))) → ids l ≡ [] → l ≡ []
ids-nil [] h = refl
ids-nil ((i, t) ∷ l) h = absurd (let e = h in cc)

module _ (id_of : ℕ → ℕ) (number : ℕ → Text) where
  module _ (injective : (m n : ℕ) → id_of m ≡ id_of n → m ≡ n) where
    prime-IsKept :
        (all : List (Text × ℕ)) (n : ℕ) (p : Pool)
        → IsKept id_of all p
        → IsKept id_of all (prime id_of n p)
    unfolding prime
    prime-IsKept all zero p h = h
    prime-IsKept all (suc n) p h =
        prime-IsKept all n (spawn_next id_of p)
          (spawn_from-IsKept id_of injective all p p.pending refl h)

    run_pool-IsKept :
        (all : List (Text × ℕ)) (p : Pool) (es : List Event)
        → IsKept id_of all p
        → IsKept id_of all (run_pool id_of number p es)
    unfolding run_pool
    run_pool-IsKept all p [] h = h
    run_pool-IsKept all p (e ∷ es) h =
        run_pool-IsKept all (step id_of number p e) es
          (step-IsKept id_of injective number all p e h)

    pub after-IsKept :
        (targets : List Target) (es : List Event)
        → IsKept id_of
            (map goal (invalid_rows targets) ++ queue_of targets)
            (after id_of number targets es)
    after-IsKept targets es =
        let all = map goal (invalid_rows targets) ++ queue_of targets in
        let p = start id_of number targets in
        run_pool-IsKept all (prime id_of max_concurrency p) es (
          prime-IsKept all max_concurrency p
            (record { agree = refl; distinct = tt; issued = tt; accounted = Perm.refl _ }))

    after-perm :
        (targets : List Target) (es : List Event)
        → length (queue_of targets) ≤ length es
        → Perm
            (map goal (after id_of number targets es).rows)
            (map goal (invalid_rows targets) ++ queue_of targets)
    after-perm targets es enough =
        let p = after id_of number targets es in
        let h = after-IsKept targets es in
        let size = (after-IsFilled id_of number targets es).1 in
        let run : p.join_set ≡ [] = length-nil p.join_set (omega (arith, size, enough)) in
        let over : p.pending ≡ [] = length-nil p.pending (omega (arith, size, enough)) in
        let none_flies : p.inflight ≡ [] = ids-nil p.inflight (h.agree ∙ run) in
        let rest : goals p.inflight ++ p.pending ≡ [] =
          ap (λ l. goals l ++ p.pending) none_flies ∙ over in
        subst (λ l. Perm l (map goal (invalid_rows targets) ++ queue_of targets))
          (ap (λ l. map goal p.rows ++ l) rest ∙ append-nil (map goal p.rows)) h.accounted

    -- If tasks have different numbers, and as many of them end as there are targets that can be
    -- tried, then whatever the order in which they end, the check of one target or more comes to
    -- its end with one row for each target, and with success exactly if no target was refused and
    -- no check ended with an error or an expired certificate.
    pub run_cert_check-Reports :
        (t : Target) (ts : List Target) (es : List Event)
        → length (queue_of (t ∷ ts)) ≤ length es
        → Reports (t ∷ ts) es (run_cert_check id_of number (t ∷ ts) es)
    run_cert_check-Reports t ts es enough =
        let rows = (after id_of number (t ∷ ts) es).rows in
        (
          Perm.trans (Perm.map goal (sort_rows-perm rows)) (after-perm (t ∷ ts) es enough),
          ap not (has_failure-sort_rows rows ∙ (after-IsFilled id_of number (t ∷ ts) es).2),
        )
