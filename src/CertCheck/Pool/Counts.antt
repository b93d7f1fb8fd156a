-- ===== src/CertCheck/Pool/Counts.antt =====
-- How many tasks of src/cert_check.rs run at once, how many targets are left, and what fails.
use httprove.Base.{
  ℕ, zero, suc, ◌+◌, ◌-◌, ◌≤◌, List, [], ◌∷◌, ◌++◌, Option, none, some, Bool, true, false, ◌||◌,
  length, length-append, ◌≡◌, ◌≢◌, refl, sym, ap, subst, ◌∙◌, arith,
}
use httprove.Types.{Text}
use httprove.CertCheck.{
  Target, CheckRow, invalid_rows, queue_of, insert_row, sort_rows, fails, has_failure,
}
use httprove.CertCheck.Pool.{
  Pool, Event, pick, spawn_from, spawn_next, prime, on_joined, step, outcome_of, run_pool, start,
  after, max_concurrency, row_of, find_task,
}
use httprove.CertCheck.Pool.Steps.{IsPick, pick-IsPick, Picked-length, reported}

-- At most `n` tasks run, and exactly `n` as long as there is one left to spawn.
abbrev pub IsFilled : ℕ → Pool → Type 0
IsFilled n p = (length p.join_set ≤ n) × (p.pending ≢ [] → length p.join_set ≡ n)

-- The targets that are not reported yet.
abbrev pub left : Pool → ℕ
left p = length p.join_set + length p.pending

-- Whether one of the first `n` events is a failure.
abbrev pub any_ended : ℕ → List Event → Bool
any_ended zero es = false
any_ended (suc n) [] = false
any_ended (suc n) (e ∷ es) = fails (outcome_of e.ended) || any_ended n es

has_failure-append :
    (rows more : List CheckRow)
    → has_failure (rows ++ more) ≡ (has_failure rows || has_failure more)
has_failure-append [] more = refl
has_failure-append (r ∷ rows) more = ground (arith, has_failure-append rows more)

has_failure-insert_row :
    (r : CheckRow) (rows : List CheckRow)
    → has_failure (insert_row r rows) ≡ (fails r.outcome || has_failure rows)
unfolding insert_row
has_failure-insert_row r [] = refl
has_failure-insert_row r (s ∷ rows) = ground (arith, has_failure-insert_row r rows)

pub has_failure-sort_rows : (rows : List CheckRow) → has_failure (sort_rows rows) ≡ has_failure rows
unfolding sort_rows
has_failure-sort_rows [] = refl
has_failure-sort_rows (r ∷ rows) =
    has_failure-insert_row r (sort_rows rows)
    ∙ ap (λ b. fails r.outcome || b) (has_failure-sort_rows rows)

or_false : (b : Bool) → (b || false) ≡ b
or_false true = refl
or_false false = refl

any_ended-nil : (n : ℕ) → any_ended n [] ≡ false
any_ended-nil zero = refl
any_ended-nil (suc n) = refl

any_ended-cons :
    (n : ℕ) (e : Event) (es : List Event) (b : Bool)
    → ((b || any_ended n (e ∷ [])) || any_ended (n - 1) es) ≡ (b || any_ended n (e ∷ es))
any_ended-cons zero e es b = or_false (b || false)
any_ended-cons (suc n) e es b =
    let z : suc n - 1 ≡ n = omega arith in rw (z, any_ended-nil n) (ground arith)

nil_of : {A : Type 0} (l : List A) → ¬ (l ≢ []) → l ≡ []
nil_of [] h = refl
nil_of (x ∷ xs) h = absurd (h (λ q. let e = q in cc))

pending-nil : (n : ℕ) (p : Pool) → p.join_set ≡ [] → IsFilled (suc n) p → p.pending ≡ []
pending-nil n p e (few, busy) =
    nil_of p.pending (λ ne. let none_run = ap length e in let full = busy ne in omega arith)

module _ (id_of : ℕ → ℕ) where
  spawn_from-rows :
      (p : Pool) (pending : List (Text × ℕ)) → (spawn_from id_of p pending).rows ≡ p.rows
  spawn_from-rows p [] = refl
  spawn_from-rows p (t ∷ ts) = refl

  spawn_from-IsFilled :
      (n : ℕ) (p : Pool) (pending : List (Text × ℕ))
      → p.pending ≡ pending
      → IsFilled n p
      → IsFilled (suc n) (spawn_from id_of p pending) × (left (spawn_from id_of p pending) ≡ left p)
  spawn_from-IsFilled n p [] e (few, busy) = ((omega (arith, few), λ ne. absurd (ne e)), refl)
  spawn_from-IsFilled n p (t ∷ ts) e (few, busy) =
      let full = busy (λ q. let f = sym e ∙ q in cc) in
      let more = length-append p.join_set (id_of p.spawned ∷ []) in
      let size = ap length e in
      ((omega (arith, more, full), λ ne. omega (arith, more, full)), omega (arith, more, size))

  prime-rows : (n : ℕ) (p : Pool) → (prime id_of n p).rows ≡ p.rows
  unfolding prime
  prime-rows zero p = refl
  prime-rows (suc n) p = prime-rows n (spawn_next id_of p) ∙ spawn_from-rows p p.pending

  prime-IsFilled :
      (n m : ℕ) (p : Pool)
      → IsFilled m p
      → IsFilled (m + n) (prime id_of n p) × (left (prime id_of n p) ≡ left p)
  unfolding prime
  prime-IsFilled zero m p h = (let e : m + 0 ≡ m = omega arith in rw e h, refl)
  prime-IsFilled (suc n) m p h =
      let (f, size) = spawn_from-IsFilled m p p.pending refl h in
      let (g, others) = prime-IsFilled n (suc m) (spawn_next id_of p) f in
      let e : suc m + n ≡ m + suc n = omega arith in
      (subst (λ k. IsFilled k (prime id_of n (spawn_next id_of p))) e g, others ∙ size)

  module _ (number : ℕ → Text) where
    on_joined-IsFilled :
        (n : ℕ) (p : Pool) (e : Event) (r : Option (ℕ × List ℕ))
        → IsPick p.join_set r
        → IsFilled (suc n) p
        → IsFilled (suc n) (on_joined id_of number p e r)
          × (left (on_joined id_of number p e r) ≡ left p - 1)
          × (has_failure (on_joined id_of number p e r).rows
              ≡ (has_failure p.rows || any_ended (left p) (e ∷ [])))
    on_joined-IsFilled n p e none m h =
        let over = pending-nil n p m h in
        let empty = ap length m in
        let done = ap length over in
        let size : left p ≡ 0 = omega (arith, empty, done) in
        (h, omega (arith, size), rw size (sym (or_false (has_failure p.rows))))
    on_joined-IsFilled n p e (some (id, others)) m h =
        let q = reported number p e id others in
        let fewer = Picked-length m in
        let (few, busy) = h in
        let filled : IsFilled n q =
          (omega (arith, fewer, few), λ ne. let full = busy ne in omega (arith, fewer, full)) in
        let (f, size) = spawn_from-IsFilled n q p.pending refl filled in
        let all : left p ≡ suc (left q) = omega (arith, fewer) in
        let row = row_of number (find_task id p.inflight) (outcome_of e.ended) in
        (
          f,
          omega (arith, size, all),
          ap has_failure (spawn_from-rows q p.pending)
              ∙ (has_failure-append p.rows (row ∷ [])
                  ∙ rw all (
                      ap (λ b. has_failure p.rows || (fails (outcome_of e.ended) || b))
                        (sym (any_ended-nil (left q))))),
        )

    run_pool-IsFilled :
        (n : ℕ) (p : Pool) (es : List Event)
        → IsFilled (suc n) p
        → IsFilled (suc n) (run_pool id_of number p es)
          × (left (run_pool id_of number p es) ≡ left p - length es)
          × (has_failure (run_pool id_of number p es).rows
              ≡ (has_failure p.rows || any_ended (left p) es))
    unfolding run_pool step
    run_pool-IsFilled n p [] h =
        (h, omega arith, rw (any_ended-nil (left p)) (sym (or_false (has_failure p.rows))))
    run_pool-IsFilled n p (e ∷ es) h =
        let s =
          on_joined-IsFilled n p e (pick e.place p.join_set) (pick-IsPick e.place p.join_set) h in
        let (f, size, code) = run_pool-IsFilled n (step id_of number p e) es s.0 in
        let less = s.1 in
        (
          f,
          omega (arith, size, less),
          code
              ∙ (ap (λ k. has_failure (step id_of number p e).rows || any_ended k es) s.1
                  ∙ (ap (λ b. b || any_ended (left p - 1) es) s.2
                      ∙ any_ended-cons (left p) e es (has_failure p.rows))),
        )

    -- Whatever tasks have ended, at most sixteen run, and exactly sixteen as long as a target is
    -- left to start; each end brings the targets that are not reported yet down by one, and what
    -- has failed so far is what was refused or has ended badly.
    pub after-IsFilled :
        (targets : List Target) (es : List Event)
        → IsFilled max_concurrency (after id_of number targets es)
          × (left (after id_of number targets es) ≡ length (queue_of targets) - length es)
          × (has_failure (after id_of number targets es).rows
              ≡ (has_failure (invalid_rows targets) || any_ended (length (queue_of targets)) es))
    after-IsFilled targets es =
        let p = start id_of number targets in
        let (f, size) = prime-IsFilled max_concurrency 0 p (omega arith, λ ne. refl) in
        let (g, fewer, code) = run_pool-IsFilled 15 (prime id_of max_concurrency p) es f in
        let total : left (prime id_of max_concurrency p) ≡ length (queue_of targets) =
          omega (arith, size) in
        (
          g,
          omega (arith, fewer, size),
          code
              ∙ (ap
                    (λ rows.
                      has_failure rows || any_ended (left (prime id_of max_concurrency p)) es)
                    (prime-rows max_concurrency p)
                  ∙ ap (λ k. has_failure (invalid_rows targets) || any_ended k es) total),
        )
