-- ===== src/CertCheck/Pool.antt =====
-- The tasks of `run_cert_check` in src/cert_check.rs: sixteen at a time, and whichever ends next is
-- reported. Which one that is, and with what it ends, are the events.
pub mod Counts
pub mod Steps
pub mod Finish
use mathlib.Core.Option
use httprove.Base.{
  ℕ, zero, suc, ◌+◌, List, [], ◌∷◌, ◌++◌, Option, none, some, Bool, not, ◌==◌, if◌then◌else◌,
  Result, ok, err, ◌>>=◌,
}
use httprove.Text.{codes}
use httprove.Types.{Text}
use httprove.CertCheck.{
  Target, LeafSummary, CheckRow, display_target, invalid_rows, queue_of, sort_rows, has_failure,
}

abbrev pub max_concurrency : ℕ
max_concurrency = 16

-- `pending` is what is left of the queue, `inflight` the map from the tasks' numbers to the targets.
pub record Pool : Type 0 where
  pub join_set : List ℕ
  pub inflight : List (ℕ × (Text × ℕ))
  pub pending : List (Text × ℕ)
  pub spawned : ℕ
  pub rows : List CheckRow

-- The task that ends next, by its place in the set, and what it ends with: the failure of the task
-- itself, or the outcome of the check.
pub record Event : Type 0 where
  pub place : ℕ
  pub ended : Result Text (Result Text LeafSummary)

abbrev pub outcome_of : Result Text (Result Text LeafSummary) → Result Text LeafSummary
outcome_of (ok outcome) = outcome
outcome_of (err e) = err (codes "internal: worker task failed: " ++ e)

module _ {A : Type 0} where
  abbrev pub behind : A → Option (A × List A) → Option (A × List A)
  behind x none = none
  behind x (some (y, rest)) = some (y, x ∷ rest)

  -- An element and the others. There is none only where the list is empty: past its end, the last.
  unfoldable pub pick : ℕ → List A → Option (A × List A)
  pick n [] = none
  pick zero (x ∷ xs) = some (x, xs)
  pick (suc n) (x ∷ []) = some (x, [])
  pick (suc n) (x ∷ y ∷ xs) = behind x (pick n (y ∷ xs))

-- `inflight.remove(&id).unwrap_or_else(..)`
unfoldable pub find_task : ℕ → List (ℕ × (Text × ℕ)) → Text × ℕ
find_task id [] = (codes "unknown", 0)
find_task id ((i, target) ∷ l) = let later = find_task id l in if i == id then target else later

unfoldable pub remove_task : ℕ → List (ℕ × (Text × ℕ)) → List (ℕ × (Text × ℕ))
remove_task id [] = []
remove_task id ((i, target) ∷ l) =
    let later = (i, target) ∷ remove_task id l in if i == id then l else later

abbrev pub row_of : (ℕ → Text) → Text × ℕ → Result Text LeafSummary → CheckRow
row_of number (host, port) outcome = record {
  display = display_target number host port;
  host = host;
  port = port;
  outcome = outcome;
}

-- `id_of` gives the number of the n-th task: tokio's own.
module _ (id_of : ℕ → ℕ) where
  abbrev pub spawn_from : Pool → List (Text × ℕ) → Pool
  spawn_from p [] = p
  spawn_from p (target ∷ pending) = record {
    join_set = p.join_set ++ (id_of p.spawned ∷ []);
    inflight = p.inflight ++ ((id_of p.spawned, target) ∷ []);
    pending = pending;
    spawned = p.spawned + 1;
    rows = p.rows;
  }

  abbrev pub spawn_next : Pool → Pool
  spawn_next p = spawn_from p p.pending

  -- The first loop. Once the queue is empty, `spawn_next` changes nothing.
  unfoldable pub prime : ℕ → Pool → Pool
  prime zero p = p
  prime (suc n) p = prime n (spawn_next p)

  module _ (number : ℕ → Text) where
    abbrev pub on_joined : Pool → Event → Option (ℕ × List ℕ) → Pool
    on_joined p e none = p
    on_joined p e (some (id, others)) = spawn_next (record p {
      join_set = others;
      inflight = remove_task id p.inflight;
      rows = p.rows ++ (row_of number (find_task id p.inflight) (outcome_of e.ended) ∷ []);
    })

    -- One round of the second loop, which is over once the set is empty.
    unfoldable pub step : Pool → Event → Pool
    unfolding pick find_task remove_task display_target
    step p e = on_joined p e (pick e.place p.join_set)

    unfoldable pub run_pool : Pool → List Event → Pool
    unfolding step
    run_pool p [] = p
    run_pool p (e ∷ es) = run_pool (step p e) es

    abbrev pub start : List Target → Pool
    start targets = record {
      join_set = [];
      inflight = [];
      pending = queue_of targets;
      spawned = 0;
      rows = invalid_rows targets;
    }

    -- The pool after these events.
    abbrev pub after : List Target → List Event → Pool
    after targets es = run_pool (prime max_concurrency (start targets)) es

    -- The exit code, true for success, and the rows as they are shown. There is an error where there
    -- is no target.
    abbrev pub run_cert_check : List Target → List Event → Result Text (Bool × List CheckRow)
    run_cert_check [] es =
        err (codes "no cert-check targets (the @file may contain only comments/blank lines)")
    run_cert_check (t ∷ ts) es =
        let rows = sort_rows (after (t ∷ ts) es).rows in ok (not (has_failure rows), rows)
