-- ===== src/Fanout/Plurality.antt =====
-- The majority of src/fanout.rs is the status that more rows have than any other.
use httprove.Base.{
  ℕ, ◌+◌, ◌≤◌, ◌<◌, List, [], ◌∷◌, Option, none, some, Bool, true, false, ◌==◌, if◌then◌else◌, ◌≡◌,
  ◌≢◌, ◌↔◌, refl, sym, arith,
}
use httprove.Fanout.{Row, bump_count, highest, top, only_one, bump_status, tally, majority_status}

-- What a table says of a status.
abbrev get : ℕ → List (ℕ × ℕ) → ℕ
get s [] = 0
get s ((k, n) ∷ t) = if k == s then n else get s t

get-bump_count :
    (s k : ℕ) (t : List (ℕ × ℕ))
    → get k (bump_count s t) ≡ (if s == k then get k t + 1 else get k t)
unfolding bump_count
get-bump_count s k [] = ground arith
get-bump_count s k ((j, n) ∷ t) = ground (arith, get-bump_count s k t)

-- Each status stands in the table once, with a number that is not zero.
abbrev IsTable : List (ℕ × ℕ) → Type 0
IsTable [] = Unit
IsTable ((k, n) ∷ t) = (get k t ≡ 0) × (1 ≤ n) × IsTable t

bump_count-IsTable : (s : ℕ) (t : List (ℕ × ℕ)) → IsTable t → IsTable (bump_count s t)
unfolding bump_count
bump_count-IsTable s [] h = (refl, omega arith, tt)
bump_count-IsTable s ((k, n) ∷ t) h =
    ground (arith, bump_count-IsTable s t h.2, get-bump_count s k t)

get-highest : (s : ℕ) (t : List (ℕ × ℕ)) → get s t ≤ highest t
unfolding highest
get-highest s [] = omega arith
get-highest s ((k, n) ∷ t) = ground (arith, get-highest s t)

abbrev member : ℕ → List ℕ → Bool
member s [] = false
member s (k ∷ l) = if k == s then true else member s l

member-top :
    (most s : ℕ) (t : List (ℕ × ℕ))
    → 1 ≤ most
    → IsTable t
    → (member s (top most t) ≡ true) ↔ (get s t ≡ most)
unfolding top
member-top most s [] b h = ground (arith, b)
member-top most s ((k, n) ∷ t) b h = ground (arith, member-top most s t b h.2)

only_one-member : (l : List ℕ) (m s : ℕ) → only_one l ≡ some m → (member s l ≡ true) ↔ (m ≡ s)
only_one-member [] m s h = absurd (let e = h in cc)
only_one-member (a ∷ []) m s h = ground (arith, h)
only_one-member (a ∷ b ∷ l) m s h = absurd (let e = h in cc)

-- What one row adds to the number of a status.
abbrev pub one_if : Bool → Option ℕ → ℕ → ℕ
one_if true (some k) s = if k == s then 1 else 0
one_if true none s = 0
one_if false st s = 0

get-bump_status :
    (ok : Bool) (st : Option ℕ) (s : ℕ) (t : List (ℕ × ℕ))
    → get s (bump_status ok st t) ≡ get s t + one_if ok st s
get-bump_status true (some k) s t = ground (arith, get-bump_count k s t)
get-bump_status true none s t = omega arith
get-bump_status false st s t = omega arith

bump_status-IsTable :
    (ok : Bool) (st : Option ℕ) (t : List (ℕ × ℕ)) → IsTable t → IsTable (bump_status ok st t)
bump_status-IsTable true (some k) t h = bump_count-IsTable k t h
bump_status-IsTable true none t h = h
bump_status-IsTable false st t h = h

highest-top :
    (t : List (ℕ × ℕ)) (m : ℕ) → IsTable t → only_one (top (highest t) t) ≡ some m → 1 ≤ highest t
unfolding top highest
highest-top [] m h e = absurd (let e1 = e in cc)
highest-top ((k, n) ∷ t) m h e = let b = h.1 in ground arith

module _ {W : Type 0} where
  -- The number of rows that succeeded with this status.
  abbrev pub count_ok : ℕ → List (Row W) → ℕ
  count_ok s [] = 0
  count_ok s (r ∷ rows) = one_if r.ok r.status s + count_ok s rows

  get-tally :
      (s : ℕ) (t : List (ℕ × ℕ)) (rows : List (Row W))
      → get s (tally t rows) ≡ get s t + count_ok s rows
  unfolding tally
  get-tally s t [] = omega arith
  get-tally s t (r ∷ rows) =
      let a = get-tally s (bump_status r.ok r.status t) rows in
      let b = get-bump_status r.ok r.status s t in omega arith

  tally-IsTable : (t : List (ℕ × ℕ)) (rows : List (Row W)) → IsTable t → IsTable (tally t rows)
  unfolding tally
  tally-IsTable t [] h = h
  tally-IsTable t (r ∷ rows) h =
      tally-IsTable (bump_status r.ok r.status t) rows (bump_status-IsTable r.ok r.status t h)

  -- If there is a majority status, more rows have succeeded with it than with any other status.
  pub majority_status-lt :
      (rows : List (Row W)) (m s : ℕ)
      → majority_status rows ≡ some m
      → s ≢ m
      → count_ok s rows < count_ok m rows
  unfolding majority_status
  majority_status-lt rows m s e ne =
      let counts = tally [] rows in
      let h = tally-IsTable [] rows tt in
      let b = highest-top counts m h e in
      let is_s = get-tally s [] rows in
      let is_m = get-tally m [] rows in
      let le_s = get-highest s counts in
      let in_s = member-top (highest counts) s counts b h in
      let in_m = member-top (highest counts) m counts b h in
      let one_s = only_one-member (top (highest counts) counts) m s e in
      let one_m = only_one-member (top (highest counts) counts) m m e in
      let top_m = in_m.0 (one_m.1 refl) in
      let not_s : get s counts ≢ highest counts = λ q. ne (sym (one_s.0 (in_s.1 q))) in omega arith
