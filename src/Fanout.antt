-- ===== src/Fanout.antt =====
-- src/fanout.rs: one probe for each address of a host, and which of them stand out. The order of the
-- addresses and the probes are parameters.
pub mod Plurality
mod Tests
use mathlib.Core.Option
use httprove.Base.{
  ℕ, zero, suc, ◌+◌, ◌-◌, ◌/◌, ◌%◌, max, List, [], ◌∷◌, ◌++◌, Option, none, some, Bool, true, false,
  not, ◌&&◌, ◌||◌, ◌==◌, if◌then◌else◌, length, get_elem?, map,
}
use httprove.Types.{
  Text, TlsInfo, HopResult, ErrorPhase, ProbeError, ProbeResult, final_hop, status, is_success,
  summed_timings,
}
use httprove.Types.Number.{Float}
use httprove.Dns.Answers.{IpAddr, v4, v6}
use httprove.Dns.Diverge.{same_ip}

pub data IpFamily : Type 0 where
  auto only_v4 only_v6 : IpFamily

abbrev pub family_matches : IpAddr → IpFamily → Bool
family_matches ip auto = true
family_matches (v4 bytes) only_v4 = true
family_matches (v6 bytes) only_v4 = false
family_matches (v4 bytes) only_v6 = false
family_matches (v6 bytes) only_v6 = true

abbrev pub holds_ip : List IpAddr → IpAddr → Bool
holds_ip [] ip = false
holds_ip (a ∷ l) ip = if same_ip a ip then true else holds_ip l ip

-- The addresses of the family, each once, in the order in which they were found.
unfoldable pub collect_ips : IpFamily → List IpAddr → List IpAddr → List IpAddr
collect_ips family ips [] = ips
collect_ips family ips (ip ∷ found) =
    collect_ips family
      (if family_matches ip family && not (holds_ip ips ip) then ips ++ (ip ∷ []) else ips) found

-- The address of `resolve`, or what the look-up found, of the family. A look-up that fails is none.
abbrev pub targets : Option IpAddr → IpFamily → Option (List IpAddr) → Option (List IpAddr)
targets (some ip) family found = some (ip ∷ [])
targets none family none = none
targets none family (some found) = some (collect_ips family [] found)

pub record Row (W : Type 0) : Type 0 where
  pub ip : IpAddr
  pub ok : Bool
  pub status : Option ℕ  -- u16
  pub fail_phase : Option ErrorPhase
  pub ttfb_ms : Option W
  pub total_ms : Option W
  pub tls_version : Option Text
  pub outlier : Bool

-- The number of rows that succeeded with each status.
unfoldable pub bump_count : ℕ → List (ℕ × ℕ) → List (ℕ × ℕ)
bump_count s [] = (s, 1) ∷ []
bump_count s ((k, n) ∷ t) =
    let rest = bump_count s t in if k == s then (k, n + 1) ∷ t else (k, n) ∷ rest

unfoldable pub highest : List (ℕ × ℕ) → ℕ
highest [] = 0
highest ((k, n) ∷ t) = max n (highest t)

unfoldable pub top : ℕ → List (ℕ × ℕ) → List ℕ
top most [] = []
top most ((k, n) ∷ t) = let rest = top most t in if n == most then k ∷ rest else rest

-- `if top.len() == 1 { Some(top[0]) } else { None }`
abbrev pub only_one : List ℕ → Option ℕ
only_one [] = none
only_one (s ∷ []) = some s
only_one (s ∷ t ∷ l) = none

abbrev pub bump_status : Bool → Option ℕ → List (ℕ × ℕ) → List (ℕ × ℕ)
bump_status true (some s) counts = bump_count s counts
bump_status true none counts = counts
bump_status false st counts = counts

-- `error.as_ref().map(|e| e.phase)`
abbrev pub phase_of : Option ProbeError → Option ErrorPhase
phase_of none = none
phase_of (some e) = some e.phase

abbrev pub other_status : Option ℕ → Option ℕ → Bool
other_status (some m) (some s) = not (s == m)
other_status _ _ = false

module _ {W : Type 0} where
  unfoldable pub tally : List (ℕ × ℕ) → List (Row W) → List (ℕ × ℕ)
  unfolding bump_count
  tally counts [] = counts
  tally counts (r ∷ rows) = tally (bump_status r.ok r.status counts) rows

  unfoldable pub majority_status : List (Row W) → Option ℕ
  unfolding tally top highest
  majority_status rows = let counts = tally [] rows in only_one (top (highest counts) counts)

  abbrev pub ok_totals : List (Row W) → List W
  ok_totals [] = []
  ok_totals (r ∷ rows) = elim (if r.ok then r.total_ms else none) [
    | some t ↦ t ∷ ok_totals rows
    | none ↦ ok_totals rows
  ]

module _ {W : Type 0} ⦃f : Float W⦄ where
  -- `sort_by` with `partial_cmp`
  unfoldable pub insert_total : W → List W → List W
  insert_total a [] = a ∷ []
  insert_total a (b ∷ l) = let rest = b ∷ insert_total a l in if f.gt a b then rest else a ∷ b ∷ l

  unfoldable pub sort_totals : List W → List W
  unfolding insert_total
  sort_totals [] = []
  sort_totals (a ∷ l) = insert_total a (sort_totals l)

  abbrev pub mean_of : Option W → Option W → Option W
  mean_of (some a) (some b) = some (f.over (f.plus a b) f.two)
  mean_of _ _ = none

  -- An index out of bounds gives none: there is none where the list is not empty.
  unfoldable pub median_of : List W → Option W
  median_of [] = none
  median_of (a ∷ l) =
      let n = length (a ∷ l) in
      if n % 2 == 1
      then get_elem? (a ∷ l) (n / 2)
      else mean_of (get_elem? (a ∷ l) (n / 2 - 1)) (get_elem? (a ∷ l) (n / 2))

  unfoldable pub median_total : List (Row W) → Option W
  unfolding sort_totals median_of
  median_total rows = median_of (sort_totals (ok_totals rows))

  -- `Row::from_result`
  unfoldable pub from_result : IpAddr → ProbeResult W → Row W
  unfolding summed_timings
  from_result ip r =
      let timed : Bool = elim (final_hop r) [ none ↦ false | some h ↦ true ] in
      record {
        ip = ip;
        ok = is_success r;
        status = status r;
        fail_phase = phase_of r.error;
        ttfb_ms = if timed then some (summed_timings r).ttfb_ms else none;
        total_ms = if timed then some (summed_timings r).total_ms else none;
        tls_version = elim (final_hop r) [
          | none ↦ none
          | some h ↦ Option.map (λ (t : TlsInfo). t.version) h.tls
        ];
        outlier = false;
      }

  -- At least twice the median.
  abbrev pub is_slow : Option W → Option W → Bool
  is_slow (some med) (some total) = f.gt med f.nought && f.ge total (f.times med f.two)
  is_slow _ _ = false

  unfoldable pub is_outlier : Option W → Option ℕ → Row W → Bool
  is_outlier median majority r =
      if not r.ok
      then true
      else if other_status majority r.status
      then true
      else is_slow median r.total_ms

  abbrev pub mark : Option W → Option ℕ → Row W → Row W
  mark median majority r = record r { outlier = is_outlier median majority r }

  unfoldable pub mark_all : List (Row W) → List (Row W)
  unfolding median_total majority_status is_outlier
  mark_all rows = map (mark (median_total rows) (majority_status rows)) rows

  abbrev pub any_bad : List (Row W) → Bool
  any_bad [] = false
  any_bad (r ∷ rows) = (not r.ok || r.outlier) || any_bad rows

  unfoldable pub probe_each : (IpAddr → ℕ → ProbeResult W) → ℕ → List IpAddr → List (Row W)
  unfolding from_result
  probe_each probe seq [] = []
  probe_each probe seq (ip ∷ ips) = from_result ip (probe ip seq) ∷ probe_each probe (seq + 1) ips

  -- The exit code, true for success; none where there is no address. `sorted` sorts by address.
  unfoldable pub run_fanout :
      (List (Row W) → List (Row W))
      → (IpAddr → ℕ → ProbeResult W)
      → Option (List IpAddr)
      → Option Bool
  unfolding mark_all probe_each
  run_fanout sorted probe none = none
  run_fanout sorted probe (some []) = none
  run_fanout sorted probe (some (ip ∷ ips)) =
      some (not (any_bad (mark_all (sorted (probe_each probe 0 (ip ∷ ips))))))
