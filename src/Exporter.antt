-- ===== src/Exporter.antt =====
-- src/exporter.rs: the requests that the exporter answers and the state they read. The text of the
-- metrics, which src/output/prom.rs makes, is a value that holds what it is made of; the clock and the
-- lossy decoding of UTF-8 are parameters.
pub mod Noting
pub mod Reading
mod Tests
use mathlib.Core.Option
use httprove.Base.{
  ℕ, ◌+◌, ◌*◌, List, [], ◌∷◌, ◌++◌, Option, none, some, Bool, true, false, leb, ◌&&◌, ◌||◌, ◌==◌,
  if◌then◌else◌, length, map, reverse,
}
use httprove.Text.{codes, contains, is_whitespace, trim_start, split, same_text}
use httprove.Types.{Text, ProbeResult, is_success}
use httprove.Types.Number.{Float}
use httprove.Dns.Answers.{IpAddr}
use httprove.Verdict.{State}
use httprove.Stats.Recording.{StatsCollector, record_probe}

abbrev pub max_request_head : ℕ
max_request_head = 8 * 1024

-- What `stream.read` gives: some bytes, none at the end, or a failure.
pub data Read : Type 0 where
  received : List ℕ → Read
  failed : Read

abbrev pub headers_complete : List ℕ → Bool
headers_complete buf = contains (codes "\r\n\r\n") buf || contains (codes "\n\n") buf

-- The bytes before the first line feed.
unfoldable pub line_of : List ℕ → Option (List ℕ)
line_of [] = none
line_of (b ∷ bs) =
    let rest = Option.map (λ l. b ∷ l) (line_of bs) in if b == 10 then some [] else rest

unfoldable pub drop_returns : Text → Text
drop_returns [] = []
drop_returns (c ∷ cs) = let rest = drop_returns cs in if c == 13 then rest else c ∷ cs

-- `trim_end_matches('\r')`
abbrev pub trim_end_returns : Text → Text
trim_end_returns s = reverse (drop_returns (reverse s))

abbrev pub first_line : (List ℕ → Text) → List ℕ → Option Text
first_line lossy buf = Option.map (λ line. trim_end_returns (lossy line)) (line_of buf)

-- Whether the loop stops with what it has.
unfoldable pub has_enough : List ℕ → Bool
has_enough buf = if headers_complete buf then true else leb max_request_head (length buf)

-- The loop over the reads; behind the last of them the stream has ended.
unfoldable pub read_from : (List ℕ → Text) → List ℕ → List Read → Option Text
read_from lossy buf [] = first_line lossy buf
read_from lossy buf (failed ∷ reads) = if has_enough buf then first_line lossy buf else none
read_from lossy buf (received [] ∷ reads) = first_line lossy buf
read_from lossy buf (received (b ∷ bs) ∷ reads) =
    let rest = read_from lossy (buf ++ b ∷ bs) reads in
    if has_enough buf then first_line lossy buf else rest

abbrev pub read_request_line : (List ℕ → Text) → List Read → Option Text
read_request_line lossy reads = read_from lossy [] reads

pub data Route : Type 0 where
  metrics index not_found : Route

-- The characters before white space, and what follows them.
unfoldable pub span_word : Text → Text × Text
span_word [] = ([], [])
span_word (c ∷ cs) =
    let rest = span_word cs in if is_whitespace c then ([], c ∷ cs) else (c ∷ rest.0, rest.1)

-- `split_whitespace().next()`, with what follows.
abbrev pub next_word : Text → Option (Text × Text)
next_word s = elim (trim_start s) [ [] ↦ none | c ∷ cs ↦ some (span_word (c ∷ cs)) ]

abbrev pub first_part : List Text → Text → Text
first_part [] raw = raw
first_part (part ∷ parts) raw = part

unfoldable pub route_path : Text → Route
unfolding same_text split
route_path raw =
    let path = first_part (split b'?' raw) raw in
    if same_text path (codes "/metrics")
    then metrics
    else if same_text path (codes "/")
    then index
    else not_found

unfoldable pub route : Text → Route
unfolding span_word trim_start route_path
route line = elim (next_word line) [
  | none ↦ not_found
  | some (verb, after) ↦ elim (next_word after) [
    | none ↦ not_found
    | some (raw, others) ↦ if same_text verb (codes "GET") then route_path raw else not_found
  ]
]

pub record TargetState (W : Type 0) : Type 0 where
  pub name : Text
  pub stats : StatsCollector W
  pub last_success : Option (ProbeResult W)
  pub verdict_state : Option State
  pub last_attempt : W
  pub last_success_time : W

pub record ExporterState (W : Type 0) : Type 0 where
  pub targets : List (TargetState W)
  pub start_time : W
  pub requests_total : ℕ  -- u64
  pub probe_interval : W
  pub probe_timeout : W

-- The answer to a connection, if there is one. The metrics are made of the state, the request counted.
pub data Reply (W : Type 0) : Type 0 where
  closed : Reply W
  scraped : ExporterState W → Reply W
  index_page missing_page : Reply W

module _ {W : Type 0} where
  abbrev pub answer : ExporterState W → Route → ExporterState W × Reply W
  answer s metrics =
      let counted : ExporterState W = record s { requests_total = s.requests_total + 1 } in
      (counted, scraped counted)
  answer s index = (s, index_page)
  answer s not_found = (s, missing_page)

  abbrev pub on_line : ExporterState W → Option Text → ExporterState W × Reply W
  on_line s none = (s, closed)
  on_line s (some line) = answer s (route line)

  abbrev pub handle_connection :
      (List ℕ → Text) → ExporterState W → List Read → ExporterState W × Reply W
  handle_connection lossy s reads = on_line s (read_request_line lossy reads)

module _ {W : Type 0} ⦃f : Float W⦄ where
  abbrev pub monotonic_timestamp : W → W → W
  monotonic_timestamp previous observed =
      if f.is_finite observed && f.ge observed f.nought
      then f.greatest previous observed
      else previous

  -- One result of a target, with its verdict and the time.
  unfoldable pub note_result :
      (List IpAddr → List Text) → State → W → ProbeResult W → TargetState W → TargetState W
  unfolding record_probe
  note_result texts state now r t = record {
    name = t.name;
    stats = record_probe texts t.stats r;
    last_success = if is_success r then some r else t.last_success;
    verdict_state = some state;
    last_attempt = monotonic_timestamp t.last_attempt now;
    last_success_time =
        if is_success r then monotonic_timestamp t.last_success_time now else t.last_success_time;
  }

  -- The first target of the result's name; `judge` is `assess` with the settings.
  unfoldable pub on_result :
      (List IpAddr → List Text)
      → (ProbeResult W → State)
      → W
      → ProbeResult W
      → List (TargetState W)
      → List (TargetState W)
  unfolding note_result
  on_result texts judge now r [] = []
  on_result texts judge now r (t ∷ ts) =
      let rest = t ∷ on_result texts judge now r ts in
      if same_text t.name r.target then note_result texts (judge r) now r t ∷ ts else rest

  -- The results in their order, each with the time at which it is noted.
  unfoldable pub on_results :
      (List IpAddr → List Text)
      → (ProbeResult W → State)
      → List (W × ProbeResult W)
      → List (TargetState W)
      → List (TargetState W)
  unfolding on_result
  on_results texts judge [] ts = ts
  on_results texts judge ((now, r) ∷ rs) ts =
      on_results texts judge rs (on_result texts judge now r ts)
