-- ===== src/Serve.antt =====
-- src/serve.rs: the server that shows the requests it gets. JSON, the decoding of UTF-8 and of queries,
-- and the clock are parameters.
pub mod Collecting
pub mod Keeping
pub mod Address
mod Tests
use mathlib.Core.Option
use httprove.Base.{
  ℕ, ◌+◌, ◌-◌, ◌^◌, ◌%◌, List, [], ◌∷◌, ◌++◌, Option, none, some, Bool, true, false, not, ltb, leb,
  ◌&&◌, ◌==◌, if◌then◌else◌, length, take, map, Result, ok, err,
}
use httprove.Base.Deque.{trim_front}
use httprove.Text.{codes, same_text, strip_prefix, is_some, is_digit, trim, parse_unsigned}
use httprove.Types.{Text}

-- What the stream of a request's body gives.
pub data Frame : Type 0 where
  chunk : List ℕ → Frame
  trailers broken : Frame

-- At most `max` bytes, and whether there were more.
unfoldable pub collect_from : ℕ → List ℕ → List Frame → List ℕ × Bool
collect_from max bytes [] = (bytes, false)
collect_from max bytes (broken ∷ frames) = (bytes, false)
collect_from max bytes (trailers ∷ frames) = collect_from max bytes frames
collect_from max bytes (chunk c ∷ frames) =
    let rest = collect_from max (bytes ++ c) frames in
    if ltb max (length bytes + length c) then (bytes ++ take (max - length bytes) c, true) else rest

unfoldable pub collect_body : ℕ → List Frame → List ℕ × Bool
unfolding collect_from
collect_body max frames = collect_from max [] frames

-- The head of a request.
pub record Parts : Type 0 where
  pub path : Text
  pub path_and_query : Option Text
  pub query : Option Text
  pub method : Text
  pub version : Text
  pub headers : List (Text × List ℕ)

pub record CapturedRequest : Type 0 where
  pub seq : ℕ  -- u64
  pub time : Text
  pub peer : Text
  pub method : Text
  pub target : Text
  pub query : List (Text × Text)
  pub http_version : Text
  pub headers : List (Text × Text)
  pub body : Text
  pub body_bytes : ℕ
  pub truncated : Bool
  pub binary : Bool

pub record ServeOps : Type 0 where
  pub lossy : List ℕ → Text
  pub is_utf8 : List ℕ → Bool
  pub parse_query : Text → List (Text × Text)
  pub to_json : CapturedRequest → List ℕ
  pub all_to_json : List CapturedRequest → List ℕ

unfoldable pub build_captured : ServeOps → ℕ → Text → Text → Parts → List ℕ → Bool → CapturedRequest
build_captured ops seq time peer parts bytes truncated = record {
  seq = seq;
  time = time;
  peer = peer;
  method = parts.method;
  target = elim parts.path_and_query [ some pq ↦ pq | none ↦ parts.path ];
  query = elim parts.query [ some q ↦ ops.parse_query q | none ↦ [] ];
  http_version = parts.version;
  headers = map (λ (header : Text × List ℕ). (header.0, ops.lossy header.1)) parts.headers;
  body = ops.lossy bytes;
  body_bytes = length bytes;
  truncated = truncated;
  binary = not (ops.is_utf8 bytes);
}

pub record Config : Type 0 where
  pub max_body : ℕ
  pub keep : ℕ
  pub status : ℕ
  pub respond_body : Option (List ℕ)
  pub respond_type : Option Text
  pub respond_headers : List (Text × Text)
  pub echo : Bool

pub record Response : Type 0 where
  pub status : ℕ
  pub content_type : Text
  pub headers : List (Text × Text)
  pub body : List ℕ

abbrev pub json_response : ℕ → List ℕ → Response
json_response status body = record {
  status = status;
  content_type = codes "application/json";
  headers = [];
  body = body;
}

unfoldable pub find_seq : ℕ → List CapturedRequest → Option CapturedRequest
find_seq want [] = none
find_seq want (r ∷ rs) = let later = find_seq want rs in if r.seq == want then some r else later

-- The request that `/__requests/` with a number asks for.
unfoldable pub asked_for : Text → List CapturedRequest → Option CapturedRequest
unfolding find_seq
asked_for path store = elim (strip_prefix (codes "/__requests/") path) [
  | none ↦ none
  | some rest ↦ elim (parse_unsigned (2 ^ 64 - 1) rest) [
    | none ↦ none
    | some want ↦ find_seq want store
  ]
]

unfoldable pub meta_response : ServeOps → Text → List CapturedRequest → Response
unfolding asked_for
meta_response ops path store =
    if same_text path (codes "/__requests")
    then json_response 200 (ops.all_to_json store)
    else elim (asked_for path store) [
      | some found ↦ json_response 200 (ops.to_json found)
      | none ↦ json_response 404 (codes "{\"error\":\"not found\"}\n")
    ]

-- A fixed body goes before `--no-echo`, and that before the echo.
unfoldable pub body_of : ServeOps → Config → CapturedRequest → Text × List ℕ
body_of ops cfg captured = elim cfg.respond_body [
  | some body ↦ (codes "text/plain; charset=utf-8", body)
  | none ↦
      if not cfg.echo
      then (codes "text/plain; charset=utf-8", codes "ok\n")
      else (codes "application/json", ops.to_json captured)
]

unfoldable pub build_response : ServeOps → Config → CapturedRequest → Response
unfolding body_of
build_response ops cfg captured =
    let (default_type, body) = body_of ops cfg captured in
    record {
      status = cfg.status;
      content_type = elim cfg.respond_type [ some t ↦ t | none ↦ default_type ];
      headers = cfg.respond_headers;
      body = body;
    }

-- The store of the requests and the counter.
pub record Store : Type 0 where
  pub requests : List CapturedRequest
  pub seq : ℕ

-- One request as it comes in.
pub record Incoming : Type 0 where
  pub parts : Parts
  pub frames : List Frame
  pub time : Text
  pub peer : Text

abbrev pub is_meta : Incoming → Bool
is_meta req = is_some (strip_prefix (codes "/__") req.parts.path)

abbrev pub capture : ServeOps → Config → ℕ → Incoming → CapturedRequest
capture ops cfg seq req =
    let (bytes, truncated) = collect_body cfg.max_body req.frames in
    build_captured ops seq req.time req.peer req.parts bytes truncated

abbrev pub store_request : ℕ → List CapturedRequest → CapturedRequest → List CapturedRequest
store_request keep requests captured =
    if ltb 0 keep then trim_front keep (requests ++ (captured ∷ [])) else requests

unfoldable pub handle : ServeOps → Config → Store → Incoming → Store × Response
unfolding build_captured collect_body trim_front meta_response build_response
handle ops cfg s req =
    if is_meta req
    then (s, meta_response ops req.parts.path s.requests)
    else let captured = capture ops cfg s.seq req in
      (
        record {
          requests = store_request cfg.keep s.requests captured;
          seq = (s.seq + 1) % 2 ^ 64;
        },
        build_response ops cfg captured,
      )

unfoldable pub handle_all : ServeOps → Config → Store → List Incoming → Store
unfolding handle
handle_all ops cfg s [] = s
handle_all ops cfg s (req ∷ reqs) = handle_all ops cfg (handle ops cfg s req).0 reqs
