-- ===== src/Serve/Keeping.antt =====
-- What the store of src/serve.rs holds after any sequence of requests.
use httprove.Base.{ℕ, ◌+◌, ◌^◌, ◌%◌, List, [], ◌∷◌, if◌then◌else◌, ◌≡◌}
use httprove.Base.Deque.{trim_front}
use httprove.Serve.{
  ServeOps, Config, CapturedRequest, Store, Incoming, is_meta, capture, store_request,
}

-- The requests that are not for the server itself, numbered from `seq` on.
abbrev pub captured_from : ServeOps → Config → ℕ → List Incoming → List CapturedRequest
captured_from ops cfg seq [] = []
captured_from ops cfg seq (req ∷ reqs) =
    if is_meta req
    then captured_from ops cfg seq reqs
    else capture ops cfg seq req ∷ captured_from ops cfg ((seq + 1) % 2 ^ 64) reqs

-- The store after one request that is not for the server itself.
abbrev stored : ServeOps → Config → Store → Incoming → Store
stored ops cfg s req = record {
  requests = store_request cfg.keep s.requests (capture ops cfg s.seq req);
  seq = (s.seq + 1) % 2 ^ 64;
}

-- The store holds the newest of these requests.
abbrev Holds : Config → Store → List CapturedRequest → Type 0
Holds cfg s requests = s.requests ≡ trim_front cfg.keep requests

abbrev pub empty_store : Store
empty_store = record { requests = []; seq = 0 }
