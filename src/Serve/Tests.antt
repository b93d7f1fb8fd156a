-- ===== src/Serve/Tests.antt =====
-- Three requests to the server, and the theorems of src/serve.rs at them.
use httprove.Base.{◌≡◌, refl, List, [], ◌∷◌, none, true}
use httprove.Base.Deque.{trim_front}
use httprove.Text.{codes, same_text, strip_prefix, parse_unsigned, parse_digits}
use httprove.Types.{Text}
use httprove.Serve.{
  ServeOps, Config, Incoming, chunk, collect_body, collect_from, handle, handle_all, build_captured,
  meta_response, asked_for, find_seq,
}
use httprove.Serve.Keeping.{empty_store}

abbrev ops : ServeOps
ops = record {
  lossy = λ bytes. bytes;
  is_utf8 = λ bytes. true;
  parse_query = λ q. [];
  to_json = λ r. r.body;
  all_to_json = λ rs. [];
}

abbrev cfg : Config
cfg = record {
  max_body = 3;
  keep = 1;
  status = 200;
  respond_body = none;
  respond_type = none;
  respond_headers = [];
  echo = true;
}

abbrev request : Text → Incoming
request path = record {
  parts = record {
    path = path;
    path_and_query = none;
    query = none;
    method = codes "GET";
    version = codes "HTTP/1.1";
    headers = [];
  };
  frames = chunk (codes "ab") ∷ chunk (codes "cd") ∷ [];
  time = [];
  peer = [];
}

abbrev requests : List Incoming
requests = request (codes "/a") ∷ request (codes "/__requests") ∷ request (codes "/b") ∷ []

cut_body : collect_body 3 (request []).frames ≡ (codes "abc", true)
unfolding collect_body collect_from
cut_body = refl

-- The second request that is kept has the number 1, and the first one is gone.
answers_kept :
    (meta_response ops
      (codes "/__requests/1")
      (handle_all ops cfg empty_store requests).requests).body
    ≡ codes "abc"
unfolding meta_response asked_for find_seq handle_all handle build_captured collect_body
    collect_from trim_front same_text strip_prefix parse_unsigned parse_digits
answers_kept = refl

answers_gone :
    (meta_response ops
      (codes "/__requests/0")
      (handle_all ops cfg empty_store requests).requests).status
    ≡ 404
unfolding meta_response asked_for find_seq handle_all handle build_captured collect_body
    collect_from trim_front same_text strip_prefix parse_unsigned parse_digits
answers_gone = refl
