-- ===== src/Probe/Tests.antt =====
-- One redirect to another host, a loop of redirects, and the theorems of src/probe.rs at them.
use httprove.Base.{ℕ, ◌≡◌, ◌↔◌, refl, List, [], ◌∷◌, none, some, ok, err, length}
use httprove.Base.Int.{pos}
use httprove.Base.Options.{Has}
use httprove.Text.{codes, split_once, same_text}
use httprove.Types.{Text, exact, matches, ProbeError, HopResult, ProbeResult, leaf_cert, find_leaf}
use httprove.Types.Examples.{hundredths, hop}
use httprove.Headers.{find_header}
use httprove.Probe.{
  UrlOps, ProbeConfig, RunHop, Request, follow, follow_all, settle, after_hop, on_next, on_location,
  on_join, pursue, location, redirected, request_at, Progress,
}
use httprove.Probe.Checks.{
  Surroundings, evaluate_expectations, evaluate_from, violations, days_remaining_from,
}
use httprove.Probe.Checks.Met.{Meets, evaluate_expectations-Meets}
use httprove.Probe.Redirects.{IsTrail, follow_all-IsTrail}
use httprove.Probe.Requests.{AreLinked, follow_all-AreLinked}

-- An address is its text, and every `Location` but the empty one is absolute.
abbrev pub ops : UrlOps Text
ops = record {
  join = λ base loc. elim loc [ [] ↦ err (codes "empty") | c ∷ cs ↦ ok (c ∷ cs) ];
  to_string = λ u. u;
  scheme = λ u. elim (split_once b':' u) [ none ↦ [] | some (s, rest) ↦ s ];
  debug = λ t. t;
}

abbrev pub env : Surroundings ℕ
env = record {
  shown = λ v. codes "violated";
  seconds_left = λ not_after. not_after;
  from_utf8_lossy = λ bytes. bytes;
}

abbrev pub cfg : ProbeConfig Text ℕ
cfg = record {
  url = codes "https://a/";
  method = codes "POST";
  body = some (codes "x");
  resolve = none;
  max_redirects = 2;
  expect = record {
    status = some (exact 503 ∷ []);
    body_contains = none;
    max_ttfb_ms = none;
    max_total_ms = none;
    min_cert_days = some (pos 6);
  };
}

abbrev moved : HopResult ℕ
moved = record hop { status = 302; response_headers = (codes "location", codes "http://b/") ∷ [] }

-- The first host redirects to a second one, which answers.
abbrev once : RunHop Text ℕ
once [] req = ok (moved, none)
once (r ∷ rs) req = ok (hop, none)

abbrev forever : RunHop Text ℕ
forever sent req = ok (moved, none)

abbrev methods : List (Request Text) → List Text
methods [] = []
methods (r ∷ rs) = r.target.method ∷ methods rs

redirects_once :
    Has
      (λ (r : Progress Text ℕ).
        (length r.hops ≡ 2) × (r.error ≡ none) × (methods r.sent ≡ codes "POST" ∷ codes "GET" ∷ []))
      (follow_all ops cfg once)
unfolding follow_all follow settle after_hop on_next on_location on_join pursue location redirected
    request_at find_header split_once same_text
redirects_once = (refl, refl, refl)

too_many :
    Has
      (λ (r : Progress Text ℕ).
        (length r.hops ≡ 3)
        × Has (λ (e : ProbeError). e.message ≡ codes "too many redirects") r.error)
      (follow_all ops cfg forever)
unfolding follow_all follow settle after_hop on_next on_location on_join pursue location redirected
    request_at find_header split_once same_text
too_many = (refl, refl)

abbrev answered : ProbeResult ℕ
answered = record {
  target = codes "https://a/";
  seq = 0;
  hops = hop ∷ [];
  error = none;
  expect_failures = [];
  total_ms = 0;
}

-- The certificate of the example is good for five days.
short_lived :
    (evaluate_expectations env cfg.expect none answered).expect_failures ≡ codes "violated" ∷ []
unfolding evaluate_expectations evaluate_from violations days_remaining_from leaf_cert find_leaf
    matches
short_lived = refl

follow_all-IsTrail_example : Has (IsTrail cfg) (follow_all ops cfg forever)
follow_all-IsTrail_example = follow_all-IsTrail ops cfg forever

follow_all-AreLinked_example : Has (AreLinked ops cfg) (follow_all ops cfg once)
follow_all-AreLinked_example = follow_all-AreLinked ops cfg once

evaluate_expectations-Meets_example :
    ((evaluate_expectations env cfg.expect none answered).expect_failures ≡ [])
    ↔ Meets env cfg.expect none answered
evaluate_expectations-Meets_example =
    evaluate_expectations-Meets env cfg.expect none answered refl refl
