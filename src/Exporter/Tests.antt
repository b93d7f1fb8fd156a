-- ===== src/Exporter/Tests.antt =====
-- A request in three pieces and two targets, and the theorems of src/exporter.rs at them.
use httprove.Base.{ℕ, ◌≡◌, refl, List, [], ◌∷◌, none, some, false, map}
use httprove.Text.{codes, same_text, trim_start, split, push_head}
use httprove.Types.{Text, ProbeResult}
use httprove.Types.Examples.{hundredths, slow}
use httprove.Dns.Answers.{IpAddr}
use httprove.Verdict.{State, down}
use httprove.Stats.Recording.{with_apdex_threshold}
use httprove.Exporter.{
  Read, received, metrics, index, not_found, TargetState, ExporterState, line_of, drop_returns,
  route, route_path, span_word, first_line, handle_connection, on_line, on_results,
}
use httprove.Exporter.Noting.{note_all_own, on_results-note_all_own}
use httprove.Exporter.Reading.{bytes_of, handle_connection-first_line}

abbrev as_text : List ℕ → Text
as_text bytes = bytes

abbrev pieces : List Read
pieces =
    received (codes "GET /met")
    ∷ received (codes "rics?x=1 HTT")
    ∷ received (codes "P/1.1\r\nHost: a")
    ∷ []

metrics_asked : route (codes "GET /metrics?x=1 HTTP/1.1") ≡ metrics
unfolding route route_path span_word trim_start split push_head same_text
metrics_asked = refl

only_get : route (codes "POST /metrics HTTP/1.1") ≡ not_found
unfolding route route_path span_word trim_start split push_head same_text
only_get = refl

root_asked : route (codes "GET /") ≡ index
unfolding route route_path span_word trim_start split push_head same_text
root_asked = refl

carriage_return_dropped :
    first_line as_text (bytes_of pieces) ≡ some (codes "GET /metrics?x=1 HTTP/1.1")
unfolding line_of drop_returns
carriage_return_dropped = refl

abbrev target : Text → TargetState ℕ
target name = record {
  name = name;
  stats = with_apdex_threshold (some 50000);
  last_success = none;
  verdict_state = none;
  last_attempt = 0;
  last_success_time = 0;
}

abbrev two_targets : List (TargetState ℕ)
two_targets = target (codes "https://b/") ∷ target (codes "https://a/") ∷ []

abbrev state : ExporterState ℕ
state = record {
  targets = two_targets;
  start_time = 0;
  requests_total = 6;
  probe_interval = 100000;
  probe_timeout = 500000;
}

handle_connection-first_line_example :
    handle_connection as_text state pieces ≡ on_line state (first_line as_text (bytes_of pieces))
handle_connection-first_line_example = handle_connection-first_line as_text state pieces tt refl

abbrev no_texts : List IpAddr → List Text
no_texts ips = []

abbrev judged_down : ProbeResult ℕ → State
judged_down r = down

abbrev results : List (ℕ × ProbeResult ℕ)
results = (700, slow) ∷ (600, record slow { target = codes "https://c/" }) ∷ []

targets_differ : same_text (codes "https://b/") (codes "https://a/") ≡ false
unfolding same_text
targets_differ = refl

on_results-note_all_own_example :
    on_results no_texts judged_down results two_targets
    ≡ map (note_all_own no_texts judged_down results) two_targets
on_results-note_all_own_example =
    on_results-note_all_own no_texts judged_down results two_targets
      ((targets_differ, tt), (tt, tt))
