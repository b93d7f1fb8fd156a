-- ===== src/Prom/Tests.antt =====
-- The metrics on concrete targets, and where the theorem on them applies.
use httprove.Base.{ℕ, zero, suc, [], ◌∷◌, ◌++◌, none, some, true, false, ◌≡◌, refl}
use httprove.Base.Int.{ℤ, pos, negsuc}
use httprove.Text.{codes}
use httprove.Types.{Text}
use httprove.Types.Examples.{hundredths, slow}
use httprove.Verdict.{degraded}
use httprove.Stats.Recording.{with_apdex_threshold, record_all}
use httprove.Prom.{Format, TargetMetrics, Family, escaped, counter, push_section}
use httprove.Prom.Render.{ExporterMetrics, exporter_families, families, render_exporter}
use httprove.Prom.Reading.{
  IsPlain, read_metrics, meant_all, comment, sampled, cut_lines, read_line, span_name, read_labels,
}
use httprove.Output.{escape_label}
use httprove.Output.Escapes.{read_label}
use httprove.Prom.Legal.{IsPlainFormat}
use httprove.Prom.Complete.{read_metrics-render_exporter}

-- Strokes, and a minus.
abbrev strokes_of : ℕ → Text
strokes_of zero = b'0' ∷ []
strokes_of (suc n) = b'1' ∷ strokes_of n

abbrev strokes_signed : ℤ → Text
strokes_signed (pos n) = strokes_of n
strokes_signed (negsuc n) = 45 ∷ strokes_of n

abbrev strokes : Format ℕ
strokes = record { number = strokes_of; signed = strokes_signed; float = strokes_of }

strokes_of-IsPlain : (n : ℕ) → IsPlain (strokes_of n)
strokes_of-IsPlain zero = (refl, tt)
strokes_of-IsPlain (suc n) = (refl, strokes_of-IsPlain n)

strokes_signed-IsPlain : (z : ℤ) → IsPlain (strokes_signed z)
strokes_signed-IsPlain (pos n) = strokes_of-IsPlain n
strokes_signed-IsPlain (negsuc n) = (refl, strokes_of-IsPlain n)

strokes_are_plain : IsPlainFormat strokes
strokes_are_plain = (strokes_of-IsPlain, strokes_signed-IsPlain, strokes_of-IsPlain)

abbrev shop : TargetMetrics ℕ
shop = record {
  target = codes "https://shop.example/\"a\"";
  stats = record_all (λ ips. []) (with_apdex_threshold (some 20000)) (slow ∷ slow ∷ []);
  last_success = some slow;
  verdict_state = some degraded;
  slo = some 99;
}

abbrev exporter : ExporterMetrics ℕ
exporter = record {
  up = true;
  start_time_seconds = 7;
  metrics_requests_total = 3;
  configured_targets = 1;
  probe_interval_seconds = 60;
  probe_timeout_seconds = 10;
  config_generation = 1;
  config_reload_supported = false;
  last_attempts = (codes "shop", 5) ∷ [];
  last_successes = (codes "shop", 5) ∷ [];
}

abbrev hits : Family
hits = record {
  name = codes "hits";
  help = codes "Hits.";
  kind = counter;
  samples =
      record { labels = (codes "target", escaped (codes "a\"b")) ∷ []; value = codes "2" } ∷ [];
}

hits_are_printed :
    push_section hits ≡ codes "# HELP hits Hits.\n# TYPE hits counter\nhits{target=\"a\\\"b\"} 2\n"
unfolding push_section escape_label
hits_are_printed = refl

hits_are_read : read_metrics (push_section hits) ≡ (
    comment (codes " HELP hits Hits.")
    ∷ comment (codes " TYPE hits counter")
    ∷ sampled (codes "hits") ((codes "target", codes "a\"b") ∷ []) (codes "2")
    ∷ [])
unfolding push_section escape_label read_metrics cut_lines read_line span_name read_labels
    read_label
hits_are_read = refl

read_metrics-render_exporter_example :
    read_metrics (render_exporter strokes (λ text. none) (shop ∷ []) exporter)
    ≡ meant_all (exporter_families strokes exporter ++ families strokes (λ text. none) (shop ∷ []))
read_metrics-render_exporter_example =
    read_metrics-render_exporter strokes strokes_are_plain (λ text. none) (shop ∷ []) exporter
