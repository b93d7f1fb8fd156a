-- ===== src/Prom/Complete.antt =====
-- What `render_exporter` of src/output/prom.rs prints is read as the families it stands for.
use mathlib.Core.List.{append_assoc}
use httprove.Base.{
  List, [], ◌∷◌, ◌++◌, Option, Bool, true, false, ◌&&◌, not, ◌==◌, ◌≡◌, refl, sym, ap, ◌∙◌, arith,
  All, All-append,
}
use httprove.Text.{codes, is_empty}
use httprove.Types.{Text}
use httprove.Types.Number.{Float}
use httprove.Prom.{Family, Format, TargetMetrics, push_section}
use httprove.Prom.Render.{
  ExporterMetrics, sections, families, render, time_samples, exporter_families, render_exporter,
}
use httprove.Prom.Reading.{is_name_char, IsLine, IsLegalSample, IsLegal, read_metrics, meant_all}
use httprove.Prom.Sound.{read_metrics-sections}
use httprove.Prom.Legal.{every, never, IsPlainFormat, every-IsName, family-IsLegal}
use httprove.Prom.Legal.Counts.{
  probes-IsLegal, failures-IsLegal, expect_failures-IsLegal, phases-IsLegal, throughput-IsLegal,
  apdex_satisfied-IsLegal, apdex_tolerating-IsLegal, statuses-IsLegal, hops_total-IsLegal,
  reused-IsLegal, reuse_ratio-IsLegal, versions-IsLegal,
}
use httprove.Prom.Legal.Gauges.{
  last_total-IsLegal, last_body-IsLegal, cert_expiry-IsLegal, chain_depth-IsLegal,
  chain_incomplete-IsLegal, weakest_expiry-IsLegal, tls_info-IsLegal, number-IsLine, float-IsLine,
}
use httprove.Prom.Legal.Health.{
  server_timing-IsLegal, dns_changed-IsLegal, dns_count-IsLegal, verdicts-IsLegal, fleet-IsLegal,
  target_up-IsLegal, targets_total-IsLegal, targets_down-IsLegal, slos-IsLegal,
}

infixr 40 ◌▸◌
-- One by one.
◌▸◌ : {P Q : Type 0} → P → Q → P × Q
h ▸ hs = (h, hs)

bare-IsLegal :
    (value : Text) → IsLine value → All IsLegalSample (record { labels = []; value = value } ∷ [])
bare-IsLegal value h = ((tt, h, omega arith), tt)

sections-append : (fs gs : List Family) → sections (fs ++ gs) ≡ sections fs ++ sections gs
unfolding push_section
sections-append [] gs = refl
sections-append (f ∷ fs) gs =
    ap (λ text. push_section f ++ text) (sections-append fs gs)
    ∙ sym (append_assoc (push_section f) (sections fs) (sections gs))

-- Whether the names and the descriptions are legal.
abbrev are_named : List Family → Bool
are_named [] = true
are_named (f ∷ fs) =
    not (is_empty f.name)
    && every is_name_char f.name
    && never (λ c. c == 10) f.help
    && are_named fs

all_four :
    (b c d e : Bool) → (b && c && d && e) ≡ true → (b ≡ true) × (c ≡ true) × (d ≡ true) × (e ≡ true)
all_four true true true true h = (refl, refl, refl, refl)
all_four true true true false h = absurd (ground (arith, h))
all_four true true false e h = absurd (ground (arith, h))
all_four true false d e h = absurd (ground (arith, h))
all_four false c d e h = absurd (ground (arith, h))

named-IsLegal :
    (fs : List Family)
    → are_named fs ≡ true
    → All (λ f. All IsLegalSample f.samples) fs
    → All IsLegal fs
named-IsLegal [] h samples = tt
named-IsLegal (f ∷ fs) h (s, more) =
    let (some_name, name, help, rest) =
      all_four (not (is_empty f.name)) (every is_name_char f.name) (never (λ c. c == 10) f.help)
        (are_named fs) h in
    (family-IsLegal f (filled f.name some_name, name) help s, named-IsLegal fs rest more)
  where
    filled : (t : Text) → not (is_empty t) ≡ true → is_empty t ≡ false
    filled [] h = absurd (ground (arith, h))
    filled (c ∷ cs) h = refl

module _ {W : Type 0} ⦃f : Float W⦄ (fmt : Format W) (plain : IsPlainFormat fmt) where
  families-IsLegal :
      (parse_f64 : Text → Option W) (ts : List (TargetMetrics W))
      → All IsLegal (families fmt parse_f64 ts)
  families-IsLegal parse_f64 ts =
      probes-IsLegal fmt plain ts
      ▸ failures-IsLegal fmt plain ts
      ▸ expect_failures-IsLegal fmt plain ts
      ▸ phases-IsLegal fmt plain ts
      ▸ throughput-IsLegal fmt plain ts
      ▸ apdex_satisfied-IsLegal fmt plain ts
      ▸ apdex_tolerating-IsLegal fmt plain ts
      ▸ statuses-IsLegal fmt plain ts
      ▸ hops_total-IsLegal fmt plain ts
      ▸ reused-IsLegal fmt plain ts
      ▸ reuse_ratio-IsLegal fmt plain ts
      ▸ versions-IsLegal fmt plain ts
      ▸ last_total-IsLegal fmt plain ts
      ▸ last_body-IsLegal fmt plain ts
      ▸ cert_expiry-IsLegal fmt plain ts
      ▸ chain_depth-IsLegal fmt plain ts
      ▸ chain_incomplete-IsLegal fmt plain ts
      ▸ weakest_expiry-IsLegal fmt plain ts
      ▸ tls_info-IsLegal ts
      ▸ server_timing-IsLegal fmt plain parse_f64 ts
      ▸ dns_changed-IsLegal fmt plain ts
      ▸ dns_count-IsLegal fmt plain ts
      ▸ verdicts-IsLegal ts
      ▸ fleet-IsLegal fmt plain ts
      ▸ target_up-IsLegal ts
      ▸ targets_total-IsLegal fmt plain ts
      ▸ targets_down-IsLegal fmt plain ts
      ▸ slos-IsLegal fmt plain ts
      ▸ tt

  time_samples-IsLegal : (times : List (Text × W)) → All IsLegalSample (time_samples fmt times)
  time_samples-IsLegal [] = tt
  time_samples-IsLegal ((target, value) ∷ rest) = (
    ((every-IsName (codes "target") refl, tt, tt), float-IsLine fmt plain value, omega arith),
    time_samples-IsLegal rest,
  )

  exporter_families-IsLegal : (e : ExporterMetrics W) → All IsLegal (exporter_families fmt e)
  exporter_families-IsLegal e =
      let float_legal : (w : W)
          → All IsLegalSample (record { labels = []; value = fmt.float w } ∷ []) =
        λ w. bare-IsLegal (fmt.float w) (float-IsLine fmt plain w) in
      let samples =
        float_legal _
        ▸ float_legal _
        ▸ float_legal _
        ▸ float_legal _
        ▸ float_legal _
        ▸ float_legal _
        ▸ float_legal _
        ▸ bare-IsLegal _ (number-IsLine fmt plain e.metrics_requests_total)
        ▸ time_samples-IsLegal e.last_attempts
        ▸ time_samples-IsLegal e.last_successes
        ▸ tt in
      named-IsLegal (exporter_families fmt e) refl samples

  -- If numbers are written without a quote, a backslash or a line feed, then whatever the targets,
  -- their labels and what the exporter says of itself, an independent reader of the text format
  -- reads what `render_exporter` prints as exactly the families it is made of: for each family that
  -- has samples its description, its type and every sample with all its labels and its value, in
  -- their order.
  pub read_metrics-render_exporter :
      (parse_f64 : Text → Option W) (ts : List (TargetMetrics W)) (e : ExporterMetrics W)
      → read_metrics (render_exporter fmt parse_f64 ts e)
        ≡ meant_all (exporter_families fmt e ++ families fmt parse_f64 ts)
  unfolding render_exporter render push_section
  read_metrics-render_exporter parse_f64 ts e =
      let own = exporter_families fmt e in
      let of_targets = families fmt parse_f64 ts in
      ap read_metrics (sym (sections-append own of_targets))
      ∙ read_metrics-sections (own ++ of_targets) (
          All-append IsLegal own of_targets (exporter_families-IsLegal e)
            (families-IsLegal parse_f64 ts))
