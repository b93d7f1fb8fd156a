-- ===== src/Cli/Warn.antt =====
-- `parse_warn` of src/cli.rs.
use httprove.Base.{List, [], ◌∷◌, Option, none, some, ◌&&◌, ◌||◌, if◌then◌else◌, ok, ◌>>=◌, ok_or}
use httprove.Text.{codes, split_once, trim, same_text, to_ascii_lowercase}
use httprove.Types.{Text}
use httprove.Types.Number.{Float}
use httprove.Verdict.{WarnThresholds}
use httprove.Cli.{Parsed, invalid_warn, invalid_threshold, unknown_phase}

module _ {W : Type 0} where
  abbrev pub no_thresholds : WarnThresholds W
  no_thresholds = record {
    dns = none;
    tcp = none;
    tls = none;
    ttfb = none;
    download = none;
    total = none;
  }

  -- `*slot = Some(ms)`
  unfoldable pub set_slot : Text → W → WarnThresholds W → Option (WarnThresholds W)
  set_slot phase ms warn =
      if same_text phase (codes "dns")
      then some (record warn { dns = some ms })
      else if same_text phase (codes "tcp")
      then some (record warn { tcp = some ms })
      else if same_text phase (codes "tls")
      then some (record warn { tls = some ms })
      else if same_text phase (codes "ttfb")
      then some (record warn { ttfb = some ms })
      else if same_text phase (codes "dl") || same_text phase (codes "download")
      then some (record warn { download = some ms })
      else if same_text phase (codes "total")
      then some (record warn { total = some ms })
      else none

module _ {W : Type 0} ⦃f : Float W⦄ where
  abbrev pub positive : Option W → Option W
  positive none = none
  positive (some v) = if f.gt v f.nought && f.is_finite v then some v else none

  -- One argument; `parse_float` is the parser of the standard library.
  unfoldable pub read_warn : (Text → Option W) → WarnThresholds W → Text → Parsed (WarnThresholds W)
  unfolding set_slot
  read_warn parse_float warn spec = do
    (phase, ms_text) ← ok_or (split_once b'=' spec) (invalid_warn spec)
    ms ← ok_or (positive (parse_float (trim ms_text))) (invalid_threshold spec)
    let name = to_ascii_lowercase (trim phase)
    ok_or (set_slot name ms warn) (unknown_phase name)

  unfoldable pub parse_warn :
      (Text → Option W) → List Text → WarnThresholds W → Parsed (WarnThresholds W)
  unfolding read_warn
  parse_warn parse_float [] warn = ok warn
  parse_warn parse_float (spec ∷ specs) warn =
      read_warn parse_float warn spec >>= parse_warn parse_float specs
