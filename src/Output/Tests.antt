-- ===== src/Output/Tests.antt =====
-- The tests of src/otlp.rs and src/output/html.rs, and a label of src/output/prom.rs.
use httprove.Base.{ℕ, ◌≡◌, refl, [], ◌∷◌, Option, none, some}
use httprove.Text.{
  codes, trim, trim_start, split, push_head, split_once, strip_prefix, same_text, parse_unsigned,
  drop_char, parse_digits,
}
use httprove.Types.{Text}
use httprove.Output.{
  escape, hex_to_bytes, build_traces_url, find_dur, read_entries, parse_server_timing,
}

markup_escaped : escape (codes "<a href='x'>") ≡ codes "&lt;a href=&#39;x&#39;&gt;"
unfolding escape
markup_escaped = refl

odd_digit_dropped : hex_to_bytes (codes "0aFfg") ≡ 10 ∷ 255 ∷ []
unfolding hex_to_bytes
odd_digit_dropped = refl

slash_not_doubled : build_traces_url (codes "http://h:4318/") ≡ codes "http://h:4318/v1/traces"
unfolding build_traces_url drop_char strip_prefix
slash_not_doubled = refl

traces_kept : build_traces_url (codes "http://h/v1/traces/") ≡ codes "http://h/v1/traces"
unfolding build_traces_url drop_char strip_prefix
traces_kept = refl

abbrev whole : Text → Option ℕ
whole s = parse_unsigned 1000 s

timings_read :
    parse_server_timing whole
      ((codes "Server-Timing", codes "db;dur=53, cache; desc=\"hit\";Dur=\"7\", ,miss") ∷ [])
    ≡ (codes "db", some 53) ∷ (codes "cache", some 7) ∷ (codes "miss", none) ∷ []
unfolding parse_server_timing read_entries find_dur trim trim_start split push_head split_once
    same_text drop_char parse_unsigned parse_digits
timings_read = refl
