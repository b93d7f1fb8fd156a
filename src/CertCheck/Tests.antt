-- ===== src/CertCheck/Tests.antt =====
-- The tests of src/cert_check.rs, and a check of three targets that ends in another order.
use httprove.Base.{
  ◌-◌, ◌||◌, length, ℕ, suc, ◌≡◌, refl, arith, List, [], ◌∷◌, none, some, ok, Result, Option,
}
use httprove.Base.Int.{pos}
use httprove.Text.{codes, trim, trim_start, contains, strip_prefix, same_text, lines, push_head}
use httprove.Types.{Text}
use httprove.CertCheck.{
  queue_of, invalid_rows, has_failure, Target, reach, invalid, Url, domain, LeafSummary,
  parse_target_spec, target_of, expand_targets, expand_spec, targets_of, display_target,
}
use httprove.CertCheck.Pool.{max_concurrency, after, Event, run_cert_check}
use httprove.CertCheck.Pool.Counts.{IsFilled, left, any_ended, after-IsFilled}
use httprove.CertCheck.Pool.Finish.{Reports, run_cert_check-Reports}

abbrev shown : ℕ → Text
shown n = n ∷ []

abbrev parse_url : Text → Result Text Url
parse_url text =
    ok (record { scheme = codes "https"; host = some (domain (codes "a")); port = none })

abbrev file : Text → Option Text
file path = some (codes "a\r\n# b\n\n@c\n")

file_expanded :
    expand_targets parse_url file (codes " @list " ∷ [])
    ≡ ok (reach (codes "a") 443 ∷ invalid (codes "@c") (codes "nested @file is not supported") ∷ [])
unfolding expand_targets expand_spec targets_of parse_target_spec target_of trim trim_start contains
    strip_prefix same_text lines push_head
file_expanded = refl

brackets_put : display_target shown (codes "::1") b'9' ≡ codes "[::1]:9"
unfolding display_target contains strip_prefix
brackets_put = refl

abbrev targets : List Target
targets =
    reach (codes "a") 443
    ∷ invalid (codes "ftp://b") (codes "unsupported")
    ∷ reach (codes "c") 8443
    ∷ []

abbrev valid_for : ℕ → LeafSummary
valid_for days = record { days_remaining = pos days; not_after = pos 0; issuer = []; subject = [] }

abbrev events : List Event
events =
    record { place = 1; ended = ok (ok (valid_for 3)) }
    ∷ record { place = 0; ended = ok (ok (valid_for 80)) }
    ∷ []

suc_injective : (m n : ℕ) → suc m ≡ suc n → m ≡ n
suc_injective m n h = omega (arith, h)

run_cert_check-Reports_example : Reports targets events (run_cert_check suc shown targets events)
run_cert_check-Reports_example =
    run_cert_check-Reports suc shown suc_injective (reach (codes "a") 443)
      (invalid (codes "ftp://b") (codes "unsupported") ∷ reach (codes "c") 8443 ∷ []) events
      (omega arith)

after-IsFilled_example :
    IsFilled max_concurrency (after suc shown targets events)
    × (left (after suc shown targets events) ≡ length (queue_of targets) - length events)
    × (has_failure (after suc shown targets events).rows
        ≡ (has_failure (invalid_rows targets) || any_ended (length (queue_of targets)) events))
after-IsFilled_example = after-IsFilled suc shown targets events
