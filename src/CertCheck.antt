-- ===== src/CertCheck.antt =====
-- src/cert_check.rs: the targets of a check, and the leaf certificate of each. The `url` crate, the
-- files, the connections and the decimal numbers of `format!` are parameters.
pub mod Pool
mod Tests
use httprove.Base.{
  ℕ, ◌+◌, ◌-◌, List, [], ◌∷◌, ◌++◌, Option, none, some, Bool, true, false, ◌&&◌, ◌||◌, not, ◌==◌,
  if◌then◌else◌, ok_or, Result, ok, err, ◌>>=◌, map,
}
use httprove.Base.Int.{ℤ, pos, ltb_ℤ}
use httprove.Text.{codes, trim, lines, starts_with, is_empty, contains, same_text}
use httprove.Types.{Text, TlsInfo, CertInfo}
use httprove.Diff.{text_le}

abbrev pub default_port : ℕ
default_port = 443

pub data Target : Type 0 where
  reach : (host : Text) (port : ℕ) → Target
  invalid : (spec reason : Text) → Target

-- A host of the `url` crate, with what `to_string` makes of it.
pub data Host : Type 0 where
  domain ipv4 ipv6 : Text → Host

pub record Url : Type 0 where
  pub scheme : Text
  pub host : Option Host
  pub port : Option ℕ  -- u16

abbrev pub bare : Host → Text
bare (domain text) = text
bare (ipv4 text) = text
bare (ipv6 text) = text

abbrev pub port_or : Option ℕ → ℕ
port_or none = default_port
port_or (some port) = port

abbrev pub reach_url : Text → Url → Option Host → Target
reach_url spec url none = invalid spec (codes "target has no host")
reach_url spec url (some host) = reach (bare host) (port_or url.port)

unfoldable pub target_of : Text → Result Text Url → Target
unfolding same_text
target_of spec (err e) = invalid spec (codes "invalid target: " ++ e)
target_of spec (ok url) =
    if same_text url.scheme (codes "https")
    then reach_url spec url url.host
    else if same_text url.scheme (codes "http")
    then invalid spec (codes "http URL has no TLS certificate (use https)")
    else invalid spec (codes "unsupported scheme: " ++ url.scheme)

unfoldable pub parse_target_spec : (Text → Result Text Url) → Text → Target
unfolding target_of contains
parse_target_spec parse_url spec =
    if is_empty spec
    then invalid spec (codes "empty target")
    else if contains (codes "://") spec
    then target_of spec (parse_url spec)
    else target_of spec (parse_url (codes "https://" ++ spec))

-- The targets of a file: no blank line, no comment, and no file of its own.
unfoldable pub targets_of : (Text → Result Text Url) → List Text → List Target
unfolding parse_target_spec trim
targets_of parse_url [] = []
targets_of parse_url (line ∷ rest) =
    let others = targets_of parse_url rest in
    let text = trim line in
    if is_empty text || starts_with b'#' text
    then others
    else if starts_with b'@' text
    then invalid text (codes "nested @file is not supported") ∷ others
    else parse_target_spec parse_url text ∷ others

-- One argument; the error names the file that cannot be read.
unfoldable pub expand_spec :
    (Text → Result Text Url) → (Text → Option Text) → Text → Result Text (List Target)
unfolding targets_of lines
expand_spec parse_url read_file [] = ok (parse_target_spec parse_url [] ∷ [])
expand_spec parse_url read_file (c ∷ cs) =
    if c == b'@'
    then ok_or (read_file cs) cs >>= (λ content. ok (targets_of parse_url (lines content)))
    else ok (parse_target_spec parse_url (c ∷ cs) ∷ [])

unfoldable pub expand_targets :
    (Text → Result Text Url) → (Text → Option Text) → List Text → Result Text (List Target)
unfolding expand_spec
expand_targets parse_url read_file [] = ok []
expand_targets parse_url read_file (spec ∷ specs) =
    expand_spec parse_url read_file (trim spec)
    >>= (λ these. expand_targets parse_url read_file specs >>= (λ others. ok (these ++ others)))

pub record LeafSummary : Type 0 where
  pub days_remaining : ℤ  -- i64
  pub not_after : ℤ
  pub issuer : Text
  pub subject : Text

abbrev pub is_expired_cert_error : Text → Bool
is_expired_cert_error message =
    contains (codes "certificate expired") message || contains (codes "CertExpired") message

abbrev pub Fetched : Type 0
Fetched = Result Text (TlsInfo × List CertInfo)

abbrev pub leaf_of : List CertInfo → Result Text LeafSummary
leaf_of [] = err (codes "server presented no certificate")
leaf_of (leaf ∷ chain) = ok (record {
  days_remaining = leaf.days_remaining;
  not_after = leaf.not_after;
  issuer = leaf.issuer;
  subject = leaf.subject;
})

-- The second try, without verification, and the error of the first.
abbrev pub retried : Text → Fetched → Result Text LeafSummary
retried e (err e') = err e
retried e (ok (tls, chain)) = leaf_of chain

-- What `check_one` makes of its first try and, if there is one, of its second.
abbrev pub after_first : Bool → Fetched → Fetched → Result Text LeafSummary
after_first insecure (ok (tls, chain)) second = leaf_of chain
after_first insecure (err e) second =
    if not insecure && is_expired_cert_error e then retried e second else err e

-- `fetch` opens a connection, with or without verification.
unfoldable pub check_one : (Text → ℕ → Bool → Fetched) → Bool → Text → ℕ → Result Text LeafSummary
unfolding contains
check_one fetch insecure host port =
    after_first insecure (fetch host port insecure) (fetch host port true)

unfoldable pub display_target : (ℕ → Text) → Text → ℕ → Text
unfolding contains
display_target number host port =
    if contains (codes ":") host
    then codes "[" ++ (host ++ (codes "]:" ++ number port))
    else host ++ (codes ":" ++ number port)

pub record CheckRow : Type 0 where
  pub display : Text
  pub host : Text
  pub port : ℕ
  pub outcome : Result Text LeafSummary

-- The rows of the targets that cannot be tried.
abbrev pub invalid_rows : List Target → List CheckRow
invalid_rows [] = []
invalid_rows (reach host port ∷ targets) = invalid_rows targets
invalid_rows (invalid spec reason ∷ targets) =
    record { display = spec; host = spec; port = 0; outcome = err reason } ∷ invalid_rows targets

abbrev pub queue_of : List Target → List (Text × ℕ)
queue_of [] = []
queue_of (reach host port ∷ targets) = (host, port) ∷ queue_of targets
queue_of (invalid spec reason ∷ targets) = queue_of targets

-- The order of the table: errors first, then by the days that are left, then by name.
abbrev pub outcome_le : Bool → Result Text LeafSummary → Result Text LeafSummary → Bool
outcome_le named (err e) (err e') = named
outcome_le named (err e) (ok s) = true
outcome_le named (ok s) (err e) = false
outcome_le named (ok s) (ok s') =
    if ltb_ℤ s.days_remaining s'.days_remaining
    then true
    else if ltb_ℤ s'.days_remaining s.days_remaining
    then false
    else named

abbrev pub row_le : CheckRow → CheckRow → Bool
row_le a b = outcome_le (text_le a.display b.display) a.outcome b.outcome

unfoldable pub insert_row : CheckRow → List CheckRow → List CheckRow
unfolding text_le
insert_row r [] = r ∷ []
insert_row r (s ∷ rows) =
    let rest = s ∷ insert_row r rows in if row_le r s then r ∷ s ∷ rows else rest

-- `sort_by`, which is stable.
unfoldable pub sort_rows : List CheckRow → List CheckRow
unfolding insert_row
sort_rows [] = []
sort_rows (r ∷ rows) = insert_row r (sort_rows rows)

abbrev pub fails : Result Text LeafSummary → Bool
fails (err e) = true
fails (ok s) = ltb_ℤ s.days_remaining (pos 0)

abbrev pub has_failure : List CheckRow → Bool
has_failure [] = false
has_failure (r ∷ rows) = fails r.outcome || has_failure rows
