-- ===== src/Headers.antt =====
-- The headers of a response, as pairs of a name and a value, and the search for a name that
-- src/tls_grade.rs, src/cache_audit.rs and src/diff.rs share.
use httprove.Base.{List, [], ◌∷◌, Option, none, some, if◌then◌else◌}
use httprove.Text.{same_text, to_ascii_lowercase}
use httprove.Types.{Text}

abbrev pub Headers : Type 0
Headers = List (Text × Text)

unfoldable pub find_header : Text → Headers → Option Text
find_header name [] = none
find_header name ((k, v) ∷ rest) =
    let later = find_header name rest in
    if same_text (to_ascii_lowercase k) (to_ascii_lowercase name) then some v else later
