-- ===== src/Serve/Address.antt =====
-- `parse_addr` of src/serve.rs. The standard library's parser of socket addresses is a parameter.
use httprove.Base.{
  [], ◌∷◌, ◌++◌, Option, none, some, Bool, true, false, if◌then◌else◌, Result, ok, ok_or, ◌≡◌, refl,
}
use httprove.Text.{codes, trim, strip_prefix, is_digit}
use httprove.Types.{Text}

abbrev pub all_digits : Text → Bool
all_digits [] = true
all_digits (c ∷ cs) = if is_digit c then all_digits cs else false

-- What is parsed in place of a port alone and of `localhost`.
unfoldable pub candidate : Text → Text
candidate raw = elim (strip_prefix (b':' ∷ []) raw) [
  | some port ↦ codes "0.0.0.0:" ++ port
  | none ↦
      if all_digits raw
      then codes "0.0.0.0:" ++ raw
      else elim (strip_prefix (codes "localhost:") raw) [
        | some port ↦ codes "127.0.0.1:" ++ port
        | none ↦ raw
      ]
]

-- The default is 127.0.0.1:8080; an error quotes the trimmed argument.
unfoldable pub parse_addr : {S : Type 0} → (Text → Option S) → S → Option Text → Result Text S
unfolding candidate
parse_addr parse_socket default none = ok default
parse_addr parse_socket default (some s) = ok_or (parse_socket (candidate (trim s))) (trim s)

candidates :
    (candidate (codes ":8080") ≡ codes "0.0.0.0:8080")
    × (candidate (codes "8080") ≡ codes "0.0.0.0:8080")
    × (candidate (codes "localhost:80") ≡ codes "127.0.0.1:80")
    × (candidate (codes "[::1]:80") ≡ codes "[::1]:80")
unfolding candidate strip_prefix
candidates = (refl, refl, refl, refl)
