-- ===== src/CacheAudit/Names.antt =====
-- The audit of src/cache_audit.rs does not hang on the case of the headers' names.
use mathlib.Core.Path.{fun_ext}
use httprove.Base.{[], ◌∷◌, ◌≡◌, refl, ap}
use httprove.Text.{to_ascii_lowercase}
use httprove.Types.{Text}
use httprove.Headers.{Headers, find_header}
use httprove.CacheAudit.{audit, audit_with}

-- The same values in the same order, under names that are the same in small letters.
abbrev pub SameNames : Headers → Headers → Type 0
SameNames [] [] = Unit
SameNames ((k, v) ∷ hs) ((k', v') ∷ hs') =
    (to_ascii_lowercase k ≡ to_ascii_lowercase k') × (v ≡ v') × SameNames hs hs'
SameNames _ _ = ⊥

find_header-SameNames :
    (name : Text) (hs hs' : Headers) → SameNames hs hs' → find_header name hs ≡ find_header name hs'
unfolding find_header
find_header-SameNames name [] [] h = refl
find_header-SameNames name [] (x ∷ hs') h = elim h [ ]
find_header-SameNames name (x ∷ hs) [] h = elim h [ ]
find_header-SameNames name ((k, v) ∷ hs) ((k', v') ∷ hs') (ek, ev, e) =
    rw (ek, ev, find_header-SameNames name hs hs' e) refl

pub audit-SameNames : (hs hs' : Headers) → SameNames hs hs' → audit hs ≡ audit hs'
unfolding audit
audit-SameNames hs hs' h = ap audit_with (fun_ext (λ name. find_header-SameNames name hs hs' h))
