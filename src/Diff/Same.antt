-- ===== src/Diff/Same.antt =====
-- When the lines of src/diff.rs are none.
use httprove.Base.{
  ℕ, List, [], ◌∷◌, ◌++◌, Option, none, some, true, ◌≡◌, ◌↔◌, refl, sym, subst, arith, All,
  nil-append, nil-append_both, Bool-cases, inl, inr,
}
use httprove.Text.{codes}
use httprove.Text.Equal.{same_text-eq}
use httprove.Types.{Text}
use httprove.Headers.{Headers, find_header}
use httprove.Diff.{
  Display, Fingerprint, identity_headers, same_option, diff_opt, contains_text, signed, tokens_line,
  same_texts, diff_ips, diff_status, diff_header, diff_header_lines, diff_fingerprints,
}

same_option-eq : (a b : Option Text) → (same_option a b ≡ true) ↔ (a ≡ b)
same_option-eq none none = (λ h. refl, λ h. refl)
same_option-eq none (some b) = (λ h. cc, λ h. cc)
same_option-eq (some a) none = (λ h. cc, λ h. cc)
same_option-eq (some a) (some b) = ground (arith, same_text-eq a b)

diff_opt-nil :
    (label : Text) (old new : Option Text) (note : Text)
    → (diff_opt label old new note ≡ []) ↔ (old ≡ new)
unfolding diff_opt
diff_opt-nil label old new note = ground (arith, same_option-eq old new)

-- Every text of `l` is one of `other`.
abbrev pub AllIn : List Text → List Text → Type 0
AllIn other l = All (λ t. contains_text other t ≡ true) l

signed-nil : (sign : ℕ) (other l : List Text) → (signed sign other l ≡ []) ↔ AllIn other l
unfolding signed
signed-nil sign other [] = (λ h. tt, λ h. refl)
signed-nil sign other (t ∷ l) = ground (arith, signed-nil sign other l)

AllIn-cons : (a : Text) (other l : List Text) → AllIn other l → AllIn (a ∷ other) l
unfolding contains_text
AllIn-cons a other [] h = tt
AllIn-cons a other (t ∷ l) h = (ground (arith, h.0), AllIn-cons a other l h.1)

AllIn-refl : (l : List Text) → AllIn l l
unfolding contains_text
AllIn-refl [] = tt
AllIn-refl (t ∷ l) = (ground (arith, same_text-eq t t), AllIn-cons t l l (AllIn-refl l))

same_texts-eq : (a b : List Text) → same_texts a b ≡ true → a ≡ b
same_texts-eq [] [] h = refl
same_texts-eq [] (y ∷ b) h = cc
same_texts-eq (x ∷ a) [] h = cc
same_texts-eq (x ∷ a) (y ∷ b) h = ground (arith, same_texts-eq a b, same_text-eq x y)

tokens_line-nil : (l : List Text) → (tokens_line l ≡ []) ↔ (l ≡ [])
tokens_line-nil [] = (λ h. refl, λ h. refl)
tokens_line-nil (t ∷ l) = (λ h. cc, λ h. cc)

diff_ips-nil : (old new : List Text) → (diff_ips old new ≡ []) ↔ (AllIn old new × AllIn new old)
unfolding diff_ips
diff_ips-nil old new = elim (Bool-cases (same_texts old new)) [
  | inl e ↦
      let same = same_texts-eq old new e in
      rw e (
        λ h. (
          subst (AllIn old) same (AllIn-refl old),
          subst (AllIn new) (sym same) (AllIn-refl new),
        ),
        λ h. refl,
      )
  | inr e ↦
      let whole = tokens_line-nil (signed b'+' old new ++ signed b'-' new old) in
      let parts = nil-append (signed b'+' old new) (signed b'-' new old) in
      let added = signed-nil b'+' old new in
      let removed = signed-nil b'-' new old in
      rw e (
        λ h. let (a, r) = parts.0 (whole.0 h) in (added.0 a, removed.0 r),
        λ (a, r). whole.1 (parts.1 (added.1 a, removed.1 r)),
      )
]

diff_status-nil :
    (d : Display) (old new : Option ℕ)
    → ((m n : ℕ) → d.number m ≡ d.number n → m ≡ n)
    → (diff_status d old new ≡ []) ↔ (old ≡ new)
unfolding diff_status
diff_status-nil d none none inj = (λ h. refl, λ h. refl)
diff_status-nil d none (some b) inj = (λ h. cc, λ h. cc)
diff_status-nil d (some a) none inj = (λ h. cc, λ h. cc)
diff_status-nil d (some a) (some b) inj =
    let number = diff_opt-nil (codes "status") (some (d.number a)) (some (d.number b)) [] in
    ground (arith, number, inj a b)

diff_header-nil :
    (name : Text) (old new : Option Text) → (diff_header name old new ≡ []) ↔ (old ≡ new)
diff_header-nil name none none = (λ h. refl, λ h. refl)
diff_header-nil name none (some n) = (λ h. cc, λ h. cc)
diff_header-nil name (some o) none = (λ h. cc, λ h. cc)
diff_header-nil name (some o) (some n) = ground (arith, same_text-eq o n)

diff_header_lines-nil :
    (names : List Text) (old new : Headers)
    → (diff_header_lines names old new ≡ [])
      ↔ All (λ name. find_header name old ≡ find_header name new) names
unfolding diff_header_lines
diff_header_lines-nil [] old new = (λ h. tt, λ h. refl)
diff_header_lines-nil (name ∷ names) old new =
    let parts =
      nil-append (diff_header name (find_header name old) (find_header name new))
        (diff_header_lines names old new) in
    let here = diff_header-nil name (find_header name old) (find_header name new) in
    let later = diff_header_lines-nil names old new in
    (λ h. let (a, b) = parts.0 h in (here.0 a, later.0 b), λ (a, b). parts.1 (here.1 a, later.1 b))

-- Two fingerprints tell of the same service.
pub record IsSame (old new : Fingerprint) : Type 0 where
  pub ips : AllIn old.resolved_ips new.resolved_ips × AllIn new.resolved_ips old.resolved_ips
  pub connected_ip : old.connected_ip ≡ new.connected_ip
  pub http_version : old.http_version ≡ new.http_version
  pub status : old.status ≡ new.status
  pub tls_version : old.tls_version ≡ new.tls_version
  pub alpn : old.alpn ≡ new.alpn
  pub cert_serial : old.cert_serial ≡ new.cert_serial
  pub cert_spki : old.cert_spki ≡ new.cert_spki
  pub cert_not_after : old.cert_not_after ≡ new.cert_not_after
  pub headers :
      All (λ name. find_header name old.headers ≡ find_header name new.headers) identity_headers

-- If different numbers are written differently, two fingerprints have no line of difference exactly
-- if they have the same set of resolved addresses, the same value in each other field, and under
-- each identifying name the same header.
pub diff_fingerprints-IsSame :
    (d : Display) (old new : Fingerprint)
    → ((m n : ℕ) → d.number m ≡ d.number n → m ≡ n)
    → (diff_fingerprints d old new ≡ []) ↔ IsSame old new
unfolding diff_fingerprints
diff_fingerprints-IsSame d old new inj =
    let whole = nil-append_both _ _ (diff_ips-nil old.resolved_ips new.resolved_ips) (
      nil-append_both _ _ (diff_opt-nil (codes "connected_ip") old.connected_ip new.connected_ip [])
        (nil-append_both _ _
          (diff_opt-nil (codes "http_version") old.http_version new.http_version [])
          (nil-append_both _ _ (diff_status-nil d old.status new.status inj) (
            nil-append_both _ _
              (diff_opt-nil (codes "tls_version") old.tls_version new.tls_version [])
              (nil-append_both _ _ (diff_opt-nil (codes "alpn") old.alpn new.alpn []) (
                nil-append_both _ _
                  (diff_opt-nil (codes "cert_serial") old.cert_serial new.cert_serial
                    (codes "  (certificate rotated)"))
                  (nil-append_both _ _
                    (diff_opt-nil (codes "cert_spki") old.cert_spki new.cert_spki
                      (codes "  (key pinning changed)"))
                    (nil-append_both _ _
                      (diff_opt-nil (codes "cert_not_after") old.cert_not_after new.cert_not_after
                        [])
                      (diff_header_lines-nil identity_headers old.headers new.headers))))))))) in
    (
      λ h.
          let (i, (c, (v, (st, (t, (a, (se, (sp, (n, hs))))))))) = whole.0 h in
          record {
            ips = i;
            connected_ip = c;
            http_version = v;
            status = st;
            tls_version = t;
            alpn = a;
            cert_serial = se;
            cert_spki = sp;
            cert_not_after = n;
            headers = hs;
          },
      λ s. whole.1 (
        s.ips,
        (
          s.connected_ip,
          (
            s.http_version,
            (
              s.status,
              (
                s.tls_version,
                (s.alpn, (s.cert_serial, (s.cert_spki, (s.cert_not_after, s.headers)))),
              ),
            ),
          ),
        ),
      ),
    )
