-- ===== src/Chain/Weakest.antt =====
-- `analyze` of src/chain.rs: which certificate it reports, and when it reports no issue.
use httprove.Base.{
  nil-append, List, [], ◌∷◌, ◌++◌, Bool, true, false, Bool-cases, ◌≡◌, refl, sym, ap, subst, arith,
  ◌↔◌, ◌⊎◌, inl, inr, All, if◌then◌else◌,
}
use httprove.Base.Int.{ℤ, pos, ltb_ℤ}
use httprove.Text.{is_empty, same_text}
use httprove.Types.{CertInfo}
use httprove.Chain.{Issue, missing, cn_of, weakest, is_incomplete, mismatches, early, dead, analyze}

-- The certificate is the first of those that expire soonest: all before it expire later, and none
-- behind it sooner.
abbrev pub IsFirstMin : CertInfo → List CertInfo → Type 0
IsFirstMin c [] = ⊥
IsFirstMin c (x ∷ rest) =
    ((x ≡ c) × All (λ y. ltb_ℤ y.days_remaining c.days_remaining ≡ false) rest)
    ⊎ ((ltb_ℤ c.days_remaining x.days_remaining ≡ true) × IsFirstMin c rest)

skip_later :
    (m x y : CertInfo) (rest : List CertInfo)
    → ltb_ℤ y.days_remaining x.days_remaining ≡ false
    → IsFirstMin m (x ∷ rest)
    → IsFirstMin m (x ∷ y ∷ rest)
skip_later m x y rest h (inl (e, a)) =
    inl (e, (subst (λ (t : CertInfo). ltb_ℤ y.days_remaining t.days_remaining ≡ false) e h, a))
skip_later m x y rest h (inr (lt, l)) = inr (lt, inr (ground arith, l))

sooner_than_first :
    (m x y : CertInfo) (rest : List CertInfo)
    → ltb_ℤ y.days_remaining x.days_remaining ≡ true
    → IsFirstMin m (y ∷ rest)
    → IsFirstMin m (x ∷ y ∷ rest)
sooner_than_first m x y rest h (inl (e, a)) =
    inr (subst (λ (t : CertInfo). ltb_ℤ t.days_remaining x.days_remaining ≡ true) e h, inl (e, a))
sooner_than_first m x y rest h (inr (lt, l)) = inr (ground arith, inr (lt, l))

weakest-IsFirstMin :
    (best : CertInfo) (rest : List CertInfo) → IsFirstMin (weakest best rest) (best ∷ rest)
unfolding weakest
weakest-IsFirstMin best [] = inl (refl, tt)
weakest-IsFirstMin best (s ∷ rest) =
    elim (Bool-cases (ltb_ℤ s.days_remaining best.days_remaining)) [
      | inl e ↦
          subst (λ m. IsFirstMin m (best ∷ s ∷ rest))
            (sym (ap (λ b. weakest (if b then s else best) rest) e))
            (sooner_than_first (weakest s rest) best s rest e (weakest-IsFirstMin s rest))
      | inr e ↦
          subst (λ m. IsFirstMin m (best ∷ s ∷ rest))
            (sym (ap (λ b. weakest (if b then s else best) rest) e))
            (skip_later (weakest best rest) best s rest e (weakest-IsFirstMin best rest))
    ]

ltb_ℤ_irrefl : (a : ℤ) → ltb_ℤ a a ≡ false
ltb_ℤ_irrefl a = ground arith

weakest-head :
    (leaf : CertInfo) (rest : List CertInfo) → weakest leaf (leaf ∷ rest) ≡ weakest leaf rest
unfolding weakest
weakest-head leaf rest =
    ap (λ b. weakest (if b then leaf else leaf) rest) (ltb_ℤ_irrefl leaf.days_remaining)

-- Of a chain that is not empty, the reported days and name are those of the first of the
-- certificates that expire soonest.
pub analyze-weakest :
    (leaf : CertInfo) (rest : List CertInfo)
    → (c : CertInfo) × IsFirstMin c (leaf ∷ rest)
      × ((analyze (leaf ∷ rest)).weakest_days ≡ c.days_remaining)
      × ((analyze (leaf ∷ rest)).weakest_subject ≡ cn_of c.subject)
unfolding analyze
analyze-weakest leaf rest =
    let same = weakest-head leaf rest in
    (
      weakest leaf rest,
      weakest-IsFirstMin leaf rest,
      ap (λ (c : CertInfo). c.days_remaining) same,
      ap (λ (c : CertInfo). cn_of c.subject) same,
    )

-- Each certificate was issued by the next, as far as both names are given.
abbrev pub IsLinked : CertInfo → List CertInfo → Type 0
IsLinked cur [] = Unit
IsLinked cur (next ∷ rest) =
    ((is_empty cur.issuer ≡ true)
      ⊎ (is_empty next.subject ≡ true)
      ⊎ (same_text cur.issuer next.subject ≡ true))
    × IsLinked next rest

pub record IsClean (leaf : CertInfo) (rest : List CertInfo) : Type 0 where
  pub complete : is_incomplete leaf rest ≡ false
  pub linked : IsLinked leaf rest
  pub uppers_last : All (λ c. ltb_ℤ c.days_remaining leaf.days_remaining ≡ false) rest
  pub alive : All (λ c. ltb_ℤ c.days_remaining (pos 0) ≡ false) (leaf ∷ rest)

mismatches-nil :
    (cur : CertInfo) (rest : List CertInfo) → (mismatches cur rest ≡ []) ↔ IsLinked cur rest
unfolding mismatches
mismatches-nil cur [] = (λ h. tt, λ h. refl)
mismatches-nil cur (next ∷ rest) = ground (arith, mismatches-nil next rest)

early-nil :
    (days : ℤ) (rest : List CertInfo)
    → (early days rest ≡ []) ↔ All (λ c. ltb_ℤ c.days_remaining days ≡ false) rest
unfolding early
early-nil days [] = (λ h. tt, λ h. refl)
early-nil days (c ∷ rest) = ground (arith, early-nil days rest)

dead-nil :
    (rest : List CertInfo)
    → (dead rest ≡ []) ↔ All (λ c. ltb_ℤ c.days_remaining (pos 0) ≡ false) rest
unfolding dead
dead-nil [] = (λ h. tt, λ h. refl)
dead-nil (c ∷ rest) = ground (arith, dead-nil rest)

incomplete-nil :
    (b : Bool) → (◌≡◌ {A = List Issue} (if b then missing ∷ [] else []) []) ↔ (b ≡ false)
incomplete-nil true = (λ h. cc, λ h. cc)
incomplete-nil false = (λ h. refl, λ h. refl)

-- A chain that is not empty has no issue exactly if it is complete, each certificate names the next
-- as its issuer, none expires before the leaf, and none has expired.
pub analyze-IsClean_iff :
    (leaf : CertInfo) (rest : List CertInfo)
    → ((analyze (leaf ∷ rest)).issues ≡ []) ↔ IsClean leaf rest
unfolding analyze
analyze-IsClean_iff leaf rest =
    let parts =
      nil-append (if is_incomplete leaf rest then missing ∷ [] else [])
        (mismatches leaf rest ++ (early leaf.days_remaining rest ++ dead (leaf ∷ rest))) in
    let parts' =
      nil-append (mismatches leaf rest) (early leaf.days_remaining rest ++ dead (leaf ∷ rest)) in
    let parts'' = nil-append (early leaf.days_remaining rest) (dead (leaf ∷ rest)) in
    let whole = incomplete-nil (is_incomplete leaf rest) in
    let linked = mismatches-nil leaf rest in
    let uppers = early-nil leaf.days_remaining rest in
    let alive = dead-nil (leaf ∷ rest) in
    (
      λ h.
          let (a, b) = parts.0 h in
          let (c, d) = parts'.0 b in
          let (e, f) = parts''.0 d in
          record {
            complete = whole.0 a;
            linked = linked.0 c;
            uppers_last = uppers.0 e;
            alive = alive.0 f;
          },
      λ c. parts.1 (
        whole.1 c.complete,
        parts'.1 (linked.1 c.linked, parts''.1 (uppers.1 c.uppers_last, alive.1 c.alive)),
      ),
    )
