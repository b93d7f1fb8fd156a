-- ===== src/Exporter/Noting.antt =====
-- What src/exporter.rs notes of the results of its targets.
use httprove.Base.{
  List, [], ◌∷◌, Option, none, some, true, false, if◌then◌else◌, ◌≡◌, refl, sym, ap, ◌∙◌, map,
  Bool-cases, inl, inr,
}
use httprove.Text.{same_text}
use httprove.Text.Equal.{same_text-eq, same_text_ne}
use httprove.Types.{Text, ProbeResult, is_success}
use httprove.Types.Number.{Float}
use httprove.Dns.Answers.{IpAddr}
use httprove.Verdict.{State}
use httprove.Exporter.{TargetState, note_result, on_result, on_results}

others_differ :
    (a b c : Text) → same_text a c ≡ true → same_text b c ≡ true → same_text a b ≡ false → ⊥
others_differ a b c h e d =
    (same_text_ne a b).0 d ((same_text-eq a c).0 h ∙ sym ((same_text-eq b c).0 e))

module _ {A : Type 0} where
  map_id : (l : List A) → map (λ a. a) l ≡ l
  map_id [] = refl
  map_id (a ∷ l) = ap (◌∷◌ a) (map_id l)

  map-map :
      {B C : Type 0} (g : B → C) (h : A → B) (l : List A) → map g (map h l) ≡ map (λ a. g (h a)) l
  map-map g h [] = refl
  map-map g h (a ∷ l) = ap (◌∷◌ (g (h a))) (map-map g h l)

module _ {W : Type 0} where
  -- No target has this name.
  abbrev pub IsFresh : Text → List (TargetState W) → Type 0
  IsFresh name [] = Unit
  IsFresh name (t ∷ ts) = (same_text name t.name ≡ false) × IsFresh name ts

  abbrev pub AreDistinct : List (TargetState W) → Type 0
  AreDistinct [] = Unit
  AreDistinct (t ∷ ts) = IsFresh t.name ts × AreDistinct ts

  -- The result succeeded and carries this name.
  abbrev pub IsSuccessOf : Text → Option (ProbeResult W) → Type 0
  IsSuccessOf name none = Unit
  IsSuccessOf name (some r) = (is_success r ≡ true) × (same_text name r.target ≡ true)

  abbrev pub AreOwn : List (TargetState W) → Type 0
  AreOwn [] = Unit
  AreOwn (t ∷ ts) = IsSuccessOf t.name t.last_success × AreOwn ts

module _ {W : Type 0} ⦃f : Float W⦄ (texts : List IpAddr → List Text) where
  note_result-IsSuccessOf :
      (state : State) (now : W) (r : ProbeResult W) (t : TargetState W)
      → same_text t.name r.target ≡ true
      → IsSuccessOf t.name t.last_success
      → IsSuccessOf t.name (note_result texts state now r t).last_success
  unfolding note_result
  note_result-IsSuccessOf state now r t h own = elim (Bool-cases (is_success r)) [
    | inl e ↦ rw e (e, h)
    | inr e ↦ rw e own
  ]

  module _ (judge : ProbeResult W → State) where
    -- A target that notes the results that carry its name, apart from all others.
    abbrev pub note_own : W → ProbeResult W → TargetState W → TargetState W
    note_own now r t = if same_text t.name r.target then note_result texts (judge r) now r t else t

    abbrev pub note_all_own : List (W × ProbeResult W) → TargetState W → TargetState W
    note_all_own [] t = t
    note_all_own ((now, r) ∷ rs) t = note_all_own rs (note_own now r t)

    note_own-name :
        (now : W) (r : ProbeResult W) (t : TargetState W) → (note_own now r t).name ≡ t.name
    unfolding note_result
    note_own-name now r t = elim (Bool-cases (same_text t.name r.target)) [
      | inl e ↦ rw e refl
      | inr e ↦ rw e refl
    ]

    map-note_own-IsFresh :
        (now : W) (r : ProbeResult W) (name : Text) (ts : List (TargetState W))
        → IsFresh name ts
        → IsFresh name (map (note_own now r) ts)
    map-note_own-IsFresh now r name [] d = tt
    map-note_own-IsFresh now r name (t ∷ ts) d =
        (rw (note_own-name now r t) d.0, map-note_own-IsFresh now r name ts d.1)

    map-note_own-AreDistinct :
        (now : W) (r : ProbeResult W) (ts : List (TargetState W))
        → AreDistinct ts
        → AreDistinct (map (note_own now r) ts)
    map-note_own-AreDistinct now r [] d = tt
    map-note_own-AreDistinct now r (t ∷ ts) d = (
      rw (note_own-name now r t) (map-note_own-IsFresh now r t.name ts d.0),
      map-note_own-AreDistinct now r ts d.1,
    )

    map-note_own-nil :
        (now : W) (r : ProbeResult W) (name : Text) (ts : List (TargetState W))
        → IsFresh name ts
        → same_text name r.target ≡ true
        → map (note_own now r) ts ≡ ts
    map-note_own-nil now r name [] d h = refl
    map-note_own-nil now r name (t ∷ ts) d h = elim (Bool-cases (same_text t.name r.target)) [
      | inl e ↦ absurd (others_differ name t.name r.target h e d.0)
      | inr e ↦ rw e (ap (◌∷◌ t) (map-note_own-nil now r name ts d.1 h))
    ]

    on_result-note_own :
        (now : W) (r : ProbeResult W) (ts : List (TargetState W))
        → AreDistinct ts
        → on_result texts judge now r ts ≡ map (note_own now r) ts
    unfolding on_result
    on_result-note_own now r [] d = refl
    on_result-note_own now r (t ∷ ts) d = elim (Bool-cases (same_text t.name r.target)) [
      | inl e ↦ rw e (
          ap (◌∷◌ (note_result texts (judge r) now r t))
            (sym (map-note_own-nil now r t.name ts d.0 e)))
      | inr e ↦ rw e (ap (◌∷◌ t) (on_result-note_own now r ts d.1))
    ]

    -- If no two targets have the same name, then after any sequence of results each target is what
    -- it would be if it alone had noted the results that carry its name, in their order.
    pub on_results-note_all_own :
        (rs : List (W × ProbeResult W)) (ts : List (TargetState W))
        → AreDistinct ts
        → on_results texts judge rs ts ≡ map (note_all_own rs) ts
    unfolding on_results
    on_results-note_all_own [] ts d = sym (map_id ts)
    on_results-note_all_own ((now, r) ∷ rs) ts d =
        let e = on_result-note_own now r ts d in
        let rest =
          on_results-note_all_own rs (map (note_own now r) ts)
            (map-note_own-AreDistinct now r ts d) in
        ap (on_results texts judge rs) e ∙ (rest ∙ map-map (note_all_own rs) (note_own now r) ts)

    on_result-AreOwn :
        (now : W) (r : ProbeResult W) (ts : List (TargetState W))
        → AreOwn ts
        → AreOwn (on_result texts judge now r ts)
    unfolding on_result
    on_result-AreOwn now r [] own = tt
    on_result-AreOwn now r (t ∷ ts) own = elim (Bool-cases (same_text t.name r.target)) [
      | inl e ↦ rw e (note_result-IsSuccessOf (judge r) now r t e own.0, own.1)
      | inr e ↦ rw e (own.0, on_result-AreOwn now r ts own.1)
    ]

    pub on_results-AreOwn :
        (rs : List (W × ProbeResult W)) (ts : List (TargetState W))
        → AreOwn ts
        → AreOwn (on_results texts judge rs ts)
    unfolding on_results
    on_results-AreOwn [] ts own = own
    on_results-AreOwn ((now, r) ∷ rs) ts own =
        on_results-AreOwn rs (on_result texts judge now r ts) (on_result-AreOwn now r ts own)
