-- ===== src/App/Routing.antt =====
-- What the state of src/tui/app.rs holds after any sequence of results.
use mathlib.Core.List.{append_assoc, append-nil}
use mathlib.Core.Option
use httprove.Base.{
  map, ℕ, zero, suc, ◌-◌, ◌==◌, List, [], ◌∷◌, ◌++◌, Option, none, some, if◌then◌else◌, length,
  get_elem?, drop, ◌≡◌, refl, sym, ap, ◌∙◌, arith, Bool-cases, inl, inr,
}
use httprove.Base.Deque.{trim_front, trim_front-drop, trim_front-append}
use httprove.Types.{Text, ProbeResult, is_success}
use httprove.Types.Number.{Float}
use httprove.Dns.Answers.{IpAddr}
use httprove.Stats.Recording.{record_all, with_apdex_threshold}
use httprove.App.Owners.{is_at, is_owner, find_index-is_owner}
use httprove.App.{
  App, TargetState, history_cap, find_index, modify_at, record_target, route, update, update_all,
  new, numbered,
}

module _ {A : Type 0} where
  get_elem?-modify_at :
      (i j : ℕ) (g : A → A) (l : List A)
      → get_elem? (modify_at j g l) i
        ≡ (if i == j then Option.map g (get_elem? l i) else get_elem? l i)
  unfolding modify_at
  get_elem?-modify_at i j g [] = ground arith
  get_elem?-modify_at zero zero g (x ∷ xs) = refl
  get_elem?-modify_at zero (suc j) g (x ∷ xs) = ground arith
  get_elem?-modify_at (suc i) zero g (x ∷ xs) = ground arith
  get_elem?-modify_at (suc i) (suc j) g (x ∷ xs) = ground (arith, get_elem?-modify_at i j g xs)

module _ {W : Type 0} where
  -- The results for the target at position `i`.
  abbrev pub results_at : List (Text × ℕ) → ℕ → List (ProbeResult W) → List (ProbeResult W)
  results_at index i [] = []
  results_at index i (r ∷ rs) =
      if is_at i (find_index r.target index)
      then r ∷ results_at index i rs
      else results_at index i rs

  -- The last of the results that is a success, or else the one known before.
  abbrev pub last_success_of :
      Option (ProbeResult W) → List (ProbeResult W) → Option (ProbeResult W)
  last_success_of known [] = known
  last_success_of known (r ∷ rs) = last_success_of (if is_success r then some r else known) rs

module _ {W : Type 0} ⦃f : Float W⦄ (sorted_texts : List IpAddr → List Text) where
  -- A target that has seen these results.
  abbrev pub seen : List (ProbeResult W) → TargetState W → TargetState W
  seen rs t = record t {
    stats = record_all sorted_texts t.stats rs;
    last_success = last_success_of t.last_success rs;
  }

  get_elem?-route :
      (r : ProbeResult W) (at : Option ℕ) (i : ℕ) (targets : List (TargetState W))
      → get_elem? (route sorted_texts r at targets) i ≡ (
          if is_at i at
          then Option.map (record_target sorted_texts r) (get_elem? targets i)
          else get_elem? targets i)
  get_elem?-route r none i targets = refl
  get_elem?-route r (some j) i targets =
      get_elem?-modify_at i j (record_target sorted_texts r) targets

  map-seen :
      (r : ProbeResult W) (rs : List (ProbeResult W)) (o : Option (TargetState W))
      → Option.map (seen rs) (Option.map (record_target sorted_texts r) o)
        ≡ Option.map (seen (r ∷ rs)) o
  unfolding record_target record_all
  map-seen r rs none = refl
  map-seen r rs (some t) = refl

  update_all-targets :
      (a : App W) (rs : List (ProbeResult W)) (i : ℕ)
      → get_elem? (update_all sorted_texts a rs).targets i
        ≡ Option.map (seen (results_at a.index i rs)) (get_elem? a.targets i)
  unfolding update_all update record_all
  update_all-targets a [] i = elim (get_elem? a.targets i) as (λ o. o ≡ Option.map (seen []) o) [
    | none ↦ refl
    | some t ↦ refl
  ]
  update_all-targets a (r ∷ rs) i =
      let at = find_index r.target a.index in
      let later = results_at a.index i rs in
      update_all-targets (update sorted_texts a r) rs i
      ∙ (ap (Option.map (seen later)) (get_elem?-route r at i a.targets)
          ∙ elim (Bool-cases (is_at i at)) [
            | inl e ↦ rw e (map-seen r later (get_elem? a.targets i))
            | inr e ↦ rw e refl
          ])

  update_all-history :
      (a : App W) (before rs : List (ProbeResult W))
      → a.history ≡ trim_front history_cap before
      → (update_all sorted_texts a rs).history ≡ trim_front history_cap (before ++ rs)
  unfolding update_all update
  update_all-history a before [] h = h ∙ ap (trim_front history_cap) (sym (append-nil before))
  update_all-history a before (r ∷ rs) h =
      update_all-history (update sorted_texts a r) (before ++ (r ∷ [])) rs (
        ap (λ l. trim_front history_cap (l ++ (r ∷ []))) h ∙ trim_front-append history_cap before r)
      ∙ ap (trim_front history_cap) (append_assoc before (r ∷ []) rs)

module _ {W : Type 0} where
  -- The results that carry the name of the target at position `i`.
  abbrev pub results_for : List Text → ℕ → List (ProbeResult W) → List (ProbeResult W)
  results_for names i [] = []
  results_for names i (r ∷ rs) =
      if is_owner names i r.target then r ∷ results_for names i rs else results_for names i rs

  results_at-results_for :
      (names : List Text) (i : ℕ) (rs : List (ProbeResult W))
      → results_at (numbered 0 names) i rs ≡ results_for names i rs
  results_at-results_for names i [] = refl
  results_at-results_for names i (r ∷ rs) =
      let owner : is_at i (find_index r.target (numbered 0 names)) ≡ is_owner names i r.target =
        ap (λ m. is_at m (find_index r.target (numbered 0 names))) (omega arith)
        ∙ find_index-is_owner r.target 0 i names in
      let later = results_at-results_for names i rs in
      rw owner (ap (λ l. if is_owner names i r.target then r ∷ l else l) later)

get_elem?-map :
    {A B : Type 0} (g : A → B) (l : List A) (i : ℕ)
    → get_elem? (map g l) i ≡ Option.map g (get_elem? l i)
get_elem?-map g [] i = refl
get_elem?-map g (x ∷ xs) zero = refl
get_elem?-map g (x ∷ xs) (suc i) = get_elem?-map g xs i

map-map :
    {A B C : Type 0} (g : B → C) (h : A → B) (o : Option A)
    → Option.map g (Option.map h o) ≡ Option.map (λ a. g (h a)) o
map-map g h none = refl
map-map g h (some a) = refl

-- What an interface for these names holds after these results.
pub record IsUpToDate {W : Type 0} ⦃f : Float W⦄ (sorted_texts : List IpAddr → List Text)
    (short : Text → Text) (names : List Text) (a : App W) (rs : List (ProbeResult W)) : Type 0 where
  pub history : a.history ≡ drop (length rs - history_cap) rs
  pub targets :
      (i : ℕ)
      → get_elem? a.targets i
        ≡ Option.map
            (λ name. record {
              name = name;
              short = short name;
              stats = record_all sorted_texts (with_apdex_threshold none) (results_for names i rs);
              last_success = last_success_of none (results_for names i rs);
            })
            (get_elem? names i)

module _ {W : Type 0} ⦃f : Float W⦄ where
  -- After any sequence of results a new interface has the last 512 of them as its history, and its
  -- targets have the given names, in their order, each with the statistics of the results that
  -- carry its name, in their order, and the last success among them; if several targets have one
  -- name, the last of them has its results and the others have none.
  pub update_all-IsUpToDate :
      (sorted_texts : List IpAddr → List Text) (short : Text → Text) (names : List Text)
      (rs : List (ProbeResult W))
      → IsUpToDate sorted_texts short names (update_all sorted_texts (new short names) rs) rs
  update_all-IsUpToDate sorted_texts short names rs = record {
    history =
        unfold new trim_front in
        update_all-history sorted_texts (new short names) [] rs refl
        ∙ trim_front-drop history_cap rs;
    targets = λ i.
        unfold new in
        update_all-targets sorted_texts (new short names) rs i
        ∙ ap (Option.map _) (get_elem?-map _ names i)
        ∙ map-map _ _ (get_elem? names i)
        ∙ rw (results_at-results_for names i rs) refl;
  }
