-- ===== src/Stats/Samples.antt =====
-- `PhaseAccum::push` of src/stats.rs over a sequence of samples.
use mathlib.Core.List.{append_assoc, append-nil}
use httprove.Base.{
  ℕ, zero, suc, ◌+◌, ◌-◌, ◌≤◌, ◌<◌, List, [], ◌∷◌, ◌++◌, length, length-append, length-drop, drop,
  ◌==◌, if◌then◌else◌, arith, ◌≡◌, refl, sym, ap, ◌∙◌, Bool-cases, inl, inr,
}
use httprove.Types.Number.{Float}
use httprove.Stats.{PhaseAccum, ring_cap, push_recent, no_samples, push}

drop-append :
    {A : Type 0} (n : ℕ) (xs ys : List A) → n ≤ length xs → drop n (xs ++ ys) ≡ drop n xs ++ ys
drop-append zero xs ys h = refl
drop-append (suc n) [] ys h = absurd (omega (arith, h))
drop-append (suc n) (x ∷ xs) ys h = drop-append n xs ys (omega (arith, h))

drop-drop : {A : Type 0} (n : ℕ) (xs : List A) → drop 1 (drop n xs) ≡ drop (suc n) xs
drop-drop zero xs = refl
drop-drop (suc n) [] = refl
drop-drop (suc n) (x ∷ xs) = drop-drop n xs

-- The last samples, as many as the ring holds.
abbrev pub window : {A : Type 0} → List A → List A
window vs = drop (length vs - ring_cap) vs

push_recent-window :
    {A : Type 0} (vs : List A) (v : A) → push_recent (window vs) v ≡ window (vs ++ v ∷ [])
push_recent-window vs v =
    let n = length vs - ring_cap in
    let size = length-drop n vs in
    let grown : length (vs ++ v ∷ []) ≡ length vs + 1 = length-append vs (v ∷ []) in
    elim (Bool-cases (length (window vs) == ring_cap)) [
      | inl e ↦
          let full : length vs - ring_cap < length vs = ground (arith, size) in
          let next : suc n ≡ length (vs ++ v ∷ []) - ring_cap = ground (arith, size, grown) in
          ap (λ b. (if b then drop 1 (window vs) else window vs) ++ v ∷ []) e
          ∙ (ap (λ l. l ++ v ∷ []) (drop-drop n vs)
              ∙ (sym (drop-append (suc n) vs (v ∷ []) (omega (arith, full)))
                  ∙ ap (λ k. drop k (vs ++ v ∷ [])) next))
      | inr e ↦
          let room : n ≡ 0 = ground (arith, size) in
          let same : n ≡ length (vs ++ v ∷ []) - ring_cap = ground (arith, size, grown) in
          ap (λ b. (if b then drop 1 (window vs) else window vs) ++ v ∷ []) e
          ∙ (sym (drop-append n vs (v ∷ []) (omega (arith, room)))
              ∙ ap (λ k. drop k (vs ++ v ∷ [])) same)
    ]

module _ {W : Type 0} ⦃f : Float W⦄ where
  unfoldable pub push_all : PhaseAccum W → List W → PhaseAccum W
  push_all a [] = a
  push_all a (v ∷ vs) = push_all (push a v) vs

  push_all-from :
      (a : PhaseAccum W) (seen vs : List W)
      → a.count ≡ length seen
      → a.recent ≡ window seen
      → ((push_all a vs).count ≡ length (seen ++ vs))
        × ((push_all a vs).recent ≡ window (seen ++ vs))
  unfolding push_all push
  push_all-from a seen [] c r =
      (c ∙ ap length (sym (append-nil seen)), r ∙ ap window (sym (append-nil seen)))
  push_all-from a seen (v ∷ vs) c r =
      let (count, recent) =
        push_all-from (push a v) (seen ++ v ∷ []) vs (omega (arith, c, length-append seen (v ∷ [])))
          (ap (λ l. push_recent l v) r ∙ push_recent-window seen v) in
      let same = append_assoc seen (v ∷ []) vs in (count ∙ ap length same, recent ∙ ap window same)

  -- After any sequence of samples the count is the number of samples, and the ring holds the last
  -- 8192 of them, in their order.
  pub push_all-window :
      (vs : List W)
      → ((push_all no_samples vs).count ≡ length vs) × ((push_all no_samples vs).recent ≡ window vs)
  push_all-window vs = push_all-from no_samples [] vs refl refl
