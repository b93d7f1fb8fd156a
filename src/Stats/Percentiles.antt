-- ===== src/Stats/Percentiles.antt =====
-- The percentiles that `snapshot` of src/stats.rs reports.
use httprove.Base.{
  ℕ, zero, suc, ◌-◌, ◌≤◌, ◌<◌, List, [], ◌∷◌, Option, none, some, false, length, length-drop,
  get_elem?, ◌==◌, All, ◌≡◌, ◌≢◌, refl, ap, ◌∙◌, arith, Bool-cases, inl, inr, subst,
}
use httprove.Base.Int.{pos}
use httprove.Types.Number.{Float, IsTotalOrder}
use httprove.Stats.{PhaseAccum, no_samples, ring_cap}
use httprove.Stats.Samples.{push_all, push_all-window}
use httprove.Stats.Summary.{
  PhaseStats, insert_sample, sort_samples, clamped, percentile, stats_of, snapshot,
}

get_some : {A : Type 0} (l : List A) (i : ℕ) → i < length l → (a : A) × (get_elem? l i ≡ some a)
get_some [] i h = absurd (omega (arith, h))
get_some (x ∷ l) zero h = (x, refl)
get_some (x ∷ l) (suc i) h = get_some l i (omega (arith, h))

clamped-lt : (rank n : ℕ) → 0 < n → clamped rank n < n
clamped-lt rank n h = omega (arith, h)

clamped_mono : (r s n : ℕ) → r ≤ s → clamped r n ≤ clamped s n
clamped_mono r s n h = omega (arith, h)

-- The rank of the `p`-th percentile of `n` samples, before it is clamped.
abbrev pub rank_of : {W : Type 0} → Float W → ℕ → ℕ → ℕ
rank_of f p n = f.ceil (f.times (f.over (f.of_int (pos p)) f.hundred) (f.of_int (pos n)))

module _ {W : Type 0} ⦃f : Float W⦄ where
  length-insert_sample : (v : W) (l : List W) → length (insert_sample v l) ≡ suc (length l)
  unfolding insert_sample
  length-insert_sample v [] = refl
  length-insert_sample v (w ∷ l) = ground (arith, length-insert_sample v l)

  length-sort_samples : (l : List W) → length (sort_samples l) ≡ length l
  unfolding sort_samples
  length-sort_samples [] = refl
  length-sort_samples (v ∷ l) =
      length-insert_sample v (sort_samples l) ∙ ap suc (length-sort_samples l)

  abbrev IsSorted : List W → Type 0
  IsSorted [] = Unit
  IsSorted (v ∷ l) = All (λ w. f.total_gt v w ≡ false) l × IsSorted l

  -- The percentiles are in order.
  abbrev pub IsRanked : Option (PhaseStats W) → Type 0
  IsRanked none = ⊥
  IsRanked (some s) = (f.total_gt s.p50 s.p95 ≡ false) × (f.total_gt s.p95 s.p99 ≡ false)

  IsRanked-stats_of :
      (a : PhaseAccum W) (x y z : W) {ox oy oz : Option W}
      → ox ≡ some x
      → oy ≡ some y
      → oz ≡ some z
      → f.total_gt x y ≡ false
      → f.total_gt y z ≡ false
      → IsRanked (stats_of a ox oy oz)
  IsRanked-stats_of a x y z ex ey ez h k = rw (ex, ey, ez) (h, k)

  module _ (o : IsTotalOrder W f) where
    total_gt_irrefl : (v : W) → f.total_gt v v ≡ false
    total_gt_irrefl v = elim (Bool-cases (f.total_gt v v)) [ inl e ↦ o.gt_asymm v v e | inr e ↦ e ]

    insert_sample-All :
        (u v : W) (l : List W)
        → f.total_gt u v ≡ false
        → All (λ w. f.total_gt u w ≡ false) l
        → All (λ w. f.total_gt u w ≡ false) (insert_sample v l)
    unfolding insert_sample
    insert_sample-All u v [] h hs = (h, tt)
    insert_sample-All u v (w ∷ l) h (k, ks) = elim (Bool-cases (f.total_gt v w)) [
      | inl e ↦ rw e (k, insert_sample-All u v l h ks)
      | inr e ↦ rw e (h, (k, ks))
    ]

    All-le :
        (v w : W) (l : List W)
        → f.total_gt v w ≡ false
        → All (λ x. f.total_gt w x ≡ false) l
        → All (λ x. f.total_gt v x ≡ false) l
    All-le v w [] h hs = tt
    All-le v w (x ∷ l) h (k, ks) = (o.le_trans v w x h k, All-le v w l h ks)

    insert_sample-IsSorted : (v : W) (l : List W) → IsSorted l → IsSorted (insert_sample v l)
    unfolding insert_sample
    insert_sample-IsSorted v [] h = (tt, tt)
    insert_sample-IsSorted v (w ∷ l) (k, ks) = elim (Bool-cases (f.total_gt v w)) [
      | inl e ↦ rw e (insert_sample-All w v l (o.gt_asymm v w e) k, insert_sample-IsSorted v l ks)
      | inr e ↦ rw e ((e, All-le v w l e k), (k, ks))
    ]

    sort_samples-IsSorted : (l : List W) → IsSorted (sort_samples l)
    unfolding sort_samples
    sort_samples-IsSorted [] = tt
    sort_samples-IsSorted (v ∷ l) =
        insert_sample-IsSorted v (sort_samples l) (sort_samples-IsSorted l)

    All-get :
        (v b : W) (l : List W) (j : ℕ)
        → All (λ w. f.total_gt v w ≡ false) l
        → get_elem? l j ≡ some b
        → f.total_gt v b ≡ false
    All-get v b [] j h e = absurd (let q = e in cc)
    All-get v b (x ∷ l) zero (h, hs) e =
        let same : x ≡ b = cc in subst (λ w. f.total_gt v w ≡ false) same h
    All-get v b (x ∷ l) (suc j) (h, hs) e = All-get v b l j hs e

    get-IsSorted :
        (l : List W) (i j : ℕ) (a b : W)
        → IsSorted l
        → i ≤ j
        → get_elem? l i ≡ some a
        → get_elem? l j ≡ some b
        → f.total_gt a b ≡ false
    get-IsSorted [] i j a b s h e q = absurd (let r = e in cc)
    get-IsSorted (x ∷ l) zero zero a b s h e q =
        let first : x ≡ a = cc in
        let second : x ≡ b = cc in
        subst (λ w. f.total_gt w b ≡ false) first
          (subst (λ w. f.total_gt x w ≡ false) second (total_gt_irrefl x))
    get-IsSorted (x ∷ l) zero (suc j) a b (s, ss) h e q =
        let first : x ≡ a = cc in subst (λ w. f.total_gt w b ≡ false) first (All-get x b l j s q)
    get-IsSorted (x ∷ l) (suc i) zero a b s h e q = absurd (omega (arith, h))
    get-IsSorted (x ∷ l) (suc i) (suc j) a b (s, ss) h e q =
        get-IsSorted l i j a b ss (omega (arith, h)) e q

    percentile-le :
        (l : List W) (p q : ℕ) (a b : W)
        → IsSorted l
        → rank_of f p (length l) ≤ rank_of f q (length l)
        → percentile l p ≡ some a
        → percentile l q ≡ some b
        → f.total_gt a b ≡ false
    unfolding percentile
    percentile-le l p q a b s h e1 e2 =
        let n = length l in
        get-IsSorted l (clamped (rank_of f p n) n) (clamped (rank_of f q n) n) a b s
          (clamped_mono (rank_of f p n) (rank_of f q n) n h) e1 e2

    percentile-some : (l : List W) (p : ℕ) → 0 < length l → (a : W) × (percentile l p ≡ some a)
    unfolding percentile
    percentile-some l p h =
        let n = length l in get_some l (clamped (rank_of f p n) n) (clamped-lt (rank_of f p n) n h)

    module _ (mono : (p q n : ℕ) → p ≤ q → rank_of f p n ≤ rank_of f q n) where
      snapshot-from : (a : PhaseAccum W) → a.count ≢ 0 → 0 < length a.recent → IsRanked (snapshot a)
      unfolding snapshot
      snapshot-from a ne some_kept =
          let l = sort_samples a.recent in
          let size : 0 < length l = omega (arith, some_kept, length-sort_samples a.recent) in
          let s = sort_samples-IsSorted a.recent in
          let (x, ex) = percentile-some l 50 size in
          let (y, ey) = percentile-some l 95 size in
          let (z, ez) = percentile-some l 99 size in
          let counted : (a.count == 0) ≡ false = ground (arith, ne) in
          rw counted (
            IsRanked-stats_of a x y z ex ey ez
              (percentile-le l 50 95 x y s (mono 50 95 (length l) (omega arith)) ex ey)
              (percentile-le l 95 99 y z s (mono 95 99 (length l) (omega arith)) ey ez))

      -- If `total_cmp` is a total order and a higher percentile never has a lower rank, then after
      -- any sequence of samples that is not empty `snapshot` gives a summary, no index being out of
      -- bounds, in which the median is not above the 95th percentile nor that above the 99th.
      pub snapshot-IsRanked :
          (v : W) (vs : List W) → IsRanked (snapshot (push_all no_samples (v ∷ vs)))
      snapshot-IsRanked v vs =
          let (counted, kept) = push_all-window (v ∷ vs) in
          let size = ap length kept in
          let left = length-drop (length (v ∷ vs) - ring_cap) (v ∷ vs) in
          snapshot-from (push_all no_samples (v ∷ vs)) (λ z. omega (arith, counted, z))
            (omega (arith, size, left))
