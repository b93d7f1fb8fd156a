-- ===== src/Diff/Sorting.antt =====
-- `sort` of src/diff.rs does not hang on the order of the texts.
use mathlib.Core.List.{is_set, Perm, Permᴰ}
use mathlib.Core.List.Permᴰ
use mathlib.Core.Logic.{∥∥₁_elim}
use native.Mathlib.Nat.{ℕ_set}
use httprove.Base.{List, [], ◌∷◌, true, false, ◌≡◌, refl, ap, ◌∙◌, arith, map}
use httprove.Types.{Text}
use httprove.Diff.{text_le, insert_sorted, sort}

pub text_le_total : (a b : Text) → text_le a b ≡ false → text_le b a ≡ true
unfolding text_le
text_le_total [] b h = cc
text_le_total (x ∷ xs) [] h = refl
text_le_total (x ∷ xs) (y ∷ ys) h = ground (arith, text_le_total xs ys)

pub text_le_antisym : (a b : Text) → text_le a b ≡ true → text_le b a ≡ true → a ≡ b
unfolding text_le
text_le_antisym [] [] h k = refl
text_le_antisym [] (y ∷ ys) h k = cc
text_le_antisym (x ∷ xs) [] h k = cc
text_le_antisym (x ∷ xs) (y ∷ ys) h k = ground (arith, text_le_antisym xs ys)

pub text_le_trans : (a b c : Text) → text_le a b ≡ true → text_le b c ≡ true → text_le a c ≡ true
unfolding text_le
text_le_trans [] b c h k = refl
text_le_trans (x ∷ xs) [] c h k = cc
text_le_trans (x ∷ xs) (y ∷ ys) [] h k = cc
text_le_trans (x ∷ xs) (y ∷ ys) (z ∷ zs) h k = ground (arith, text_le_trans xs ys zs)

insert_sorted_comm :
    (a b : Text) (l : List Text)
    → insert_sorted a (insert_sorted b l) ≡ insert_sorted b (insert_sorted a l)
unfolding insert_sorted
insert_sorted_comm a b [] =
    ground (arith, text_le_total a b, text_le_total b a, text_le_antisym a b)
insert_sorted_comm a b (c ∷ l) = ground (
  arith,
  insert_sorted_comm a b l,
  text_le_total a b,
  text_le_total b a,
  text_le_antisym a b,
  text_le_trans a b c,
  text_le_trans b a c,
  text_le_total a c,
  text_le_total b c,
)

sort_permᴰ : {l m : List Text} → Permᴰ l m → sort l ≡ sort m
unfolding sort
sort_permᴰ Permᴰ.nil = refl
sort_permᴰ (Permᴰ.cons {b = b} {l₁ = l} e p) =
    ap (λ t. insert_sorted t (sort l)) e ∙ ap (insert_sorted b) (sort_permᴰ p)
sort_permᴰ (Permᴰ.swap {a = a} {b = b} {a' = a'} {l = l} e f) =
    insert_sorted_comm a b (sort l)
    ∙ (ap (λ t. insert_sorted t (insert_sorted a (sort l))) f
        ∙ ap (λ t. insert_sorted a' (insert_sorted t (sort l))) e)
sort_permᴰ (Permᴰ.trans p q) = sort_permᴰ p ∙ sort_permᴰ q

pub sort-map-perm {ℓ} :
    {A : Type ℓ} (f : A → Text) (l m : List A) → Perm l m → sort (map f l) ≡ sort (map f m)
sort-map-perm f l m p = ∥∥₁_elim p (is_set (is_set ℕ_set) _ _) (λ d. sort_permᴰ (Permᴰ.map f d))
