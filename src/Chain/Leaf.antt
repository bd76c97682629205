-- ===== src/Chain/Leaf.antt =====
-- getLeafHash and the order in which Go iterates over the depths.
use pokoinpos.Prelude.{ℕ, ◌≡◌, refl, Option, none, some, [], ◌∷◌, ◌∙◌, ap, arith}
use pokoinpos.Text.{Text}
use pokoinpos.Text.Order.{text_ltb_asymm, text_ltb_trans, text_ltb_antisymm}
use pokoinpos.Chain.Tree.{Depths, better_leaf, fold_leaves, get_leaf_hash}

-- The entries of a map in another order.
pub data Reordered : Depths → Depths → Type 0 where
  nothing_moved : Reordered [] []
  kept : {e : Text × ℕ} {xs ys : Depths} → Reordered xs ys → Reordered (e ∷ xs) (e ∷ ys)
  swapped :
      (h k : Text) (d e : ℕ) (xs : Depths) → Reordered ((h, d) ∷ (k, e) ∷ xs) ((k, e) ∷ (h, d) ∷ xs)
  then_reordered : {xs ys zs : Depths} → Reordered xs ys → Reordered ys zs → Reordered xs zs

-- The tie-break by the smaller hash makes two steps commute.
better_leaf_swap :
    (best : Option (ℕ × Text)) (h k : Text) (d e : ℕ)
    → better_leaf (better_leaf best h d) k e ≡ better_leaf (better_leaf best k e) h d
unfolding better_leaf
better_leaf_swap none h k d e = ground (arith, text_ltb_asymm h k, text_ltb_antisymm h k)
better_leaf_swap (some (m, leaf)) h k d e = ground (
  arith,
  text_ltb_asymm h k,
  text_ltb_antisymm h k,
  text_ltb_trans h k leaf,
  text_ltb_trans k h leaf,
  text_ltb_trans h leaf k,
  text_ltb_trans k leaf h,
)

fold_leaves-Reordered :
    (xs ys : Depths) (best : Option (ℕ × Text))
    → Reordered xs ys
    → fold_leaves xs best ≡ fold_leaves ys best
unfolding fold_leaves
fold_leaves-Reordered _ _ best nothing_moved = refl
fold_leaves-Reordered _ _ best (kept r) = fold_leaves-Reordered _ _ _ r
fold_leaves-Reordered _ _ best (swapped h k d e xs) =
    ap (fold_leaves xs) (better_leaf_swap best h k d e)
fold_leaves-Reordered _ _ best (then_reordered r s) =
    fold_leaves-Reordered _ _ best r ∙ fold_leaves-Reordered _ _ best s

-- In whatever order the depths are listed, the leaf that is found is the same.
pub get_leaf_hash-Reordered :
    (xs ys : Depths) → Reordered xs ys → get_leaf_hash xs ≡ get_leaf_hash ys
unfolding get_leaf_hash
get_leaf_hash-Reordered xs ys r =
    ap (λ best. elim best [ none ↦ [] | some (depth, leaf) ↦ leaf ])
      (fold_leaves-Reordered xs ys none r)
