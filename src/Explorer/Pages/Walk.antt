-- ===== src/Explorer/Pages/Walk.antt =====
-- The pages of a list of transactions, one after the other. The index lists a transaction of an address
-- to itself twice under that address.
use pokoinpos.Prelude.{
  ℕ, zero, suc, ◌+◌, ◌-◌, ◌≤◌, ◌<◌, ◌≡◌, refl, sym, ◌∙◌, ap, none, some, List, [], ◌∷◌, ◌++◌,
  if◌then◌else◌, length, take, drop, ltb, arith, length-drop, take-append-drop, Bool-cases, inl,
  inr,
}
use pokoinpos.Prelude.Int.{ℤ, pos, add_int-pos}
use pokoinpos.Explorer.{ExplorerTx}
use pokoinpos.Explorer.Pages.{page_of}

-- A reader that asks for a page, then for the one at the cursor it got, and so on.
unfoldable pub read_pages : ℕ → List ExplorerTx → ℤ → ℤ → List ExplorerTx
read_pages zero txs cursor limit = []
read_pages (suc fuel) txs cursor limit =
    let (page, next) = page_of txs cursor limit in
    page ++ elim next [ none ↦ [] | some c ↦ read_pages fuel txs c limit ]

take_all : (n : ℕ) (txs : List ExplorerTx) → length txs ≤ n → take n txs ≡ txs
take_all zero [] h = refl
take_all zero (t ∷ txs) h = absurd (omega (arith, h))
take_all (suc n) [] h = refl
take_all (suc n) (t ∷ txs) h = ap (λ l. t ∷ l) (take_all n txs (omega (arith, h)))

drop-nil : (n : ℕ) → ◌≡◌ {A = List ExplorerTx} (drop n []) []
drop-nil zero = refl
drop-nil (suc n) = refl

take-nil : (n : ℕ) → ◌≡◌ {A = List ExplorerTx} (take n []) []
take-nil zero = refl
take-nil (suc n) = refl

minus_same : (a b : ℕ) → a + b - a ≡ b
minus_same a b = omega arith

suc_add : (b a : ℕ) → suc b + a ≡ suc (b + a)
suc_add b a = omega arith

drop-drop : (a b : ℕ) (txs : List ExplorerTx) → drop a (drop b txs) ≡ drop (b + a) txs
drop-drop a zero txs = ap (λ n. drop n txs) (omega arith)
drop-drop a (suc b) [] = drop-nil a ∙ sym (drop-nil (suc b + a))
drop-drop a (suc b) (t ∷ txs) = drop-drop a b txs ∙ ap (λ n. drop n (t ∷ txs)) (sym (suc_add b a))

drop_past : (n : ℕ) (txs : List ExplorerTx) → length txs ≤ n → drop n txs ≡ []
drop_past zero [] h = refl
drop_past zero (t ∷ txs) h = absurd (omega (arith, h))
drop_past (suc n) [] h = refl
drop_past (suc n) (t ∷ txs) h = drop_past n txs (omega (arith, h))

take_past :
    (a b : ℕ) (txs : List ExplorerTx) → length txs ≤ a → length txs ≤ b → take a txs ≡ take b txs
take_past a b txs h k = take_all a txs h ∙ sym (take_all b txs k)

-- A page within the range of an int.
page_of-pos :
    (txs : List ExplorerTx) (cursor limit : ℕ)
    → cursor + limit < 9223372036854775808
    → page_of txs (pos cursor) (pos limit) ≡ (
      take limit (drop cursor txs),
      if ltb (cursor + limit) (length txs) then some (pos (cursor + limit)) else none,
    )
unfolding page_of
page_of-pos txs cursor limit h =
    let sum = add_int-pos cursor limit h in
    let rest = drop cursor txs in
    let left = length-drop cursor txs in
    elim (Bool-cases (ltb cursor (length txs))) [
      | inl inside ↦ elim (Bool-cases (ltb (length txs) (cursor + limit))) [
        | inl over ↦
            let same =
              take_past (length txs - cursor) limit rest (omega (arith, left))
                (ground (arith, left, over)) in
            ground (arith, sum, same)
        | inr within ↦
            let same = ap (λ n. take n rest) (minus_same cursor limit) in ground (arith, sum, same)
      ]
      | inr outside ↦
          let none_left = drop_past cursor txs (ground (arith, outside)) in
          let same = ap (take limit) none_left ∙ take-nil limit in ground (arith, sum, same)
    ]

-- From a cursor within the list, the pages that follow are the rest of the list.
read_pages-drop :
    (fuel : ℕ) (txs : List ExplorerTx) (cursor limit : ℕ)
    → 1 ≤ limit
    → length txs + limit < 9223372036854775808
    → length txs < cursor + fuel
    → cursor ≤ length txs
    → read_pages fuel txs (pos cursor) (pos limit) ≡ drop cursor txs
unfolding read_pages
read_pages-drop zero txs cursor limit l b f c = absurd (omega (arith, f, c))
read_pages-drop (suc fuel) txs cursor limit l b f c =
    let here = page_of-pos txs cursor limit (omega (arith, b, c)) in
    let split =
      ap (λ l. take limit (drop cursor txs) ++ l) (sym (drop-drop limit cursor txs))
      ∙ take-append-drop limit (drop cursor txs) in
    elim (Bool-cases (ltb (cursor + limit) (length txs))) [
      | inl more ↦
          rw
            (
              here,
              more,
              read_pages-drop fuel txs (cursor + limit) limit l b (omega (arith, f, l))
                  (ground (arith, more)),
            )
            split
      | inr last ↦
          rw (here, last)
            (ap (λ l. take limit (drop cursor txs) ++ l)
                (sym (drop_past (cursor + limit) txs (ground (arith, last))))
              ∙ split)
    ]

-- The pages of a list of transactions, read from the first one on at the cursor that each page gives and
-- by pages of at least one entry, are together that list, in its order and each entry as often as it is
-- listed, as long as no cursor overflows an int.
pub read_pages_all :
    (txs : List ExplorerTx) (limit : ℕ)
    → 1 ≤ limit
    → length txs + limit < 9223372036854775808
    → read_pages (length txs + 1) txs (pos 0) (pos limit) ≡ txs
read_pages_all txs limit l b =
    read_pages-drop (length txs + 1) txs 0 limit l b (omega arith) (omega arith)
