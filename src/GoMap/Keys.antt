-- ===== src/GoMap/Keys.antt =====
-- A predicate on every value of a map, and the writes and reads of a map.
use pokoinpos.Prelude.{◌≡◌, some, [], ◌∷◌, inl, inr, Bool-cases, subst}
use pokoinpos.Text.{Text, text_eq}
use pokoinpos.GoMap.{Map, lookup, insert, delete}

some-eq {ℓ} : {V : Type ℓ} {v w : V} → some v ≡ some w → v ≡ w
some-eq e = cc

module _ {ℓ κ} {V : Type ℓ} (P : V → Type κ) where
  -- `P` at every value.
  abbrev pub Values : Map V → Type κ
  Values [] = Unit
  Values ((k, v) ∷ m) = P v × Values m

  pub Values-lookup : (k : Text) (m : Map V) {v : V} → Values m → lookup k m ≡ some v → P v
  unfolding lookup
  Values-lookup k [] h e = cc
  Values-lookup k ((j, w) ∷ m) h e = elim (Bool-cases (text_eq j k)) [
    | inl t ↦ subst P (some-eq (rw t at e)) h.0
    | inr f ↦ Values-lookup k m h.1 (rw f at e)
  ]

  pub Values-insert : (k : Text) (v : V) (m : Map V) → Values m → P v → Values (insert k v m)
  unfolding insert
  Values-insert k v [] h p = (p, tt)
  Values-insert k v ((j, w) ∷ m) h p = elim (Bool-cases (text_eq j k)) [
    | inl t ↦ rw t (p, h.1)
    | inr f ↦ rw f (h.0, Values-insert k v m h.1 p)
  ]

  pub Values-delete : (k : Text) (m : Map V) → Values m → Values (delete k m)
  unfolding delete
  Values-delete k [] h = tt
  Values-delete k ((j, w) ∷ m) h = elim (Bool-cases (text_eq j k)) [
    | inl t ↦ rw t (Values-delete k m h.1)
    | inr f ↦ rw f (h.0, Values-delete k m h.1)
  ]
