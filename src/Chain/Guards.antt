-- ===== src/Chain/Guards.antt =====
-- Chains of tests that return false early, read in both directions.
use pokoinpos.Prelude.{
  ℕ, Bool, true, false, Option, none, some, ◌≡◌, refl, ◌≤◌, ltb, ◌∙◌, ap, arith,
}
use pokoinpos.Prelude.Int.{ℤ, pos, ◌≤ℤ◌, leb_ℤ, eqb_ℤ, int_laws}
use pokoinpos.Prelude.Run.{Run, done, panic}

-- Inversions of a test that returns true, by what it tests first.
pub bool-guard :
    (b : Bool) (m : Run Bool)
    → elim b [ false ↦ done false | true ↦ m ] ≡ done true
    → (b ≡ true) × (m ≡ done true)
bool-guard true m h = (refl, h)
bool-guard false m h = cc

pub option-guard {ℓ} :
    {A : Type ℓ} (o : Option A) (f : A → Run Bool)
    → elim o [ none ↦ done false | some a ↦ f a ] ≡ done true
    → (a : A) × (o ≡ some a) × (f a ≡ done true)
option-guard (some a) f h = (a, refl, h)
option-guard none f h = cc

pub option-present {ℓ} :
    {A : Type ℓ} (o : Option A) (f : A → Run Bool)
    → elim o [ none ↦ panic | some a ↦ f a ] ≡ done true
    → (a : A) × (o ≡ some a) × (f a ≡ done true)
option-present (some a) f h = (a, refl, h)
option-present none f h = cc

pub no-guard :
    (b : Bool) (m : Run Bool)
    → elim b [ true ↦ done false | false ↦ m ] ≡ done true
    → (b ≡ false) × (m ≡ done true)
no-guard false m h = (refl, h)
no-guard true m h = cc

pub not-ltb-le : {n : ℕ} → ltb 16 n ≡ false → n ≤ 16
not-ltb-le h = ground arith

-- The converses.
pub ap-guard :
    {b : Bool} {m r : Run Bool} → b ≡ true → m ≡ r → elim b [ false ↦ done false | true ↦ m ] ≡ r
ap-guard {m = m} e h = ap (λ b. elim b as (λ _. Run Bool) [ false ↦ done false | true ↦ m ]) e ∙ h

pub ap-no-guard :
    {b : Bool} {m r : Run Bool} → b ≡ false → m ≡ r → elim b [ true ↦ done false | false ↦ m ] ≡ r
ap-no-guard {m = m} e h =
    ap (λ b. elim b as (λ _. Run Bool) [ true ↦ done false | false ↦ m ]) e ∙ h

pub some-guard {ℓ} :
    {A : Type ℓ} {o : Option A} {a : A} (f : A → Run Bool) {r : Run Bool}
    → o ≡ some a
    → f a ≡ r
    → elim o [ none ↦ done false | some x ↦ f x ] ≡ r
some-guard f e h = ap (λ o. elim o as (λ _. Run Bool) [ none ↦ done false | some x ↦ f x ]) e ∙ h

pub some-present {ℓ} :
    {A : Type ℓ} {o : Option A} {a : A} (f : A → Run Bool) {r : Run Bool}
    → o ≡ some a
    → f a ≡ r
    → elim o [ none ↦ panic | some x ↦ f x ] ≡ r
some-present f e h = ap (λ o. elim o as (λ _. Run Bool) [ none ↦ panic | some x ↦ f x ]) e ∙ h

pub pos-not-leb : (z : ℤ) → pos 1 ≤ℤ z → leb_ℤ z (pos 0) ≡ false
pos-not-leb z h = ground arith

pub le-not-ltb : (n : ℕ) → n ≤ 16 → ltb 16 n ≡ false
le-not-ltb n h = ground arith

pub eqb_ℤ-refl : (a : ℤ) → eqb_ℤ a a ≡ true
eqb_ℤ-refl a = ground arith

pub not-leb-pos : (z : ℤ) → leb_ℤ z (pos 0) ≡ false → pos 1 ≤ℤ z
not-leb-pos z h = ground arith

pub eqb_ℤ-eq : (a b : ℤ) → eqb_ℤ a b ≡ true → a ≡ b
eqb_ℤ-eq a b h = grind (int_laws)
