-- ===== src/Prelude/Run.antt =====
-- Runs of Go code. `panic` is a run that does not return to its caller: a run-time panic (an index
-- out of range, a division by zero, a nil dereference), or a loop that has used up its fuel.
use mathlib.Core.Path.{◌≡◌, refl, ap, ◌∙◌, subst}
use mathlib.Core.Logic.{◌⊎◌, inl, inr}
use mathlib.Core.Bool.{Bool, true, false}
use mathlib.Core.Option.{Option, none, some}

pub data Run {ℓ} (A : Type ℓ) : Type ℓ where
  done : A → Run A
  panic : Run A

infixl 5 ◌>>=◌
abbrev pub ◌>>=◌ {ℓ κ} : {A : Type ℓ} {B : Type κ} → Run A → (A → Run B) → Run B
done a >>= f = f a
panic >>= f = panic

pub Run-cases {ℓ} : {A : Type ℓ} (m : Run A) → (m ≡ panic) ⊎ ((a : A) × (m ≡ done a))
Run-cases (done a) = inr (a, refl)
Run-cases panic = inl refl

-- Inversion of a bind that returns.
pub >>=-eq-done {ℓ κ} :
    {A : Type ℓ} {B : Type κ} (m : Run A) (f : A → Run B) {b : B}
    → (m >>= f) ≡ done b
    → (a : A) × (m ≡ done a) × (f a ≡ done b)
>>=-eq-done (done a) f h = (a, refl, h)
>>=-eq-done panic f h = cc

-- The converse: a bind of a run that returns.
pub bind-done {ℓ κ} :
    {A : Type ℓ} {B : Type κ} {m : Run A} {a : A} (f : A → Run B) {r : Run B}
    → m ≡ done a
    → f a ≡ r
    → (m >>= f) ≡ r
bind-done f e h = ap (λ m. m >>= f) e ∙ h

pub done_inj {ℓ} : {A : Type ℓ} {a b : A} → ◌≡◌ {A = Run A} (done a) (done b) → a ≡ b
done_inj e = cc

-- What holds of the result of a run, if it returns.
unfoldable pub After {ℓ κ} : {A : Type ℓ} → (A → Type κ) → Run A → Type κ
After P (done a) = P a
After P panic = Unit

pub After-return {ℓ κ} : {A : Type ℓ} (P : A → Type κ) {a : A} → P a → After P (done a)
unfolding After
After-return P h = h

pub After-panic {ℓ κ} : {A : Type ℓ} (P : A → Type κ) → After P panic
unfolding After
After-panic P = tt

pub After-done {ℓ κ} :
    {A : Type ℓ} (P : A → Type κ) {m : Run A} {a : A} → After P m → m ≡ done a → P a
unfolding After
After-done P h e = subst (λ m. After P m) e h

pub After->>= {ℓ κ μ ν} :
    {A : Type ℓ} {B : Type κ} (P : A → Type μ) (Q : B → Type ν) (m : Run A) (f : A → Run B)
    → After P m
    → ((a : A) → P a → After Q (f a))
    → After Q (m >>= f)
unfolding After
After->>= P Q (done a) f h k = k a h
After->>= P Q panic f h k = tt

pub After-any {ℓ κ ν} :
    {A : Type ℓ} {B : Type κ} (Q : B → Type ν) (m : Run A) (f : A → Run B)
    → ((a : A) → After Q (f a))
    → After Q (m >>= f)
unfolding After
After-any Q (done a) f k = k a
After-any Q panic f k = tt

pub After-if {ℓ κ} :
    {A : Type ℓ} (P : A → Type κ) (b : Bool) (m n : Run A)
    → After P m
    → After P n
    → After P (elim b [ false ↦ m | true ↦ n ])
unfolding After
After-if P false m n h k = h
After-if P true m n h k = k

pub After-option {ℓ κ μ} :
    {A : Type ℓ} {B : Type κ} (P : B → Type μ) (o : Option A) (m : Run B) (f : A → Run B)
    → After P m
    → ((a : A) → After P (f a))
    → After P (elim o [ none ↦ m | some a ↦ f a ])
unfolding After
After-option P none m f h k = h
After-option P (some a) m f h k = k a

-- The same, with the equations that the two cases know.
pub After-option-known {ℓ κ μ} :
    {A : Type ℓ} {B : Type κ} (P : B → Type μ) (o : Option A) (m : Run B) (f : A → Run B)
    → (o ≡ none → After P m)
    → ((a : A) → o ≡ some a → After P (f a))
    → After P (elim o [ none ↦ m | some a ↦ f a ])
unfolding After
After-option-known P none m f h k = h refl
After-option-known P (some a) m f h k = k a refl

pub After-if-known {ℓ κ} :
    {A : Type ℓ} (P : A → Type κ) (b : Bool) (m n : Run A)
    → (b ≡ false → After P m)
    → (b ≡ true → After P n)
    → After P (elim b [ false ↦ m | true ↦ n ])
After-if-known P false m n h k = h refl
After-if-known P true m n h k = k refl

-- The equation with what a run returns, to keep it after a bind.
pub After-self {ℓ} : {A : Type ℓ} (m : Run A) → After (λ a. m ≡ done a) m
unfolding After
After-self (done a) = refl
After-self panic = tt

pub After-map {ℓ κ μ} :
    {A : Type ℓ} (P : A → Type κ) (Q : A → Type μ) (m : Run A)
    → After P m
    → ((a : A) → P a → Q a)
    → After Q m
unfolding After
After-map P Q (done a) h k = k a h
After-map P Q panic h k = tt

-- A test and the two results that return.
pub After-if-done {ℓ κ} :
    {A : Type ℓ} (P : A → Type κ) (b : Bool) (x y : A)
    → P x
    → P y
    → After P (elim b [ false ↦ done x | true ↦ done y ])
After-if-done P b x y h k = After-if P b (done x) (done y) (After-return P h) (After-return P k)

-- A run whose next branch is known.
pub on-true {ℓ} :
    {A : Type ℓ} {b : Bool} (m n : Run A) {r : Run A}
    → b ≡ true
    → n ≡ r
    → elim b [ false ↦ m | true ↦ n ] ≡ r
on-true m n e h = ap (λ b. elim b as (λ _. Run _) [ false ↦ m | true ↦ n ]) e ∙ h

pub on-false {ℓ} :
    {A : Type ℓ} {b : Bool} (m n : Run A) {r : Run A}
    → b ≡ false
    → m ≡ r
    → elim b [ false ↦ m | true ↦ n ] ≡ r
on-false m n e h = ap (λ b. elim b as (λ _. Run _) [ false ↦ m | true ↦ n ]) e ∙ h

pub on-some {ℓ κ} :
    {A : Type ℓ} {B : Type κ} {o : Option A} {a : A} (m : Run B) (f : A → Run B) {r : Run B}
    → o ≡ some a
    → f a ≡ r
    → elim o [ none ↦ m | some x ↦ f x ] ≡ r
on-some m f e h = ap (λ o. elim o as (λ _. Run _) [ none ↦ m | some x ↦ f x ]) e ∙ h

pub on-none {ℓ κ} :
    {A : Type ℓ} {B : Type κ} {o : Option A} (m : Run B) (f : A → Run B) {r : Run B}
    → o ≡ none
    → m ≡ r
    → elim o [ none ↦ m | some x ↦ f x ] ≡ r
on-none m f e h = ap (λ o. elim o as (λ _. Run _) [ none ↦ m | some x ↦ f x ]) e ∙ h
