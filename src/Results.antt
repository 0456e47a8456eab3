-- ===== src/Results.antt =====
-- Python exceptions as values: what a function returns or raises.
use emissary.Prelude.{Bool, true, false, if◌then◌else◌, ◌≡◌, refl, ◌⊎◌, inl, inr}

pub data Error : Type 0 where
  runtime_error assertion_error key_error value_error index_error attribute_error not_implemented
        type_error :
      Error
  out_of_fuel : Error

pub data Result {ℓ} (A : Type ℓ) : Type ℓ where
  ok : A → Result A
  raised : Error → Result A

-- A statement that raises ends the function.
infixl 5 ◌>>=◌ ◌>>◌
abbrev pub ◌>>=◌ {ℓ κ} : {A : Type ℓ} {B : Type κ} → Result A → (A → Result B) → Result B
◌>>=◌ (raised error) next = raised error
◌>>=◌ (ok value) next = next value

abbrev pub ◌>>◌ {ℓ κ} : {A : Type ℓ} {B : Type κ} → Result A → Result B → Result B
◌>>◌ statement next = elim statement [ ok _ ↦ next | raised error ↦ raised error ]

abbrev pub Fails {ℓ} : {A : Type ℓ} → Result A → Type ℓ
Fails r = (error : Error) × (r ≡ raised error)

pub Result-cases {ℓ} :
    {A : Type ℓ} (r : Result A) → ((a : A) × (r ≡ ok a)) ⊎ ((e : Error) × (r ≡ raised e))
Result-cases (ok a) = inl (a, refl)
Result-cases (raised e) = inr (e, refl)

-- A chain that returned, taken apart.
pub >>=-eq-ok {ℓ κ} :
    {A : Type ℓ} {B : Type κ} (statement : Result A) (next : A → Result B) {result : B}
    → (statement >>= next) ≡ ok result
    → (value : A) × (statement ≡ ok value) × (next value ≡ ok result)
>>=-eq-ok (raised error) next h = cc
>>=-eq-ok (ok value) next h = (value, refl, h)

-- A run that returns a value with a property.
abbrev pub Returns {ℓ κ} : {A : Type ℓ} → (A → Type κ) → Result A → Type (ℓ ⊔ κ)
Returns {A = A} P r = (a : A) × (r ≡ ok a) × P a

pub returns {ℓ κ} : {A : Type ℓ} (P : A → Type κ) (a : A) → P a → Returns P (ok a)
returns P a p = (a, refl, p)

pub >>=-Returns {ℓ κ μ ν} :
    {A : Type ℓ} {B : Type κ} (P : A → Type μ) (Q : B → Type ν) (m : Result A) (f : A → Result B)
    → Returns P m
    → ((a : A) → P a → Returns Q (f a))
    → Returns Q (m >>= f)
>>=-Returns P Q m f (a, ran, p) next = rw ran (next a p)

pub if-Returns {ℓ κ} :
    {A : Type ℓ} (P : A → Type κ) (b : Bool) (x y : Result A)
    → (b ≡ true → Returns P x)
    → (b ≡ false → Returns P y)
    → Returns P (if b then x else y)
if-Returns P true x y h k = h refl
if-Returns P false x y h k = k refl
