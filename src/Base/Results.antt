-- ===== src/Base/Results.antt =====
-- The outcome of code that reads and writes memory: a value, or an access outside its object.
use mathlib.Core.Path.{◌≡◌, refl}
use mathlib.Core.Logic.{◌⊎◌, inl, inr}

-- `read_overrun`: a read past the end of the object that holds the text.
-- `write_overrun`: a write past the end of the destination. The next two are uses of a pointer to
-- an object that is gone, and of a null pointer; the last is a result that does not fit an `int`.
pub data Fault : Type 0 where
  read_overrun write_overrun use_after_free null_dereference int_overflow : Fault

pub data Result {ℓ} (Value : Type ℓ) : Type ℓ where
  fault : Fault → Result Value
  ok : Value → Result Value

-- The next step of a run, unless an access went wrong before.
infixl 5 ◌>>=◌
abbrev pub ◌>>=◌ {κ ℓ} : {V : Type κ} {W : Type ℓ} → Result V → (V → Result W) → Result W
fault why >>= next = fault why
ok v >>= next = next v

pub Result-cases {ℓ} :
    {V : Type ℓ} (r : Result V) → ((v : V) × (r ≡ ok v)) ⊎ ((why : Fault) × (r ≡ fault why))
Result-cases (fault why) = inr (why, refl)
Result-cases (ok v) = inl (v, refl)

-- A chain that ends well has a first step that does, and a rest that starts from its value.
pub >>=-eq-ok {κ ℓ} :
    {V : Type κ} {W : Type ℓ} (r : Result V) (next : V → Result W) {w : W}
    → (r >>= next) ≡ ok w
    → (v : V) × (r ≡ ok v) × (next v ≡ ok w)
>>=-eq-ok (fault why) next whole = cc
>>=-eq-ok (ok v) next whole = (v, refl, whole)

-- What holds of the value, if there is one, and the rule for a chain.
abbrev pub Ensures {ℓ κ} : {A : Type ℓ} → (A → Type κ) → Result A → Type (ℓ ⊔ κ)
Ensures {A} P r = (a : A) → r ≡ ok a → P a

pub >>=-Ensures {ℓ κ υ} :
    {A : Type ℓ} {B : Type κ} (P : B → Type υ) (m : Result A) (f : A → Result B)
    → ((a : A) → m ≡ ok a → Ensures P (f a))
    → Ensures P (m >>= f)
>>=-Ensures P (ok a) f h = h a refl
>>=-Ensures P (fault e) f h = λ b e. cc

-- What goes wrong early goes wrong whatever would have come after.
pub >>=-fault {κ ℓ υ} :
    {U : Type κ} {V : Type ℓ} {W : Type υ} (r : Result U) (next : U → Result V)
    (last : V → Result W) {why : Fault}
    → (r >>= next) ≡ fault why
    → (r >>= λ u. next u >>= last) ≡ fault why
>>=-fault (fault w) next last e = cc
>>=-fault (ok u) next last e = rw e refl
