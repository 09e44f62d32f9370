-- ===== src/Result.antt =====
-- The exceptions of app/errors.py and of Python that the modelled code raises, as values.
use parcelpilot_ops_copilot.Prelude.{String, ◌≡◌, refl, ◌⊎◌, inl, inr}
use parcelpilot_ops_copilot.Models.{Role, ClauseTopic, Date}

pub data EntityType : Type 0 where
  account_entity order_entity ticket_entity source_entity : EntityType

-- Each f-string of a message is a constructor that holds what it prints.
pub data Denial : Type 0 where
  cannot_access : Role → EntityType → String → Denial
  cross_account_detection : Denial

pub data Error : Type 0 where
  unknown_entity : EntityType → String → Error
  not_authorized : Denial → Error
  no_default_no_agreement : ClauseTopic → String → Error
  inactive_no_default : String → Date → ClauseTopic → Error
  key_error : String → Error
  assertion_error : Error
  type_error : Error
  integrity_error : Error
  value_error : String → Error
  -- InvalidFilterError
  invalid_filter : Error

pub data Result {ℓ} (A : Type ℓ) : Type ℓ where
  ok : A → Result A
  raise : Error → Result A

pub Result-cases {ℓ} :
    {A : Type ℓ} (m : Result A) → ((a : A) × (m ≡ ok a)) ⊎ ((e : Error) × (m ≡ raise e))
Result-cases (ok a) = inl (a, refl)
Result-cases (raise e) = inr (e, refl)

pub ok-injective {ℓ} : {A : Type ℓ} {a b : A} → ok a ≡ ok b → a ≡ b
ok-injective h = cc

infixl 5 ◌>>=◌ ◌>>◌
-- A call, and what follows it if it returns.
abbrev pub ◌>>=◌ {ℓ κ} :
    {Value : Type ℓ} {Answer : Type κ} → Result Value → (Value → Result Answer) → Result Answer
raise e >>= rest = raise e
ok value >>= rest = rest value

-- The same, for a call made for its exception alone.
abbrev pub ◌>>◌ {ℓ} : {Answer : Type ℓ} → Result (Unit {0}) → Result Answer → Result Answer
check >> rest = check >>= λ passed. rest

-- Inversion of a chain that returned.
pub >>=-eq-ok {ℓ κ} :
    {Value : Type ℓ} {Answer : Type κ} (call : Result Value) (rest : Value → Result Answer)
    {answer : Answer}
    → (call >>= rest) ≡ ok answer
    → (value : Value) × (call ≡ ok value) × (rest value ≡ ok answer)
>>=-eq-ok (raise e) rest returned = cc
>>=-eq-ok (ok value) rest returned = (value, refl, returned)
