-- ===== src/Common/Results.antt =====
-- A call that returns or throws: the errors are the `throw` statements and assertions of lib-base,
-- lib-ethers and providers, the null values of the indexer, and the failure of a call to the outside.
use mathlib.Core.Path.{◌≡◌, refl}
use mathlib.Core.Bool.{Bool, true, false}
use mathlib.Core.Option.{some}
use liquity.Common.Tests.{if◌then◌else◌}

pub data Error : Type 0 where
  -- the constructor of `Decimal`: "negatives not supported by Decimal"
  negative_decimal : Error
  -- `Decimal._fromString`: "bad decimal format"
  bad_decimal_format : Error
  -- a failed `assert`
  assertion_failed : Error
  -- `Trove.netDebt`: "netDebt should not be used when debt < …"
  net_debt_below_reserve : Error
  -- `Trove.apply`: "Can't create onto existing Trove", "Can't close empty Trove"
  create_onto_existing : Error
  close_empty : Error
  -- `_normalizeTroveCreation`: "property … not allowed", "property … missing"
  creation_key_not_allowed : Error
  creation_key_missing : Error
  -- `_normalizeTroveAdjustment`: "property … not allowed", "… can't be present at the same time",
  -- "must include at least one non-zero parameter"
  adjustment_key_not_allowed : Error
  both_collateral_changes : Error
  both_debt_changes : Error
  no_adjustment : Error
  -- the constructor of `StabilityDeposit`: "currentLUSD can't be greater than initialLUSD"
  current_above_initial : Error
  -- a contract or the provider does not answer, or a number does not fit
  call_failed : Error
  -- `set chainId`: "can only set chainId once"
  chain_id_set_twice : Error
  -- `_requireAddress`, `_requireFrontendAddress`: "A … address is required"
  user_address_required : Error
  frontend_address_required : Error
  -- `userTroveStatusFrom`: "invalid backendStatus …"
  invalid_backend_status : Error
  -- `getTroves`: "… must be an integer", "… must not be negative", "sortedBy must be one of: …"
  must_be_integer : Error
  must_not_be_negative : Error
  invalid_sorting : Error
  -- the indexer: a value or an entity is null where the code takes it not to be
  null_value : Error

pub data Result {ℓ} (A : Type ℓ) : Type ℓ where
  ok : A → Result A
  err : Error → Result A

pub ok-injective {ℓ} : {A : Type ℓ} {x y : A} → ok x ≡ ok y → x ≡ y
ok-injective p = cc

pub some-injective {ℓ} : {A : Type ℓ} {x y : A} → some x ≡ some y → x ≡ y
some-injective p = cc

-- Both branches have the property.
pub in_either {ℓ} :
    {A : Type 0} (P : A → Type ℓ) (c : Bool) (a b : A) → P a → P b → P (if c then a else b)
in_either P true a b p q = p
in_either P false a b p q = q

-- `if (!condition) throw error`
abbrev pub require : (condition : Bool) → Error → Result (Unit {0})
require false error = err error
require true error = ok tt

-- A statement after one that may throw, with its value or without.
infixl 5 ◌>>=◌ ◌>>◌
abbrev pub ◌>>=◌ {ℓ} : {B : Type ℓ} {A : Type 0} → Result A → (A → Result B) → Result B
err thrown >>= next = err thrown
ok value >>= next = next value

abbrev pub ◌>>◌ {ℓ} : {B : Type ℓ} {A : Type 0} → Result A → Result B → Result B
err thrown >> next = err thrown
ok _ >> next = next

-- A call that succeeds has succeeded at its first statement.
pub bind-ok :
    {A B : Type 0} (m : Result A) {f : A → Result B} {b : B}
    → (m >>= f) ≡ ok b
    → (a : A) × (m ≡ ok a) × (f a ≡ ok b)
bind-ok (err e) h = absurd cc
bind-ok (ok a) h = (a, refl, h)
