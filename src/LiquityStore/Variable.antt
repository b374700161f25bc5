-- ===== src/LiquityStore/Variable.antt =====
-- One variable of the state: what `_updateIfChanged` and `difference` make of it.
use liquity.Common.{ℕ, ◌≡◌, ◌↔◌, refl, arith, Bool, true, Option, none, some, ◌==◌, if◌then◌else◌}
use liquity.Decimal.{eq}
use liquity.Fees
use liquity.Fees.{Fees}
use liquity.LiquityStore.State.{Ref, unregistered, registered, frontend_status_equals}
use liquity.LiquityStore.Reduce.{
  update_if_changed, silently_update_if_changed, update_number, changed, changed_number,
}

-- A test that decides equality.
abbrev pub Decides : {A : Type 0} → (A → A → Bool) → Type 0
Decides {A} equals = (a b : A) → (equals a b ≡ true) ↔ (a ≡ b)

pub eq_lem : Decides eq
eq_lem a b = ground arith

pub frontend_status_equals_iff : Decides frontend_status_equals
unfolding frontend_status_equals
frontend_status_equals_iff unregistered unregistered = ground arith
frontend_status_equals_iff unregistered (registered r) = ground arith
frontend_status_equals_iff (registered r) unregistered = ground arith
frontend_status_equals_iff (registered r) (registered s) = ground arith

pub fees_equals_iff : Decides Fees.equals
unfolding Fees.equals
fees_equals_iff f g = ground arith

-- One identity is one value: the object of an update is the one of the state, or another.
abbrev pub IsCoherent : {A : Type 0} → Ref A → Option (Ref A) → Type 0
IsCoherent prev none = Unit
IsCoherent prev (some next) = prev.identity ≡ next.identity → prev.value ≡ next.value

-- The part of an update that says something new.
abbrev pub news : {A : Type 0} → (A → A → Bool) → Ref A → Option (Ref A) → Option (Ref A)
news equals prev none = none
news equals prev (some next) = if equals prev.value next.value then none else some next

abbrev pub news_number : ℕ → Option ℕ → Option ℕ
news_number prev none = none
news_number prev (some next) = if prev == next then none else some next

-- The value that an update asks for.
abbrev pub wanted : {A : Type 0} → Ref A → Option (Ref A) → A
wanted prev none = prev.value
wanted prev (some next) = next.value

abbrev pub wanted_number : ℕ → Option ℕ → ℕ
wanted_number prev none = prev
wanted_number prev (some next) = next

module _ {A : Type 0} {equals : A → A → Bool} (decides : Decides equals) where
  pub changed-update :
      (prev : Ref A) (next : Option (Ref A))
      → IsCoherent prev next
      → changed (update_if_changed equals prev next) prev ≡ news equals prev next
  unfolding update_if_changed
  changed-update prev none c = ground arith
  changed-update prev (some next) c = ground (arith, decides prev.value next.value)

  pub changed-silently :
      (prev : Ref A) (next : Option (Ref A))
      → IsCoherent prev next
      → changed (silently_update_if_changed equals prev next) prev ≡ news equals prev next
  unfolding silently_update_if_changed
  changed-silently prev none c = ground arith
  changed-silently prev (some next) c = ground (arith, decides prev.value next.value)

  pub value-update :
      (prev : Ref A) (next : Option (Ref A))
      → (update_if_changed equals prev next).value ≡ wanted prev next
  unfolding update_if_changed
  value-update prev none = refl
  value-update prev (some next) = ground (arith, decides prev.value next.value)

  pub value-silently :
      (prev : Ref A) (next : Option (Ref A))
      → (silently_update_if_changed equals prev next).value ≡ wanted prev next
  unfolding silently_update_if_changed
  value-silently prev none = refl
  value-silently prev (some next) = ground (arith, decides prev.value next.value)

pub changed_number-update :
    (prev : ℕ) (next : Option ℕ)
    → changed_number (update_number prev next) prev ≡ news_number prev next
unfolding update_number
changed_number-update prev none = ground arith
changed_number-update prev (some next) = ground arith

pub update_number-wanted :
    (prev : ℕ) (next : Option ℕ) → update_number prev next ≡ wanted_number prev next
unfolding update_number
update_number-wanted prev none = refl
update_number-wanted prev (some next) = ground arith
