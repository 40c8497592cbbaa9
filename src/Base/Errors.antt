-- ===== src/Base/Errors.antt =====
-- errors.py and the built-in exceptions: what a call raises, beside what it returns.
use mathlib.Core.Path.{◌≡◌, refl, ap}
use mathlib.Core.Bool.{Bool, true, false}
use mathlib.Core.Option.{Option, none, some}

-- The exception classes that the modelled code raises.
pub data Error : Type 0 where
  policy_denied idempotency_conflict concurrency_conflict integrity_failure : Error
  message_claim_conflict payload_rejected effect_conflict : Error
  value_error key_error index_error stop_iteration : Error

pub data Result {ℓ} (A : Type ℓ) : Type ℓ where
  ok : A → Result A
  err : Error → Result A

-- `if c: raise e`
abbrev pub raise_if : Bool → Error → Result (Unit {0})
raise_if false e = ok tt
raise_if true e = err e

-- `d[k]`, from what `d.get(k)` gives
unfoldable pub or_raise {ℓ} : {A : Type ℓ} → Option A → Error → Result A
or_raise none e = err e
or_raise (some a) e = ok a

-- `default if value is None else value`
abbrev pub or_default {ℓ} : {A : Type ℓ} → Option A → A → A
or_default none a = a
or_default (some b) a = b

infixl 5 ◌>>=◌ ◌>>◌
abbrev pub ◌>>=◌ {ℓ κ} : {A : Type ℓ} {B : Type κ} → Result A → (A → Result B) → Result B
err e >>= f = err e
ok a >>= f = f a

-- For an action whose value is nothing.
abbrev pub ◌>>◌ {ℓ} : {B : Type ℓ} → Result (Unit {0}) → Result B → Result B
m >> k = m >>= λ _. k

-- Inversion of a successful bind.
pub >>=-eq-ok {ℓ κ} :
    {A : Type ℓ} {B : Type κ} (action : Result A) (next : A → Result B) {b : B}
    → (action >>= next) ≡ ok b
    → (first : A) × (action ≡ ok first) × (next first ≡ ok b)
>>=-eq-ok (err e) next h = cc
>>=-eq-ok (ok first) next h = (first, refl, h)

pub ok-injective {ℓ} : {A : Type ℓ} {a b : A} → ok a ≡ ok b → a ≡ b
ok-injective {a = a} h = ap (λ r. elim r [ ok x ↦ x | err e ↦ a ]) h

-- What a successful `d[k]` says of `d.get(k)`.
pub or_raise-eq-ok {ℓ} :
    {A : Type ℓ} (o : Option A) (e : Error) {a : A} → or_raise o e ≡ ok a → o ≡ some a
unfolding or_raise
or_raise-eq-ok none e h = cc
or_raise-eq-ok (some b) e h = cc

-- A guard that lets the rest return did not raise.
pub raise_if-eq-ok {ℓ} :
    {A : Type ℓ} (test : Bool) (e : Error) (rest : Result A) {a : A}
    → (raise_if test e >> rest) ≡ ok a
    → (test ≡ false) × (rest ≡ ok a)
raise_if-eq-ok true e rest h = cc
raise_if-eq-ok false e rest h = (refl, h)

-- A method: what it raises or returns, and the object that it leaves.
abbrev pub Action {ℓ κ} : Type ℓ → Type κ → Type (ℓ ⊔ κ)
Action S A = S → Result A × S
