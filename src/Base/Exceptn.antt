-- ===== src/Base/Exceptn.antt =====
-- The exceptions of utils/exceptn.h that the modelled functions throw, and the result of a call.
use php_botan.Base.Tests.{if◌then◌else◌}
use mathlib.Core.Path.{◌≡◌, refl}
use mathlib.Core.Bool.{Bool, true, false}

pub data Exception : Type 0 where
  decoding_error invalid_argument format_error invalid_oid invalid_algorithm_name : Exception
  out_of_range invalid_state ber_decoding_error encoding_error invalid_block_size : Exception

-- A call throws or returns.
pub data Result {ℓ} (A : Type ℓ) : Type ℓ where
  throw : Exception → Result A
  ok : A → Result A

-- What follows a call, unless it throws.
infixl 5 ◌>>=◌
abbrev pub ◌>>=◌ {ℓ} : {A B : Type ℓ} → Result A → (A → Result B) → Result B
call >>= next = elim call [ throw e ↦ throw e | ok a ↦ next a ]

-- If two calls in a row did not throw, neither did the first.
pub >>=-eq-ok {ℓ} :
    {A B : Type ℓ} (next : A → Result B) (call : Result A) {b : B}
    → (call >>= next) ≡ ok b
    → (a : A) × (call ≡ ok a) × (next a ≡ ok b)
>>=-eq-ok next (throw e) returned = cc
>>=-eq-ok next (ok a) returned = (a, refl, returned)

-- A guarded call that did not throw: the guard was false.
pub guard-eq-ok {ℓ} :
    {A : Type ℓ} (t : Bool) (e : Exception) (r : Result A) {a : A}
    → (if t then throw e else r) ≡ ok a
    → (t ≡ false) × (r ≡ ok a)
guard-eq-ok true e r h = cc
guard-eq-ok false e r h = (refl, h)
