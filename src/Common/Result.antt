-- ===== src/Common/Result.antt =====
-- `Result<T>` and `ErrorCode` of types.rs, and code that changes a state and may fail.
-- A function on `&mut S` that returns `Result<A>` is an `M S A`: on an error it still returns the
-- state that it had reached, as the source does.
use mathlib.Core.Bool.{Bool, true, false}

-- `ErrorCode::Ok` is `ok_code`.
pub data ErrorCode : Type 0 where
  ok_code io timeout protocol handshake chunk amf unsupported auth internal : ErrorCode

pub data Result {ℓ} (A : Type ℓ) : Type ℓ where
  ok : A → Result A
  err : ErrorCode → Result A

abbrev pub M {ℓ} : Type 0 → Type ℓ → Type ℓ
M S A = S → S × Result A

-- The state and the result of the first part, handed on.
abbrev pub and_then {ℓ κ} :
    {S : Type 0} {A : Type ℓ} {B : Type κ} → S × Result A → (A → M S B) → S × Result B
and_then (s, ok a) f = f a s
and_then (s, err e) f = (s, err e)

infixl 5 ◌>>=◌ ◌>>◌
abbrev pub ◌>>=◌ {ℓ κ} : {S : Type 0} {A : Type ℓ} {B : Type κ} → M S A → (A → M S B) → M S B
◌>>=◌ m f s = and_then (m s) f

abbrev pub ◌>>◌ {ℓ κ} : {S : Type 0} {A : Type ℓ} {B : Type κ} → M S A → M S B → M S B
◌>>◌ m k s = and_then (m s) (λ _. k)

abbrev pub pure {ℓ} : {S : Type 0} {A : Type ℓ} → A → M S A
pure a s = (s, ok a)

abbrev pub fail {ℓ} : {S : Type 0} {A : Type ℓ} → ErrorCode → M S A
fail e s = (s, err e)

-- `.map_err(|_| e)?`
abbrev pub set_err {ℓ} : {S : Type 0} {A : Type ℓ} → ErrorCode → S × Result A → S × Result A
set_err e (s, ok a) = (s, ok a)
set_err e (s, err _) = (s, err e)

abbrev pub map_err {ℓ} : {S : Type 0} {A : Type ℓ} → ErrorCode → M S A → M S A
map_err e m s = set_err e (m s)

-- `if test { return Err(e); }`
abbrev pub fail_if : {S : Type 0} → Bool → ErrorCode → M S (Unit {0})
fail_if true e s = (s, err e)
fail_if false e s = (s, ok tt)

-- `.map(..)` on a result.
abbrev pub discard {ℓ} : {S : Type 0} {A : Type ℓ} → S × Result A → S × Result (Unit {0})
discard (s, ok _) = (s, ok tt)
discard (s, err e) = (s, err e)
