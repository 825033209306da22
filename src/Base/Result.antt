-- ===== src/Base/Result.antt =====
-- C++ exceptions as values: what a call returns, or what it throws.
use Prim.Native.Nat.{ℕ}
use mathlib.Core.Path.{◌≡◌, refl}
use mathlib.Core.Logic.{◌⊎◌, inl, inr}
use mathlib.Core.Bool.{Bool}
use rewofs.Base.Tests.{if◌then◌else◌}
use mathlib.Core.Option.{Option, none, some}

-- `std::system_error{code, std::generic_category()}`, any other `std::exception`, and behaviour
-- that the language does not define.
pub data Exception : Type 0 where
  system_error : ℕ → Exception
  runtime_error : Exception
  undefined : Exception

pub data Result {ℓ} (A : Type ℓ) : Type ℓ where
  ok : A → Result A
  raise : Exception → Result A

-- The values of the Linux `errno` constants that the source names.
abbrev pub enoent : ℕ
enoent = 2

abbrev pub eio : ℕ
eio = 5

abbrev pub ebadf : ℕ
ebadf = 9

abbrev pub eacces : ℕ
eacces = 13

abbrev pub eexist : ℕ
eexist = 17

abbrev pub einval : ℕ
einval = 22

abbrev pub enotempty : ℕ
enotempty = 39

abbrev pub ehostunreach : ℕ
ehostunreach = 113

-- The rest of a function body after a call that may throw.
infixl 5 ◌>>=◌ ◌>>◌
abbrev pub ◌>>=◌ {ℓ κ} : {B : Type κ} {A : Type ℓ} → Result A → (A → Result B) → Result B
raise e >>= rest = raise e
ok a >>= rest = rest a

-- `if (test) { throw e; }`
abbrev pub throw_if : Bool → Exception → Result (Unit {0})
throw_if test e = if test then raise e else ok tt

abbrev pub ◌>>◌ {ℓ} : {B : Type ℓ} → Result (Unit {0}) → Result B → Result B
raise e >> rest = raise e
ok _ >> rest = rest

abbrev pub or_throw {ℓ} : {A : Type ℓ} → Exception → Option A → Result A
or_throw e found = elim found [ some a ↦ ok a | none ↦ raise e ]

pub raise-ne-ok {ℓ} : {A : Type ℓ} (e : Exception) (a : A) → raise e ≡ ok a → ⊥
raise-ne-ok e a h = cc

pub ok-injective {ℓ} : {A : Type ℓ} (a b : A) → ok a ≡ ok b → a ≡ b
ok-injective a b h = cc

pub Result-cases {ℓ} :
    {A : Type ℓ} (r : Result A) → ((a : A) × (r ≡ ok a)) ⊎ ((e : Exception) × (r ≡ raise e))
Result-cases (ok a) = inl (a, refl)
Result-cases (raise e) = inr (e, refl)
