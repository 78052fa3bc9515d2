-- ===== src/Status.antt =====
-- engine/lsmtree/include/lsmtree/db.h and src/util/status.cc: `StatusCode` and `Status`.
-- An operation that fills output parameters and returns a `Status` is a `Result`: `ok` holds the
-- outputs of a success, `err` the failed status, beside which the outputs keep their old values.
mod Code
pub use Code.{StatusCode}
use mizu.Base.{String, Bool, true, false, ◌≡◌, refl, Option, none, some, ◌⊎◌, inl, inr}

pub record Status : Type 0 where
  pub code : StatusCode
  pub message : String

unfoldable pub success : Status
success = record { code = StatusCode.ok; message = "" }

unfoldable pub not_found : String → Status
not_found message = record { code = StatusCode.not_found; message = message }

unfoldable pub invalid_argument : String → Status
invalid_argument message = record { code = StatusCode.invalid_argument; message = message }

unfoldable pub io_error : String → Status
io_error message = record { code = StatusCode.io_error; message = message }

unfoldable pub corruption : String → Status
corruption message = record { code = StatusCode.corruption; message = message }

unfoldable pub not_supported : String → Status
not_supported message = record { code = StatusCode.not_supported; message = message }

pub data Result {ℓ} (A : Type ℓ) : Type ℓ where
  ok : A → Result A
  err : Status → Result A

-- `if (!status.ok()) return status;` behind a call, and the rest of the function.
infixl 5 ◌>>=◌
abbrev pub ◌>>=◌ {ℓ κ} :
    {Out : Type ℓ} {Next : Type κ} → Result Out → (Out → Result Next) → Result Next
err status >>= rest = err status
ok outputs >>= rest = rest outputs

-- `if (!test) return status;`
abbrev pub require : Bool → Status → Result (Unit {0})
require test status = elim test [ true ↦ ok tt | false ↦ err status ]

infixl 5 ◌>>◌
abbrev pub ◌>>◌ {ℓ} : {Next : Type ℓ} → Result (Unit {0}) → Result Next → Result Next
check >> rest = check >>= λ passed. rest

pub Result-cases {ℓ} :
    {A : Type ℓ} (r : Result A) → ((a : A) × (r ≡ ok a)) ⊎ ((s : Status) × (r ≡ err s))
Result-cases (ok a) = inl (a, refl)
Result-cases (err s) = inr (s, refl)

-- A chain that succeeds went through its first call.
pub >>=-eq-ok {ℓ κ} :
    {Out : Type ℓ} {Next : Type κ} (call : Result Out) (rest : Out → Result Next) {end : Next}
    → (call >>= rest) ≡ ok end
    → (mid : Out) × (call ≡ ok mid) × (rest mid ≡ ok end)
>>=-eq-ok (err status) rest e = cc
>>=-eq-ok (ok mid) rest e = (mid, refl, e)

-- `if (!take(input, value)) return status;`
abbrev pub or_error {ℓ} : {A : Type ℓ} → Option A → Status → Result A
or_error none s = err s
or_error (some a) s = ok a

pub or_error-eq_ok {ℓ} :
    {A : Type ℓ} (o : Option A) (s : Status) {a : A} → or_error o s ≡ ok a → o ≡ some a
or_error-eq_ok none s h = cc
or_error-eq_ok (some a) s h = cc

-- `Status::ok`
abbrev pub is_ok : Status → Bool
is_ok s = elim s.code [ StatusCode.ok ↦ true | _ ↦ false ]
