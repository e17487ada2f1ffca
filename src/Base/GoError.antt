-- ===== src/Base/GoError.antt =====
-- Go's error values and the part of package `errors` that the service relies on. What an error
-- prints is left out: no code that is modelled here branches on a message.
use go_service_template_rest.Base.Tests.{◌==◌}
use go_service_template_rest.Base.Lists.{Bytes, codes}
use go_service_template_rest.Base.Int.{ℤ}
use Prim.Native.Nat.{ℕ}
use mathlib.Core.Path.{◌≡◌, refl}
use mathlib.Core.Logic.{◌≢◌}
use mathlib.Core.Bool.{Bool, false, ◌||◌}
use mathlib.Core.Option.{Option, none, some}
use mathlib.Core.List.{List}

-- What a gRPC status carries beside its code and text: RetryInfo and ErrorInfo.
pub data StatusDetail : Type 0 where
  retry_info : ℤ → StatusDetail
  error_info : Bytes → Bytes → StatusDetail

pub record GrpcStatus : Type 0 where
  pub code : ℕ
  pub message : Bytes
  pub details : List StatusDetail

-- `leaf` wraps nothing: what `%T` prints for it, and its identity under `==`.
-- `wrapped` has an `Unwrap() error`, `joined` an `Unwrap() []error`; both carry what `%T` prints.
-- `op_error` is `*opError` of internal/failure, `permanent` the `*permanentError` of
-- internal/infra/natsjs, `status` an error with a `GRPCStatus` method, which is the repository's
-- `*ownedStatusError` where the flag says so.
mutual
  pub data Err : Type 0 where
    leaf : Bytes → ℕ → Err
    wrapped : Bytes → Err → Err
    joined : Bytes → Errs → Err
    op_error : Bytes → Err → Err
    permanent : Err → Err
    status : Bool → GrpcStatus → Err

  pub data Errs : Type 0 where
    nil : Errs
    cons : Err → Errs → Errs

-- `errors.Is(err, target)` for a target that is a leaf: some error of the tree is the target.
unfoldable mutual
  pub is : Err → ℕ → Bool
  is (leaf ty i) t = i == t
  is (wrapped ty e) t = is e t
  is (joined ty es) t = is_any es t
  is (op_error name e) t = is e t
  is (permanent e) t = is e t
  is (status owned s) t = false

  pub is_any : Errs → ℕ → Bool
  is_any nil t = false
  is_any (cons e es) t = is e t || is_any es t

-- `errors.Unwrap`, which sees `Unwrap() error` alone and so does not enter a join.
unfoldable pub unwrap : Err → Option Err
unwrap (leaf _ _) = none
unwrap (wrapped _ e) = some e
unwrap (joined _ _) = none
unwrap (op_error _ e) = some e
unwrap (permanent e) = some e
unwrap (status _ _) = none

-- `fmt.Errorf` with one `%w`, and with two.
abbrev pub errorf : Err → Err
errorf e = wrapped (codes "*fmt.wrapError") e

abbrev pub errorf_two : Err → Err → Err
errorf_two a b = joined (codes "*fmt.wrapErrors") (cons a (cons b nil))

-- A sentinel made by `errors.New`, or by `fmt.Errorf` with no `%w`.
abbrev pub sentinel : ℕ → Err
sentinel i = leaf (codes "*errors.errorString") i

-- A value and an `error`, of which Go code reads the value only where the error is nil.
pub data Result {ℓ} (Value : Type ℓ) : Type ℓ where
  err : Err → Result Value
  ok : Value → Result Value

module _ {ℓ κ} {A : Type ℓ} {B : Type κ} where
  infixl 5 ◌>>=◌
  abbrev pub ◌>>=◌ : Result A → (A → Result B) → Result B
  err failure >>= next = err failure
  ok value >>= next = next value

  -- A chain that succeeds has a first step that does.
  pub >>=-ok :
      (first : Result A) (next : A → Result B) {out : B}
      → (first >>= next) ≡ ok out
      → (value : A) × (first ≡ ok value) × (next value ≡ ok out)
  >>=-ok (ok value) next h = (value, refl, h)
  >>=-ok (err failure) next h = cc

module _ {ℓ} {A : Type ℓ} where
  pub ok-injective : (a b : A) → ◌≡◌ {A = Result A} (ok a) (ok b) → a ≡ b
  ok-injective a b h = cc

  pub err-ne-ok : (e : Err) (a : A) → ◌≢◌ {A = Result A} (err e) (ok a)
  err-ne-ok e a h = cc
