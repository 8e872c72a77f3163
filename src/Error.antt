-- ===== src/Error.antt =====
-- error.rs: `ShadowError` and the mapping from `std::io::Error`.
use shadowfs.Base.{ℕ, [], Option, none, some, ◌≡◌, refl, ◌⊎◌, inl, inr}
use shadowfs.Path.{ShadowPath, to_string}
use shadowfs.Path.Chars.{Text, text}

pub data Platform : Type 0 where
  windows mac_os linux : Platform

-- `io::ErrorKind`: the kinds that the code tells apart, and any other by its number.
pub data ErrorKind : Type 0 where
  not_found permission_denied already_exists invalid_input invalid_data : ErrorKind
  other : ℕ → ErrorKind

pub record IoError : Type 0 where
  pub kind : ErrorKind
  pub message : Text

-- `io::Result`.
pub data IoResult {ℓ} (A : Type ℓ) : Type ℓ where
  done : A → IoResult A
  failed : IoError → IoResult A

pub IoResult-cases {ℓ} :
    {A : Type ℓ} (r : IoResult A) → ((a : A) × (r ≡ done a)) ⊎ ((e : IoError) × (r ≡ failed e))
IoResult-cases (done a) = inl (a, refl)
IoResult-cases (failed e) = inr (e, refl)

pub data ShadowError : Type 0 where
  not_found : ShadowPath → ShadowError
  permission_denied : ShadowPath → Text → ShadowError
  already_exists : ShadowPath → ShadowError
  not_a_directory : ShadowPath → ShadowError
  is_a_directory : ShadowPath → ShadowError
  invalid_path : Text → Text → ShadowError
  io_error : IoError → ShadowError
  -- The code is an `i32`, as a sign and a magnitude.
  platform_error : Platform → Text → Option (ℕ × ℕ) → ShadowError
  override_store_full : ℕ → ℕ → ShadowError
  not_mounted : ShadowPath → ShadowError
  unsupported : Text → ShadowError
  invalid_configuration : Text → ShadowError

-- `Result<T, ShadowError>`.
pub data Result {ℓ} (A : Type ℓ) : Type ℓ where
  ok : A → Result A
  err : ShadowError → Result A

from_kind : ErrorKind → IoError → Option ShadowPath → ShadowError
from_kind ErrorKind.not_found e (some p) = ShadowError.not_found p
from_kind ErrorKind.not_found e none = io_error e
from_kind ErrorKind.permission_denied e (some p) = ShadowError.permission_denied p (text "access")
from_kind ErrorKind.permission_denied e none = io_error e
from_kind ErrorKind.already_exists e (some p) = ShadowError.already_exists p
from_kind ErrorKind.already_exists e none = io_error e
from_kind invalid_input e (some p) = invalid_path (to_string p) e.message
from_kind invalid_input e none = invalid_path [] e.message
from_kind invalid_data e (some p) = invalid_path (to_string p) e.message
from_kind invalid_data e none = invalid_path [] e.message
from_kind (other n) e path = io_error e

unfoldable pub from_io_error : IoError → Option ShadowPath → ShadowError
unfolding from_kind
from_io_error e path = from_kind e.kind e path

with_operation : ErrorKind → IoError → ShadowPath → Text → ShadowError
unfolding from_io_error
with_operation ErrorKind.permission_denied e p operation = ShadowError.permission_denied p operation
with_operation _ e p operation = from_io_error e (some p)

unfoldable pub from_io_error_with_operation : IoError → ShadowPath → Text → ShadowError
unfolding with_operation
from_io_error_with_operation e p operation = with_operation e.kind e p operation
