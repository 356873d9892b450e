-- ===== src/Core/DbError.antt =====
-- include/core/db_error.h: the error codes of the engine, and the `std::error_code` that carries
-- them. `Result` is `std::expected` with such a code.
pub mod Messages
use database_45_steps.Prelude.{String, if◌then◌else◌, ℕ, ◌≡◌, Bool, not, ◌&&◌, ◌==◌, true, false}

pub data DbError : Type 0 where
  ok truncated_header truncated_payload key_too_large value_too_large io_failure : DbError
  bad_magic unsupported_version bad_checksum bad_key trailing_garbage type_mismatch : DbError
  expect_more_data mode_conflict inconsistent_length unsupported_type : DbError
  table_not_found table_already_exists : DbError

-- `static_cast<int>(e)`
unfoldable pub to_int : DbError → ℕ
to_int DbError.ok = 0
to_int DbError.truncated_header = 1
to_int DbError.truncated_payload = 2
to_int DbError.key_too_large = 3
to_int DbError.value_too_large = 4
to_int DbError.io_failure = 5
to_int DbError.bad_magic = 6
to_int DbError.unsupported_version = 7
to_int DbError.bad_checksum = 8
to_int DbError.bad_key = 9
to_int DbError.trailing_garbage = 10
to_int DbError.type_mismatch = 11
to_int DbError.expect_more_data = 12
to_int DbError.mode_conflict = 13
to_int DbError.inconsistent_length = 14
to_int DbError.unsupported_type = 15
to_int DbError.table_not_found = 16
to_int DbError.table_already_exists = 17

-- `DBErrorCategory::message`
unfoldable pub message : ℕ → String
message ev =
    if ev == 0
    then "Success"
    else if ev == 1
    then "Entry header is incomplete or file is truncated"
    else if ev == 2
    then "Key or value payload is missing expected bytes"
    else if ev == 3
    then "Key size exceeds limit"
    else if ev == 4
    then "Value size exceeds limit"
    else if ev == 5
    then "I/O failure"
    else if ev == 6
    then "File is not a valid kvdb log (magic number mismatch)"
    else if ev == 7
    then "Log file format version is newer than this build supports"
    else if ev == 8
    then "Entry checksum mismatch, data is possibly corrupt"
    else if ev == 9
    then "Key prefix does not match table ID"
    else if ev == 10
    then "Unexpected bytes remain after decoding"
    else if ev == 11
    then "Cell type does not match the schema column type"
    else if ev == 12
    then "Buffer too short, expected more data"
    else if ev == 13
    then "Write operation conflicts with existing key state"
    else if ev == 14
    then "Input parameters have different lengths"
    else if ev == 15
    then "This Cell type is not supported, add proper implementation"
    else if ev == 16
    then "The table with given ID is not found"
    else if ev == 17
    then "The table with given ID already exists"
    else "Unknown database error"

-- The categories in use: the default one, that of `std::errc`, and `DBErrorCategory`.
pub data Category : Type 0 where
  system generic kv_database : Category

pub record ErrorCode : Type 0 where
  pub category : Category
  pub value : ℕ

-- `std::error_code{}`
abbrev pub success : ErrorCode
success = record { category = Category.system; value = 0 }

-- `if (err)`: a code is an error if its value is not 0, whatever its category.
abbrev pub is_error : ErrorCode → Bool
is_error e = not (e.value == 0)

abbrev pub is_kv_database : Category → Bool
is_kv_database Category.kv_database = true
is_kv_database _ = false

-- What the operating system reports: an error whose code is not one of the engine's.
abbrev pub IsSystemError : ErrorCode → Type 0
IsSystemError e = (is_kv_database e.category ≡ false) × (is_error e ≡ true)

unfoldable pub make_error_code : DbError → ErrorCode
unfolding to_int
make_error_code e = record { category = Category.kv_database; value = to_int e }

-- `std::make_error_code(std::errc)`
abbrev pub generic_error : ℕ → ErrorCode
generic_error n = record { category = Category.generic; value = n }

-- `err == db_error::…` compares category and value.
unfoldable pub is_db_error : ErrorCode → DbError → Bool
unfolding to_int
is_db_error e d = is_kv_database e.category && e.value == to_int d

-- `std::expected<A, std::error_code>`. `fault` is no value of it: the code would have thrown an
-- exception that nothing catches, or read outside a vector.
pub data Result {ℓ} (A : Type ℓ) : Type ℓ where
  ok : A → Result A
  err : ErrorCode → Result A
  fault : Result A

infixl 5 ◌>>=◌
abbrev pub ◌>>=◌ {ℓ κ} : {A : Type ℓ} {B : Type κ} → Result A → (A → Result B) → Result B
Result.ok a >>= f = f a
err e >>= f = err e
fault >>= f = fault

-- `std::unexpected(db_error::…)`
abbrev pub fail {ℓ} : {A : Type ℓ} → DbError → Result A
fail d = err (make_error_code d)
