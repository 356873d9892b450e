-- ===== src/Sql/Errors.antt =====
-- include/sql/database.h: the error codes of the store. The category prints them.
use database_45_steps.Prelude.{ℕ, ◌==◌, String, if◌then◌else◌}
use database_45_steps.Core.DbError.{ErrorCode, Category}

pub data DbError : Type 0 where
  ok truncated_header truncated_payload key_too_large value_too_large io_failure : DbError

-- `static_cast<int>(e)`
unfoldable pub to_int : DbError → ℕ
to_int DbError.ok = 0
to_int DbError.truncated_header = 1
to_int DbError.truncated_payload = 2
to_int DbError.key_too_large = 3
to_int DbError.value_too_large = 4
to_int DbError.io_failure = 5

unfoldable pub make_error_code : DbError → ErrorCode
unfolding to_int
make_error_code e = record { category = Category.kv_database; value = to_int e }

-- `std::errc`, by the values of POSIX.
abbrev pub no_such_file_or_directory : ℕ
no_such_file_or_directory = 2

abbrev pub io_error : ℕ
io_error = 5

abbrev pub permission_denied : ℕ
permission_denied = 13

abbrev pub is_a_directory : ℕ
is_a_directory = 21

abbrev pub no_space_on_device : ℕ
no_space_on_device = 28

abbrev pub broken_pipe : ℕ
broken_pipe = 32

-- `DBErrorCategory::message`. `strerror` is the text that the system has for an `errno`. There is
-- no case for `ok`, nor for a number outside the enumeration.
unfoldable pub message : (strerror : ℕ → String) → ℕ → String
message strerror ev =
    if ev == 1
    then "Entry header is incomplete or file is truncated"
    else if ev == 2
    then "Key or value payload is missing expected bytes"
    else if ev == 3
    then "Key size exceeds limit"
    else if ev == 4
    then "Value size exceeds limit"
    else if ev == 5
    then strerror io_error
    else "Unknown database error"
