-- ===== src/Core/DbError/Messages.antt =====
-- The texts of the error codes tell the codes apart.
use database_45_steps.Prelude.{ℕ, ◌≡◌, refl, sym, ap, ◌∙◌, String, if◌then◌else◌, ◌==◌}
use text.Mathlib.Text.{◌==◌ as str_eq}
use database_45_steps.Core.DbError.{DbError, to_int, message}

-- The code of a text, from its start.
abbrev code_of : String → ℕ
code_of text =
    if str_eq text "Success"
    then 0
    else if str_eq text "Entry header is incomplete or file is truncated"
    then 1
    else if str_eq text "Key or value payload is missing expected bytes"
    then 2
    else if str_eq text "Key size exceeds limit"
    then 3
    else if str_eq text "Value size exceeds limit"
    then 4
    else if str_eq text "I/O failure"
    then 5
    else if str_eq text "File is not a valid kvdb log (magic number mismatch)"
    then 6
    else if str_eq text "Log file format version is newer than this build supports"
    then 7
    else if str_eq text "Entry checksum mismatch, data is possibly corrupt"
    then 8
    else if str_eq text "Key prefix does not match table ID"
    then 9
    else if str_eq text "Unexpected bytes remain after decoding"
    then 10
    else if str_eq text "Cell type does not match the schema column type"
    then 11
    else if str_eq text "Buffer too short, expected more data"
    then 12
    else if str_eq text "Write operation conflicts with existing key state"
    then 13
    else if str_eq text "Input parameters have different lengths"
    then 14
    else if str_eq text "This Cell type is not supported, add proper implementation"
    then 15
    else if str_eq text "The table with given ID is not found"
    then 16
    else if str_eq text "The table with given ID already exists"
    then 17
    else 18

abbrev from_int : ℕ → DbError
from_int ev =
    if ev == 0
    then DbError.ok
    else if ev == 1
    then DbError.truncated_header
    else if ev == 2
    then DbError.truncated_payload
    else if ev == 3
    then DbError.key_too_large
    else if ev == 4
    then DbError.value_too_large
    else if ev == 5
    then DbError.io_failure
    else if ev == 6
    then DbError.bad_magic
    else if ev == 7
    then DbError.unsupported_version
    else if ev == 8
    then DbError.bad_checksum
    else if ev == 9
    then DbError.bad_key
    else if ev == 10
    then DbError.trailing_garbage
    else if ev == 11
    then DbError.type_mismatch
    else if ev == 12
    then DbError.expect_more_data
    else if ev == 13
    then DbError.mode_conflict
    else if ev == 14
    then DbError.inconsistent_length
    else if ev == 15
    then DbError.unsupported_type
    else if ev == 16
    then DbError.table_not_found
    else DbError.table_already_exists

code_of-message : (e : DbError) → code_of (message (to_int e)) ≡ to_int e
unfolding message to_int
code_of-message DbError.ok = refl
code_of-message DbError.truncated_header = refl
code_of-message DbError.truncated_payload = refl
code_of-message DbError.key_too_large = refl
code_of-message DbError.value_too_large = refl
code_of-message DbError.io_failure = refl
code_of-message DbError.bad_magic = refl
code_of-message DbError.unsupported_version = refl
code_of-message DbError.bad_checksum = refl
code_of-message DbError.bad_key = refl
code_of-message DbError.trailing_garbage = refl
code_of-message DbError.type_mismatch = refl
code_of-message DbError.expect_more_data = refl
code_of-message DbError.mode_conflict = refl
code_of-message DbError.inconsistent_length = refl
code_of-message DbError.unsupported_type = refl
code_of-message DbError.table_not_found = refl
code_of-message DbError.table_already_exists = refl

from_int-to_int : (e : DbError) → from_int (to_int e) ≡ e
unfolding to_int
from_int-to_int DbError.ok = refl
from_int-to_int DbError.truncated_header = refl
from_int-to_int DbError.truncated_payload = refl
from_int-to_int DbError.key_too_large = refl
from_int-to_int DbError.value_too_large = refl
from_int-to_int DbError.io_failure = refl
from_int-to_int DbError.bad_magic = refl
from_int-to_int DbError.unsupported_version = refl
from_int-to_int DbError.bad_checksum = refl
from_int-to_int DbError.bad_key = refl
from_int-to_int DbError.trailing_garbage = refl
from_int-to_int DbError.type_mismatch = refl
from_int-to_int DbError.expect_more_data = refl
from_int-to_int DbError.mode_conflict = refl
from_int-to_int DbError.inconsistent_length = refl
from_int-to_int DbError.unsupported_type = refl
from_int-to_int DbError.table_not_found = refl
from_int-to_int DbError.table_already_exists = refl

-- No two error codes have the same message.
pub message_injective : (d e : DbError) → message (to_int d) ≡ message (to_int e) → d ≡ e
message_injective d e h =
    sym (from_int-to_int d)
    ∙ ap from_int (sym (code_of-message d) ∙ ap code_of h ∙ code_of-message e)
    ∙ from_int-to_int e
