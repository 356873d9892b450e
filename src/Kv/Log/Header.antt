-- ===== src/Kv/Log/Header.antt =====
-- Which file headers `Log::open` accepts.
use database_45_steps.Prelude.{◌≤◌, ◌<◌, ◌≡◌, ◌≢◌, ◌↔◌, refl, arith, length, slice}
use database_45_steps.Core.Types.{Bytes}
use database_45_steps.Core.DbError.{success, make_error_code, bad_magic, truncated_header}
use database_45_steps.Core.BitUtils.{pack_le, unpack_le}
use database_45_steps.Kv.Log.{
  file_header, file_header_size, magic_number, format_version, validate_header,
}

-- The header that `write_file_header` writes is accepted.
pub validate_header-file_header : validate_header file_header ≡ success
unfolding validate_header file_header pack_le unpack_le
validate_header-file_header = refl

-- The check of a file header succeeds exactly if at least six bytes were read, the first four are
-- the magic number, and the version is not above the supported one; it reports `truncated_header`
-- exactly on fewer bytes, and `bad_magic` exactly on enough bytes with another number.
pub validate_header_lem :
    (header : Bytes)
    → ((validate_header header ≡ success) ↔ (
        (file_header_size ≤ length header)
        × (unpack_le (slice 0 4 header) ≡ magic_number)
        × (unpack_le (slice 4 2 header) ≤ format_version)))
      × ((validate_header header ≡ make_error_code truncated_header)
          ↔ (length header < file_header_size))
      × ((validate_header header ≡ make_error_code bad_magic)
          ↔ ((file_header_size ≤ length header) × (unpack_le (slice 0 4 header) ≢ magic_number)))
unfolding validate_header make_error_code
validate_header_lem header = ground arith
