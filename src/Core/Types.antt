-- ===== src/Core/Types.antt =====
-- include/core/types.h: byte buffers. A `std::byte` or a `char` is a number below 256; a span, a
-- `std::string` and a `bytes` vector are lists of them.
use database_45_steps.Prelude.{ℕ, List}

abbrev pub Bytes : Type 0
Bytes = List ℕ

-- The copy that either overload of `to_bytes` makes.
unfoldable pub to_bytes : Bytes → Bytes
to_bytes view = view
