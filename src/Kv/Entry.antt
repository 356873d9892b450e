-- ===== src/Kv/Entry.antt =====
-- include/kv/entry.h: one record of the log.
use database_45_steps.Prelude.{Bool, ◌&&◌, ◌||◌, not, beq_bytes}
use database_45_steps.Core.Types.{Bytes}

pub record Entry : Type 0 where
  pub key : Bytes
  pub val : Bytes
  pub deleted : Bool

-- `operator==`
unfoldable pub beq_entry : Entry → Entry → Bool
beq_entry a b =
    beq_bytes a.key b.key
    && beq_bytes a.val b.val
    && (a.deleted && b.deleted || not a.deleted && not b.deleted)
