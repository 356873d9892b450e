-- ===== src/Sql/Store/Ending.antt =====
-- `KV::Open` comes to an end.
use database_45_steps.Prelude.{ℕ, zero, suc, ◌<◌, ◌≡◌, refl, ap, ◌∙◌, arith, false, some, length}
use database_45_steps.Core.Types.{Bytes}
use database_45_steps.Core.DbError.{ErrorCode, success}
use database_45_steps.Kv.Entry.{Entry}
use database_45_steps.Kv.KeyValue.{Map, empty_map}
use database_45_steps.Sql.Errors.{make_error_code}
use database_45_steps.Sql.Stream.{Device}
use database_45_steps.Sql.Stream.Laws.{FileLaws, unread}
use database_45_steps.Sql.Entry.{new_entry}
use database_45_steps.Sql.Entry.Torn.{parse_consumes}
use database_45_steps.Sql.Log.{read}
use database_45_steps.Sql.Log.Read.{ReadOutcome, sql_read_outcome}
use database_45_steps.Sql.Store.{Store, replay, open_store}
use database_45_steps.Sql.Store.Replay.{
  replay-stopped, replay-ended, replay-found, Opening, IsBefore,
}
use database_45_steps.Sql.Store.Reopening.{opened}

module _ {os : Device} {path : Bytes} (laws : FileLaws os path) where
  open laws use {content}

  -- The loop has ended, with or without an error.
  abbrev HasEnded : Opening os → Type 0
  HasEnded r = (e : ErrorCode) × (r.0 ≡ some e)

  any_round :
      (before bs : Bytes) (mem : Map) (fuel : ℕ) (ent : Entry) (kv : Store) (w : os.World)
      → IsBefore laws before bs mem kv w
      → ((ent' : Entry) (kv' : Store) (w' : os.World) (rest : Bytes) (mem' : Map)
          → IsBefore laws before rest mem' kv' w'
          → length rest < length bs
          → HasEnded (replay os fuel ent' kv' w'))
      → ReadOutcome laws (content w) (unread laws kv.log.fs w) (read os kv.log ent w)
      → HasEnded (replay os (suc fuel) ent kv w)
  any_round before bs mem fuel ent kv w b next (ReadOutcome.ended e p ready c) =
      (success, ap (λ (r : Opening os). r.0) (replay-ended os fuel ent kv w p))
  any_round before bs mem fuel ent kv w b next (ReadOutcome.stopped e why is p c) =
      (make_error_code e, replay-stopped os fuel ent kv w (make_error_code e) p is)
  any_round before bs mem fuel ent kv w b next (ReadOutcome.found ent' rest parsed p q ready u c) =
      rw (replay-found os fuel ent kv w p) (
        next _ _ (read os kv.log ent w).3 rest _
          (record { ready = ready; file = c ∙ b.file; ahead = u; held = refl })
          (omega (arith, parse_consumes _ ent' rest parsed, ap length b.ahead)))

  replay_ends :
      (fuel : ℕ) (before bs : Bytes) (mem : Map) (ent : Entry) (kv : Store) (w : os.World)
      → length bs < fuel
      → IsBefore laws before bs mem kv w
      → HasEnded (replay os fuel ent kv w)
  replay_ends zero before bs mem ent kv w h b = absurd (omega arith)
  replay_ends (suc fuel) before bs mem ent kv w h b =
      any_round before bs mem fuel ent kv w b
        (λ ent' kv' w' rest mem' b' shorter.
          replay_ends fuel before rest mem' ent' kv' w' (omega arith) b')
        (sql_read_outcome laws kv.log ent w b.ready)

  -- In the single-header store: whatever the file holds, `Open` on a closed store, with more fuel
  -- than the file has bytes, ends and returns success or an error. The promises of the system for
  -- the file are assumed.
  pub sql_open_ends :
      (fuel : ℕ) (kv : Store) (w : os.World)
      → kv.log.filename ≡ path
      → kv.log.fs.is_open ≡ false
      → length (content w) < fuel
      → (e : ErrorCode) × ((open_store os fuel kv w).0 ≡ some e)
  sql_open_ends zero kv w same closed h = absurd (omega arith)
  sql_open_ends (suc fuel) kv w same closed h =
      opened laws HasEnded (λ r f. (f.0, f.1)) fuel kv w same closed
        (λ kv' w' b. replay_ends (suc fuel) (content w) (content w) empty_map new_entry kv' w' h b)
