-- ===== src/Sql/Store/Replay.antt =====
-- The loop of `KV::Open`.
use database_45_steps.Prelude.{
  ℕ, zero, suc, ◌<◌, ◌≡◌, refl, sym, ap, ◌∙◌, arith, Bool, true, false, Option, some, if◌then◌else◌,
  List, [], ◌∷◌, ◌++◌, length, All, append_assoc, length-append,
}
use database_45_steps.Core.Types.{Bytes}
use database_45_steps.Core.DbError.{ErrorCode, success, is_error}
use database_45_steps.Kv.Entry.{Entry}
use database_45_steps.Kv.EntryCodec.RoundTrip.{IsStorable, stored_entry}
use database_45_steps.Kv.KeyValue.{Map, apply}
use database_45_steps.Kv.KeyValue.Replay.{replayed, apply-stored_entry}
use database_45_steps.Sql.Errors.{make_error_code}
use database_45_steps.Sql.Stream.{Device}
use database_45_steps.Sql.Stream.Laws.{FileLaws, IsReady, unread}
use database_45_steps.Sql.Entry.{encode}
use database_45_steps.Sql.Entry.Layout.{encode-framed}
use database_45_steps.Sql.Entry.Reading.{complete, parse}
use database_45_steps.Sql.Entry.RoundTrip.{parse-encode}
use database_45_steps.Sql.Log.{read}
use database_45_steps.Sql.Log.Read.{ReadOutcome, sql_read_outcome}
use database_45_steps.Sql.Store.{Store, replay}

-- The bytes of a log of entries.
unfoldable pub encode_all : List Entry → Bytes
encode_all [] = []
encode_all (ent ∷ ents) = encode ent ++ encode_all ents

pub encode_ne-nil : (ent : Entry) (rest : Bytes) → IsStorable ent → 0 < length (encode ent ++ rest)
encode_ne-nil ent rest s = omega (
  arith,
  length-append (encode ent) rest,
  ap length (encode-framed ent (omega arith) (omega arith)),
)

-- One round of the loop, by what was read.
module _ (os : Device) (fuel : ℕ) (ent : Entry) (kv : Store) (w : os.World) where
  abbrev pub after : Store
  after = record kv { log = (read os kv.log ent w).2 }

  pub replay-stopped :
      (e : ErrorCode)
      → (read os kv.log ent w).0 ≡ (false, e)
      → is_error e ≡ true
      → (replay os (suc fuel) ent kv w).0 ≡ some e
  unfolding replay
  replay-stopped e h is = rw (ap (λ (p : Bool × ErrorCode). p.1) h, is) refl

  pub replay-ended :
      (read os kv.log ent w).0 ≡ (true, success)
      → replay os (suc fuel) ent kv w ≡ (some success, after, (read os kv.log ent w).3)
  unfolding replay
  replay-ended h =
      rw (ap (λ (p : Bool × ErrorCode). p.0) h, ap (λ (p : Bool × ErrorCode). p.1) h) refl

  -- The entry that the next round starts from.
  abbrev pub left : Entry
  left =
      let ent' = (read os kv.log ent w).1 in if ent'.deleted then ent' else record ent' { val = [] }

  pub replay-found :
      (read os kv.log ent w).0 ≡ (false, success)
      → replay os (suc fuel) ent kv w
        ≡ replay os fuel left
            (record after { mem = apply kv.mem (read os kv.log ent w).1 })
            (read os kv.log ent w).3
  unfolding replay
  replay-found h =
      rw (ap (λ (p : Bool × ErrorCode). p.0) h, ap (λ (p : Bool × ErrorCode). p.1) h) refl

abbrev pub Opening : Device → Type 0
Opening os = Option ErrorCode × Store × os.World

-- The loop has ended with an error.
abbrev pub HasFailed : Option ErrorCode → Type 0
HasFailed result = (e : ErrorCode) × (result ≡ some e) × (is_error e ≡ true)

module _ {os : Device} {path : Bytes} (laws : FileLaws os path) where
  open laws use {content}

  -- The loop stands before some bytes of the file.
  pub record IsBefore (before bs : Bytes) (mem : Map) (kv : Store) (w : os.World) : Type 0 where
    pub ready : IsReady kv.log.fs
    pub file : content w ≡ before
    pub ahead : unread laws kv.log.fs w ≡ bs
    pub held : kv.mem ≡ mem

  -- A round before an entry fails, or is followed by the rest of the loop.
  replay_step :
      (P : Opening os → Type 0)
      → ((r : Opening os) → HasFailed r.0 → P r)
      → (before rest : Bytes) (mem : Map) (first : Entry) (fuel : ℕ) (ent : Entry) (kv : Store)
        (w : os.World)
      → IsStorable first
      → ((ent' : Entry) (kv' : Store) (w' : os.World)
          → IsBefore before rest (apply mem first) kv' w'
          → P (replay os fuel ent' kv' w'))
      → IsBefore before (encode first ++ rest) mem kv w
      → ReadOutcome laws (content w) (unread laws kv.log.fs w) (read os kv.log ent w)
      → P (replay os (suc fuel) ent kv w)
  replay_step P failed before rest mem first fuel ent kv w s next b
        (ReadOutcome.ended e p ready c) =
      absurd (omega (arith, encode_ne-nil first rest s, ap length (sym b.ahead ∙ e)))
  replay_step P failed before rest mem first fuel ent kv w s next b
        (ReadOutcome.stopped e why is p c) =
      failed (replay os (suc fuel) ent kv w)
        (make_error_code e, replay-stopped os fuel ent kv w (make_error_code e) p is, is)
  replay_step P failed before rest mem first fuel ent kv w s next b
        (ReadOutcome.found ent' rest' parsed p q ready u c) =
      let same : complete ent' rest' ≡ complete (stored_entry first) rest =
        sym parsed ∙ ap parse b.ahead ∙ parse-encode first rest s in
      rw (replay-found os fuel ent kv w p) (
        next _ _ (read os kv.log ent w).3 (record {
          ready = ready;
          file = c ∙ b.file;
          ahead = u ∙ cc same;
          held =
              ap (apply kv.mem) (q ∙ cc same)
              ∙ apply-stored_entry kv.mem first
              ∙ ap (λ m. apply m first) b.held;
        }))

  -- The loop over a log of entries fails, or comes to what stands behind them.
  pub replay_through :
      (P : Opening os → Type 0)
      → ((r : Opening os) → HasFailed r.0 → P r)
      → (before tail : Bytes) (ents : List Entry) (mem : Map) (fuel : ℕ) (ent : Entry) (kv : Store)
        (w : os.World)
      → ((fuel' : ℕ) (ent' : Entry) (kv' : Store) (w' : os.World)
          → IsBefore before tail (replayed mem ents) kv' w'
          → P (replay os (suc fuel') ent' kv' w'))
      → All IsStorable ents
      → length ents < fuel
      → IsBefore before (encode_all ents ++ tail) mem kv w
      → P (replay os fuel ent kv w)
  unfolding encode_all replayed
  replay_through P failed before tail ents mem zero ent kv w last s h b = absurd (omega arith)
  replay_through P failed before tail [] mem (suc fuel) ent kv w last s h b = last fuel ent kv w b
  replay_through P failed before tail (first ∷ ents) mem (suc fuel) ent kv w last s h b =
      replay_step P failed before (encode_all ents ++ tail) mem first fuel ent kv w s.0
        (λ ent' kv' w' b'.
          replay_through P failed before tail ents (apply mem first) fuel ent' kv' w' last s.1
            (omega arith) b')
        (record {
          ready = b.ready;
          file = b.file;
          ahead = b.ahead ∙ append_assoc (encode first) (encode_all ents) tail;
          held = b.held;
        })
        (sql_read_outcome laws kv.log ent w b.ready)
