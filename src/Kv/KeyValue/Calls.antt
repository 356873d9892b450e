-- ===== src/Kv/KeyValue/Calls.antt =====
-- On a system without faults, one call on a store does what it does on a map.
use database_45_steps.Prelude.{
  ℕ, ◌+◌, ◌<◌, ◌≤◌, ◌≡◌, refl, sym, ap, ◌∙◌, arith, inl, inr, Bool, true, false, ◌&&◌, Option, none,
  some, ◌⊎◌, List, [], ◌∷◌, ◌++◌, if◌then◌else◌, length, length-append,
}
use database_45_steps.Core.Types.{Bytes, to_bytes}
use database_45_steps.Core.DbError.{ErrorCode, success, is_error, Result, ok, ◌>>=◌}
use database_45_steps.Core.Platform.{Platform}
use database_45_steps.Core.Platform.Laws.{View, FileLaws, PathLaws}
use database_45_steps.Kv.Entry.{Entry}
use database_45_steps.Kv.Log.{close_log}
use database_45_steps.Kv.KeyValue.{
  KeyValue, Map, WriteMode, empty_map, apply, assign, erase, is_write_due, found, new_store, get,
  set_ex, del, close_store, open_store,
}
use database_45_steps.Kv.KeyValue.Replay.{replayed}
use database_45_steps.Kv.KeyValue.Store.{
  IsConsistent, Updated, set_entry, tombstone, set_ex_outcome, del_outcome, replayed-append,
}
use database_45_steps.Kv.KeyValue.Reopening.{open_store-IsConsistent}
use database_45_steps.Kv.KeyValue.Session.{
  Call, Answer, IsValid, set_call, del_call, get_call, restart, changed, restarted, answer,
  reopened, perform, spec_set, spec_del, spec,
}

-- The modes of `set_ex`, against the map.
spec_set-due :
    (mode : WriteMode) (old : Option Bytes) (mem : Map) (key val : Bytes)
    → spec_set mode old mem key val
      ≡ (is_write_due mode old val, if is_write_due mode old val then assign mem key val else mem)
unfolding is_write_due
spec_set-due WriteMode.upsert none mem key val = refl
spec_set-due WriteMode.upsert (some old) mem key val = ground arith
spec_set-due WriteMode.insert none mem key val = refl
spec_set-due WriteMode.insert (some old) mem key val = refl
spec_set-due WriteMode.update none mem key val = refl
spec_set-due WriteMode.update (some old) mem key val = ground arith

spec_del-due :
    (old : Option Bytes) (mem : Map) (key : Bytes)
    → spec_del old mem key ≡ (found old, if found old then erase mem key else mem)
spec_del-due none mem key = refl
spec_del-due (some old) mem key = refl

module _ {os : Platform} {view : View os} (laws : FileLaws view) where
  open view use {file, IsFaulty}

  -- The result of a call is that of the abstract store, and the store is consistent with the new
  -- map.
  pub record Refined {A : Type 0} (size : ℕ) (a : A) (mem : Map)
      (r : Result A × KeyValue × os.World) : Type 0 where
    pub answered : r.0 ≡ ok a
    pub held : r.1.mem ≡ mem
    pub ents : List Entry
    pub bounded : length ents ≤ size
    pub consistent : IsConsistent laws r.1 r.2 ents

  updated :
      (sound : ¬ IsFaulty) (kv : KeyValue) (w : os.World) (ents : List Entry) (ent : Entry)
      (due : Bool) (r : Result Bool × KeyValue × os.World)
      → IsConsistent laws kv w ents
      → Updated laws kv w ents ent due r
      → Refined (length ents + 1) due (if due then apply kv.mem ent else kv.mem) r
  updated sound kv w ents ent due r good (Updated.unchanged d e) =
      rw (d, e)
        (record {
          answered = refl;
          held = refl;
          ents = ents;
          bounded = omega arith;
          consistent = good;
        })
  updated sound kv w ents ent due r good (Updated.refused fault d e is p m) = absurd (sound fault)
  updated sound kv w ents ent due r good (Updated.unnoticed fault silent z d p n k c) =
      absurd (sound fault)
  updated sound kv w ents ent due r good (Updated.stored d p good' durable) = rw d (record {
    answered = p;
    held =
        good'.held ∙ replayed-append empty_map ents ent ∙ ap (λ mem. apply mem ent) (sym good.held);
    ents = ents ++ (ent ∷ []);
    bounded = omega (arith, length-append ents (ent ∷ []));
    consistent = good';
  })

  reworded :
      (fuel size : ℕ) (path : Bytes) (f : Bool → Answer) (due : Bool) (mem : Map)
      (r : Result Bool × KeyValue × os.World)
      → Refined size due mem r
      → Refined size (f due) mem (answer os fuel path f r)
  reworded fuel size path f due mem r h = record {
    answered = ap (λ result. result >>= λ due. ok (f due)) h.answered;
    held = h.held;
    ents = h.ents;
    bounded = h.bounded;
    consistent = h.consistent;
  }

  module _ (sound : ¬ IsFaulty) (fuel : ℕ) (path : Bytes) (paths : PathLaws view path)
      (plain : (w : os.World) → (os.exists path w && os.is_directory path w) ≡ false) where
    set_refines :
        (mode : WriteMode) (key val : Bytes) (kv : KeyValue) (w : os.World) (ents : List Entry)
        → IsValid (set_call mode key val)
        → IsConsistent laws kv w ents
        → let (a, mem) = spec (set_call mode key val) kv.mem in
          Refined (length ents + 1) a mem (perform os fuel path (set_call mode key val) kv w)
    unfolding spec perform apply
    set_refines mode key val kv w ents valid good =
        let due = is_write_due mode (kv.mem key) val in
        rw (spec_set-due mode (kv.mem key) kv.mem key val) (
          reworded fuel (length ents + 1) path changed due
            (if due then assign kv.mem key val else kv.mem) (set_ex os kv key val mode w)
            (updated sound kv w ents (set_entry key val) due (set_ex os kv key val mode w) good
              (set_ex_outcome laws kv key val mode w ents good valid)))

    del_refines :
        (key : Bytes) (kv : KeyValue) (w : os.World) (ents : List Entry)
        → IsValid (del_call key)
        → IsConsistent laws kv w ents
        → let (a, mem) = spec (del_call key) kv.mem in
          Refined (length ents + 1) a mem (perform os fuel path (del_call key) kv w)
    unfolding spec perform apply
    del_refines key kv w ents valid good =
        let due = found (kv.mem key) in
        rw (spec_del-due (kv.mem key) kv.mem key) (
          reworded fuel (length ents + 1) path changed due
            (if due then erase kv.mem key else kv.mem) (del os kv key w)
            (updated sound kv w ents (tombstone key) due (del os kv key w) good
              (del_outcome laws kv key w ents good valid.0 valid.1)))

    reopened_refines :
        (kv : KeyValue) (ents : List Entry) (o : Option ErrorCode × KeyValue × os.World)
        → kv.mem ≡ replayed empty_map ents
        → (IsFaulty × ((e : ErrorCode) × (o.0 ≡ some e) × (is_error e ≡ true)))
          ⊎ ((o.0 ≡ some success) × IsConsistent laws o.1 o.2 ents)
        → Refined (length ents + 1) restarted kv.mem (reopened os fuel path o)
    reopened_refines kv ents o held (inl fault) = absurd (sound fault.0)
    reopened_refines kv ents o held (inr (p, good)) = rw p (record {
      answered = refl;
      held = good.held ∙ sym held;
      ents = ents;
      bounded = omega arith;
      consistent = good;
    })

    restart_refines :
        (kv : KeyValue) (w : os.World) (ents : List Entry)
        → length ents < fuel
        → IsConsistent laws kv w ents
        → Refined (length ents + 1) restarted kv.mem (perform os fuel path restart kv w)
    unfolding perform close_store close_log
    restart_refines kv w ents enough good =
        let (reported, kept, closed) = laws.close_outcome kv.log.fh w good.on in
        elim reported [
          | inl fault ↦ absurd (sound fault.0)
          | inr e ↦ rw e (
              reopened_refines kv ents
                (open_store os fuel (new_store path) (os.platform_close kv.log.fh w).2) good.held
                (open_store-IsConsistent laws fuel (new_store path)
                  (os.platform_close kv.log.fh w).2 ents paths refl
                  (plain (os.platform_close kv.log.fh w).2) good.storable enough
                  (kept ∙ good.logged)))
        ]

    pub call_refines :
        (call : Call) (kv : KeyValue) (w : os.World) (ents : List Entry)
        → IsValid call
        → length ents < fuel
        → IsConsistent laws kv w ents
        → let (a, mem) = spec call kv.mem in
          Refined (length ents + 1) a mem (perform os fuel path call kv w)
    call_refines (set_call mode key val) kv w ents valid enough good =
        set_refines mode key val kv w ents valid good
    call_refines (del_call key) kv w ents valid enough good = del_refines key kv w ents valid good
    call_refines (get_call key) kv w ents valid enough good =
        unfold perform spec get to_bytes in
        record {
          answered = refl;
          held = refl;
          ents = ents;
          bounded = omega arith;
          consistent = good;
        }
    call_refines restart kv w ents valid enough good =
        unfold spec in restart_refines kv w ents enough good
