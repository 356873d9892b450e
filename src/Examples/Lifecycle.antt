-- ===== src/Examples/Lifecycle.antt =====
-- A store with one entry that gets another and crashes, on a system without faults.
use database_45_steps.Prelude.{
  ◌≡◌, ◌⊎◌, inl, inr, refl, sym, ◌∙◌, arith, ◌+◌, Bool, true, Option, some, length, [], ◌∷◌, ◌++◌,
  List, beq_bytes,
}
use database_45_steps.Core.DbError.{ErrorCode, Result, success, ok}
use database_45_steps.Core.Platform.Laws.{File}
use database_45_steps.Kv.Entry.{Entry}
use database_45_steps.Kv.KeyValue.{
  KeyValue, WriteMode, apply, assign, is_write_due, new_store, set_ex, open_store,
}
use database_45_steps.Kv.KeyValue.Atomic.{open_store-atomic}
use database_45_steps.Kv.KeyValue.Lifecycle.{
  Reachable, opened, set_done, crashed, IsSafe, Reachable-IsSafe,
}
use database_45_steps.Kv.KeyValue.Open.{Loaded}
use database_45_steps.Kv.KeyValue.Replay.{encode_all, replayed}
use database_45_steps.Kv.Log.{file_header}
use database_45_steps.Kv.EntryCodec.{encode}
use database_45_steps.Core.BitUtils.{pack_le}
use database_45_steps.Kv.KeyValue.Store.{IsConsistent, Updated, set_entry, set_ex_outcome}
use database_45_steps.Kv.KeyValue.Reopening.{open_store-IsConsistent}
use database_45_steps.Examples.Disk.{posix_file, disk, laws, paths, never_faulty}
use database_45_steps.Examples.Entries.{
  first, first-IsStorable, torn_front, torn_back, first-torn, path, disk_of,
}
use database_45_steps.Examples.Kv.{one_entry, kv, kv-IsConsistent, second-IsStorable}

open_store-atomic_example :
    let r = open_store disk 3 (new_store path) (disk_of (one_entry ++ torn_front)) in
    Loaded laws (one_entry ++ torn_front) kv.mem r
    ⊎ Loaded laws (one_entry ++ torn_front) (apply kv.mem first) r
unfolding posix_file
open_store-atomic_example =
    open_store-atomic laws 3 kv (disk_of one_entry) (disk_of (one_entry ++ torn_front)) (first ∷ [])
      first torn_front (2 ∷ torn_back) kv-IsConsistent refl first-IsStorable (sym first-torn) refl
      (paths path) refl (omega arith)

-- The store that was opened, and what the call returns and leaves.
abbrev start : Option ErrorCode × KeyValue × File
start = open_store disk 99 (new_store path) (disk_of one_entry)

abbrev stored : Result Bool × KeyValue × File
stored = set_ex disk start.1 (5 ∷ []) (6 ∷ []) WriteMode.upsert start.2

start-IsConsistent : (start.0 ≡ some success) × IsConsistent laws start.1 start.2 (first ∷ [])
unfolding posix_file
start-IsConsistent =
    elim (open_store-IsConsistent laws 99 (new_store path) (disk_of one_entry) (first ∷ [])
      (paths path) refl refl (first-IsStorable, tt) (omega arith) refl) [
        | inl fault ↦ absurd (never_faulty fault.0)
        | inr good ↦ good
      ]

call_due : is_write_due WriteMode.upsert (start.1.mem (5 ∷ [])) (6 ∷ []) ≡ true
unfolding replayed apply assign beq_bytes is_write_due
call_due = rw start-IsConsistent.1.held refl

changed_when_due :
    {kv : KeyValue} {w : File} {ents : List Entry} {ent : Entry} {due : Bool}
    (r : Result Bool × KeyValue × File)
    → due ≡ true
    → Updated laws kv w ents ent due r
    → r.0 ≡ ok true
changed_when_due r d (Updated.unchanged idle e) = absurd (cc (d, idle))
changed_when_due r d (Updated.refused fault due e is p m) = absurd (never_faulty fault)
changed_when_due r d (Updated.unnoticed fault silent z due p n k c) = absurd (never_faulty fault)
changed_when_due r d (Updated.stored due p good durable) = p

stored_changed : stored.0 ≡ ok true
stored_changed = changed_when_due stored call_due (
    set_ex_outcome laws start.1 (5 ∷ []) (6 ∷ []) WriteMode.upsert start.2 (first ∷ [])
      start-IsConsistent.1 second-IsStorable)

abbrev entries : List Entry
entries = (first ∷ []) ++ (set_entry (5 ∷ []) (6 ∷ []) ∷ [])

after_call : Reachable laws (paths path) stored.2.durable entries stored.1 stored.2
unfolding posix_file file_header pack_le encode_all encode
after_call =
    set_done (5 ∷ []) (6 ∷ []) WriteMode.upsert true
      (opened 99 (disk_of one_entry) (first ∷ []) (record { plain = refl; enough = omega arith })
        (first-IsStorable, tt) refl start-IsConsistent.0)
      second-IsStorable stored_changed

after_call-IsSafe : IsSafe laws (paths path) stored.2.durable entries stored.1 stored.2
after_call-IsSafe =
    Reachable-IsSafe laws (paths path) (λ fault. absurd (never_faulty fault)) after_call

-- The crash leaves what the call put on the disk.
abbrev after_crash : File
after_crash = disk_of stored.2.durable

abbrev recovered : Option ErrorCode × KeyValue × File
recovered = open_store disk (length stored.2.durable + 3) (new_store path) after_crash

recovered_success : recovered.0 ≡ some success
unfolding posix_file
recovered_success =
    elim (open_store-IsConsistent laws (length stored.2.durable + 3) (new_store path) after_crash
      entries (paths path) refl refl after_call-IsSafe.consistent.storable (omega arith)
      (after_call-IsSafe.on_disk ∙ after_call-IsSafe.consistent.logged)) [
        | inl fault ↦ absurd (never_faulty fault.0)
        | inr good ↦ good.0
      ]

Reachable-IsSafe_example : IsSafe laws (paths path) stored.2.durable entries recovered.1 recovered.2
unfolding posix_file
Reachable-IsSafe_example =
    Reachable-IsSafe laws (paths path) (λ fault. absurd (never_faulty fault))
      (crashed (length stored.2.durable + 3) after_crash after_call refl
        (record { plain = refl; enough = omega arith }) recovered_success)
