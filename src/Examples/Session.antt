-- ===== src/Examples/Session.antt =====
-- A session on a store with one entry, on a system without faults.
use database_45_steps.Prelude.{
  ◌+◌, ◌≡◌, refl, arith, true, some, none, [], ◌∷◌, List, length, All, beq_bytes,
}
use database_45_steps.Core.Platform.Laws.{FileLaws}
use database_45_steps.Core.Unix.Opening.{unix-FileLaws}
use database_45_steps.Kv.KeyValue.{apply, WriteMode}
use database_45_steps.Kv.KeyValue.Replay.{replayed}
use database_45_steps.Kv.KeyValue.Session.{
  Call, IsValid, set_call, del_call, get_call, restart, run, spec_run, value, changed, restarted,
}
use database_45_steps.Kv.KeyValue.Calls.{Refined}
use database_45_steps.Kv.KeyValue.Refinement.{run_refines}
use database_45_steps.Examples.Disk.{posix_file, disk, view, laws, paths, never_faulty}
use database_45_steps.Examples.Entries.{first, path, disk_of}
use database_45_steps.Examples.Kv.{one_entry, kv, kv-IsConsistent, second-IsStorable}

abbrev calls : List Call
calls =
    set_call WriteMode.insert (5 ∷ []) (6 ∷ [])
    ∷ restart
    ∷ del_call (7 ∷ [])
    ∷ get_call (7 ∷ [])
    ∷ get_call (5 ∷ [])
    ∷ []

-- What a map answers to these calls.
calls_lem :
    (spec_run calls kv.mem).0
    ≡ changed true ∷ restarted ∷ changed true ∷ value none ∷ value (some (6 ∷ [])) ∷ []
unfolding spec_run replayed apply beq_bytes
calls_lem = refl

calls-IsValid : All IsValid calls
calls-IsValid = (second-IsStorable, (tt, (((omega arith, tt), omega arith), (tt, (tt, tt)))))

run_refines_example :
    let (answers, mem) = spec_run calls kv.mem in
    Refined laws
      (length (first ∷ []) + length calls)
      answers
      mem
      (run disk 9 path calls kv (disk_of one_entry))
run_refines_example =
    run_refines laws never_faulty 9 path (paths path) (λ w. refl) calls kv (disk_of one_entry)
      (first ∷ []) calls-IsValid (omega arith) kv-IsConsistent

unix-FileLaws_example : FileLaws view
unix-FileLaws_example = unix-FileLaws posix_file
