-- ===== src/Kv/KeyValue/Refinement.antt =====
-- On a system without faults the store behaves as a map, across any number of restarts.
use database_45_steps.Prelude.{
  ℕ, ◌+◌, ◌<◌, ◌≤◌, ◌≡◌, refl, ap, arith, false, ◌&&◌, List, [], ◌∷◌, length, All,
}
use mathlib.Core.Path.{subst}
use database_45_steps.Core.Types.{Bytes}
use database_45_steps.Core.DbError.{Result, ok, ◌>>=◌}
use database_45_steps.Core.Platform.{Platform}
use database_45_steps.Core.Platform.Laws.{View, FileLaws, PathLaws}
use database_45_steps.Kv.Entry.{Entry}
use database_45_steps.Kv.KeyValue.{KeyValue, Map}
use database_45_steps.Kv.KeyValue.Store.{IsConsistent}
use database_45_steps.Kv.KeyValue.Calls.{Refined, call_refines}
use database_45_steps.Kv.KeyValue.Session.{
  Call, Answer, IsValid, perform, continue, run, spec, spec_run,
}

module _ {os : Platform} {view : View os} (laws : FileLaws view) where
  open view use {file, IsFaulty}

  -- The rest of the session sees the answer and the store that the call left.
  module _ (sound : ¬ IsFaulty) (fuel : ℕ) (path : Bytes) (paths : PathLaws view path)
      (plain : (w : os.World) → (os.exists path w && os.is_directory path w) ≡ false) where
    continued :
        (size₁ size : ℕ) (a : Answer) (mem mem' : Map) (answers : List Answer)
        (r : Result Answer × KeyValue × os.World)
        (rest : Result (List Answer) × KeyValue × os.World)
        → Refined laws size₁ a mem r
        → Refined laws size answers mem' rest
        → Refined laws size (a ∷ answers) mem' (continue os fuel path r rest)
    continued size₁ size a mem mem' answers r rest h k = rw h.answered (record {
      answered = ap (λ result. result >>= λ answers. ok (a ∷ answers)) k.answered;
      held = k.held;
      ents = k.ents;
      bounded = k.bounded;
      consistent = k.consistent;
    })

    widened :
        (size size' : ℕ) (answers : List Answer) (mem : Map)
        (r : Result (List Answer) × KeyValue × os.World)
        → size ≤ size'
        → Refined laws size answers mem r
        → Refined laws size' answers mem r
    widened size size' answers mem r le h = record {
      answered = h.answered;
      held = h.held;
      ents = h.ents;
      bounded = omega (arith, h.bounded);
      consistent = h.consistent;
    }

    -- On a platform on which no call fails, and a path that is never a directory, a session of
    -- storable calls (`set_ex` in any mode, `del`, `get`, and closing the store and opening a new
    -- one) on a store that is consistent with some entries, with more fuel than there are entries
    -- and calls, succeeds; its answers are exactly those of a map under the same calls; and the
    -- store ends with that map, consistent with at most one more entry for each call. The promises
    -- of the platform for the path are assumed.
    pub run_refines :
        (calls : List Call) (kv : KeyValue) (w : os.World) (ents : List Entry)
        → All IsValid calls
        → length ents + length calls < fuel
        → IsConsistent laws kv w ents
        → let (answers, mem) = spec_run calls kv.mem in
          Refined laws (length ents + length calls) answers mem (run os fuel path calls kv w)
    unfolding run spec_run
    run_refines [] kv w ents valid enough good = record {
      answered = refl;
      held = refl;
      ents = ents;
      bounded = omega arith;
      consistent = good;
    }
    run_refines (call ∷ calls) kv w ents valid enough good =
        let (a, mem) = spec call kv.mem in
        let (_, kv', w') = perform os fuel path call kv w in
        let first =
          call_refines laws sound fuel path paths plain call kv w ents valid.0 (omega arith) good in
        let rest =
          run_refines calls kv' w' first.ents valid.1 (omega (arith, first.bounded))
            first.consistent in
        let size : ℕ = length ents + length (call ∷ calls) in
        continued (length ents + 1) size a mem (spec_run calls mem).1 (spec_run calls mem).0
          (perform os fuel path call kv w) (run os fuel path calls kv' w') first
          (widened (length first.ents + length calls) size (spec_run calls mem).0
            (spec_run calls mem).1 (run os fuel path calls kv' w') (omega (arith, first.bounded))
            (subst
              (λ m.
                Refined laws (length first.ents + length calls) (spec_run calls m).0
                  (spec_run calls m).1 (run os fuel path calls kv' w'))
              first.held rest))
