-- ===== src/Examples/Storing.antt =====
-- A database in memory: its rows, newest first, and the clock. A transaction is the state at its
-- beginning.
use repolith.Prelude.{
  zero, suc, ok-injective, panic≢ok, err≢ok, sym, ap, ◌∙◌, ◌≡◌, refl, false, Option, none, some,
  List, [], ◌∷◌, ok, arith, ◌==◌, nat_eq, list_eq, if◌then◌else◌,
}
use repolith.Prelude.Texts.{Text}
use repolith.Prelude.Int.{pos, negsuc}
use repolith.Types.{
  BuildError, upstream_unreachable, command_failed, io, cancelled, BuildEvent, success, failed,
}
use repolith.Cache.Contract.{IsStorable, IsStore}
use repolith.Cache.Sqlite.{Row, Driver, fetch, record_event, record_batch, sqlite}
use repolith.Cache.Sqlite.Contract.{IsDriver}
use repolith.Cache.Sqlite.Laws.{after_write}
use repolith.Cache.Sqlite.Batch.{
  IsAtomic, record_batch-IsAtomic, fetch-record_event, sqlite-IsStore,
}
use repolith.Examples.{clone_id, install_id, zeros, zeros-IsDigest}

abbrev Table : Type 0
Table = List (Text × Row)

abbrev newest_row : Table → Text → Option Row
newest_row [] k = none
newest_row ((j, row) ∷ rows) k = if j == k then some row else newest_row rows k

abbrev to_json : BuildError → Text
to_json (upstream_unreachable s) = 0 ∷ s
to_json (command_failed (pos n) s) = 1 ∷ n ∷ s
to_json (command_failed (negsuc n) s) = 2 ∷ n ∷ s
to_json (io s) = 3 ∷ s
to_json cancelled = 4 ∷ []

abbrev of_json : Text → Option BuildError
of_json (zero ∷ s) = some (upstream_unreachable s)
of_json (suc zero ∷ n ∷ s) = some (command_failed (pos n) s)
of_json (suc (suc zero) ∷ n ∷ s) = some (command_failed (negsuc n) s)
of_json (suc (suc (suc zero)) ∷ s) = some (io s)
of_json _ = some cancelled

abbrev driver : Driver Table Table
driver = record {
  query_row = newest_row;
  insert_or_replace = λ k row w. (ok tt, (k, row) ∷ w);
  transaction = λ w. (ok w, w);
  commit = λ tx w. (ok tt, w);
  rollback = λ tx w. tx;
  is_poisoned = λ w. false;
  now = λ w. some 1700000000000;
  encode = λ bytes. bytes;
  decode = λ s. some s;
  to_string = λ error. ok (to_json error);
  from_str = of_json;
}

of_json-to_json : (error : BuildError) → of_json (to_json error) ≡ some error
of_json-to_json (upstream_unreachable s) = refl
of_json-to_json (command_failed (pos n) s) = refl
of_json-to_json (command_failed (negsuc n) s) = refl
of_json-to_json (io s) = refl
of_json-to_json cancelled = refl

driver-IsDriver : IsDriver driver newest_row
driver-IsDriver = record {
  inserted = λ key row w k h. refl;
  refused = λ key row w e k h. absurd (err≢ok (sym h));
  began = λ w tx h. ap newest_row (sym (ok-injective h));
  begun = λ w. refl;
  committed = λ tx w h. refl;
  rolled_back = λ tx w. refl;
  insert_panics = λ key row w h. panic≢ok (sym h);
  transaction_panics = λ w h. panic≢ok (sym h);
  commit_panics = λ tx w h. panic≢ok (sym h);
  to_string_panics = λ error h. panic≢ok (sym h);
  insert_poisons = λ key row w. refl;
  transaction_poisons = λ w. refl;
  commit_poisons = λ tx w. refl;
  rollback_poisons = λ tx w. refl;
  decodes = λ bytes h. refl;
  parses = λ error s h. ap of_json (sym (ok-injective h)) ∙ of_json-to_json error;
}

abbrev cloned : BuildEvent
cloned = success clone_id zeros zeros 1200

abbrev broken : BuildEvent
broken = failed install_id zeros (command_failed (negsuc 0) (b'e' ∷ [])) 30

cloned-IsStorable : IsStorable cloned
cloned-IsStorable = (zeros-IsDigest, zeros-IsDigest, omega arith)

broken-IsStorable : IsStorable broken
broken-IsStorable = (zeros-IsDigest, omega arith)

sqlite-IsStore_example : IsStore (sqlite driver)
sqlite-IsStore_example = sqlite-IsStore driver-IsDriver

record_batch-IsAtomic_example :
    IsAtomic driver (cloned ∷ broken ∷ []) [] (record_batch driver (cloned ∷ broken ∷ []) [])
record_batch-IsAtomic_example =
    record_batch-IsAtomic driver-IsDriver (cloned ∷ broken ∷ []) []
      (cloned-IsStorable, (broken-IsStorable, tt))

abbrev after_broken : Table
after_broken = (record_event driver broken []).1

broken-recorded : record_event driver broken [] ≡ (ok tt, after_broken)
unfolding record_event
broken-recorded = refl

fetch-record_event_example :
    fetch driver after_broken install_id
    ≡ after_write install_id broken (some 1700000000000) (fetch driver [] install_id)
fetch-record_event_example =
    fetch-record_event driver-IsDriver broken [] after_broken broken-IsStorable broken-recorded
      install_id
