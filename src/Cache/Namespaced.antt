-- ===== src/Cache/Namespaced.antt =====
-- `NamespacedCache` (crates/repolith-cache/src/namespaced.rs).
pub mod Laws
pub mod Apart
use repolith.Prelude.{Option, none, some, List, [], ◌∷◌, ◌++◌, Result, map}
use repolith.Prelude.Texts.{Text, strip_prefix}
use repolith.Types.{ActionId, BuildEvent, success, failed, BuildRecord}
use repolith.Cache.{Cache, Write}

unfoldable pub prefixed : (prefix : Text) → ActionId → ActionId
prefixed prefix i = record { name = prefix ++ i.name }

unfoldable pub prefixed_event : (prefix : Text) → BuildEvent → BuildEvent
unfolding prefixed
prefixed_event prefix (success i input output ms) = success (prefixed prefix i) input output ms
prefixed_event prefix (failed i input error ms) = failed (prefixed prefix i) input error ms

-- The closure `strip`: an id without the prefix stays as it is.
unfoldable pub strip : (prefix : Text) → ActionId → ActionId
unfolding strip_prefix
strip prefix i = elim (strip_prefix prefix i.name) [ none ↦ i | some rest ↦ record { name = rest } ]

unfoldable pub stripped_event : (prefix : Text) → BuildEvent → BuildEvent
unfolding strip
stripped_event prefix (success i input output ms) = success (strip prefix i) input output ms
stripped_event prefix (failed i input error ms) = failed (strip prefix i) input error ms

abbrev pub stripped_build : Text → Option BuildEvent → Option BuildEvent
stripped_build prefix none = none
stripped_build prefix (some event) = some (stripped_event prefix event)

abbrev stripped_record : Text → Option BuildRecord → Option BuildRecord
stripped_record prefix none = none
stripped_record prefix (some r) =
    some (record { event = stripped_event prefix r.event; recorded_at = r.recorded_at })

abbrev pub prefixed_events : Text → List BuildEvent → List BuildEvent
prefixed_events prefix [] = []
prefixed_events prefix (e ∷ events) = prefixed_event prefix e ∷ prefixed_events prefix events

-- `NamespacedCache::new`, as the implementation of the trait.
unfoldable pub namespaced : {S : Type 0} (inner : Cache S) (prefix : Text) → Cache S
unfolding stripped_event prefixed_event
namespaced inner prefix = record {
  last_build = λ s i. stripped_build prefix (inner.last_build s (prefixed prefix i));
  last_record = λ s i. stripped_record prefix (inner.last_record s (prefixed prefix i));
  record_event = λ event. inner.record_event (prefixed_event prefix event);
  record_batch = λ events. inner.record_batch (prefixed_events prefix events);
}
