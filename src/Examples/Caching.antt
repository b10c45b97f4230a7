-- ===== src/Examples/Caching.antt =====
-- Two namespaces over the cache in memory.
use repolith.Prelude.{◌≡◌, refl, arith, false, List, [], ◌∷◌}
use repolith.Prelude.Texts.{Text, starts_with}
use repolith.Types.{BuildEvent, success}
use repolith.Cache.Contract.{IsStorable, IsStore, event_of}
use repolith.Cache.Namespaced.{prefixed_event, namespaced}
use repolith.Cache.Namespaced.Laws.{namespaced-IsStore}
use repolith.Cache.Namespaced.Apart.{Written, nothing, one, batch, namespaced-apart}
use repolith.Examples.{zeros, zeros-IsDigest, clone_id, memory, memory-IsStore}

abbrev left : Text
left = b'l' ∷ b':' ∷ []

abbrev right : Text
right = b'r' ∷ b':' ∷ []

abbrev event : BuildEvent
event = success clone_id zeros zeros 3

event-IsStorable : IsStorable event
event-IsStorable = (zeros-IsDigest, zeros-IsDigest, omega arith)

namespaced-IsStore_example : IsStore (namespaced memory left)
namespaced-IsStore_example = namespaced-IsStore memory left memory-IsStore

left-right : starts_with left right ≡ false
unfolding starts_with
left-right = refl

right-left : starts_with right left ≡ false
unfolding starts_with
right-left = refl

abbrev filled : List BuildEvent
filled = prefixed_event left event ∷ prefixed_event left event ∷ []

-- A single event, and then a batch of one.
left-written : Written (namespaced memory left) [] filled
unfolding namespaced
left-written =
    batch (one nothing event event-IsStorable refl) (event ∷ []) (event-IsStorable, tt) refl

namespaced-apart_example :
    ((namespaced memory right).last_build filled clone_id
      ≡ (namespaced memory right).last_build [] clone_id)
    × (event_of ((namespaced memory right).last_record filled clone_id)
        ≡ event_of ((namespaced memory right).last_record [] clone_id))
namespaced-apart_example =
    namespaced-apart memory left right [] filled memory-IsStore left-right right-left left-written
      clone_id
