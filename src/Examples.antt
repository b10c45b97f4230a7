-- ===== src/Examples.antt =====
-- Concrete data for the examples: two actions, one of which depends on the other, and a cache in
-- memory that keeps the events, newest first.
mod Planning
mod Reasons
mod Manifests
mod Running
mod Again
mod Caching
mod Storing
mod Sourcing
mod Showing
mod Syncing
mod Federating
mod Installing
mod Nesting
use repolith.Prelude.{
  ◌≡◌, refl, ◌∙◌, Bool, true, false, Option, none, some, List, [], ◌∷◌, Result, ok, ◌==◌,
  if◌then◌else◌, arith, some_inj, ap, sym,
}
use repolith.Types.{
  ActionId, action_id_eq, Sha256, Ctx, CancellationToken, BuildOutput, BuildEvent, event_id,
  BuildRecord, success,
}
use repolith.Action.{Action}
use repolith.Cache.{Cache, Write, default_last_record}
use repolith.Cache.Contract.{IsDigest, IsStore, after_event, after_batch, event_of}
use repolith.Plan.Compute.{Plan}
use repolith.Plan.Reasons.{no_cached_build}

abbrev pub clone_id : ActionId
clone_id = record { name = b'c' ∷ [] }

abbrev pub install_id : ActionId
install_id = record { name = b'i' ∷ [] }

abbrev pub zeros : Sha256
zeros = record {
  bytes =
      0 ∷ 0 ∷ 0 ∷ 0 ∷ 0 ∷ 0 ∷ 0 ∷ 0 ∷ 0 ∷ 0 ∷ 0 ∷ 0 ∷ 0 ∷ 0 ∷ 0 ∷ 0 ∷ 0 ∷ 0 ∷ 0 ∷ 0 ∷ 0 ∷ 0 ∷ 0 ∷ 0
      ∷ 0 ∷ 0 ∷ 0 ∷ 0 ∷ 0 ∷ 0 ∷ 0 ∷ 0 ∷ [];
}

pub zeros-IsDigest : IsDigest zeros
zeros-IsDigest = ground arith

abbrev pub digest : Sha256
digest = zeros

abbrev pub simple : ActionId → List ActionId → Action
simple i deps = record {
  id = i;
  deps = deps;
  input_hash = λ ctx. ok digest;
  execute = λ ctx. ok (record { output_hash = digest; stdout = [] });
  is_coordinator = false;
  output_present = λ ctx. true;
}

abbrev pub clone : Action
clone = simple clone_id []

abbrev pub install : Action
install = simple install_id (clone_id ∷ [])

-- Registered in the order that the dependencies do not ask for.
abbrev pub both : List Action
both = install ∷ clone ∷ []

abbrev pub quiet : Ctx
quiet = record {
  cancel = record { is_cancelled = λ n. false; wins_race = λ i. false };
  workdir = [];
  env = [];
}

abbrev pub newest : List BuildEvent → ActionId → Option BuildEvent
newest [] i = none
newest (e ∷ events) i = if event_id e == i then some e else newest events i

abbrev pub push_all : List BuildEvent → List BuildEvent → List BuildEvent
push_all [] s = s
push_all (e ∷ events) s = push_all events (e ∷ s)

abbrev pub memory : Cache (List BuildEvent)
memory = record {
  last_build = newest;
  last_record = λ s i. default_last_record (newest s i);
  record_event = λ e s. (ok tt, e ∷ s);
  record_batch = λ events s. (ok tt, push_all events s);
}

newest-push_all :
    (i : ActionId) (events s : List BuildEvent)
    → newest (push_all events s) i ≡ after_batch i events (newest s i)
newest-push_all i [] s = refl
newest-push_all i (e ∷ events) s = newest-push_all i events (e ∷ s)

event_of-default : (e : Option BuildEvent) → event_of (default_last_record e) ≡ e
unfolding default_last_record
event_of-default none = refl
event_of-default (some e) = refl

pub memory-IsStore : IsStore memory
memory-IsStore = record {
  reads_event = λ e s s' storable wrote i. ap (λ w. newest w.1 i) (sym wrote);
  reads_batch = λ events s s' storable wrote i.
      ap (λ w. newest w.1 i) (sym wrote) ∙ newest-push_all i events s;
  reads_record = λ s i. event_of-default (newest s i);
}

-- What is planned when nothing is cached.
abbrev pub fresh_plan : Plan
fresh_plan = record {
  layers = (clone_id ∷ []) ∷ (install_id ∷ []) ∷ [];
  reasons = (clone_id, no_cached_build) ∷ (install_id, no_cached_build) ∷ [];
  input_hashes = (clone_id, digest) ∷ (install_id, digest) ∷ [];
}
