-- ===== src/Plan/Compute.antt =====
-- `Plan::compute_with_forced`, part 3: the probes of a layer and the sequential cascade
-- (crates/repolith-core/src/plan.rs). The concurrent probes of one layer are independent, so each
-- is the answer of its action, or `Cancelled` where the token wins the race.
mod Probes
mod Cascade
pub mod Stale
pub mod Returns
use repolith.Prelude.{
  ℕ, suc, Bool, true, false, Option, none, some, List, [], ◌∷◌, ◌++◌, Result, ok, err, panic, ◌>>=◌,
  ◌>>◌, map_err, contains, if◌then◌else◌,
}
use repolith.Prelude.Maps.{get, insert, collect, collect_onto, keys}
use repolith.Types.{
  ActionId, action_id_eq, Sha256, Ctx, CancellationToken, BuildError, cancelled, BuildEvent,
}
use repolith.Action.{Action}
use repolith.Cache.{Cache}
use repolith.Plan.Layers.{PlanError, build, layers_of}
use repolith.Plan.Reasons.{ChangeReason, classify}

pub record Plan : Type 0 where
  pub layers : List (List ActionId)
  pub reasons : List (ActionId × ChangeReason)
  pub input_hashes : List (ActionId × Sha256)

abbrev pub ById : Type 0
ById = List (ActionId × Action)

abbrev pub pairs_of : List Action → ById
pairs_of [] = []
pairs_of (a ∷ actions) = (a.id, a) ∷ pairs_of actions

-- The map of the registered actions; of two actions with one id the later wins.
unfoldable pub by_id_of : List Action → ById
unfolding collect_onto insert
by_id_of actions = collect (pairs_of actions)

-- Indexing a map: a key that is absent panics.
abbrev pub index : {E V : Type 0} → ActionId → List (ActionId × V) → Result E V
index i m = elim (get i m) [ none ↦ panic | some v ↦ ok v ]

pub record LayerProbes : Type 0 where
  pub hashes_now : List (ActionId × Sha256)
  pub cached_map : List (ActionId × Option BuildEvent)
  pub presence_map : List (ActionId × Bool)

-- `select(probe, ctx.cancel.cancelled())`.
abbrev pub raced_hash : Ctx → ActionId → Action → Result BuildError Sha256
raced_hash ctx i action = if ctx.cancel.wins_race i then err cancelled else action.input_hash ctx

-- `hash_probes`: the actions of the layer, looked up before any probe runs.
pub hash_probes : ById → List ActionId → Result PlanError (List (ActionId × Action))
hash_probes by_id [] = ok []
hash_probes by_id (i ∷ layer) = do
  action ← index i by_id
  rest ← hash_probes by_id layer
  ok ((i, action) ∷ rest)

-- The loop that unwraps the probes: the first error in layer order is returned.
pub hashes_of :
    Ctx
    → List (ActionId × Action)
    → List (ActionId × Sha256)
    → Result PlanError (List (ActionId × Sha256))
hashes_of ctx [] hashes = ok hashes
hashes_of ctx ((i, action) ∷ probes) hashes = do
  hash ← map_err build (raced_hash ctx i action)
  hashes_of ctx probes (insert i hash hashes)

abbrev pub presence_of : Ctx → List (ActionId × Action) → List (ActionId × Bool)
presence_of ctx [] = []
presence_of ctx ((i, action) ∷ probes) = (i, action.output_present ctx) ∷ presence_of ctx probes

module _ {S : Type 0} (cache : Cache S) (s : S) where
  abbrev pub cached_of : List ActionId → List (ActionId × Option BuildEvent)
  cached_of [] = []
  cached_of (i ∷ layer) = (i, cache.last_build s i) ∷ cached_of layer

  pub probe_layer : Ctx → ById → List ActionId → Result PlanError LayerProbes
  unfolding hash_probes hashes_of
  probe_layer ctx by_id layer = do
    probes ← hash_probes by_id layer
    hashes ← hashes_of ctx probes []
    ok (record {
      hashes_now = hashes;
      cached_map = collect (cached_of layer);
      presence_map = collect (presence_of ctx probes);
    })

-- The three maps that the walk over the layers fills.
pub record Marks : Type 0 where
  pub reasons : List (ActionId × ChangeReason)
  pub stale : List ActionId
  pub input_hashes : List (ActionId × Sha256)

abbrev pub flatten_lookup : Option (Option BuildEvent) → Option BuildEvent
flatten_lookup none = none
flatten_lookup (some last) = last

abbrev pub present_or_true : Option Bool → Bool
present_or_true none = true
present_or_true (some b) = b

-- `reasons.insert` and `stale.insert`, or nothing.
pub mark : ActionId → Sha256 → Option ChangeReason → Marks → Marks
unfolding insert
mark i now none m = record m { input_hashes = insert i now m.input_hashes }
mark i now (some reason) m = record {
  reasons = insert i reason m.reasons;
  stale = i ∷ m.stale;
  input_hashes = insert i now m.input_hashes;
}

pub cascade :
    ById → (forced : List ActionId) → LayerProbes → List ActionId → Marks → Result PlanError Marks
unfolding classify mark
cascade by_id forced probes [] m = ok m
cascade by_id forced probes (i ∷ layer) m = do
  now ← index i probes.hashes_now
  let last = flatten_lookup (get i probes.cached_map)
  let present = present_or_true (get i probes.presence_map)
  action ← index i by_id
  cascade by_id forced probes layer
      (mark i now (classify action now last m.stale present (contains forced i)) m)

module _ {S : Type 0} (cache : Cache S) (s : S) (ctx : Ctx) (by_id : ById)
    (forced : List ActionId) where
  -- The loop over the layers; `poll` counts the polls of the token.
  pub walk : (poll : ℕ) → List (List ActionId) → Marks → Result PlanError Marks
  unfolding probe_layer cascade
  walk poll [] m = ok m
  walk poll (layer ∷ layers) m = if ctx.cancel.is_cancelled poll then err (build cancelled) else (do
    probes ← probe_layer cache s ctx by_id layer
    m' ← cascade by_id forced probes layer m
    walk (suc poll) layers m')

module _ {S : Type 0} (cache : Cache S) (s : S) where
  unfoldable pub compute_with_forced :
      List Action → Ctx → (forced : List ActionId) → Result PlanError Plan
  unfolding layers_of walk by_id_of
  compute_with_forced actions ctx forced = do
    layers ← layers_of actions
    m ←
        walk cache s ctx (by_id_of actions) forced 0 layers
          (record { reasons = []; stale = []; input_hashes = [] })
    ok (record { layers = layers; reasons = m.reasons; input_hashes = m.input_hashes })

  -- `Plan::compute` forces nothing.
  unfoldable pub compute : List Action → Ctx → Result PlanError Plan
  unfolding compute_with_forced
  compute actions ctx = compute_with_forced actions ctx []
