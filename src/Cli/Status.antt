-- ===== src/Cli/Status.antt =====
-- `repolith status` (crates/repolith-cli/src/main.rs): the lines that it prints. The table is drawn by
-- `comfy_table`, an argument; `encode` is `hex::encode`.
use repolith.Prelude.{
  ℕ, zero, suc, ◌-◌, Bool, false, Option, none, some, List, [], ◌∷◌, ◌++◌, Result, ok, err, ◌==◌,
  nat_eq, ◌&&◌, keep, find, length, is_empty, if◌then◌else◌,
}
use repolith.Prelude.Maps.{get, has}
use repolith.Prelude.Texts.{Text, codes}
use repolith.Types.{
  ActionId, action_id_eq, Sha256, Ctx, error_to_string, BuildEvent, success, failed, BuildRecord,
}
use repolith.Action.{Action}
use repolith.Manifest.{
  Manifest, NodeEntry, ActionEntry, git_clone, cargo_install, docker, repolith_stack,
}
use repolith.Manifest.ActionIds.{action_kind, action_ids}
use repolith.Plan.Compute.{Plan}
use repolith.Plan.Layers.Extract.{flat_topo}
use repolith.Plan.Reasons.{reason_to_string}
use repolith.Engine.Builder.{Orchestrator}
use repolith.Cli.Progress.{human_ms}
use repolith.Cli.Dates.{human_ago}
use repolith.Cli.Sync.{has_text}

push_front : ℕ → List Text → List Text
push_front c [] = (c ∷ []) ∷ []
push_front c (l ∷ ls) = (c ∷ l) ∷ ls

starts_with_feed : Text → Bool
starts_with_feed [] = false
starts_with_feed (c ∷ s) = c == 10

-- `str::lines`.
unfoldable pub lines : Text → List Text
unfolding push_front starts_with_feed
lines [] = []
lines (c ∷ s) =
    let rest = lines s in
    if c == 10
    then [] ∷ rest
    else if (c == 13) && starts_with_feed s
    then rest
    else push_front c rest

spaces : ℕ → Text
spaces zero = []
spaces (suc n) = b' ' ∷ spaces n

-- `{:<LABEL_W$}`.
unfoldable pub padded : Text → Text
unfolding spaces
padded label = label ++ spaces (12 - length label)

continued : List Text → List Text
unfolding padded codes
continued [] = []
continued (l ∷ ls) = (codes "  " ++ (padded [] ++ l)) ∷ continued ls

unfoldable pub field : (label value : Text) → List Text
unfolding lines padded continued codes
field label value = elim (lines value) [
  | [] ↦ (codes "  " ++ padded label) ∷ []
  | first ∷ rest ↦ (codes "  " ++ (padded label ++ first)) ∷ continued rest
]

-- `[String]::join`.
unfoldable pub join : (sep : Text) → List Text → Text
join sep [] = []
join sep (s ∷ []) = s
join sep (s ∷ t ∷ ss) = s ++ (sep ++ join sep (t ∷ ss))

-- The rows of the table.
unfoldable pub status_rows : (encode : List ℕ → Text) → Plan → List ActionId → List (List Text)
unfolding codes
status_rows encode p [] = []
status_rows encode p (i ∷ ids) =
    let rest = status_rows encode p ids in
    elim (get i p.reasons) [
      | some reason ↦ (i.name ∷ codes "stale" ∷ reason_to_string encode reason ∷ []) ∷ rest
      | none ↦ (i.name ∷ codes "up-to-date" ∷ codes "—" ∷ []) ∷ rest
    ]

unfoldable pub print_status_table :
    (draw : List (List Text) → Text) → (encode : List ℕ → Text) → Plan → List Text
unfolding status_rows codes
print_status_table draw encode p =
    draw (
      (codes "Action" ∷ codes "Status" ∷ codes "Reason" ∷ [])
      ∷ status_rows encode p (flat_topo p.layers))
    ∷ []

unfoldable pub print_last_run : (now : ℕ) → Option BuildRecord → List Text
unfolding field human_ms human_ago error_to_string codes
print_last_run now none = field (codes "last run") (codes "never — nothing cached for this id")
print_last_run now (some rec) =
    let when : Text = elim rec.recorded_at [
      | none ↦ codes "date not recorded by this cache"
      | some at_ms ↦ human_ago now at_ms
    ] in
    elim rec.event [
      | success i input output ms ↦
          field (codes "last run") (codes "succeeded in " ++ (human_ms ms ++ (codes ", " ++ when)))
      | failed i input error ms ↦
          field (codes "last run") (codes "failed in " ++ (human_ms ms ++ (codes ", " ++ when)))
          ++ field (codes "error") (error_to_string error)
    ]

abbrev cached_input : BuildEvent → Sha256
cached_input (success i input output ms) = input
cached_input (failed i input error ms) = input

unfoldable pub print_hashes :
    (encode : List ℕ → Text) → Option BuildRecord → (current : Option Sha256) → List Text
unfolding field codes
print_hashes encode none none = []
print_hashes encode none (some n) = field (codes "input") (codes "current  " ++ encode n.bytes)
print_hashes encode (some rec) none =
    field (codes "input") (codes "cached   " ++ encode (cached_input rec.event).bytes)
print_hashes encode (some rec) (some n) = field (codes "input") (
    codes "cached   "
    ++ (encode (cached_input rec.event).bytes ++ (codes "\ncurrent  " ++ encode n.bytes)))

optional : (label : Text) → Option Text → List Text
unfolding field
optional label none = []
optional label (some value) = field label value

abbrev or_text : Option Text → Text → Text
or_text none d = d
or_text (some s) d = s

unfoldable pub print_entry_fields : ActionEntry → List Text
unfolding optional field join codes
print_entry_fields git_clone = []
print_entry_fields (cargo_install crate_name package_name profile features install_to) =
    optional (codes "bin") crate_name
    ++ (optional (codes "package") package_name
        ++ (field (codes "profile") (or_text profile (codes "release (cargo default)"))
            ++ ((if is_empty features
                  then []
                  else field (codes "features") (join (codes ", ") features))
                ++ optional (codes "install to") install_to)))
print_entry_fields (docker tag dockerfile context) =
    field (codes "tag") tag
    ++ (optional (codes "dockerfile") dockerfile ++ optional (codes "context") context)
print_entry_fields (repolith_stack manifest) =
    field (codes "manifest") (or_text manifest (codes "repolith.toml"))

-- The nodes with each of their actions.
unfoldable pub flat_entries : List NodeEntry → List (NodeEntry × ActionEntry)
flat_entries [] = []
flat_entries (n ∷ nodes) = pairs_with n n.actions ++ flat_entries nodes
  where
    pairs_with : NodeEntry → List ActionEntry → List (NodeEntry × ActionEntry)
    pairs_with n [] = []
    pairs_with n (a ∷ actions) = (n, a) ∷ pairs_with n actions

unfoldable pub zip : {A B : Type 0} → List A → List B → List (A × B)
zip (a ∷ xs) (b ∷ ys) = (a, b) ∷ zip xs ys
zip _ _ = []

-- `manifest_entry`; `find_map` gives the first.
unfoldable pub manifest_entry : Manifest → ActionId → Option (NodeEntry × ActionEntry)
unfolding action_ids flat_entries zip get
manifest_entry m i = get i (zip (action_ids m) (flat_entries m.nodes))

unfoldable pub dep_lines : Plan → List ActionId → List Text
unfolding codes
dep_lines p [] = []
dep_lines p (d ∷ deps) =
    (d.name
      ++ (codes " ("
          ++ ((if has d p.reasons then codes "stale" else codes "up-to-date") ++ codes ")")))
    ∷ dep_lines p deps

unfoldable pub print_action : Ctx → Plan → Option Action → List Text
unfolding field join dep_lines codes
print_action ctx p none = []
print_action ctx p (some action) =
    field (codes "deps")
      (if is_empty action.deps then codes "none" else join (codes "\n") (dep_lines p action.deps))
    ++ field (codes "artifact")
        (if action.output_present ctx then codes "present" else codes "missing")

unfoldable pub print_source : NodeEntry → List Text
unfolding field codes
print_source node = elim node.path [
  | some p ↦ field (codes "source") (codes "path " ++ p)
  | none ↦ elim node.git [ none ↦ [] | some g ↦ field (codes "source") (codes "git  " ++ g) ]
]

module _ {S : Type 0} (encode : List ℕ → Text) (now : ℕ) (o : Orchestrator S) (p : Plan) where
  unfoldable pub print_action_facts : ActionId → List Text
  unfolding print_action find manifest_entry print_source print_entry_fields field action_kind codes
  print_action_facts i =
      print_action o.base_ctx p (find (λ a. a.id == i) o.actions) ++ elim o.manifest [
        | none ↦ []
        | some m ↦ elim (manifest_entry m i) [
          | none ↦ []
          | some (node, entry) ↦
              print_source node
              ++ (field (codes "action") (action_kind entry) ++ print_entry_fields entry)
        ]
      ]

  -- The block of one action.
  unfoldable pub print_block : ActionId → List Text
  unfolding field print_last_run print_hashes print_action_facts codes
  print_block i =
      let rec = o.store.cache.last_record o.store.state i in
      i.name
      ∷ (elim (get i p.reasons) [
        | some reason ↦
            field (codes "state") (codes "stale")
            ++ field (codes "reason") (reason_to_string encode reason)
        | none ↦ field (codes "state") (codes "up-to-date")
      ]
          ++ (print_last_run now rec
              ++ (print_hashes encode rec (get i p.input_hashes) ++ print_action_facts i)))

  unfoldable pub print_blocks : List ActionId → List Text
  unfolding print_block
  print_blocks [] = []
  print_blocks (i ∷ []) = print_block i
  print_blocks (i ∷ j ∷ ids) = print_block i ++ ([] ∷ print_blocks (j ∷ ids))

  -- An error where nothing matches.
  unfoldable pub print_status_detail : (filter : Text) → Result Text (List Text)
  unfolding keep has_text print_blocks codes
  print_status_detail filter =
      let matches = keep (λ i. has_text filter i.name) (flat_topo p.layers) in
      if is_empty matches
      then err (
          codes "no action id contains `"
          ++ (filter ++ codes "` — run `repolith status` with no argument to list them"))
      else ok (print_blocks matches)
