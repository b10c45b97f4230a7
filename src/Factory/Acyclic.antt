-- ===== src/Factory/Acyclic.antt =====
-- The actions that the factory builds can always be put into layers.
use repolith.Prelude.{
  append_assoc, append-nil, ℕ, suc, ◌≤◌, ◌<◌, ◌≡◌, refl, sym, ap, subst, ◌∙◌, inl, inr, true, false,
  ◌&&◌, List, [], ◌∷◌, ◌++◌, All, length, ok, >>=-eq-ok, ok-injective, ◌==◌, ==_iff, contains,
  Result-cases, All-contains, arith, if◌then◌else◌, Bool-cases,
}
use repolith.Prelude.Maps.{IsNodup, contains-append, split-IsNodup}
use repolith.Types.{ActionId, action_id_eq}
use repolith.Action.{Action}
use repolith.Plan.Layers.{ids_of, layers_of}
use repolith.Plan.Layers.Graph.{depends_on}
use repolith.Plan.Layers.Errors.{IsAcyclic, layers_of_of_IsAcyclic}
use repolith.Manifest.{Manifest, NodeEntry, ActionEntry, Semver, UrlParser}
use repolith.Manifest.ActionIds.{id_of, ids_from, node_ids, action_ids}
use repolith.Manifest.ActionIds.Unique.{action_ids-IsNodup}
use repolith.Manifest.Validate.{validate}
use repolith.Factory.{
  Paths, FactoryCtx, Made, task_for_entry, action_for_entry, build_node, build_nodes,
  build_actions_from_manifest, Behaviour, boxed, boxed_all,
}

ids_of-append : (xs ys : List Action) → ids_of (xs ++ ys) ≡ ids_of xs ++ ids_of ys
ids_of-append [] ys = refl
ids_of-append (a ∷ xs) ys = ap (λ r. a.id ∷ r) (ids_of-append xs ys)

-- The place of an id in a list.
position : List ActionId → ActionId → ℕ
position [] x = 0
position (y ∷ ys) x = let n = position ys x in if y == x then 0 else suc n

position-before :
    (xs ys : List ActionId) (d : ActionId)
    → contains xs d ≡ true
    → position (xs ++ ys) d < length xs
unfolding position contains
position-before [] ys d h = absurd (ground arith)
position-before (x ∷ xs) ys d h = ground (arith, position-before xs ys d)

position-after :
    (xs ys : List ActionId) (d : ActionId)
    → contains xs d ≡ false
    → length xs ≤ position (xs ++ ys) d
unfolding position contains
position-after [] ys d h = omega arith
position-after (x ∷ xs) ys d h = ground (arith, position-after xs ys d)

-- Every dependency is the id of an earlier action.
abbrev IsChained : List ActionId → List Action → Type 0
IsChained seen [] = Unit
IsChained seen (a ∷ actions) =
    All (λ d. contains seen d ≡ true) a.deps × IsChained (seen ++ a.id ∷ []) actions

unseen :
    (seen : List ActionId) (x : ActionId) (rest : List ActionId)
    → ((y : ActionId) → contains seen y ≡ true → contains (x ∷ rest) y ≡ false)
    → contains seen x ≡ false
unfolding contains
unseen seen x rest apart = elim (Bool-cases (contains seen x)) [
  | inl t ↦ absurd (ground (arith, apart x t, ==_iff x x))
  | inr f ↦ f
]

chained-falls :
    (seen : List ActionId) (actions : List Action)
    → IsChained seen actions
    → IsNodup (seen ++ ids_of actions)
    → (x d : ActionId) → depends_on actions x d ≡ true
    → (contains (seen ++ ids_of actions) d ≡ true)
      × (position (seen ++ ids_of actions) d < position (seen ++ ids_of actions) x)
unfolding depends_on
chained-falls seen [] chained distinct x d h = absurd (ground arith)
chained-falls seen (a ∷ actions) chained distinct x d h =
    elim (Bool-cases ((a.id == x) && contains a.deps d)) [
      | inl t ↦
          let (_, _, apart) = split-IsNodup seen (a.id ∷ ids_of actions) distinct in
          let early =
            All-contains (λ d. contains seen d ≡ true) a.deps d chained.0 (ground arith) in
          let late = unseen seen a.id (ids_of actions) apart in
          let same = (==_iff a.id x).0 (ground arith) in
          (
            ground (arith, contains-append seen (a.id ∷ ids_of actions) d, early),
            subst
                (λ y.
                  position (seen ++ a.id ∷ ids_of actions) d
                  < position (seen ++ a.id ∷ ids_of actions) y)
                same
                (omega (
                  arith,
                  position-before seen (a.id ∷ ids_of actions) d early,
                  position-after seen (a.id ∷ ids_of actions) a.id late,
                )),
          )
      | inr f ↦
          let shift = append_assoc seen (a.id ∷ []) (ids_of actions) in
          subst (λ ids. (contains ids d ≡ true) × (position ids d < position ids x)) shift
            (chained-falls (seen ++ a.id ∷ []) actions chained.1
              (subst (λ ids. IsNodup ids) (sym shift) distinct) x d (ground arith))
    ]

chained-IsAcyclic :
    (actions : List Action)
    → IsChained [] actions
    → IsNodup (ids_of actions)
    → IsAcyclic (position (ids_of actions)) actions
chained-IsAcyclic actions chained distinct x d h = chained-falls [] actions chained distinct x d h

module _ (paths : Paths) (b : Behaviour) (fctx : FactoryCtx) where
  last_seen : (seen : List ActionId) (i : ActionId) → contains (seen ++ i ∷ []) i ≡ true
  unfolding contains
  last_seen seen i = ground (arith, contains-append seen (i ∷ []) i, ==_iff i i)

  -- What holds of the actions built holds of `made`.
  both :
      (actual made : List Made) (seen : List ActionId) {ids : List ActionId}
      → actual ≡ made
      → ids_of (boxed_all b actual) ≡ ids
      → IsChained seen (boxed_all b actual)
      → (ids_of (boxed_all b made) ≡ ids) × IsChained seen (boxed_all b made)
  both actual made seen {ids} same h chain =
      subst (λ m. (ids_of (boxed_all b m) ≡ ids) × IsChained seen (boxed_all b m)) same (h, chain)

  head-Chained :
      (node : NodeEntry) (idx : ℕ) (prev : List ActionId) (entry : ActionEntry)
      (entries : List ActionEntry) (head : Made) (rest made : List Made) (seen : List ActionId)
      → head.id ≡ id_of node.id entry idx
      → head.deps ≡ prev
      → head ∷ rest ≡ made
      → All (λ d. contains seen d ≡ true) prev
      → ids_of (boxed_all b rest) ≡ ids_from node.id (suc idx) entries
      → IsChained (seen ++ id_of node.id entry idx ∷ []) (boxed_all b rest)
      → (ids_of (boxed_all b made) ≡ ids_from node.id idx (entry ∷ entries))
        × IsChained seen (boxed_all b made)
  unfolding ids_from boxed
  head-Chained node idx prev entry entries head rest made seen same_id same_deps same h ids chain =
      both (head ∷ rest) made seen same
        (ap (λ i. i ∷ ids_of (boxed_all b rest)) same_id
          ∙ ap (λ is. id_of node.id entry idx ∷ is) ids)
        (
          subst (All (λ d. contains seen d ≡ true)) (sym same_deps) h,
          subst (λ i. IsChained (seen ++ i ∷ []) (boxed_all b rest)) (sym same_id) chain,
        )

  -- One node: its actions have the ids of the manifest, and each depends on the one before.
  node-Chained :
      (node : NodeEntry) (idx : ℕ) (prev : List ActionId) (entries : List ActionEntry)
      (made : List Made) (seen : List ActionId)
      → build_node paths node fctx idx prev entries ≡ ok made
      → All (λ d. contains seen d ≡ true) prev
      → (ids_of (boxed_all b made) ≡ ids_from node.id idx entries)
        × IsChained seen (boxed_all b made)
  unfolding build_node action_for_entry ids_from boxed
  node-Chained node idx prev [] made seen e h = (ground arith, ground arith)
  node-Chained node idx prev (entry ∷ entries) made seen e h =
      let i = id_of node.id entry idx in
      elim (Result-cases (task_for_entry paths node entry fctx)) [
        | inl (task, t) ↦
            elim (Result-cases (build_node paths node fctx (suc idx) (i ∷ []) entries)) [
              | inl (rest, r) ↦
                  let (ids, chain) =
                    node-Chained node (suc idx) (i ∷ []) entries rest (seen ++ i ∷ []) r
                      (last_seen seen i, tt) in
                  let head : Made = record { id = i; deps = prev; task = task } in
                  head-Chained node idx prev entry entries head rest made seen refl refl
                    (ok-injective (rw (build_node, action_for_entry, t, r) at e)) h ids chain
              | inr (inl (error, r)) ↦ absurd (ground arith)
              | inr (inr r) ↦ absurd (ground arith)
            ]
        | inr (inl (error, t)) ↦ absurd (ground arith)
        | inr (inr t) ↦ absurd (ground arith)
      ]

  append-Chained :
      (xs ys : List Action) (seen : List ActionId)
      → IsChained seen xs
      → IsChained (seen ++ ids_of xs) ys
      → IsChained seen (xs ++ ys)
  append-Chained [] ys seen hx hy = subst (λ s. IsChained s ys) (append-nil seen) hy
  append-Chained (a ∷ xs) ys seen hx hy = (
    hx.0,
    append-Chained xs ys (seen ++ a.id ∷ []) hx.1
        (subst (λ s. IsChained s ys) (sym (append_assoc seen (a.id ∷ []) (ids_of xs))) hy),
  )

  boxed-append : (xs ys : List Made) → boxed_all b (xs ++ ys) ≡ boxed_all b xs ++ boxed_all b ys
  boxed-append [] ys = refl
  boxed-append (m ∷ xs) ys = ap (λ r. boxed b m ∷ r) (boxed-append xs ys)

  nodes-Chained :
      (nodes : List NodeEntry) (made : List Made) (seen : List ActionId)
      → build_nodes paths fctx nodes ≡ ok made
      → (ids_of (boxed_all b made) ≡ node_ids nodes) × IsChained seen (boxed_all b made)
  unfolding build_nodes node_ids
  nodes-Chained [] made seen e = both [] made seen (ok-injective e) refl tt
  nodes-Chained (node ∷ nodes) made seen e =
      let (own, o, e₁) = >>=-eq-ok (build_node paths node fctx 0 [] node.actions) _ e in
      let (rest, r, e₂) = >>=-eq-ok (build_nodes paths fctx nodes) _ e₁ in
      let (own_ids, own_chain) = node-Chained node 0 [] node.actions own seen o tt in
      let (rest_ids, rest_chain) = nodes-Chained nodes rest (seen ++ ids_of (boxed_all b own)) r in
      both (own ++ rest) made seen (ok-injective e₂)
        (ap ids_of (boxed-append own rest)
          ∙ ids_of-append (boxed_all b own) (boxed_all b rest)
          ∙ ap (λ ids. ids ++ ids_of (boxed_all b rest)) own_ids
          ∙ ap (λ ids. ids_from node.id 0 node.actions ++ ids) rest_ids)
        (subst (IsChained seen) (sym (boxed-append own rest))
          (append-Chained (boxed_all b own) (boxed_all b rest) seen own_chain rest_chain))

  -- The factory registers exactly the actions of the manifest, in its order.
  pub build_actions-ids :
      (m : Manifest) (made : List Made)
      → build_actions_from_manifest paths m fctx ≡ ok made
      → ids_of (boxed_all b made) ≡ action_ids m
  unfolding build_actions_from_manifest action_ids
  build_actions-ids m made e = (nodes-Chained m.nodes made [] e).0

  module _ {Version VersionReq : Type 0} (semver : Semver Version VersionReq)
      (parse_url : UrlParser) where
    -- The actions that the factory builds from a manifest that `validate` accepts have no missing
    -- dependency and no cycle: they can be put into layers.
    pub build_actions_layers :
        (m : Manifest) (made : List Made)
        → validate semver parse_url m ≡ ok tt
        → build_actions_from_manifest paths m fctx ≡ ok made
        → (layers : List (List ActionId)) × (layers_of (boxed_all b made) ≡ ok layers)
    unfolding build_actions_from_manifest
    build_actions_layers m made accepted e =
        let actions = boxed_all b made in
        let (ids, chained) = nodes-Chained m.nodes made [] e in
        let distinct =
          subst (λ xs. IsNodup xs) (sym (build_actions-ids m made e))
            (action_ids-IsNodup semver parse_url m accepted) in
        layers_of_of_IsAcyclic (position (ids_of actions)) actions
          (chained-IsAcyclic actions chained distinct)
