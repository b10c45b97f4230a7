-- ===== src/Manifest/ActionIds/Unique.antt =====
-- The ids of a validated manifest are distinct.
use repolith.Prelude.{
  ℕ, zero, suc, ◌+◌, ◌-◌, ◌*◌, ◌/◌, ◌%◌, ◌<◌, ◌≡◌, ◌≢◌, ◌⊎◌, inl, inr, refl, ap, false, List, [],
  ◌∷◌, ◌++◌, All, ◌==◌, ==_iff, ==-cases, nat_eq, list_eq, contains, All-contains, arith, ltb,
  Bool-cases, ok,
}
use repolith.Prelude.Maps.{IsNodup, append-IsNodup, contains-append}
use repolith.Prelude.Texts.{Text, codes, digits, decimal_digit, decimal}
use repolith.Types.{action_id_eq}
use repolith.Manifest.{
  Semver, UrlParser, Manifest, NodeEntry, ActionEntry, git_clone, cargo_install, docker,
  repolith_stack,
}
use repolith.Manifest.ActionIds.{action_kind, action_id, id_of, ids_from, node_ids, action_ids}
use repolith.Manifest.Checks.Laws.{IsSafeName, IsNoSeparator}
use repolith.Manifest.Validate.Laws.{ids, IsSafeNode, validate_iff}
use repolith.Manifest.Validate.{validate}

-- The number that decimal digits spell, after the digits that spell `acc`.
value : ℕ → Text → ℕ
value acc [] = acc
value acc (c ∷ s) = value (10 * acc + (c - b'0')) s

value-append :
    (acc : ℕ) (s : Text) (c : ℕ) → value acc (s ++ c ∷ []) ≡ 10 * value acc s + (c - b'0')
unfolding value
value-append acc [] c = refl
value-append acc (d ∷ s) c = value-append (10 * acc + (d - b'0')) s c

value-digits : (fuel n : ℕ) → n < fuel → value 0 (digits 10 decimal_digit fuel n) ≡ n
unfolding digits decimal_digit value
value-digits zero n h = absurd (omega arith)
value-digits (suc fuel) n h = elim (Bool-cases (ltb n 10)) [
  | inl t ↦ ground arith
  | inr f ↦ ground (
    arith,
    value-digits fuel (n / 10) (ground arith),
    value-append 0 (digits 10 decimal_digit fuel (n / 10)) (b'0' + n % 10),
  )
]

decimal-injective : (i j : ℕ) → decimal i ≡ decimal j → i ≡ j
unfolding decimal
decimal-injective i j e =
    omega (arith, value-digits (suc i) i, value-digits (suc j) j, ap (value 0) e)

-- A text before the first colon is known from the whole.
colon_split :
    (s t r u : Text)
    → contains s b':' ≡ false
    → contains t b':' ≡ false
    → s ++ b':' ∷ r ≡ t ++ b':' ∷ u
    → (s ≡ t) × (r ≡ u)
unfolding contains
colon_split [] [] r u hs ht e = ground arith
colon_split [] (d ∷ t) r u hs ht e = absurd (ground arith)
colon_split (c ∷ s) [] r u hs ht e = absurd (ground arith)
colon_split (c ∷ s) (d ∷ t) r u hs ht e =
    ground (arith, colon_split s t r u (ground arith) (ground arith) (ground arith))

action_kind-colon : (a : ActionEntry) → contains (action_kind a) b':' ≡ false
unfolding action_kind codes contains
action_kind-colon git_clone = refl
action_kind-colon (cargo_install crate_name package_name profile features install_to) = refl
action_kind-colon (docker tag dockerfile context) = refl
action_kind-colon (repolith_stack manifest) = refl

-- The id determines the node and the index.
action_id-injective :
    (n m : Text) (a b : ActionEntry) (i j : ℕ)
    → contains n b':' ≡ false
    → contains m b':' ≡ false
    → action_id n a i ≡ action_id m b j
    → (n ≡ m) × (i ≡ j)
unfolding action_id codes
action_id-injective n m a b i j hn hm e =
    let outer = colon_split n m _ _ hn hm e in
    let tail = ap (λ s. elim s [ [] ↦ [] | c ∷ rest ↦ rest ]) outer.1 in
    let inner =
      colon_split (action_kind a) (action_kind b) _ _ (action_kind-colon a) (action_kind-colon b)
        tail in
    let last = ap (λ s. elim s [ [] ↦ [] | c ∷ rest ↦ rest ]) inner.1 in
    (outer.0, decimal-injective i j last)

id_of-apart :
    (n m : Text) (a b : ActionEntry) (i j : ℕ)
    → contains n b':' ≡ false
    → contains m b':' ≡ false
    → (n ≢ m) ⊎ (i ≢ j)
    → (id_of n a i == id_of m b j) ≡ false
id_of-apart n m a b i j hn hm other = elim (==-cases (id_of n a i) (id_of m b j)) [
  | inl (_, same) ↦
      let (node, index) = action_id-injective n m a b i j hn hm (ap (λ x. x.name) same) in
      elim other [ inl h ↦ absurd (h node) | inr h ↦ absurd (h index) ]
  | inr (f, _) ↦ f
]

is_other : {P : Type 0} {i j : ℕ} → P ⊎ (j < i) → P ⊎ (i ≢ j)
is_other (inl h) = inl h
is_other (inr h) = inr (omega arith)

stays_other : {P : Type 0} {i j : ℕ} → P ⊎ (j < i) → P ⊎ (j < suc i)
stays_other (inl h) = inl h
stays_other (inr h) = inr (omega arith)

-- An id of another node, or of a smaller index, is none of those from the index on.
ids_from-absent :
    (n m : Text) (actions : List ActionEntry) (b : ActionEntry) (i j : ℕ)
    → contains n b':' ≡ false
    → contains m b':' ≡ false
    → (n ≢ m) ⊎ (j < i)
    → contains (ids_from n i actions) (id_of m b j) ≡ false
unfolding ids_from contains
ids_from-absent n m [] b i j hn hm other = refl
ids_from-absent n m (a ∷ actions) b i j hn hm other =
    rw (id_of-apart n m a b i j hn hm (is_other other))
      (ids_from-absent n m actions b (suc i) j hn hm (stays_other other))

ids_from-IsNodup :
    (n : Text) (i : ℕ) (actions : List ActionEntry)
    → contains n b':' ≡ false
    → IsNodup (ids_from n i actions)
unfolding ids_from
ids_from-IsNodup n i [] h = tt
ids_from-IsNodup n i (a ∷ actions) h = (
  ids_from-absent n n actions a (suc i) i h h (inr (omega arith)),
  ids_from-IsNodup n (suc i) actions h,
)

abbrev Colonless : List NodeEntry → Type 0
Colonless nodes = All (λ n. contains n.id b':' ≡ false) nodes

node_ids-absent :
    (m : Text) (b : ActionEntry) (j : ℕ) (nodes : List NodeEntry)
    → contains m b':' ≡ false
    → Colonless nodes
    → contains (ids nodes) m ≡ false
    → contains (node_ids nodes) (id_of m b j) ≡ false
unfolding node_ids contains
node_ids-absent m b j [] hm h fresh = refl
node_ids-absent m b j (n ∷ nodes) hm h fresh = ground (
  arith,
  contains-append (ids_from n.id 0 n.actions) (node_ids nodes) (id_of m b j),
  ids_from-absent n.id m n.actions b 0 j h.0 hm (inl (λ e. ground (arith, ==_iff n.id m))),
  node_ids-absent m b j nodes hm h.1 (ground arith),
)

ids_from-apart :
    (n : Text) (i : ℕ) (actions : List ActionEntry) (nodes : List NodeEntry)
    → contains n b':' ≡ false
    → Colonless nodes
    → contains (ids nodes) n ≡ false
    → All (λ x. contains (node_ids nodes) x ≡ false) (ids_from n i actions)
unfolding ids_from
ids_from-apart n i [] nodes hn h fresh = tt
ids_from-apart n i (a ∷ actions) nodes hn h fresh =
    (node_ids-absent n a i nodes hn h fresh, ids_from-apart n (suc i) actions nodes hn h fresh)

node_ids-IsNodup :
    (nodes : List NodeEntry) → IsNodup (ids nodes) → Colonless nodes → IsNodup (node_ids nodes)
unfolding node_ids
node_ids-IsNodup [] distinct h = tt
node_ids-IsNodup (n ∷ nodes) distinct h =
    let own = ids_from n.id 0 n.actions in
    let apart = ids_from-apart n.id 0 n.actions nodes h.0 h.1 distinct.0 in
    append-IsNodup own (node_ids nodes) (ids_from-IsNodup n.id 0 n.actions h.0)
      (node_ids-IsNodup nodes distinct.1 h.1)
      λ x later. elim (Bool-cases (contains own x)) [
        | inl t ↦ absurd (ground (arith, All-contains _ own x apart t))
        | inr f ↦ f
      ]

colonless : (id : Text) → All IsNoSeparator id → contains id b':' ≡ false
unfolding contains
colonless [] h = refl
colonless (c ∷ id) h = ground (arith, colonless id h.1)

pub safe-Colonless :
    (parse_url : UrlParser) (nodes : List NodeEntry)
    → All (λ n. IsSafeName n.id × IsSafeNode parse_url n) nodes
    → Colonless nodes
safe-Colonless parse_url [] h = tt
safe-Colonless parse_url (n ∷ nodes) h =
    (colonless n.id h.0.0.1.0, safe-Colonless parse_url nodes h.1)

module _ {Version VersionReq : Type 0} (semver : Semver Version VersionReq)
    (parse_url : UrlParser) where
  -- No two actions of a manifest that `validate` accepts have the same id.
  pub action_ids-IsNodup :
      (m : Manifest) → validate semver parse_url m ≡ ok tt → IsNodup (action_ids m)
  unfolding action_ids
  action_ids-IsNodup m accepted =
      let (distinct, safe) = ((validate_iff semver parse_url m).0 accepted).1 in
      node_ids-IsNodup m.nodes distinct (safe-Colonless parse_url m.nodes safe)
