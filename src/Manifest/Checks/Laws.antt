-- ===== src/Manifest/Checks/Laws.antt =====
-- What the checks of single fields accept, without the order and the messages of the checks.
use repolith.Prelude.{
  ℕ, ◌≤◌, ◌<◌, ◌≡◌, ◌≢◌, ◌↔◌, ◌⊎◌, inl, inr, refl, Bool, true, false, List, [], ◌∷◌, All, any,
  is_empty, ok, err, panic, ◌>>◌, for_each, ◌==◌, ==_iff, nat_eq, list_eq, arith, Bool-cases,
  All-of_find, find_of_All,
}
use repolith.Prelude.Texts.{Text, starts_with_dash, is_control, split}
use repolith.Manifest.{ManifestError}
use repolith.Manifest.Checks.{
  Check, reject_if, reject_char, check_no_leading_dash, is_separator, is_dots, check_node_id_safe,
  has_parent_dir, is_absolute, check_contained_path,
}

pub reject_if_iff : (test : Bool) (e : ManifestError) → (reject_if test e ≡ ok tt) ↔ (test ≡ false)
reject_if_iff true e = (λ h. cc, λ h. cc)
reject_if_iff false e = (λ h. refl, λ h. refl)

pub reject_char_iff :
    (p : ℕ → Bool) (e : ℕ → ManifestError) (s : Text)
    → (reject_char p e s ≡ ok tt) ↔ All (λ c. p c ≡ false) s
unfolding reject_char
reject_char_iff p e s = (λ h. All-of_find p s (ground arith), λ h. ground (arith, find_of_All p s))

-- Two checks in a row pass when both pass.
pub then_iff :
    {P Q : Type 0} (m k : Check) → (m ≡ ok tt) ↔ P → (k ≡ ok tt) ↔ Q → ((m >> k) ≡ ok tt) ↔ (P × Q)
then_iff (ok u) k f g = (λ h. (f.0 refl, g.0 h), λ h. g.1 h.1)
then_iff (err e) k f g = (λ h. cc, λ h. absurd (ground (arith, f.1 h.0)))
then_iff panic k f g = (λ h. cc, λ h. absurd (ground (arith, f.1 h.0)))

pub for_each_iff :
    {A : Type 0} {P : A → Type 0} (body : A → Check) (xs : List A)
    → ((x : A) → (body x ≡ ok tt) ↔ P x)
    → (for_each body xs ≡ ok tt) ↔ All P xs
unfolding for_each
for_each_iff body [] f = (λ h. tt, λ h. refl)
for_each_iff body (x ∷ xs) f = then_iff (body x) (for_each body xs) (f x) (for_each_iff body xs f)

pub iff_trans {ℓ κ μ} : {A : Type ℓ} {B : Type κ} {C : Type μ} → A ↔ B → B ↔ C → A ↔ C
iff_trans f g = (λ a. g.0 (f.0 a), λ c. f.1 (g.1 c))

pub All-iff :
    {A : Type 0} {P Q : A → Type 0} (xs : List A) → ((x : A) → P x ↔ Q x) → All P xs ↔ All Q xs
All-iff [] f = (λ h. tt, λ h. tt)
All-iff (x ∷ xs) f =
    (λ h. ((f x).0 h.0, (All-iff xs f).0 h.1), λ h. ((f x).1 h.0, (All-iff xs f).1 h.1))

pub reject_empty_iff :
    (s : Text) (e : ManifestError) → (reject_if (is_empty s) e ≡ ok tt) ↔ (s ≢ [])
reject_empty_iff [] e = (λ h. cc, λ h. absurd (h refl))
reject_empty_iff (c ∷ s) e = (λ h. λ eq. cc, λ h. refl)

-- The text does not begin with the character.
abbrev pub IsFree : ℕ → Text → Type 0
IsFree c s = (rest : Text) → s ≢ c ∷ rest

-- The text is no command-line flag.
abbrev pub IsNoFlag : Text → Type 0
IsNoFlag s = IsFree b'-' s

pub dash_iff : (s : Text) → (starts_with_dash s ≡ false) ↔ IsNoFlag s
unfolding starts_with_dash
dash_iff [] = (λ h. λ rest eq. cc, λ h. refl)
dash_iff (c ∷ s) = (
  λ h. λ rest eq. ground arith,
  λ h. elim (Bool-cases (c == b'-')) [ inl t ↦ absurd (ground (arith, h s)) | inr f ↦ f ],
)

pub reject_dash_iff :
    (s : Text) (e : ManifestError) → (reject_if (starts_with_dash s) e ≡ ok tt) ↔ IsNoFlag s
reject_dash_iff s e = iff_trans (reject_if_iff (starts_with_dash s) e) (dash_iff s)

pub check_no_leading_dash_iff :
    (value node field : Text) → (check_no_leading_dash value node field ≡ ok tt) ↔ IsNoFlag value
unfolding check_no_leading_dash
check_no_leading_dash_iff value node field = reject_dash_iff value _

-- No control character.
abbrev pub IsPrintable : ℕ → Type 0
IsPrintable c = (32 ≤ c) × ((c < 127) ⊎ (159 < c))

control_iff : (c : ℕ) → (is_control c ≡ false) ↔ IsPrintable c
unfolding is_control
control_iff c = (λ h. ground arith, λ h. ground arith)

pub reject_control_iff :
    (e : ℕ → ManifestError) (s : Text) → (reject_char is_control e s ≡ ok tt) ↔ All IsPrintable s
reject_control_iff e s = iff_trans (reject_char_iff is_control e s) (All-iff s control_iff)

-- No character that makes a path of a name.
abbrev pub IsNoSeparator : ℕ → Type 0
IsNoSeparator c = (c ≢ b'/') × (c ≢ 92) × (c ≢ b':')

separator_iff : (c : ℕ) → (is_separator c ≡ false) ↔ IsNoSeparator c
unfolding is_separator
separator_iff c = (λ h. ground arith, λ h. ground arith)

dots_iff : (s : Text) → (is_dots s ≡ false) ↔ ((s ≢ b'.' ∷ []) × (s ≢ b'.' ∷ b'.' ∷ []))
unfolding is_dots
dots_iff s = (
  λ h. (
    λ eq. ground (arith, ==_iff s (b'.' ∷ [])),
    λ eq. ground (arith, ==_iff s (b'.' ∷ b'.' ∷ [])),
  ),
  λ h. ground (arith, ==_iff s (b'.' ∷ []), ==_iff s (b'.' ∷ b'.' ∷ [])),
)

-- The id names a child of a directory: it is neither empty nor a path nor one of `.` and `..`.
abbrev pub IsSafeName : Text → Type 0
IsSafeName id =
    (id ≢ [])
    × (All IsNoSeparator id × (All IsPrintable id × ((id ≢ b'.' ∷ []) × (id ≢ b'.' ∷ b'.' ∷ []))))

pub check_node_id_safe_iff : (id : Text) → (check_node_id_safe id ≡ ok tt) ↔ IsSafeName id
unfolding check_node_id_safe
check_node_id_safe_iff id = then_iff _ _ (reject_empty_iff id _) (
    then_iff _ _ (iff_trans (reject_char_iff is_separator _ id) (All-iff id separator_iff)) (
      then_iff _ _ (reject_control_iff _ id)
        (iff_trans (reject_if_iff (is_dots id) _) (dots_iff id))))

absolute_iff : (s : Text) → (is_absolute s ≡ false) ↔ IsFree b'/' s
unfolding is_absolute
absolute_iff [] = (λ h. λ rest eq. cc, λ h. refl)
absolute_iff (c ∷ s) = (
  λ h. λ rest eq. ground arith,
  λ h. elim (Bool-cases (c == b'/')) [ inl t ↦ absurd (ground (arith, h s)) | inr f ↦ f ],
)

any_iff :
    (part : Text) (parts : List Text)
    → (any (λ p. p == part) parts ≡ false) ↔ All (λ p. p ≢ part) parts
unfolding any
any_iff part [] = (λ h. tt, λ h. refl)
any_iff part (p ∷ parts) = (
  λ h. (λ eq. ground (arith, ==_iff p part), (any_iff part parts).0 (ground arith)),
  λ h. ground (arith, ==_iff p part, (any_iff part parts).1 h.1),
)

parent_iff :
    (path : Text)
    → (has_parent_dir path ≡ false) ↔ All (λ p. p ≢ b'.' ∷ b'.' ∷ []) (split b'/' path)
unfolding has_parent_dir
parent_iff path = any_iff (b'.' ∷ b'.' ∷ []) (split b'/' path)

-- The path stays below the directory it is joined to, and is no flag.
abbrev pub IsContained : Text → Type 0
IsContained path =
    (path ≢ [])
    × (All IsPrintable path
        × (IsNoFlag path × (IsFree b'/' path × All (λ p. p ≢ b'.' ∷ b'.' ∷ []) (split b'/' path))))

pub check_contained_path_iff :
    (path node field : Text) → (check_contained_path path node field ≡ ok tt) ↔ IsContained path
unfolding check_contained_path
check_contained_path_iff path node field = then_iff _ _ (reject_empty_iff path _) (
    then_iff _ _ (reject_control_iff _ path) (
      then_iff _ _ (reject_dash_iff path _) (
        then_iff _ _ (iff_trans (reject_if_iff (is_absolute path) _) (absolute_iff path))
          (iff_trans (reject_if_iff (has_parent_dir path) _) (parent_iff path)))))
