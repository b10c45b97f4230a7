-- ===== src/Prelude/Texts.antt =====
-- Rust's `str` as the list of its code points, and the operations that the source calls on it.
-- UTF-8 keeps the order of code points, so the byte order of `str::cmp` is the order here.
pub mod Order
use Prim.Native.Char.{code}
use Prim.Native.String.{String}
use Prim.Native.Nat.{ℕ, zero, suc, ◌+◌, ◌-◌, ◌/◌, ◌%◌}
use mathlib.Core.Bool.{Bool, true, false, ◌&&◌, ◌||◌}
use mathlib.Core.Option.{Option, none, some}
use mathlib.Core.List.{List, [], ◌∷◌, ◌++◌}
use repolith.Prelude.Tests.{ltb, leb, if◌then◌else◌}
use repolith.Prelude.Lists.{length}
use repolith.Prelude.Equality.{◌==◌, nat_eq}

abbrev pub Text : Type 0
Text = List ℕ

-- The text of a literal. It stays shut in proofs, which keeps long messages folded.
unfoldable pub codes : String → Text
codes String.[] = []
codes (String.◌∷◌ c s) = code c ∷ codes s

-- `str::strip_prefix`.
unfoldable pub strip_prefix : Text → Text → Option Text
strip_prefix [] s = some s
strip_prefix (p ∷ ps) [] = none
strip_prefix (p ∷ ps) (c ∷ s) = if p == c then strip_prefix ps s else none

unfoldable pub starts_with : Text → Text → Bool
starts_with [] s = true
starts_with (p ∷ ps) [] = false
starts_with (p ∷ ps) (c ∷ s) = p == c && starts_with ps s

-- `starts_with('-')`.
unfoldable pub starts_with_dash : Text → Bool
starts_with_dash [] = false
starts_with_dash (c ∷ s) = c == b'-'

-- `char::is_control`: the general category Cc.
unfoldable pub is_control : ℕ → Bool
is_control c = ltb c 32 || leb 127 c && leb c 159

unfoldable pub is_ascii_alphanumeric : ℕ → Bool
is_ascii_alphanumeric c =
    leb b'0' c && leb c b'9' || leb b'A' c && leb c b'Z' || leb b'a' c && leb c b'z'

push_front : ℕ → List Text → List Text
push_front c [] = (c ∷ []) ∷ []
push_front c (part ∷ parts) = (c ∷ part) ∷ parts

-- `str::split` on one character: never empty.
unfoldable pub split : ℕ → Text → List Text
unfolding push_front
split sep [] = [] ∷ []
split sep (c ∷ s) = let parts = split sep s in if c == sep then [] ∷ parts else push_front c parts

-- `str::split_once` on one character.
unfoldable pub split_once : ℕ → Text → Option (Text × Text)
split_once sep [] = none
split_once sep (c ∷ s) =
    let rest = split_once sep s in
    if c == sep then some ([], s) else elim rest [ none ↦ none | some (a, b) ↦ some (c ∷ a, b) ]

-- The digits of a number, most significant first; the fuel bounds their count.
unfoldable pub digits : ℕ → (ℕ → ℕ) → ℕ → ℕ → Text
digits base glyph zero n = []
digits base glyph (suc fuel) n =
    let front = digits base glyph fuel (n / base) in
    if ltb n base then glyph n ∷ [] else front ++ glyph (n % base) ∷ []

unfoldable pub decimal_digit : ℕ → ℕ
decimal_digit d = b'0' + d

upper_hex_digit : ℕ → ℕ
upper_hex_digit d = if ltb d 10 then b'0' + d else 55 + d

-- `format!("{n}")` for an unsigned number.
unfoldable pub decimal : ℕ → Text
unfolding digits decimal_digit
decimal n = digits 10 decimal_digit (suc n) n

zeros : ℕ → Text
zeros zero = []
zeros (suc n) = b'0' ∷ zeros n

pad_zeros : ℕ → Text → Text
unfolding zeros
pad_zeros width s = zeros (width - length s) ++ s

-- `format!("U+{:04X}", c as u32)`.
unfoldable pub unicode_escape : ℕ → Text
unfolding digits upper_hex_digit pad_zeros codes
unicode_escape c = codes "U+" ++ pad_zeros 4 (digits 16 upper_hex_digit (suc c) c)

-- `str::cmp`, as the test for "at most".
unfoldable pub text_le : Text → Text → Bool
text_le [] t = true
text_le (c ∷ s) [] = false
text_le (c ∷ s) (d ∷ t) = ltb c d || (c == d && text_le s t)
