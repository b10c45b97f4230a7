-- ===== src/Sources/Digest/Stable.antt =====
-- The digest of a closure says what went into it, and nothing of where it lies.
use repolith.Prelude.{ℕ, ◌≡◌, refl, sym, ap, ◌∙◌, some, List, contains}
use repolith.Prelude.Texts.{Text}
use repolith.Prelude.Texts.Order.{text_le_total, text_le_trans, text_le_antisym}
use repolith.Prelude.Maps.{distinct, contains-distinct, distinct-IsNodup}
use repolith.Prelude.Sorting.{sort_by}
use repolith.Prelude.Sorting.Unique.{IsOrder, sort_by_congr}
use repolith.Types.{Sha256, sha256_eq}
use repolith.Sources.{Files}
use repolith.Sources.Closure.{Closure}
use repolith.Sources.Digest.{sha_le, ingredients, closure_bytes, tree_digest, source_closure_digest}

sha_le-IsOrder : IsOrder sha_le
unfolding sha_le
sha_le-IsOrder = record {
  total = λ a b. text_le_total a.bytes b.bytes;
  trans = λ a b c. text_le_trans a.bytes b.bytes c.bytes;
  antisym = λ a b h k. ap (λ bs. record { bytes = bs }) (text_le_antisym a.bytes b.bytes h k);
}

-- The same digests, in whatever order and number.
abbrev pub IsSame : List Sha256 → List Sha256 → Type 0
IsSame ds es = (d : Sha256) → contains ds d ≡ contains es d

sorted_congr :
    (ds es : List Sha256)
    → IsSame ds es
    → sort_by sha_le (distinct ds) ≡ sort_by sha_le (distinct es)
sorted_congr ds es same =
    sort_by_congr sha_le (distinct ds) (distinct es) sha_le-IsOrder (distinct-IsNodup ds)
      (distinct-IsNodup es) (λ d. contains-distinct ds d ∙ same d ∙ sym (contains-distinct es d))

-- Two machines on which the root has the same tree digest, and the dependency trees and workspace
-- files have the same digests, agree on the digest of the closure, wherever they hold the sources.
pub source_closure_digest_stable :
    (sha : List ℕ → Sha256) (utf8 : Text → List ℕ) (f g : Files) (cl cl' : Closure)
    (root root' : Text)
    → tree_digest sha utf8 f root ≡ tree_digest sha utf8 g root'
    → IsSame (ingredients sha utf8 f cl) (ingredients sha utf8 g cl')
    → source_closure_digest sha utf8 f (some cl) root
      ≡ source_closure_digest sha utf8 g (some cl') root'
unfolding source_closure_digest closure_bytes
source_closure_digest_stable sha utf8 f g cl cl' root root' trees same =
    rw (trees, sorted_congr (ingredients sha utf8 f cl) (ingredients sha utf8 g cl') same) refl
