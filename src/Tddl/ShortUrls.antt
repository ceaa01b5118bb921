-- ===== src/Tddl/ShortUrls.antt =====
-- The short URLs that the numbers of pkg/tddl give, by the encoder of pkg/mapping/base58.go.
use turl.Base.{ℕ, ◌≡◌, ◌≢◌, sym, ap, ◌∙◌, some, List, [], ◌∷◌, All}
use turl.Base58.{encode}
use turl.Base58.Decode.{value}
use turl.Base58.RoundTrip.{value-encode}
use Prim.Native.String.{String}
use turl.RateLimit.{Comparable}
use turl.RateLimit.Exponential.{Conversion}
use turl.Tddl.{SequenceTable}
use turl.Tddl.Table.{IsOptimistic}
use turl.Tddl.System.{System, Reach, Distinct, IsInitial}
use turl.Tddl.Unique.{Reach-Distinct}

-- No two of the numbers have the same text.
abbrev pub DistinctTexts : List ℕ → Type 0
DistinctTexts [] = Unit
DistinctTexts (n ∷ ns) = All (λ m. encode m ≢ encode n) ns × DistinctTexts ns

encode-injective : (m n : ℕ) → encode m ≡ encode n → m ≡ n
encode-injective m n e =
    let same : some m ≡ some n = sym (value-encode m) ∙ ap (value 0) e ∙ value-encode n in cc

apart : (n : ℕ) (ns : List ℕ) → All (λ m. m ≢ n) ns → All (λ m. encode m ≢ encode n) ns
apart n [] h = tt
apart n (m ∷ ns) h = ((λ e. h.0 (encode-injective m n e)), apart n ns h.1)

distinct_texts : (ns : List ℕ) → Distinct ns → DistinctTexts ns
distinct_texts [] h = tt
distinct_texts (n ∷ ns) h = (apart n ns h.0, distinct_texts ns h.1)

-- With a table under an optimistic lock: from new generators over one row, with steps from 1 to
-- below 2 ^ 63, no order of their steps hands out two numbers whose base58 texts are the same.
pub Reach-DistinctTexts :
    (T : SequenceTable) (id : ℕ) (o : IsOptimistic T id) ⦃c : Comparable String⦄
    (convert : Conversion) (u v : System T)
    → IsInitial T id u
    → Reach T convert u v
    → DistinctTexts v.issued
Reach-DistinctTexts T id o convert u v start r =
    distinct_texts v.issued (Reach-Distinct T id o convert u v start r).0
