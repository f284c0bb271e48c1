-- ===== src/Hc/Huffman/Codes.antt =====
-- The codes of hc/huffmantable.go against the tree of hc/huffman.go.
use minhq.Base.{
  ℕ, zero, suc, ◌+◌, ◌^◌, ◌<◌, ◌≡◌, refl, List, [], ◌∷◌, Bool, true, false, ◌&&◌, Option, none,
  some, ltb, ◌==◌, ltb→lt, arith, subst, sym, ap, ==_iff, get_elem?, length,
}
use native.Mathlib.Nat.{zero-add, add-zero}
use minhq.Base.Bits.{bits_of}
use minhq.Hc.HuffmanTable.{HuffmanTableItem, huffman_table}
use minhq.Hc.Huffman.{HuffmanDecoderNode, absent, leaf, layer, decompressor_tree}

-- The byte at the end of a path of bits.
unfoldable pub follow : HuffmanDecoderNode → List ℕ → Option ℕ
follow absent xs = none
follow (leaf v) [] = some v
follow (leaf v) (x ∷ xs) = none
follow (layer a b) [] = none
follow (layer a b) (zero ∷ xs) = follow a xs
follow (layer a b) (suc zero ∷ xs) = follow b xs
follow (layer a b) (suc (suc x) ∷ xs) = none

&&-split : (a b : Bool) → (a && b) ≡ true → (a ≡ true) × (b ≡ true)
&&-split a b h = ground arith

ends_at : Option ℕ → ℕ → Bool
ends_at none i = false
ends_at (some v) i = v == i

decodes : ℕ → HuffmanTableItem → Bool
unfolding ends_at
decodes i e =
    ltb e.val (2 ^ e.len)
    && (ltb e.len 31 && (ltb 4 e.len && ends_at (follow decompressor_tree (bits_of e.len e.val)) i))

all_decode : ℕ → List HuffmanTableItem → Bool
unfolding decodes
all_decode i [] = true
all_decode i (e ∷ es) = decodes i e && all_decode (suc i) es

table-decodes : all_decode 0 huffman_table ≡ true
unfolding all_decode follow bits_of decompressor_tree
table-decodes = refl

-- What an entry of the table says of the byte that it stands at.
pub record Decodes (i : ℕ) (e : HuffmanTableItem) : Type 0 where
  pub fits : e.val < 2 ^ e.len
  pub short : e.len < 31
  pub long : 4 < e.len
  pub leads : follow decompressor_tree (bits_of e.len e.val) ≡ some i

ends_at→ : (x : Option ℕ) (i : ℕ) → ends_at x i ≡ true → x ≡ some i
unfolding ends_at
ends_at→ none i h = cc
ends_at→ (some v) i h = ap some ((==_iff v i).0 h)

decodes→ : (i : ℕ) (e : HuffmanTableItem) → decodes i e ≡ true → Decodes i e
unfolding decodes
decodes→ i e h =
    let (fits, rest) = &&-split _ _ h in
    let (short, rest') = &&-split _ _ rest in
    let (long, ends) = &&-split _ _ rest' in
    record {
      fits = ltb→lt _ _ fits;
      short = ltb→lt _ _ short;
      long = ltb→lt _ _ long;
      leads = ends_at→ _ i ends;
    }

entry-Decodes :
    (i : ℕ) (es : List HuffmanTableItem) (c : ℕ)
    → all_decode i es ≡ true
    → c < length es
    → (e : HuffmanTableItem) × (get_elem? es c ≡ some e) × Decodes (i + c) e
unfolding all_decode
entry-Decodes i [] c h lt = absurd (omega arith)
entry-Decodes i (e ∷ es) zero h lt =
    (e, refl, subst (λ n. Decodes n e) (sym (add-zero i)) (decodes→ i e (&&-split _ _ h).0))
entry-Decodes i (e ∷ es) (suc c) h lt =
    let same : suc i + c ≡ i + suc c = omega arith in
    let below : c < length es = omega arith in
    let (e', at, d) = entry-Decodes (suc i) es c (&&-split _ _ h).1 below in
    (e', at, subst (λ n. Decodes n e') same d)

pub byte-Decodes :
    (c : ℕ) → c < 256 → (e : HuffmanTableItem) × (get_elem? huffman_table c ≡ some e) × Decodes c e
byte-Decodes c h =
    let (e, at, d) = entry-Decodes 0 huffman_table c table-decodes h in
    (e, at, subst (λ n. Decodes n e) (zero-add c) d)
