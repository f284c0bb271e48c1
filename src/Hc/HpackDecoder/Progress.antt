-- ===== src/Hc/HpackDecoder/Progress.antt =====
-- Every round of the loop of `ReadHeaderBlock` takes something, so the loop ends.
use minhq.Base.{
  ℕ, zero, suc, ◌≤◌, ◌<◌, ◌≡◌, refl, List, [], ◌∷◌, ◌++◌, Error, Result, ok, err, length, arith,
  inl, inr, ◌⊎◌, ◌==◌, Result-cases, Option-cases, Bool-cases,
}
use minhq.Io.BitReader.{BitReader, Reads, ◌>>=◌, pure, read_bit}
use minhq.Io.BitReader.View.{view, IsValid}
use minhq.Io.BitReader.Progress.{
  Behind, Advances, Behind-refl, Behind-trans, read_bit-Advances, read_bit-shorter, >>=-Advances,
  if-Advances,
}
use minhq.Hc.Integers.{read_int, read_index}
use minhq.Hc.Integers.Progress.{read_int-Advances, read_index-Advances}
use minhq.Hc.Strings.{read_string}
use minhq.Hc.Strings.Progress.{read_string-Advances}
use minhq.Hc.Headers.{HeaderField}
use minhq.Hc.Table.{TableCommon, entry_name}
use minhq.Hc.HpackTable.{hpack_get}
use minhq.Hc.HpackDecoder.ReadBack.{indexed_field, literal_field}
use minhq.Hc.HpackDecoder.{
  get_entry, read_indexed, read_name, read_name_value, read_literal, Decodes, decoding, reading,
  insert_field, adopt_capacity, read_incremental, read_capacity, Round, appending, instructing,
  branching, at_end, behind_zeros, behind_zero, read_round, read_fields,
}

get_entry-Advances : (t : TableCommon) (i : ℕ) → Advances (get_entry t i)
unfolding get_entry
get_entry-Advances t i r u = elim (Option-cases (hpack_get i t)) [
  | inl e ↦ rw (e, get_entry) (Behind-refl r u)
  | inr (x, e) ↦ rw (e, get_entry) (Behind-refl r u)
]

read_indexed-Advances : (t : TableCommon) → Advances (read_indexed t)
unfolding read_indexed
read_indexed-Advances t =
    >>=-Advances (read_index 7) (λ index. get_entry t index >>= λ entry. pure (indexed_field entry))
      (read_index-Advances 7 (omega arith))
      (λ i.
        >>=-Advances (get_entry t i) (λ entry. pure (indexed_field entry)) (get_entry-Advances t i)
          (λ entry. Behind-refl))

read_name-Advances : (t : TableCommon) (i : ℕ) → Advances (read_name t i)
unfolding read_name
read_name-Advances t i =
    if-Advances (i == 0) (read_string 7) (get_entry t i >>= λ entry. pure (entry_name entry))
      (read_string-Advances 7 (omega arith))
      (>>=-Advances (get_entry t i) (λ entry. pure (entry_name entry)) (get_entry-Advances t i)
        (λ entry. Behind-refl))

read_name_value-Advances :
    (t : TableCommon) (prefix : ℕ) → prefix ≤ 64 → Advances (read_name_value t prefix)
unfolding read_name_value
read_name_value-Advances t prefix most =
    >>=-Advances (read_index prefix)
      (λ index. read_name t index >>= λ n. read_string 7 >>= λ v. pure (n, v))
      (read_index-Advances prefix most)
      (λ i.
        >>=-Advances (read_name t i) (λ n. read_string 7 >>= λ v. pure (n, v))
          (read_name-Advances t i)
          (λ n.
            >>=-Advances (read_string 7) (λ v. pure (n, v)) (read_string-Advances 7 (omega arith))
              (λ v. Behind-refl)))

read_literal-Advances : (t : TableCommon) → Advances (read_literal t)
unfolding read_literal
read_literal-Advances t =
    >>=-Advances read_bit (λ b. read_name_value t 4 >>= λ nv. pure (literal_field nv b))
      read_bit-Advances
      (λ b.
        >>=-Advances (read_name_value t 4) (λ nv. pure (literal_field nv b))
          (read_name_value-Advances t 4 (omega arith)) (λ nv. Behind-refl))

-- A step on the decoder.
abbrev Moves {ℓ} : {A : Type ℓ} → Decodes A → Type 0
Moves d = (t : TableCommon) (r : BitReader) → IsValid r → Behind r (d t r).1

decoding-Moves {ℓ κ} :
    {A : Type ℓ} {B : Type κ} (m : TableCommon → Reads A) (f : A → TableCommon → TableCommon × B)
    → ((t : TableCommon) → Advances (m t))
    → Moves (decoding m f)
decoding-Moves m f h t r u = elim (Result-cases (m t r).1) [
  | inl (a, e) ↦ rw (e, decoding) (h t r u)
  | inr (x, e) ↦ rw (e, decoding) (h t r u)
]

appending-Moves : (d : Decodes HeaderField) → Moves d → Moves (appending d)
appending-Moves d h t r u = elim (Result-cases (d t r).2) [
  | inl (a, e) ↦ rw (e, appending) (h t r u)
  | inr (x, e) ↦ rw (e, appending) (h t r u)
]

instructing-Moves : (d : Decodes (Unit {0})) → Moves d → Moves (instructing d)
instructing-Moves d h t r u = elim (Result-cases (d t r).2) [
  | inl (a, e) ↦ rw (e, instructing) (h t r u)
  | inr (x, e) ↦ rw (e, instructing) (h t r u)
]

branching-Moves {ℓ} : {A : Type ℓ} (d d' : Decodes A) → Moves d → Moves d' → Moves (branching d d')
branching-Moves d d' h h' t r u =
    let b = read_bit-Advances r u in
    elim (Result-cases (read_bit r).1) [
      | inr (x, e) ↦ rw (e, branching) b
      | inl (v, e) ↦ elim (Bool-cases (v == 1)) [
        | inl one ↦
            rw (e, branching, one) (Behind-trans r (read_bit r).0 _ b (h t (read_bit r).0 b.valid))
        | inr other ↦
            rw (e, branching, other)
              (Behind-trans r (read_bit r).0 _ b (h' t (read_bit r).0 b.valid))
      ]
    ]

behind_zero-Moves : Moves behind_zero
unfolding behind_zero behind_zeros read_incremental read_capacity
behind_zero-Moves =
    branching-Moves (appending read_incremental) behind_zeros
      (appending-Moves read_incremental (
        decoding-Moves (λ t. read_name_value t 6) insert_field
          (λ t. read_name_value-Advances t 6 (omega arith))))
      (branching-Moves (instructing read_capacity) (appending (reading read_literal))
        (instructing-Moves read_capacity (
          decoding-Moves (λ t. read_int 5) adopt_capacity (λ t. read_int-Advances 5 (omega arith))))
        (appending-Moves (reading read_literal)
          (decoding-Moves read_literal (λ h t. (t, h)) read_literal-Advances)))

on_indexed-Moves : Moves (appending (reading read_indexed))
on_indexed-Moves =
    appending-Moves (reading read_indexed)
      (decoding-Moves read_indexed (λ h t. (t, h)) read_indexed-Advances)

-- A round ends the loop or takes at least a bit.
abbrev Steps : BitReader → TableCommon × BitReader × Result Round → Type 0
Steps r s =
    (s.2 ≡ ok Round.ended)
    ⊎ (((e : Error) × (s.2 ≡ err e)) ⊎ (IsValid s.1 × (length (view s.1) < length (view r))))

-- One of the next `n` rounds ends the loop, at the end of the input or with an error.
unfoldable pub Finishes : ℕ → TableCommon → BitReader → Type 0
Finishes zero t r = ⊥
Finishes (suc n) t r =
    let s = read_round t r in
    (s.2 ≡ ok Round.ended) ⊎ (((e : Error) × (s.2 ≡ err e)) ⊎ Finishes n s.0 s.1)

at_end-cases : (e : Error) → (at_end e ≡ ok Round.ended) ⊎ ((x : Error) × (at_end e ≡ err x))
unfolding at_end
at_end-cases Error.eof = inl refl
at_end-cases e = ground arith

read_round-Steps : (t : TableCommon) (r : BitReader) → IsValid r → Steps r (read_round t r)
unfolding read_round
read_round-Steps t r u =
    let b = read_bit-Advances r u in
    let r' = (read_bit r).0 in
    elim (Result-cases (read_bit r).1) [
      | inr (x, e) ↦
          rw (e, read_round)
            (elim (at_end-cases x) [ inl ends ↦ inl ends | inr fails ↦ inr (inl fails) ])
      | inl (v, e) ↦
          let taken = read_bit-shorter r v u e in
          elim (Bool-cases (v == 1)) [
            | inl one ↦
                let m = on_indexed-Moves t r' b.valid in
                rw (e, read_round, one) (inr (inr (m.valid, omega (arith, taken, m.shorter))))
            | inr other ↦
                let m = behind_zero-Moves t r' b.valid in
                rw (e, read_round, other) (inr (inr (m.valid, omega (arith, taken, m.shorter))))
          ]
    ]

-- Rounds above the number of bits that are left change nothing.
read_fields_enough :
    (n n' : ℕ) (acc : List HeaderField) (t : TableCommon) (r : BitReader)
    → IsValid r
    → length (view r) < n
    → length (view r) < n'
    → read_fields n acc t r ≡ read_fields n' acc t r
unfolding read_fields
read_fields_enough zero n' acc t r u h h' = absurd (omega arith)
read_fields_enough (suc n) zero acc t r u h h' = absurd (omega arith)
read_fields_enough (suc n) (suc n') acc t r u h h' = elim (read_round-Steps t r u) [
  | inl ends ↦ rw (ends, read_fields) refl
  | inr (inl (e, fails)) ↦ rw (fails, read_fields) refl
  | inr (inr (u', less)) ↦ elim (Result-cases (read_round t r).2) [
    | inr (e, fails) ↦ rw (fails, read_fields) refl
    | inl (Round.ended, e) ↦ rw (e, read_fields) refl
    | inl (Round.instructed, e) ↦
        rw (e, read_fields)
          (read_fields_enough n n' acc (read_round t r).0 (read_round t r).1 u' (omega arith)
            (omega arith))
    | inl (Round.appended x, e) ↦
        rw (e, read_fields)
          (read_fields_enough n n' (acc ++ x ∷ []) (read_round t r).0 (read_round t r).1 u'
            (omega arith) (omega arith))
  ]
]

read_rounds-Finishes :
    (n : ℕ) (t : TableCommon) (r : BitReader) → IsValid r → length (view r) < n → Finishes n t r
unfolding Finishes
read_rounds-Finishes zero t r u h = absurd (omega arith)
read_rounds-Finishes (suc n) t r u h = elim (read_round-Steps t r u) [
  | inl ends ↦ inl ends
  | inr (inl fails) ↦ inr (inl fails)
  | inr (inr (u', less)) ↦
      inr (inr (read_rounds-Finishes n (read_round t r).0 (read_round t r).1 u' (omega arith)))
]

-- On a valid reader the loop of `ReadHeaderBlock` ends, whatever the input is: one of as many
-- rounds as there are bits left, and one more, ends it, and any two numbers of rounds above the
-- number of bits come to the same.
pub read_fields_ends :
    (n n' : ℕ) (acc : List HeaderField) (t : TableCommon) (r : BitReader)
    → IsValid r
    → length (view r) < n
    → length (view r) < n'
    → Finishes n t r × (read_fields n acc t r ≡ read_fields n' acc t r)
read_fields_ends n n' acc t r u h h' =
    (read_rounds-Finishes n t r u h, read_fields_enough n n' acc t r u h h')
