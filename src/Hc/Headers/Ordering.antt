-- ===== src/Hc/Headers/Ordering.antt =====
-- When `ValidatePseudoHeaders` accepts.
use minhq.Base.{
  List, [], ◌∷◌, ◌++◌, ◌≡◌, ◌↔◌, refl, ap, Bool, true, false, none, some, All, inl, inr, ◌⊎◌,
  Option-cases, Bool-cases,
}
use minhq.Hc.Headers.{HeaderField, starts_with_colon, validate_loop, validate_pseudo_headers}

abbrev pub IsPseudo : HeaderField → Type 0
IsPseudo h = starts_with_colon h.name ≡ some true

abbrev pub IsRegular : HeaderField → Type 0
IsRegular h = starts_with_colon h.name ≡ some false

-- Pseudo-header fields first, then regular ones; no name is empty.
abbrev pub InOrder : List HeaderField → Type 0
InOrder hs =
    (ps : List HeaderField) × (rs : List HeaderField) × (hs ≡ ps ++ rs)
    × All IsPseudo ps
    × All IsRegular rs

colon-cases : (h : HeaderField) → (starts_with_colon h.name ≡ none) ⊎ (IsPseudo h ⊎ IsRegular h)
colon-cases h = elim (Option-cases (starts_with_colon h.name)) [
  | inl e ↦ inl e
  | inr (b, e) ↦ elim (Bool-cases b) [
    | inl t ↦ inr (inl (rw t at e))
    | inr f ↦ inr (inr (rw f at e))
  ]
]

regular→ : (hs : List HeaderField) → validate_loop false hs ≡ none → All IsRegular hs
unfolding validate_loop
regular→ [] e = tt
regular→ (h ∷ hs) e = elim (colon-cases h) [
  | inl p ↦ cc (rw (p, validate_loop) at e)
  | inr (inl p) ↦ cc (rw (p, validate_loop) at e)
  | inr (inr p) ↦ (p, regular→ hs (rw (p, validate_loop) at e))
]

ordered→ : (hs : List HeaderField) → validate_loop true hs ≡ none → InOrder hs
unfolding validate_loop
ordered→ [] e = ([], [], refl, tt, tt)
ordered→ (h ∷ hs) e = elim (colon-cases h) [
  | inl p ↦ cc (rw (p, validate_loop) at e)
  | inr (inl p) ↦
      let (ps, rs, eq, a, b) = ordered→ hs (rw (p, validate_loop) at e) in
      (h ∷ ps, rs, ap (◌∷◌ h) eq, (p, a), b)
  | inr (inr p) ↦ ([], h ∷ hs, refl, tt, (p, regular→ hs (rw (p, validate_loop) at e)))
]

regular← :
    (pseudo : Bool) (rs : List HeaderField) → All IsRegular rs → validate_loop pseudo rs ≡ none
unfolding validate_loop
regular← pseudo [] a = refl
regular← pseudo (h ∷ rs) (p, a) = rw (p, validate_loop) (regular← false rs a)

ordered← :
    (ps rs : List HeaderField)
    → All IsPseudo ps
    → All IsRegular rs
    → validate_loop true (ps ++ rs) ≡ none
unfolding validate_loop
ordered← [] rs a b = regular← true rs b
ordered← (h ∷ ps) rs (p, a) b = rw (p, validate_loop) (ordered← ps rs a b)

-- `ValidatePseudoHeaders` returns nil exactly on the lists of fields in which those whose name
-- starts with a colon stand in front of all others and no name is empty.
pub validate_pseudo_headers_iff :
    (hs : List HeaderField) → (validate_pseudo_headers hs ≡ none) ↔ InOrder hs
unfolding validate_pseudo_headers
validate_pseudo_headers_iff hs = (ordered→ hs, λ o. rw o.2 (ordered← o.0 o.1 o.3 o.4))

-- What an accepted list starts with.
pub validate_loop-cons :
    (pseudo : Bool) (h : HeaderField) (hs : List HeaderField)
    → validate_loop pseudo (h ∷ hs) ≡ none
    → (IsPseudo h × (pseudo ≡ true) × (validate_loop true hs ≡ none))
      ⊎ (IsRegular h × (validate_loop false hs ≡ none))
unfolding validate_loop
validate_loop-cons pseudo h hs e = elim (colon-cases h) [
  | inl p ↦ cc (rw (p, validate_loop) at e)
  | inr (inl p) ↦ elim (Bool-cases pseudo) [
    | inl t ↦ inl (p, t, rw (p, validate_loop, t) at e)
    | inr f ↦ cc (rw (p, validate_loop, f) at e)
  ]
  | inr (inr p) ↦ inr (p, rw (p, validate_loop) at e)
]

pub validate_pseudo_headers-loop :
    (hs : List HeaderField) → validate_pseudo_headers hs ≡ none → validate_loop true hs ≡ none
unfolding validate_pseudo_headers
validate_pseudo_headers-loop hs e = e
