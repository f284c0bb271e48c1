-- ===== src/Hc/Headers.antt =====
-- hc/codec.go: header fields and the order of pseudo-header fields.
pub mod Ordering
use minhq.Base.{
  ℕ, List, [], ◌∷◌, Bool, true, false, not, Option, none, some, Error, ◌==◌, if◌then◌else◌,
}
use minhq.Base.Names.{Name}

pub record HeaderField : Type 0 where
  pub name : Name
  pub value : Name
  pub sensitive : Bool

-- `h.Name[0] == ':'`; `none` is the panic on an empty name.
unfoldable pub starts_with_colon : Name → Option Bool
starts_with_colon [] = none
starts_with_colon (c ∷ cs) = some (c == b':')

-- The loop of `ValidatePseudoHeaders` from a value of `pseudo`.
unfoldable pub validate_loop : Bool → List HeaderField → Option Error
validate_loop pseudo [] = none
validate_loop pseudo (h ∷ hs) =
    let in_order = validate_loop true hs in
    let regular = validate_loop false hs in
    elim (starts_with_colon h.name) [
      | none ↦ some Error.panicked
      | some true ↦ if pseudo then in_order else some Error.pseudo_header_ordering
      | some false ↦ regular
    ]

unfoldable pub validate_pseudo_headers : List HeaderField → Option Error
validate_pseudo_headers hs = validate_loop true hs
