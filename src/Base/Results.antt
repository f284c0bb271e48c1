-- ===== src/Base/Results.antt =====
-- The error values of the repository's packages, and Go's (value, error) pair.
use mathlib.Core.Path.{◌≡◌, refl}
use mathlib.Core.Logic.{◌⊎◌, inl, inr}

-- `eof`, `short_write`, `no_progress` and `too_large` are Go's io.EOF, io.ErrShortWrite,
-- io.ErrNoProgress and bytes.ErrTooLarge; `transport_failed` is any other error of a transport.
-- `value_too_large` is frame.go's ErrTooLarge, and the rest are the repository's own.
pub data Error : Type 0 where
  eof short_write no_progress too_large transport_failed : Error
  integer_overflow index_error table_overflow pseudo_header_ordering : Error
  value_too_large unsupported_frame extra_data invalid_frame setting_value : Error
  bad_status no_push_ids huffman_coding base_delta : Error
  -- A Go panic, which no caller recovers from.
  panicked : Error

pub data Result {ℓ} (A : Type ℓ) : Type ℓ where
  ok : A → Result A
  err : Error → Result A

pub Result-cases {ℓ} :
    {A : Type ℓ} (x : Result A) → ((a : A) × (x ≡ ok a)) ⊎ ((e : Error) × (x ≡ err e))
Result-cases (ok a) = inl (a, refl)
Result-cases (err e) = inr (e, refl)
