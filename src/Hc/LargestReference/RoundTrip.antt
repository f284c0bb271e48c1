-- ===== src/Hc/LargestReference/RoundTrip.antt =====
-- The decoder recovers the largest reference from its remainder.
use minhq.Base.{
  ℕ, ◌+◌, ◌-◌, ◌*◌, ◌/◌, ◌%◌, ◌^◌, ◌<◌, ◌≤◌, ◌≡◌, ap, ◌∙◌, ◌⊎◌, inl, inr, false, ◌&&◌, some, arith,
  Bool-cases, ltb, leb, ◌==◌, ==_iff, if◌then◌else◌, ltb→lt, ltb_false→le,
}
use minhq.Base.Words.{u64}
use minhq.Hc.LargestReference.{encode_largest_reference, decode_largest_base}
use native.Mathlib.Nat.{div-add-mod, mod-lt, div-eq_of_lt-le}

-- The multiple of the range below the maximum is that of the reference or the next one.
rounding :
    (base maximum range : ℕ)
    → 0 < range
    → base ≤ maximum
    → maximum < base + range
    → (maximum / range * range ≡ base / range * range)
      ⊎ (maximum / range * range ≡ base / range * range + range)
rounding base maximum range pos lo hi =
    let q = base / range in
    let whole : q * range + base % range ≡ base = omega (arith, div-add-mod base range) in
    let below : base % range < range = mod-lt base pos in
    elim (Bool-cases (ltb maximum (q * range + range))) [
      | inl h ↦ inl (
          ap (λ (x : ℕ). x * range)
            (div-eq_of_lt-le range (omega arith) (omega (arith, ltb→lt _ _ h))))
      | inr h ↦ inr (next q (ltb_false→le _ _ h) (omega arith))
    ]
  where
    next :
        (q : ℕ)
        → q * range + range ≤ maximum
        → maximum < q * range + range + range
        → maximum / range * range ≡ q * range + range
    next q least most =
        ap (λ (x : ℕ). x * range) (div-eq_of_lt-le {k = q + 1} range (omega arith) (omega arith))
        ∙ omega arith

-- What is sent for a reference that is not 0.
encoded :
    (capacity lb : ℕ)
    → 32 ≤ capacity
    → capacity < 2 ^ 62
    → 0 < lb
    → encode_largest_reference capacity lb ≡ some (lb % (2 * (capacity / 32)) + 1)
unfolding encode_largest_reference
encoded capacity lb wide small h =
    let m = capacity / 32 in
    let same : u64 (2 * m) ≡ 2 * m = omega arith in
    let below : lb % (2 * m) < 2 * m = mod-lt lb (omega arith) in
    let used : (lb == 0) ≡ false = ground arith in
    let open_range : (2 * m == 0) ≡ false = ground arith in
    rw (used, same, open_range) (ap some (omega arith))

sent_as :
    (capacity lb raw : ℕ) {x : ℕ}
    → encode_largest_reference capacity lb ≡ some x
    → encode_largest_reference capacity lb ≡ some raw
    → raw ≡ x
sent_as capacity lb raw e f = cc

-- The decoder's choice between the rounded sum and the one a range below it.
chosen :
    (maximum range largest lb : ℕ)
    → lb ≤ maximum
    → maximum < lb + range
    → (largest ≡ lb) ⊎ (largest ≡ lb + range)
    → (if ltb maximum largest && leb range largest then some (largest - range) else some largest)
      ≡ some lb
chosen maximum range largest lb lo hi (inl same) = ground arith
chosen maximum range largest lb lo hi (inr above) = ground arith

decoded :
    (m lb table_base : ℕ)
    → 0 < m
    → m < 2 ^ 57
    → table_base < 2 ^ 62
    → lb ≤ table_base + m
    → table_base < lb + m
    → (u64 ((table_base + m) / (2 * m) * (2 * m) + (lb % (2 * m) + 1) + (2 ^ 64 - 1)) ≡ lb)
      ⊎ (u64 ((table_base + m) / (2 * m) * (2 * m) + (lb % (2 * m) + 1) + (2 ^ 64 - 1))
          ≡ lb + 2 * m)
decoded m lb table_base pos small near lo hi =
    let whole : lb / (2 * m) * (2 * m) + lb % (2 * m) ≡ lb =
      omega (arith, div-add-mod lb (2 * m)) in
    elim (rounding lb (table_base + m) (2 * m) (omega arith) lo (omega arith)) [
      | inl e ↦ inl (rw e (omega arith))
      | inr e ↦ inr (rw e (omega arith))
    ]

-- `decodeLargestBase` recovers the reference that `encodeLargestReference` was given, when both
-- tables have one capacity of at least 32 and below 2^62, and the decoder's count of inserts is
-- below 2^62, less than MaxEntries above the reference and at most MaxEntries below it.
pub decode_largest_base-encode :
    (capacity lb table_base raw : ℕ)
    → 32 ≤ capacity
    → capacity < 2 ^ 62
    → table_base < 2 ^ 62
    → lb ≤ table_base + capacity / 32
    → table_base < lb + capacity / 32
    → encode_largest_reference capacity lb ≡ some raw
    → decode_largest_base capacity table_base raw ≡ some lb
unfolding decode_largest_base encode_largest_reference
decode_largest_base-encode capacity lb table_base raw wide small near lo hi e =
    elim (Bool-cases (lb == 0)) [
      | inl z ↦ none_used (rw (z, encode_largest_reference) at e) ((==_iff lb 0).0 z)
      | inr used ↦
          let m = capacity / 32 in
          let sent : raw ≡ lb % (2 * m) + 1 =
            sent_as capacity lb raw (encoded capacity lb wide small (ground arith)) e in
          let same : u64 (m * 2) ≡ 2 * m = omega arith in
          let top : u64 (table_base + m) ≡ table_base + m = omega arith in
          let open_range : (2 * m == 0) ≡ false = ground arith in
          let some_sent : (lb % (2 * m) + 1 == 0) ≡ false = ground arith in
          rw (sent, same, top, some_sent, open_range)
            (chosen (table_base + m) (2 * m) _ lb lo (omega arith)
              (decoded m lb table_base (omega arith) (omega arith) near lo hi))
    ]
  where
    none_used : some 0 ≡ some raw → lb ≡ 0 → decode_largest_base capacity table_base raw ≡ some lb
    none_used e z = ground arith
