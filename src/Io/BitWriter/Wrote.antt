-- ===== src/Io/BitWriter/Wrote.antt =====
-- Writes to a transport that accepts everything: the form that the users of a `bitWriter` reason with.
use minhq.Base.{
  ℕ, zero, suc, ◌+◌, ◌*◌, ◌-◌, ◌/◌, ◌^◌, ◌≤◌, ◌<◌, ◌≡◌, refl, sym, ap, ◌∙◌, inl, inr, List, [],
  ◌++◌, Option, none, Error, arith, Bool-cases, ltb, leb, ltb→lt, ltb_false→le,
}
use minhq.Base.Words.{◌<<<◌, ◌>>>◌, u8, u64}
use minhq.Base.Bits.{bits_of}
use Prim.Native.Nat.{bit_or}
use mathlib.Core.List.{append_assoc, append-nil}
use minhq.Io.BitWriter.{
  BitWriter, Counted, Writes, ◌>>◌, done, write_byte_internal, write_saved_loop, write_saved,
  write_bits, write_bit, write_byte, save_bits, write_whole, remainder_bits,
}
use minhq.Io.BitWriter.View.{view}
use minhq.Io.BitWriter.Octets.{SendsOctets, write_bits-SendsOctets}
use minhq.Io.BitWriter.Writes.{
  write_bits-Accounted, write_bits-eq-save_bits, write_bits-eq-write_whole,
}

-- Less than an octet is held, and the transport is going to accept everything.
record Accepts (bw : BitWriter) : Type 0 where
  small : bw.saved_bits < 8
  accepting : bw.sink.answers ≡ []

-- And it has been given octets so far.
pub record IsHealthy (bw : BitWriter) : Type 0 where
  pub small : bw.saved_bits < 8
  pub accepting : bw.sink.answers ≡ []
  pub octets : SendsOctets bw

-- The call returned no error and appended `bits`.
pub record Wrote (bits : List ℕ) (bw : BitWriter) (r : BitWriter × Option Error) : Type 0 where
  pub healthy : IsHealthy r.0
  pub no_error : r.1 ≡ none
  pub appended : view r.0 ≡ view bw ++ bits

-- Go's (n, nil), with the bits appended.
pub record Sent (n : ℕ) (bits : List ℕ) (bw : BitWriter) (c : Counted) : Type 0 where
  pub healthy : IsHealthy c.0
  pub count : c.1 ≡ n
  pub no_error : c.2 ≡ none
  pub appended : view c.0 ≡ view bw ++ bits

accepted :
    (c : ℕ) (bw : BitWriter)
    → bw.sink.answers ≡ []
    → ((write_byte_internal c bw).1 ≡ none)
      × ((write_byte_internal c bw).0.sink.answers ≡ [])
      × ((write_byte_internal c bw).0.saved_bits ≡ bw.saved_bits)
unfolding write_byte_internal
accepted c bw e = ground arith

flushed :
    (rounds : ℕ) (bw : BitWriter)
    → bw.sink.answers ≡ []
    → bw.saved_bits < rounds * 8 + 8
    → Accepts (write_saved_loop rounds bw).0
unfolding write_saved_loop
flushed zero bw e h = record { small = omega arith; accepting = e }
flushed (suc rounds) bw e h =
    let c = u8 (bw.saved >>> (bw.saved_bits - 8)) in
    let r = write_byte_internal c bw in
    let (done, a, n) = accepted c bw e in
    elim (Bool-cases (leb 8 bw.saved_bits)) [
      | inl t ↦
          rw (t, done)
            (flushed rounds (record (r.0) { saved_bits = r.0.saved_bits - 8 }) a (omega arith))
      | inr t ↦ rw t (record { small = ground arith; accepting = e })
    ]

write_whole-Accepts :
    (v count : ℕ) (bw : BitWriter)
    → Accepts bw
    → count ≤ 64
    → 8 ≤ bw.saved_bits + count
    → Accepts (write_whole v count bw).0 × ((write_whole v count bw).1 ≡ none)
unfolding write_whole write_saved
write_whole-Accepts v count bw u most whole =
    let n = remainder_bits count bw.saved_bits in
    let c = u8 (bit_or (u64 (bw.saved <<< (8 - bw.saved_bits))) (v >>> n)) in
    let r = write_byte_internal c bw in
    let (done, a, same) = accepted c bw u.accepting in
    rw (done, write_whole)
      (flushed (n / 8) (record (r.0) { saved = v; saved_bits = n }) a (omega arith), refl)

write_bits-Accepts :
    (v count : ℕ) (bw : BitWriter)
    → Accepts bw
    → count ≤ 64
    → v < 2 ^ count
    → Accepts (write_bits v count bw).0 × ((write_bits v count bw).1 ≡ none)
write_bits-Accepts v count bw u most fits = elim (Bool-cases (ltb (bw.saved_bits + count) 8)) [
  | inl h ↦
      let below : bw.saved_bits + count < 8 = ltb→lt _ _ h in
      rw (write_bits-eq-save_bits v count bw below fits)
        (unfold save_bits in (record { small = omega arith; accepting = u.accepting }, refl))
  | inr h ↦
      let whole : 8 ≤ bw.saved_bits + count = ltb_false→le _ _ h in
      rw (write_bits-eq-write_whole v count bw u.small most whole fits)
        (write_whole-Accepts v count bw u most whole)
]

write_bits-IsHealthy :
    (v count : ℕ) (bw : BitWriter)
    → IsHealthy bw
    → count ≤ 64
    → v < 2 ^ count
    → IsHealthy (write_bits v count bw).0 × ((write_bits v count bw).1 ≡ none)
write_bits-IsHealthy v count bw u most fits =
    let (a, e) =
      write_bits-Accepts v count bw (record { small = u.small; accepting = u.accepting }) most
        fits in
    (
      record {
        small = a.small;
        accepting = a.accepting;
        octets = write_bits-SendsOctets v count bw u.octets;
      },
      e,
    )

-- `WriteBits` to such a transport.
pub write_bits-Wrote :
    (v count : ℕ) (bw : BitWriter)
    → IsHealthy bw
    → count ≤ 64
    → v < 2 ^ count
    → Wrote (bits_of count v) bw (write_bits v count bw)
write_bits-Wrote v count bw u most fits =
    let (u', e) = write_bits-IsHealthy v count bw u most fits in
    record { healthy = u'; no_error = e; appended = appended }
  where
    appended : view (write_bits v count bw).0 ≡ view bw ++ bits_of count v
    appended = elim (write_bits-Accounted v count bw u.small most fits) [
      | inl (e, same) ↦ same
      | inr (x, e, same) ↦ cc ((write_bits-IsHealthy v count bw u most fits).1)
    ]

pub write_bit-Wrote :
    (v : ℕ) (bw : BitWriter) → IsHealthy bw → v < 2 → Wrote (bits_of 1 v) bw (write_bit v bw)
unfolding write_bit
write_bit-Wrote v bw u h = write_bits-Wrote v 1 bw u (omega arith) h

pub write_byte-Wrote :
    (v : ℕ) (bw : BitWriter) → IsHealthy bw → v < 256 → Wrote (bits_of 8 v) bw (write_byte v bw)
unfolding write_byte
write_byte-Wrote v bw u h = write_bits-Wrote v 8 bw u (omega arith) h

-- Two writes in a row.
pub >>-Wrote :
    (xs ys : List ℕ) (m k : Writes) (bw : BitWriter)
    → Wrote xs bw (m bw)
    → ((bw' : BitWriter) → IsHealthy bw' → Wrote ys bw' (k bw'))
    → Wrote (xs ++ ys) bw ((m >> k) bw)
>>-Wrote xs ys m k bw w next =
    let w' = next (m bw).0 w.healthy in
    rw (w.no_error, ◌>>◌)
      (record {
        healthy = w'.healthy;
        no_error = w'.no_error;
        appended = w'.appended ∙ ap (λ z. z ++ ys) w.appended ∙ append_assoc (view bw) xs ys;
      })

-- A write of nothing.
pub done-Wrote : (bw : BitWriter) → IsHealthy bw → Wrote [] bw (done bw)
done-Wrote bw u = record { healthy = u; no_error = refl; appended = sym (append-nil (view bw)) }
