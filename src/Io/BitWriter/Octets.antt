-- ===== src/Io/BitWriter/Octets.antt =====
-- What goes out is octets, whatever the transport answers.
use minhq.Base.{
  ℕ, zero, suc, ◌-◌, ◌<◌, inl, inr, [], ◌∷◌, Option, none, some, Error, arith, Option-cases, ◌/◌,
  Bool-cases, ltb, leb, All, All-append,
}
use minhq.Base.Words.{◌<<<◌, ◌>>>◌, u8, u64, IsByte}
use minhq.Io.BitWriter.{
  BitWriter, write_byte_internal, write_saved_loop, write_saved, write_bits, save_bits, write_whole,
  remainder_bits, flush_and_write, pad, pad_rest,
}
use minhq.Io.BitWriter.Writes.{write_byte_internal-Offered}
use Prim.Native.Nat.{bit_or}

abbrev pub SendsOctets : BitWriter → Type 0
SendsOctets bw = All IsByte bw.sink.bytes

write_byte_internal-SendsOctets :
    (c : ℕ) (bw : BitWriter) → c < 256 → SendsOctets bw → SendsOctets (write_byte_internal c bw).0
write_byte_internal-SendsOctets c bw small h = elim (write_byte_internal-Offered c bw).2 [
  | inl (done, out) ↦ rw out (All-append IsByte bw.sink.bytes (c ∷ []) h (small, tt))
  | inr (x, failed, out) ↦ rw out h
]

u8-small : (x : ℕ) → u8 x < 256
u8-small x = omega arith

write_saved_loop-SendsOctets :
    (rounds : ℕ) (bw : BitWriter) → SendsOctets bw → SendsOctets (write_saved_loop rounds bw).0
unfolding write_saved_loop
write_saved_loop-SendsOctets zero bw h = h
write_saved_loop-SendsOctets (suc rounds) bw h =
    let c = u8 (bw.saved >>> (bw.saved_bits - 8)) in
    let r = write_byte_internal c bw in
    let sent = write_byte_internal-SendsOctets c bw (u8-small _) h in
    elim (Bool-cases (leb 8 bw.saved_bits)) [
      | inr e ↦ rw e h
      | inl e ↦ elim (Option-cases r.1) [
        | inl done ↦
            rw (e, done)
              (write_saved_loop-SendsOctets rounds
                (record (r.0) { saved_bits = r.0.saved_bits - 8 }) sent)
        | inr (x, failed) ↦ rw (e, failed) sent
      ]
    ]

write_whole-SendsOctets :
    (v count : ℕ) (bw : BitWriter) → SendsOctets bw → SendsOctets (write_whole v count bw).0
unfolding write_whole write_saved
write_whole-SendsOctets v count bw h =
    let remainder = remainder_bits count bw.saved_bits in
    let x = u8 (bit_or (u64 (bw.saved <<< (8 - bw.saved_bits))) (v >>> remainder)) in
    let r = write_byte_internal x bw in
    let sent = write_byte_internal-SendsOctets x bw (u8-small _) h in
    elim (Option-cases r.1) [
      | inl done ↦
          rw (done, write_whole)
            (write_saved_loop-SendsOctets (remainder / 8)
              (record (r.0) { saved = v; saved_bits = remainder }) sent)
      | inr (e, failed) ↦ rw (failed, write_whole) sent
    ]

flush_and_write-SendsOctets :
    (v count : ℕ) (r : BitWriter × Option Error)
    → SendsOctets r.0
    → SendsOctets (flush_and_write v count r).0
unfolding flush_and_write
flush_and_write-SendsOctets v count (bw, none) h = write_whole-SendsOctets v count bw h
flush_and_write-SendsOctets v count (bw, some e) h = h

-- `WriteBits` sends octets only.
pub write_bits-SendsOctets :
    (v count : ℕ) (bw : BitWriter) → SendsOctets bw → SendsOctets (write_bits v count bw).0
unfolding write_bits save_bits write_saved
write_bits-SendsOctets v count bw h = ground (
  arith,
  flush_and_write-SendsOctets v count (write_saved bw)
      (write_saved_loop-SendsOctets (bw.saved_bits / 8) bw h),
)

pad_rest-SendsOctets :
    (p : ℕ) (r : BitWriter × Option Error) → SendsOctets r.0 → SendsOctets (pad_rest p r).0
unfolding pad_rest
pad_rest-SendsOctets p (bw, some e) h = h
pad_rest-SendsOctets p (bw, none) h =
    let r = write_bits (p >>> bw.saved_bits) (8 - bw.saved_bits) bw in
    let sent = write_bits-SendsOctets (p >>> bw.saved_bits) (8 - bw.saved_bits) bw h in
    elim (Option-cases r.1) [
      | inl done ↦ rw (done, pad_rest) sent
      | inr (e, failed) ↦ rw (failed, pad_rest) sent
    ]

pub pad-SendsOctets : (p : ℕ) (bw : BitWriter) → SendsOctets bw → SendsOctets (pad p bw).0
unfolding pad write_saved
pad-SendsOctets p bw h = elim (Bool-cases (ltb 0 bw.saved_bits)) [
  | inl held ↦
      rw (held, pad)
        (pad_rest-SendsOctets p (write_saved bw)
          (write_saved_loop-SendsOctets (bw.saved_bits / 8) bw h))
  | inr none_held ↦ rw (none_held, pad) h
]
