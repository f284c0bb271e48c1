-- ===== src/Io/BitWriter/Writes.antt =====
-- What each call of a `bitWriter` does to the string of bits that it has been given.
use minhq.Base.{
  ℕ, zero, suc, ◌+◌, ◌-◌, ◌/◌, ◌^◌, ◌≤◌, ◌<◌, ◌≡◌, refl, sym, ap, ◌∙◌, ◌⊎◌, inl, inr, List, [], ◌∷◌,
  ◌++◌, Bool-cases, Option, none, some, Error, arith, ltb, leb, ltb→lt, ltb_false→le,
}
use minhq.Base.Words.{◌<<<◌, ◌>>>◌, u8, u64}
use minhq.Base.Bits.{bits_of, bits_of-split, bits_of-mod, bits_of-or, shr-lt}
use minhq.Io.BitWriter.{
  BitWriter, write_byte_internal, write_saved_loop, write_saved, write_bits, remainder_bits,
  save_bits, write_whole, flush_and_write,
}
use minhq.Io.BitWriter.View.{byte_bits, byte_bits-append, view}
use mathlib.Core.List.{append_assoc, append-nil}
use Prim.Native.Nat.{bit_or}

-- A byte goes out, or there is an error and nothing has changed but the environment.
abbrev pub Offered : ℕ → BitWriter → BitWriter × Option Error → Type 0
Offered c bw r =
    (r.0.saved ≡ bw.saved)
    × (r.0.saved_bits ≡ bw.saved_bits)
    × (((r.1 ≡ none) × (r.0.sink.bytes ≡ bw.sink.bytes ++ c ∷ []))
        ⊎ ((e : Error) × (r.1 ≡ some e) × (r.0.sink.bytes ≡ bw.sink.bytes)))

pub write_byte_internal-Offered : (c : ℕ) (bw : BitWriter) → Offered c bw (write_byte_internal c bw)
unfolding write_byte_internal
write_byte_internal-Offered c bw = ground arith

-- A byte more, in front of what is held.
byte_bits-emit :
    (bytes : List ℕ) (c : ℕ) (rest : List ℕ)
    → byte_bits (bytes ++ c ∷ []) ++ rest ≡ byte_bits bytes ++ (bits_of 8 c ++ rest)
byte_bits-emit bytes c rest = rw (byte_bits-append bytes (c ∷ []), append-nil, append_assoc) refl

bits_of-octet :
    (n v : ℕ) → 8 ≤ n → bits_of 8 (u8 (v >>> (n - 8))) ++ bits_of (n - 8) v ≡ bits_of n v
bits_of-octet n v h =
    rw (bits_of-mod 8 8 (v >>> (n - 8)) (omega arith))
      (sym (bits_of-split n 8 (n - 8) v (omega arith)))

flush_one-view :
    (bw bw' : BitWriter)
    → 8 ≤ bw.saved_bits
    → bw'.saved ≡ bw.saved
    → bw'.saved_bits ≡ bw.saved_bits
    → bw'.sink.bytes ≡ bw.sink.bytes ++ u8 (bw.saved >>> (bw.saved_bits - 8)) ∷ []
    → view (record bw' { saved_bits = bw'.saved_bits - 8 }) ≡ view bw
flush_one-view bw bw' h s n b =
    rw (s, n, b, byte_bits-emit)
      (ap (λ x. byte_bits bw.sink.bytes ++ x) (bits_of-octet bw.saved_bits bw.saved h))

kept-view :
    (bw bw' : BitWriter)
    → bw'.saved ≡ bw.saved
    → bw'.saved_bits ≡ bw.saved_bits
    → bw'.sink.bytes ≡ bw.sink.bytes
    → view bw' ≡ view bw
kept-view bw bw' s n b = rw (s, n, b) refl

-- `writeSaved` neither loses nor repeats a bit, whatever the transport answers.
write_saved_loop-view :
    (rounds : ℕ) (bw : BitWriter) → view (write_saved_loop rounds bw).0 ≡ view bw
unfolding write_saved_loop
write_saved_loop-view zero bw = refl
write_saved_loop-view (suc rounds) bw =
    let c = u8 (bw.saved >>> (bw.saved_bits - 8)) in
    let r = write_byte_internal c bw in
    let (s, n, o) = write_byte_internal-Offered c bw in
    elim (Bool-cases (leb 8 bw.saved_bits)) [
      | inr e ↦ rw e refl
      | inl e ↦ elim o [
        | inl (done, b) ↦
            rw (e, done)
              (write_saved_loop-view rounds (record (r.0) { saved_bits = r.0.saved_bits - 8 })
                ∙ flush_one-view bw r.0 (ground arith) s n b)
        | inr (x, failed, b) ↦ rw (e, failed) (kept-view bw r.0 s n b)
      ]
    ]

-- What `WriteBits` promises of a call: the bits are all taken over, or there is an error and the
-- string of bits is what it was.
abbrev pub Accounted : ℕ → ℕ → BitWriter → BitWriter × Option Error → Type 0
Accounted v count bw r =
    ((r.1 ≡ none) × (view r.0 ≡ view bw ++ bits_of count v))
    ⊎ ((e : Error) × (r.1 ≡ some e) × (view r.0 ≡ view bw))

save_bits-view :
    (v count : ℕ) (bw : BitWriter)
    → bw.saved_bits + count < 8
    → v < 2 ^ count
    → view (save_bits v count bw).0 ≡ view bw ++ bits_of count v
unfolding save_bits
save_bits-view v count bw h fits =
    rw
      (
        let small : u8 (bw.saved_bits + count) ≡ bw.saved_bits + count = omega arith in small,
        bits_of-or (bw.saved_bits + count) bw.saved_bits count bw.saved v refl (omega arith) fits,
        append_assoc,
      )
      refl

-- The octet that joins the saved bits and the first of the new ones.
bits_of-join :
    (n s count x v : ℕ)
    → s ≤ 8
    → n + 8 ≡ count + s
    → v < 2 ^ count
    → bits_of 8 (u8 (bit_or (u64 (x <<< (8 - s))) (v >>> n))) ++ bits_of n v
      ≡ bits_of s x ++ bits_of count v
bits_of-join n s count x v h e fits =
    rw
      (
        bits_of-mod 8 8 (bit_or (u64 (x <<< (8 - s))) (v >>> n)) (omega arith),
        bits_of-or 8 s (8 - s) x (v >>> n) (omega arith) (omega arith)
            (shr-lt count (8 - s) n v (omega arith) fits),
        bits_of-split count (8 - s) n v (omega arith),
        append_assoc,
      )
      refl

write_whole-Accounted :
    (v count : ℕ) (bw : BitWriter)
    → bw.saved_bits < 8
    → count ≤ 64
    → 8 ≤ bw.saved_bits + count
    → v < 2 ^ count
    → Accounted v count bw (write_whole v count bw)
unfolding write_whole write_saved
write_whole-Accounted v count bw small most enough fits =
    let n = remainder_bits count bw.saved_bits in
    let c = u8 (bit_or (u64 (bw.saved <<< (8 - bw.saved_bits))) (v >>> n)) in
    let r = write_byte_internal c bw in
    let (s, k, o) = write_byte_internal-Offered c bw in
    elim o [
      | inl (done, b) ↦
          rw (done, write_whole)
            (inl (
              refl,
              write_saved_loop-view (n / 8) (record (r.0) { saved = v; saved_bits = n })
                  ∙ rw (b, byte_bits-emit, append_assoc)
                      (ap (λ x. byte_bits bw.sink.bytes ++ x)
                        (bits_of-join n bw.saved_bits count bw.saved v (omega arith) (omega arith)
                          fits)),
            ))
      | inr (x, failed, b) ↦ rw (failed, write_whole) (inr (x, refl, kept-view bw r.0 s k b))
    ]

pub write_bits-eq-save_bits :
    (v count : ℕ) (bw : BitWriter)
    → bw.saved_bits + count < 8
    → v < 2 ^ count
    → write_bits v count bw ≡ save_bits v count bw
unfolding write_bits
write_bits-eq-save_bits v count bw h fits = ground arith

write_saved-eq_self : (bw : BitWriter) → bw.saved_bits < 8 → write_saved bw ≡ (bw, none)
unfolding write_saved write_saved_loop
write_saved-eq_self bw h =
    let none_whole : bw.saved_bits / 8 ≡ 0 = omega arith in rw (none_whole, write_saved) refl

pub write_bits-eq-write_whole :
    (v count : ℕ) (bw : BitWriter)
    → bw.saved_bits < 8
    → count ≤ 64
    → 8 ≤ bw.saved_bits + count
    → v < 2 ^ count
    → write_bits v count bw ≡ write_whole v count bw
unfolding write_bits flush_and_write
write_bits-eq-write_whole v count bw small most h fits = ground (arith, write_saved-eq_self bw)

-- `WriteBits(v, count)` on a writer that holds fewer than eight bits, with a count of at most 64
-- and a value of that many bits, either returns nil and appends exactly these bits to the string
-- of what went out and what is held, or returns an error and keeps that string, whatever the
-- transport answers.
pub write_bits-Accounted :
    (v count : ℕ) (bw : BitWriter)
    → bw.saved_bits < 8
    → count ≤ 64
    → v < 2 ^ count
    → Accounted v count bw (write_bits v count bw)
write_bits-Accounted v count bw small most fits =
    elim (Bool-cases (ltb (bw.saved_bits + count) 8)) [
      | inl h ↦
          let below : bw.saved_bits + count < 8 = ltb→lt _ _ h in
          rw (write_bits-eq-save_bits v count bw below fits)
            (inl (unfold save_bits in refl, save_bits-view v count bw below fits))
      | inr h ↦
          let whole : 8 ≤ bw.saved_bits + count = ltb_false→le _ _ h in
          rw (write_bits-eq-write_whole v count bw small most whole fits)
            (write_whole-Accounted v count bw small most whole fits)
    ]
