-- ===== src/Hc/HpackEncoder/Refusing.antt =====
-- The one error of `WriteHeaderBlock` that is not the transport's.
use minhq.Base.{
  ◌≡◌, refl, sym, ap, subst, List, [], ◌∷◌, Bool, true, false, All, inl, inr, Bool-cases,
  Option-cases, arith,
}
use minhq.Io.BitWriter.{BitWriter, Sink, new_bit_writer}
use minhq.Io.BitWriter.Wrote.{IsHealthy}
use minhq.Hc.Headers.{HeaderField, starts_with_colon, validate_loop, validate_pseudo_headers}
use minhq.Hc.HpackEncoder.{
  HpackEncoder, ◌>=>◌, write_field, write_fields, write_capacity_change, write_header_block,
}
use minhq.Hc.HpackEncoder.Crossing.{IsSound}
use minhq.Hc.HpackEncoder.Fields.{write_field-Crosses}
use minhq.Hc.HpackEncoder.FieldLists.{AreCarried}
use minhq.Hc.HpackEncoder.Capacities.{IsReady, change-Leads}

write_fields-refuses :
    (pseudo : Bool) (hs : List HeaderField) (e : HpackEncoder) (bw : BitWriter)
    → IsSound e.table
    → All (AreCarried e.huffman_preference) hs
    → IsHealthy bw
    → (write_fields pseudo hs e bw).2 ≡ validate_loop pseudo hs
unfolding write_fields validate_loop
write_fields-refuses pseudo [] e bw sound carried u = refl
write_fields-refuses pseudo (h ∷ hs) e bw sound (h_carried, hs_carried) u =
    let c = write_field-Crosses e h sound h_carried.0 h_carried.1 in
    let (after, w) = c.sends bw u in
    let same : e.huffman_preference ≡ c.after.huffman_preference =
      sym (ap (λ (x : HpackEncoder). x.huffman_preference) c.others) in
    let still = subst (λ p. All (AreCarried p) hs) same hs_carried in
    let rest : (pseudo' : Bool)
        → ((write_field h >=> write_fields pseudo' hs) e bw).2 ≡ validate_loop pseudo' hs =
      λ pseudo'.
        rw (w.no_error, ◌>=>◌, after)
          (write_fields-refuses pseudo' hs c.after (write_field h e bw).1 c.sound still
            w.healthy) in
    elim (Option-cases (starts_with_colon h.name)) [
      | inl empty ↦ rw (empty, write_fields, validate_loop) refl
      | inr (colon, known) ↦ elim (Bool-cases colon) [
        | inr f ↦ rw (known, write_fields, validate_loop, f) (rest false)
        | inl t ↦ elim (Bool-cases pseudo) [
          | inl front ↦ rw (known, write_fields, validate_loop, t, front) (rest true)
          | inr behind ↦ rw (known, write_fields, validate_loop, t, behind) refl
        ]
      ]
    ]

-- `WriteHeaderBlock`, on a transport that accepts, from an encoder whose table is valid and whose
-- capacities are below 2^63, the smallest of those to announce at most the last (as `SetCapacity`
-- leaves them), of header fields whose strings are of bytes, shorter than 2^58 and not empty if
-- Huffman coding is always wanted, returns the error of `ValidatePseudoHeaders` of the fields, nil
-- included.
pub write_header_block-error :
    (hs : List HeaderField) (e : HpackEncoder) (sink : Sink)
    → IsReady e
    → All (AreCarried e.huffman_preference) hs
    → sink.bytes ≡ []
    → sink.answers ≡ []
    → (write_header_block hs e sink).2 ≡ validate_pseudo_headers hs
unfolding write_header_block validate_pseudo_headers new_bit_writer
write_header_block-error hs e sink ready carried empty accepting =
    let (e', l, exact) = change-Leads e ready in
    let (after, w) =
      l.sends (new_bit_writer sink)
        (record { small = omega arith; accepting = accepting; octets = rw empty tt }) in
    rw (w.no_error, ◌>=>◌, after)
      (write_fields-refuses true hs e' (write_capacity_change e (new_bit_writer sink)).1
        l.ready.sound (subst (λ p. All (AreCarried p) hs) (sym l.same_preference) carried)
        w.healthy)
