-- ===== src/Hc/HpackEncoder/Capacities.antt =====
-- The change of the capacity that a header block starts with.
use minhq.Base.{
  ℕ, ◌+◌, ◌^◌, ◌≤◌, ◌<◌, ◌≡◌, refl, subst, ◌∙◌, List, [], ◌++◌, none, length, length-append, arith,
  inl, inr, ltb, ltb_false→le, Bool-cases,
}
use minhq.Base.Bits.{bits_of, length-bits_of}
use minhq.Io.BitWriter.{BitWriter, write_bits}
use minhq.Io.BitWriter.Wrote.{write_bits-Wrote, done-Wrote}
use minhq.Io.Travels.{Puts, >>-Puts}
use minhq.Hc.Integers.{write_int}
use minhq.Hc.Integers.Bits.{int_bits, write_int-Wrote, length-int_bits}
use minhq.Hc.Headers.{HeaderField}
use minhq.Hc.Table.{TableCommon, set_capacity}
use minhq.Hc.Table.Capacity.{set_capacity-IsValid, set_capacity-capacity}
use minhq.Hc.HpackDecoder.Rounds.{read_round-capacity}
use minhq.Hc.HpackDecoder.Blocks.{ReadsBlock, reads-instruction}
use minhq.Hc.HpackEncoder.{
  HpackEncoder, Encodes, encoding, ◌>=>◌, set_next_capacity, write_capacity, write_min_capacity,
  write_next_capacity, write_capacity_change,
}
use minhq.Hc.HpackEncoder.Crossing.{Octets, IsSound}
use minhq.Hc.HpackEncoder.Fields.{Sends, encoding-Sends, >=>-Sends}
use mathlib.Core.List.{append_assoc}

-- An encoder between two header blocks.
pub record IsReady (e : HpackEncoder) : Type 0 where
  pub sound : IsSound e.table
  pub ordered : e.min_capacity ≤ e.next_capacity
  pub next_small : e.next_capacity < 2 ^ 63

-- `SetCapacity` may come at any time.
pub set_next_capacity-IsReady :
    (c : ℕ) (e : HpackEncoder) → c < 2 ^ 63 → IsReady e → IsReady (set_next_capacity c e)
unfolding set_next_capacity
set_next_capacity-IsReady c e small r = record {
  sound = r.sound;
  ordered = ground arith;
  next_small = small;
}

-- A step that only writes instructions, which the decoder carries out before it reads on.
pub record Leads (e : HpackEncoder) (m : Encodes) (after : HpackEncoder) : Type 0 where
  pub bits : List ℕ
  pub rounds : ℕ
  pub whole : Octets 0 bits
  pub few : rounds ≤ length bits
  pub sends : Sends bits e after m
  pub reads :
      (n : ℕ) (ys : List ℕ) (t : TableCommon) (hs : List HeaderField)
      → ReadsBlock n ys after.table t hs
      → ReadsBlock (rounds + n) (bits ++ ys) e.table t hs
  pub ready : IsReady after
  pub same_next : after.next_capacity ≡ e.next_capacity
  pub same_preference : after.huffman_preference ≡ e.huffman_preference

nothing-Leads : (e : HpackEncoder) → IsReady e → Leads e (λ e bw. (e, bw, none)) e
nothing-Leads e ready = record {
  bits = [];
  rounds = 0;
  whole = (0, refl);
  few = omega arith;
  sends = λ bw u. (refl, done-Wrote bw u);
  reads = λ n ys t hs reads. subst (λ k. ReadsBlock k ys e.table t hs) (omega arith) reads;
  ready = ready;
  same_next = refl;
  same_preference = refl;
}

>=>-Leads :
    (e e' e'' : HpackEncoder) (m k : Encodes)
    → Leads e m e'
    → Leads e' k e''
    → Leads e (m >=> k) e''
>=>-Leads e e' e'' m k l l' = record {
  bits = l.bits ++ l'.bits;
  rounds = l.rounds + l'.rounds;
  whole =
      (l.whole.0 + l'.whole.0, omega (arith, l.whole.1, l'.whole.1, length-append l.bits l'.bits));
  few = omega (arith, l.few, l'.few, length-append l.bits l'.bits);
  sends = >=>-Sends l.bits l'.bits e e' e'' m k l.sends l'.sends;
  reads = λ n ys t hs reads. rw (append_assoc l.bits l'.bits ys) (
      subst (λ c. ReadsBlock c (l.bits ++ (l'.bits ++ ys)) e.table t hs) (omega arith)
        (l.reads (l'.rounds + n) (l'.bits ++ ys) t hs (l'.reads n ys t hs reads)));
  ready = l'.ready;
  same_next = l'.same_next ∙ l.same_next;
  same_preference = l'.same_preference ∙ l.same_preference;
}

write_capacity-Puts : (c : ℕ) → c < 2 ^ 64 → Puts (bits_of 3 1 ++ int_bits 5 c) (write_capacity c)
unfolding write_capacity
write_capacity-Puts c small =
    >>-Puts (bits_of 3 1) (int_bits 5 c) (write_bits 1 3) (write_int c 5)
      (λ bw u. write_bits-Wrote 1 3 bw u (omega arith) (omega arith))
      (λ bw u. write_int-Wrote c 5 bw small (omega arith) (omega arith) u)

-- A change to the capacity `c`, which `f` makes in the encoder.
capacity-Leads :
    (e : HpackEncoder) (c : ℕ) (m : HpackEncoder → ℕ) (f : HpackEncoder → HpackEncoder)
    → m e ≡ c
    → c < 2 ^ 63
    → (f e).table ≡ set_capacity c e.table
    → (f e).next_capacity ≡ e.next_capacity
    → (f e).huffman_preference ≡ e.huffman_preference
    → (f e).min_capacity ≤ e.next_capacity
    → IsReady e
    → Leads e (encoding (λ e. write_capacity (m e)) f) (f e)
capacity-Leads e c m f asked small table next preference ordered ready =
    let (k, len) = length-int_bits 5 c in
    let bits = bits_of 3 1 ++ int_bits 5 c in
    record {
      bits = bits_of 3 1 ++ int_bits 5 c;
      rounds = 1;
      whole = (
        1 + k,
        omega (arith, len, length-append (bits_of 3 1) (int_bits 5 c), length-bits_of 3 1),
      );
      few = omega (arith, length-append (bits_of 3 1) (int_bits 5 c), length-bits_of 3 1);
      sends =
          encoding-Sends (bits_of 3 1 ++ int_bits 5 c) e (λ e. write_capacity (m e)) f
            (rw asked (write_capacity-Puts c (omega arith)));
      reads = λ n ys t hs reads.
          subst (λ k. ReadsBlock k ((bits_of 3 1 ++ int_bits 5 c) ++ ys) e.table t hs) (omega arith)
            (reads-instruction n (bits_of 3 1 ++ int_bits 5 c) ys e.table (set_capacity c e.table) t
              hs (read_round-capacity e.table c (omega arith))
              (subst (λ x. ReadsBlock n ys x t hs) table reads));
      ready = record {
        sound = record {
          valid = rw table (set_capacity-IsValid c e.table ready.sound.valid);
          small = rw table (rw (set_capacity-capacity c e.table) small);
        };
        ordered = rw next ordered;
        next_small = rw next ready.next_small;
      };
      same_next = next;
      same_preference = preference;
    }

Leads-same :
    (e e' : HpackEncoder) (m m' : Encodes)
    → ((bw : BitWriter) → m' e bw ≡ m e bw)
    → Leads e m e'
    → Leads e m' e'
Leads-same e e' m m' same l = record {
  bits = l.bits;
  rounds = l.rounds;
  whole = l.whole;
  few = l.few;
  sends = λ bw u. rw (same bw) (l.sends bw u);
  reads = l.reads;
  ready = l.ready;
  same_next = l.same_next;
  same_preference = l.same_preference;
}

min-Leads :
    (e : HpackEncoder)
    → IsReady e
    → (e' : HpackEncoder) × Leads e write_min_capacity e' × (e'.table.capacity ≤ e.next_capacity)
unfolding write_min_capacity
min-Leads e ready =
    let f : HpackEncoder → HpackEncoder =
      λ e. record e { table = set_capacity e.min_capacity e.table } in
    elim (Bool-cases (ltb e.min_capacity e.table.capacity)) [
      | inl above ↦ (
        f e,
        Leads-same e (f e) (encoding (λ e. write_capacity e.min_capacity) f) _ (λ bw. rw above refl)
            (capacity-Leads e e.min_capacity (λ e. e.min_capacity) f refl
              (omega (arith, ready.ordered, ready.next_small)) refl refl refl ready.ordered ready),
        rw (set_capacity-capacity e.min_capacity e.table) ready.ordered,
      )
      | inr below ↦ (
        e,
        Leads-same e e (λ e bw. (e, bw, none)) _ (λ bw. rw below refl) (nothing-Leads e ready),
        omega (arith, ltb_false→le _ _ below, ready.ordered),
      )
    ]

next-Leads :
    (e : HpackEncoder)
    → IsReady e
    → e.table.capacity ≤ e.next_capacity
    → (e' : HpackEncoder) × Leads e write_next_capacity e' × (e'.table.capacity ≡ e.next_capacity)
unfolding write_next_capacity
next-Leads e ready most =
    let f : HpackEncoder → HpackEncoder = λ e. record e {
      table = set_capacity e.next_capacity e.table;
      min_capacity = e.next_capacity;
    } in
    elim (Bool-cases (ltb e.table.capacity e.next_capacity)) [
      | inl above ↦ (
        f e,
        Leads-same e (f e) (encoding (λ e. write_capacity e.next_capacity) f) _
            (λ bw. rw above refl)
            (capacity-Leads e e.next_capacity (λ e. e.next_capacity) f refl ready.next_small refl
              refl refl (omega arith) ready),
        set_capacity-capacity e.next_capacity e.table,
      )
      | inr below ↦ (
        e,
        Leads-same e e (λ e bw. (e, bw, none)) _ (λ bw. rw below refl) (nothing-Leads e ready),
        omega (arith, ltb_false→le _ _ below, most),
      )
    ]

-- Both instructions together bring the table to the capacity that was set last.
pub change-Leads :
    (e : HpackEncoder)
    → IsReady e
    → (e' : HpackEncoder) × Leads e write_capacity_change e' × (e'.table.capacity ≡ e.next_capacity)
unfolding write_capacity_change
change-Leads e ready =
    let (e', l, most) = min-Leads e ready in
    let (e'', l', exact) = next-Leads e' l.ready (rw l.same_next most) in
    (e'', >=>-Leads e e' e'' write_min_capacity write_next_capacity l l', exact ∙ l.same_next)
