-- ===== src/Io/Travels.antt =====
-- What a writer puts out and a reader takes in.
use minhq.Base.{ℕ, ◌≡◌, refl, subst, ◌∙◌, List, ◌++◌, ok}
use minhq.Io.BitWriter.{BitWriter, Writes, ◌>>◌}
use minhq.Io.BitWriter.Wrote.{IsHealthy, Wrote, >>-Wrote}
use minhq.Io.BitReader.{BitReader, Reads, ◌>>=◌}
use minhq.Io.BitReader.View.{view, IsValid}
use minhq.Io.BitReader.Gives.{Gives, >>=-Gives}
use mathlib.Core.List.{append_assoc}

-- The write appends the bits to any writer whose transport accepts.
abbrev pub Puts : List ℕ → Writes → Type 0
Puts bits m = (bw : BitWriter) → IsHealthy bw → Wrote bits bw (m bw)

-- The read, in front of the bits and whatever follows, returns the value and takes exactly them.
abbrev pub Takes {ℓ} : {A : Type ℓ} → List ℕ → Reads A → A → Type ℓ
Takes bits f a =
    (r : BitReader) (rest : List ℕ)
    → IsValid r
    → view r ≡ bits ++ rest
    → Gives r.source.stop rest a (f r)

pub record Travels {ℓ} {A : Type ℓ} (bits : List ℕ) (m : Writes) (f : Reads A) (a : A)
    : Type ℓ where
  pub wrote : Puts bits m
  pub gives : Takes bits f a

pub >>-Puts : (xs ys : List ℕ) (m k : Writes) → Puts xs m → Puts ys k → Puts (xs ++ ys) (m >> k)
>>-Puts xs ys m k w next bw u = >>-Wrote xs ys m k bw (w bw u) next

pub >>=-Takes {ℓ κ} :
    {A : Type ℓ} {B : Type κ} (xs ys : List ℕ) (m : Reads A) (f : A → Reads B) (a : A) (b : B)
    → Takes xs m a
    → Takes ys (f a) b
    → Takes (xs ++ ys) (m >>= f) b
>>=-Takes xs ys m f a b g next r rest u e =
    >>=-Gives m f r (g r (ys ++ rest) u (e ∙ append_assoc xs ys rest))
      (λ r' u' stops e'. subst (λ s. Gives s rest b (f a r')) stops (next r' rest u' e'))

-- A step behind it that takes nothing.
pub step-Takes {ℓ κ} :
    {A : Type ℓ} {B : Type κ} (xs : List ℕ) (m : Reads A) (f : A → Reads B) (a : A) (b : B)
    → Takes xs m a
    → ((r : BitReader) → f a r ≡ (r, ok b))
    → Takes xs (m >>= f) b
step-Takes xs m f a b t h r rest u e =
    let s = t r rest u e in
    rw (s.value, ◌>>=◌, h (m r).0)
      (record { valid = s.valid; stops = s.stops; value = refl; left = s.left })
