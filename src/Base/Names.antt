-- ===== src/Base/Names.antt =====
-- Go strings as lists of bytes, and the test for their equality.
use Prim.Native.Nat.{ℕ}
use Prim.Native.Char.{code}
use Prim.Native.String.{String}
use mathlib.Core.Path.{◌≡◌, refl}
use mathlib.Core.Logic.{◌↔◌}
use mathlib.Core.Bool.{Bool, true, false, ◌&&◌}
use mathlib.Core.List.{List, [], ◌∷◌}
use native.Mathlib.Omega.{arith}
use minhq.Base.Tests.{◌==◌}

abbrev pub Name : Type 0
Name = List ℕ

-- The bytes of an ASCII literal.
abbrev pub codes : String → Name
codes String.[] = []
codes (String.◌∷◌ c s) = code c ∷ codes s

unfoldable pub name_eq : Name → Name → Bool
name_eq [] [] = true
name_eq [] (y ∷ ys) = false
name_eq (x ∷ xs) [] = false
name_eq (x ∷ xs) (y ∷ ys) = x == y && name_eq xs ys

pub name_eq→eq : (x y : Name) → name_eq x y ≡ true → x ≡ y
unfolding name_eq
name_eq→eq [] [] h = refl
name_eq→eq [] (y ∷ ys) h = cc
name_eq→eq (x ∷ xs) [] h = cc
name_eq→eq (x ∷ xs) (y ∷ ys) h = ground (arith, name_eq→eq xs ys)

pub name_eq_refl : (x : Name) → name_eq x x ≡ true
unfolding name_eq
name_eq_refl [] = refl
name_eq_refl (x ∷ xs) = ground (arith, name_eq_refl xs)

pub name_eq_iff : (x y : Name) → (name_eq x y ≡ true) ↔ (x ≡ y)
name_eq_iff x y = (name_eq→eq x y, λ e. rw e (name_eq_refl y))
