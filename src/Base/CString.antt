-- ===== src/Base/CString.antt =====
-- C strings, as functions from the index to the byte, and chains of Option results.
use Prim.Native.Nat.{ℕ, zero, suc}
use Prim.Native.Char.{code}
use Prim.Native.String.{String, [], ◌∷◌}
use mathlib.Core.Option.{Option, none, some}
use mathlib.Core.Path.{◌≡◌, ap}

-- The bytes of a string literal, with zeros behind its end.
pub bytes_of : String → ℕ → ℕ
bytes_of [] i = 0
bytes_of (c ∷ s) zero = code c
bytes_of (c ∷ s) (suc i) = bytes_of s i

infixl 5 ◌>>=◌
abbrev pub ◌>>=◌ {ℓ κ} : {A : Type ℓ} {B : Type κ} → Option A → (A → Option B) → Option B
none >>= f = none
some a >>= f = f a

pub >>=-some {ℓ κ} :
    {A : Type ℓ} {B : Type κ} {m : Option A} {a : A} (f : A → Option B)
    → m ≡ some a
    → (m >>= f) ≡ f a
>>=-some f h = ap (λ x. x >>= f) h
