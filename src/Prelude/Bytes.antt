-- ===== src/Prelude/Bytes.antt =====
-- Bytes as native numbers: finite tables of them checked by evaluation, and texts as bytes.
use Prim.Native.Char.{code}
use Prim.Native.String.{String}
use Prim.Native.Nat.{ℕ, zero, suc, ◌<◌}
use mathlib.Core.Path.{◌≡◌}
use mathlib.Core.Bool.{Bool, true, ◌&&◌}
use mathlib.Core.List.{List, [], ◌∷◌, ◌++◌}
use native.Mathlib.Omega.{arith}

abbrev pub IsByte : ℕ → Type 0
IsByte b = b < 256

abbrev pub All {ℓ κ} : {A : Type ℓ} → (A → Type κ) → List A → Type κ
All P [] = Unit
All P (x ∷ xs) = P x × All P xs

pub All-append {ℓ κ} :
    {A : Type ℓ} (P : A → Type κ) (xs ys : List A) → All P xs → All P ys → All P (xs ++ ys)
All-append P [] ys hx hy = hy
All-append P (x ∷ xs) ys hx hy = (hx.0, All-append P xs ys hx.1 hy)

-- The code points of a text: its bytes, if it is ASCII.
abbrev pub codes : String → List ℕ
codes String.[] = []
codes (String.◌∷◌ c s) = code c ∷ codes s

-- A test that holds at every number below a bound, found by running it.
unfoldable pub all_below : ℕ → (ℕ → Bool) → Bool
all_below zero test = true
all_below (suc bound) test = test bound && all_below bound test

pub all_below_sound :
    (bound : ℕ) (test : ℕ → Bool) (b : ℕ) → all_below bound test ≡ true → b < bound → test b ≡ true
unfolding all_below
all_below_sound zero test b every below = absurd (omega arith)
all_below_sound (suc bound) test b every below = ground (arith, all_below_sound bound test b)
