-- ===== src/Base/Bytes.antt =====
-- Byte strings: big-endian integers (`to_be_bytes`, `from_be_bytes`) and slices.
use Prim.Native.Nat.{ℕ, zero, suc, ◌+◌, ◌-◌, ◌*◌, ◌/◌, ◌%◌, ◌^◌, ◌≤◌, ◌<◌}
use mathlib.Core.Path.{◌≡◌, refl, sym, ap, ◌∙◌}
use mathlib.Core.List.{List, [], ◌∷◌, ◌++◌, append_assoc, append-nil}
use native.Mathlib.Omega.{arith}
use native.Mathlib.Nat.{pow-suc}
use nesso.Base.Lists.{length, take, drop, All, drop-take, take-take}

abbrev pub IsByte : ℕ → Type 0
IsByte b = b < 256

-- The lowest `n` bytes of a number, highest first.
abbrev pub to_be_bytes : ℕ → ℕ → List ℕ
to_be_bytes zero v = []
to_be_bytes (suc n) v = to_be_bytes n (v / 256) ++ (v % 256) ∷ []

abbrev pub be_value : ℕ → List ℕ → ℕ
be_value acc [] = acc
be_value acc (b ∷ bs) = be_value (acc * 256 + b) bs

unfoldable pub from_be_bytes : List ℕ → ℕ
from_be_bytes = be_value 0

-- `data[i..j]`, for `i ≤ j ≤ data.len()`.
unfoldable pub slice : ℕ → ℕ → List ℕ → List ℕ
slice i j bs = take (j - i) (drop i bs)

-- A slice does not see what is cut off behind it.
pub slice-take : (i j k : ℕ) (bs : List ℕ) → j ≤ k → slice i j (take k bs) ≡ slice i j bs
unfolding slice
slice-take i j k bs h =
    ap (take (j - i)) (drop-take i k bs) ∙ take-take (j - i) (k - i) (drop i bs) (omega arith)

be_value-snoc :
    (acc : ℕ) (bs : List ℕ) (b : ℕ) → be_value acc (bs ++ b ∷ []) ≡ be_value acc bs * 256 + b
be_value-snoc acc [] b = refl
be_value-snoc acc (c ∷ bs) b = be_value-snoc (acc * 256 + c) bs b

-- Reading the bytes of a number that fits gives it back.
pub from-to_be_bytes : (n v : ℕ) → v < 256 ^ n → from_be_bytes (to_be_bytes n v) ≡ v
unfolding from_be_bytes
from-to_be_bytes zero v h = omega arith
from-to_be_bytes (suc n) v h =
    be_value-snoc 0 (to_be_bytes n (v / 256)) (v % 256)
    ∙ omega (arith, from-to_be_bytes n (v / 256) (omega (arith, pow-suc 256 n)))

to_be_bytes-value :
    (k acc n : ℕ) (bs : List ℕ)
    → All IsByte bs
    → length bs + k ≡ n
    → to_be_bytes n (be_value acc bs) ≡ to_be_bytes k acc ++ bs
to_be_bytes-value k acc n [] h e =
    let e' : n ≡ k = omega arith in
    ap (λ (m : ℕ). to_be_bytes m acc) e' ∙ sym (append-nil (to_be_bytes k acc))
to_be_bytes-value k acc n (b ∷ bs) (hb, h) e =
    let high : (acc * 256 + b) / 256 ≡ acc = omega arith in
    let low : (acc * 256 + b) % 256 ≡ b = omega arith in
    to_be_bytes-value (suc k) (acc * 256 + b) n bs h (omega arith)
    ∙ rw (high, low) (append_assoc (to_be_bytes k acc) (b ∷ []) bs)

-- Writing the number that bytes stand for gives the bytes back.
pub to-from_be_bytes :
    (n : ℕ) (bs : List ℕ) → All IsByte bs → length bs ≡ n → to_be_bytes n (from_be_bytes bs) ≡ bs
unfolding from_be_bytes
to-from_be_bytes n bs h e = to_be_bytes-value 0 0 n bs h (omega arith)
