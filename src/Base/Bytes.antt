-- ===== src/Base/Bytes.antt =====
-- Byte strings: `to_be_bytes`, `from_be_bytes`, `str::as_bytes`, and that they lose nothing.
use Prim.Native.Char.{code}
use Prim.Native.String
use Prim.Native.Nat.{ℕ, zero, suc, ◌+◌, ◌*◌, ◌/◌, ◌%◌, ◌^◌, ◌<◌}
use mathlib.Core.Path.{◌≡◌, refl, sym, ap₂, ◌∙◌}
use mathlib.Core.Logic.{◌↔◌}
use mathlib.Core.Bool.{Bool, true, false, ◌&&◌}
use mathlib.Core.List.{List, [], ◌∷◌, ◌++◌}
use native.Mathlib.Omega.{arith}
use native.Mathlib.Nat.{pow-suc}
use text.Mathlib.TextEquality.{Char-path}
use ph_reactor.Base.Tests.{ltb, eqb, if◌then◌else◌}
use ph_reactor.Base.Lists.{length, length-append}

-- `n.to_be_bytes()` for an integer of `w` bytes: the low `w` bytes, the highest first.
unfoldable pub be_bytes : ℕ → ℕ → List ℕ
be_bytes zero n = []
be_bytes (suc w) n = be_bytes w (n / 256) ++ (n % 256) ∷ []

-- The number whose digits in base 256 are those of `n`, then the bytes.
unfoldable pub be_value : ℕ → List ℕ → ℕ
be_value n [] = n
be_value n (b ∷ bs) = be_value (n * 256 + b) bs

-- `uN::from_be_bytes`
unfoldable pub from_be_bytes : List ℕ → ℕ
unfolding be_value
from_be_bytes bytes = be_value 0 bytes

be_value-append : (n : ℕ) (xs ys : List ℕ) → be_value n (xs ++ ys) ≡ be_value (be_value n xs) ys
unfolding be_value
be_value-append n [] ys = refl
be_value-append n (x ∷ xs) ys = be_value-append (n * 256 + x) xs ys

be_value-be_bytes : (w n : ℕ) → n < 256 ^ w → be_value 0 (be_bytes w n) ≡ n
unfolding be_value be_bytes
be_value-be_bytes zero n h = omega arith
be_value-be_bytes (suc w) n h =
    let high = be_value-be_bytes w (n / 256) (omega (arith, pow-suc 256 w)) in
    be_value-append 0 (be_bytes w (n / 256)) ((n % 256) ∷ []) ∙ rw high (omega arith)

pub from_be_bytes-be_bytes : (w n : ℕ) → n < 256 ^ w → from_be_bytes (be_bytes w n) ≡ n
unfolding from_be_bytes
from_be_bytes-be_bytes w n h = be_value-be_bytes w n h

pub length-be_bytes : (w n : ℕ) → length (be_bytes w n) ≡ w
unfolding be_bytes
length-be_bytes zero n = refl
length-be_bytes (suc w) n =
    omega
      (arith, length-append (be_bytes w (n / 256)) ((n % 256) ∷ []), length-be_bytes w (n / 256))

-- `==` on byte arrays.
unfoldable pub bytes_eq : List ℕ → List ℕ → Bool
bytes_eq [] [] = true
bytes_eq (a ∷ r) (b ∷ bs) = eqb a b && bytes_eq r bs
bytes_eq _ _ = false

pub bytes_eq_iff : (a b : List ℕ) → (bytes_eq a b ≡ true) ↔ (a ≡ b)
unfolding bytes_eq
bytes_eq_iff [] [] = (λ h. refl, λ h. refl)
bytes_eq_iff [] (b ∷ bs) = ground arith
bytes_eq_iff (a ∷ r) [] = ground arith
bytes_eq_iff (a ∷ r) (b ∷ bs) = ground (arith, bytes_eq_iff r bs)

-- UTF-8.
unfoldable pub char_bytes : ℕ → List ℕ
char_bytes c =
    if ltb c 128
    then c ∷ []
    else if ltb c 2048
    then (192 + c / 64) ∷ (128 + c % 64) ∷ []
    else if ltb c 65536
    then (224 + c / 4096) ∷ (128 + c / 64 % 64) ∷ (128 + c % 64) ∷ []
    else (240 + c / 262144) ∷ (128 + c / 4096 % 64) ∷ (128 + c / 64 % 64) ∷ (128 + c % 64) ∷ []

-- `s.as_bytes()`
unfoldable pub as_bytes : String.String → List ℕ
unfolding char_bytes
as_bytes String.[] = []
as_bytes (String.◌∷◌ c s) = char_bytes (code c) ++ as_bytes s

module _ {ℓ} {A : Type ℓ} where
  pub append_split :
      (xs ys us vs : List A) → length xs ≡ length us → xs ++ ys ≡ us ++ vs → (xs ≡ us) × (ys ≡ vs)
  append_split [] ys [] vs n e = (refl, e)
  append_split [] ys (u ∷ us) vs n e = absurd (omega arith)
  append_split (x ∷ xs) ys [] vs n e = absurd (omega arith)
  append_split (x ∷ xs) ys (u ∷ us) vs n e =
      let tails : xs ++ ys ≡ us ++ vs = cc in
      let (rest, after) = append_split xs ys us vs (omega arith) tails in
      let heads : x ≡ u = cc in (ap₂ (◌∷◌) heads rest, after)

pub be_bytes-inj : (w m n : ℕ) → m < 256 ^ w → n < 256 ^ w → be_bytes w m ≡ be_bytes w n → m ≡ n
unfolding be_bytes
be_bytes-inj zero m n hm hn e = omega arith
be_bytes-inj (suc w) m n hm hn e =
    let lengths : length (be_bytes w (m / 256)) ≡ length (be_bytes w (n / 256)) =
      length-be_bytes w (m / 256) ∙ sym (length-be_bytes w (n / 256)) in
    let (highs, lows) = append_split (be_bytes w (m / 256)) _ (be_bytes w (n / 256)) _ lengths e in
    let low : m % 256 ≡ n % 256 = cc lows in
    let high : m / 256 ≡ n / 256 =
      be_bytes-inj w (m / 256) (n / 256) (omega (arith, pow-suc 256 w))
        (omega (arith, pow-suc 256 w)) highs in
    omega arith

pub be_bytes-split :
    (w m n : ℕ) (xs ys : List ℕ)
    → m < 256 ^ w
    → n < 256 ^ w
    → be_bytes w m ++ xs ≡ be_bytes w n ++ ys
    → (m ≡ n) × (xs ≡ ys)
be_bytes-split w m n xs ys hm hn e =
    let (bytes, rest) =
      append_split (be_bytes w m) xs (be_bytes w n) ys
        (length-be_bytes w m ∙ sym (length-be_bytes w n)) e in
    (be_bytes-inj w m n hm hn bytes, rest)

char_bytes-inj :
    (c d : ℕ) (xs ys : List ℕ) → char_bytes c ++ xs ≡ char_bytes d ++ ys → (c ≡ d) × (xs ≡ ys)
unfolding char_bytes
char_bytes-inj c d xs ys e = ground arith

char_bytes-nonempty : (c : ℕ) (xs : List ℕ) → char_bytes c ++ xs ≡ [] → ⊥
unfolding char_bytes
char_bytes-nonempty c xs e = ground arith

pub as_bytes-inj : (s t : String.String) → as_bytes s ≡ as_bytes t → s ≡ t
unfolding as_bytes
as_bytes-inj String.[] String.[] e = refl
as_bytes-inj String.[] (String.◌∷◌ d t) e =
    absurd (char_bytes-nonempty (code d) (as_bytes t) (sym e))
as_bytes-inj (String.◌∷◌ c s) String.[] e = absurd (char_bytes-nonempty (code c) (as_bytes s) e)
as_bytes-inj (String.◌∷◌ c s) (String.◌∷◌ d t) e =
    let (codes, rest) = char_bytes-inj (code c) (code d) (as_bytes s) (as_bytes t) e in
    ap₂ String.◌∷◌ (Char-path c d codes) (as_bytes-inj s t rest)
