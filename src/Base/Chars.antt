-- ===== src/Base/Chars.antt =====
-- Text as code points: `trim`, `split`, `parse::<u64>` and tests on the beginning of a text.
use Prim.Native.Char.{code}
use Prim.Native.String
use Prim.Native.Nat.{ℕ, zero, suc, ◌+◌, ◌-◌, ◌*◌, ◌^◌}
use mathlib.Core.Bool.{Bool, ◌&&◌, ◌||◌}
use mathlib.Core.Option.{Option, none, some}
use mathlib.Core.List.{List, [], ◌∷◌}
use ph_reactor.Base.Tests.{ltb, leb, eqb, if◌then◌else◌}
use ph_reactor.Base.Lists.{any, is_empty}

unfoldable pub codes : String.String → List ℕ
codes String.[] = []
codes (String.◌∷◌ c s) = code c ∷ codes s

-- `char::is_whitespace`
unfoldable pub is_whitespace : ℕ → Bool
is_whitespace c =
    (leb 9 c && leb c 13)
    || ((leb 8192 c && leb c 8202)
        || any (λ w. eqb w c) (32 ∷ 133 ∷ 160 ∷ 5760 ∷ 8232 ∷ 8233 ∷ 8239 ∷ 8287 ∷ 12288 ∷ []))

-- The text without the characters at its start for which `p` holds.
unfoldable pub drop_while : (ℕ → Bool) → List ℕ → List ℕ
drop_while p [] = []
drop_while p (c ∷ cs) = let rest = drop_while p cs in if p c then rest else c ∷ cs

unfoldable pub drop_end : (ℕ → Bool) → List ℕ → List ℕ
drop_end p [] = []
drop_end p (c ∷ cs) = let rest = drop_end p cs in if p c && is_empty rest then [] else c ∷ rest

unfoldable pub trim : List ℕ → List ℕ
unfolding drop_while drop_end is_whitespace
trim cs = drop_end is_whitespace (drop_while is_whitespace cs)

-- `split(sep)`: the pieces between the separators, at least one.
unfoldable pub split : ℕ → List ℕ → List (List ℕ)
split sep [] = [] ∷ []
split sep (c ∷ cs) =
    let pieces = split sep cs in
    elim pieces [
      | [] ↦ []
      | piece ∷ rest ↦ if eqb c sep then [] ∷ piece ∷ rest else (c ∷ piece) ∷ rest
    ]

-- The digits add to `n`; anything else, or a number past the maximum of `u64`, is refused.
unfoldable pub parse_digits : ℕ → List ℕ → Option ℕ
parse_digits n [] = some n
parse_digits n (c ∷ cs) =
    let m = n * 10 + (c - 48) in
    let rest = parse_digits m cs in if leb 48 c && (leb c 57 && ltb m (2 ^ 64)) then rest else none

-- `parse::<u64>`, for a text without a plus sign.
unfoldable pub parse_u64 : List ℕ → Option ℕ
unfolding parse_digits
parse_u64 cs = if is_empty cs then none else parse_digits 0 cs

-- `strip_prefix(prefix)`
unfoldable pub strip_prefix : List ℕ → List ℕ → Option (List ℕ)
strip_prefix [] cs = some cs
strip_prefix (p ∷ ps) [] = none
strip_prefix (p ∷ ps) (c ∷ cs) = if eqb p c then strip_prefix ps cs else none

-- The first `n` characters.
unfoldable pub take_chars : ℕ → String.String → String.String
take_chars zero s = String.[]
take_chars (suc n) String.[] = String.[]
take_chars (suc n) (String.◌∷◌ c s) = String.◌∷◌ c (take_chars n s)

-- One text after another.
unfoldable pub concat_str : String.String → String.String → String.String
concat_str String.[] t = t
concat_str (String.◌∷◌ c s) t = String.◌∷◌ c (concat_str s t)
