-- ===== src/Blob/Chunks.antt =====
-- Splitting into chunks loses nothing.
use ph_reactor.Base.{
  ℕ, zero, suc, ◌-◌, ◌≤◌, ◌<◌, ◌≡◌, refl, ap, ◌∙◌, List, [], ◌∷◌, ◌++◌, length, take, drop, arith,
}
use ph_reactor.Blob.{split_chunks, chunks_of}

unfoldable pub concat : List (List ℕ) → List ℕ
concat [] = []
concat (c ∷ cs) = c ++ concat cs

take-drop : (n : ℕ) (bytes : List ℕ) → take n bytes ++ drop n bytes ≡ bytes
take-drop zero bytes = refl
take-drop (suc n) [] = refl
take-drop (suc n) (b ∷ bytes) = ap (λ rest. b ∷ rest) (take-drop n bytes)

length-drop : (n : ℕ) (bytes : List ℕ) → length (drop n bytes) ≡ length bytes - n
length-drop zero bytes = omega arith
length-drop (suc n) [] = omega arith
length-drop (suc n) (b ∷ bytes) = omega (arith, length-drop n bytes)

split_chunks_lem :
    (fuel n : ℕ) (bytes : List ℕ)
    → 0 < n
    → length bytes ≤ fuel
    → concat (split_chunks fuel n bytes) ≡ bytes
unfolding split_chunks concat
split_chunks_lem zero n [] p h = refl
split_chunks_lem zero n (b ∷ bytes) p h = absurd (omega arith)
split_chunks_lem (suc fuel) n [] p h = refl
split_chunks_lem (suc fuel) n (b ∷ bytes) p h =
    let rest = drop n (b ∷ bytes) in
    let shorter : length rest ≤ fuel = omega (arith, length-drop n (b ∷ bytes)) in
    ap (λ r. take n (b ∷ bytes) ++ r) (split_chunks_lem fuel n rest p shorter)
    ∙ take-drop n (b ∷ bytes)

pub chunks_of_lem : (n : ℕ) (bytes : List ℕ) → 0 < n → concat (chunks_of n bytes) ≡ bytes
unfolding chunks_of
chunks_of_lem n bytes p = split_chunks_lem (length bytes) n bytes p (omega arith)
