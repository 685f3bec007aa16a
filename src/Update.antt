-- ===== src/Update.antt =====
-- src/update/mod.rs: signed releases, and when one supersedes the running version.
pub mod Versions
pub mod Candidate
use ph_reactor.Base.{
  ℕ, zero, suc, String, Bool, true, false, Option, none, some, List, [], ◌∷◌, ◌++◌, ◌||◌, max,
  length, any, not, is_empty, eqb, ltb, if◌then◌else◌, ◌▷◌,
}
use ph_reactor.Base.Eq.{◌==◌, string_eq}
use ph_reactor.Base.Chars.{codes, trim, drop_while, split, parse_u64}
use ph_reactor.Base.Result.{Result, ok, err, ◌>>=◌}
use ph_reactor.Action.{Extern}
use ph_reactor.Blob.{BlobRef}

-- `std::cmp::Ordering`
pub data Order : Type 0 where
  less equal greater : Order

pub record Release : Type 0 where
  pub version : String
  pub platform : String
  pub notes : String
  pub binary : BlobRef
  pub publisher_key : String
  pub sig : String

pub data ReleaseError : Type 0 where
  bad_key_hex bad_key_length bad_key bad_sig_hex bad_sig_length altered : ReleaseError

-- Other crates' functions on texts: `hex` and the encoding of a release.
pub record ReleaseExtern : Type 0 where
  pub hex_encode : List ℕ → String
  pub hex_decode : String → Option (List ℕ)
  pub release_to_vec : Release → List ℕ
  pub verify : List ℕ → List ℕ → List ℕ → Bool

module _ (x : Extern) (w : ReleaseExtern) where
  unfoldable pub release_bytes : Release → List ℕ
  release_bytes r = w.release_to_vec (record r { sig = "" })

  unfoldable pub sign_release : Release → List ℕ → Release
  unfolding release_bytes
  sign_release r key = record r { sig = w.hex_encode (x.sign key (release_bytes r)) }

  unfoldable pub verify_release : Release → Result ReleaseError (Unit {0})
  unfolding release_bytes
  verify_release r = elim (w.hex_decode r.publisher_key) [
    | none ↦ err bad_key_hex
    | some key ↦
        if not (eqb (length key) 32)
        then err bad_key_length
        else if not (x.valid_key key)
        then err bad_key
        else elim (w.hex_decode r.sig) [
          | none ↦ err bad_sig_hex
          | some sig ↦
              if not (eqb (length sig) 64)
              then err bad_sig_length
              else if w.verify key (release_bytes r) sig
              then ok tt
              else err altered
        ]
  ]

-- `Option<Vec<_>>` from an iterator of options.
unfoldable pub parse_parts : List (List ℕ) → Option (List ℕ)
parse_parts [] = some []
parse_parts (p ∷ ps) = let rest = parse_parts ps in parse_u64 p ▷ λ n. rest ▷ λ ns. some (n ∷ ns)

-- The numbers of a dotted version; `v`s before it are dropped, and 45 is `-`, 43 `+`, 46 `.`.
unfoldable pub parse_version : String → Option (List ℕ)
unfolding codes trim drop_while split parse_parts
parse_version s =
    let core = drop_while (λ c. eqb c 118) (trim (codes s)) in
    if any (λ c. eqb c 45) core || (any (λ c. eqb c 43) core || is_empty core)
    then none
    else parse_parts (split 46 core)

-- `v.resize(n, 0)` where `n` is no less than the length.
unfoldable pub resize : ℕ → List ℕ → List ℕ
resize zero v = v
resize (suc n) [] = 0 ∷ resize n []
resize (suc n) (c ∷ v) = c ∷ resize n v

-- `Vec::cmp`
unfoldable pub vec_cmp : List ℕ → List ℕ → Order
vec_cmp [] [] = equal
vec_cmp [] (b ∷ bs) = less
vec_cmp (a ∷ r) [] = greater
vec_cmp (a ∷ r) (b ∷ bs) =
    let rest = vec_cmp r bs in if ltb a b then less else if ltb b a then greater else rest

unfoldable pub compare_parts : List ℕ → List ℕ → Order
unfolding resize vec_cmp
compare_parts a b = let n = max (length a) (length b) in vec_cmp (resize n a) (resize n b)

unfoldable pub compare : String → String → Option Order
unfolding parse_version compare_parts
compare a b = parse_version a ▷ λ x. parse_version b ▷ λ y. some (compare_parts x y)

unfoldable pub is_newer_than : Release → String → Bool
unfolding compare
is_newer_than r current = elim (compare r.version current) [ some greater ↦ true | _ ↦ false ]

unfoldable pub runs_on : Release → String → Bool
runs_on r platform = r.platform == platform
