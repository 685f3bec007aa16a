-- ===== src/P2p/Cosign.antt =====
-- src/p2p/cosign.rs: an action carried between members until a quorum has signed it.
pub mod Count
pub mod Token
use ph_reactor.Base.{
  ℕ, suc, zero, String, Bool, true, false, Option, none, some, List, [], ◌∷◌, ◌++◌, ◌&&◌, not, any,
  length, if◌then◌else◌,
}
use ph_reactor.Base.Eq.{◌==◌, string_eq}
use ph_reactor.Base.Chars.{trim, strip_prefix}
use ph_reactor.Base.Result.{Result, ok, err, ◌>>=◌}
use ph_reactor.Doc.Clock.{Origin}
use ph_reactor.Action.{Action, CoSig, Extern, message_bytes, verify, verify_cosig}

-- `serde_json` and `base64` on actions. A text is its code points.
pub record TokenExtern : Type 0 where
  pub action_to_vec : Action → Option (List ℕ)
  pub action_from_slice : List ℕ → Option Action
  pub base64_encode : List ℕ → List ℕ
  pub base64_decode : List ℕ → Option (List ℕ)

pub data CosignError : Type 0 where
  encoding not_a_token bad_base64 malformed : CosignError
  unknown_proposer unknown_cosigner bad_cosignature : Origin → CosignError
  altered own_proposal already_signed : CosignError

-- `PROPOSAL:`
abbrev pub prefix : List ℕ
prefix = 80 ∷ 82 ∷ 79 ∷ 80 ∷ 79 ∷ 83 ∷ 65 ∷ 76 ∷ 58 ∷ []

unfoldable pub encode : TokenExtern → Action → Result CosignError (List ℕ)
encode t a = elim (t.action_to_vec a) [
  | none ↦ err encoding
  | some json ↦ ok (prefix ++ t.base64_encode json)
]

-- Co-signers `i` and on, `n` of them.
unfoldable pub verify_cosigs :
    Extern → (Origin → Option (List ℕ)) → Action → ℕ → List CoSig → Result CosignError (Unit {0})
verify_cosigs x key_of a i [] = ok tt
verify_cosigs x key_of a i (c ∷ cs) =
    let rest = verify_cosigs x key_of a (suc i) cs in
    elim (key_of c.origin) [
      | none ↦ err (unknown_cosigner c.origin)
      | some k ↦ if verify_cosig x a i k then rest else err (bad_cosignature c.origin)
    ]

unfoldable pub verify_all :
    Extern → (Origin → Option (List ℕ)) → Action → Result CosignError (Unit {0})
unfolding verify_cosigs
verify_all x key_of a = elim (key_of a.origin) [
  | none ↦ err (unknown_proposer a.origin)
  | some k ↦ if verify x a k then verify_cosigs x key_of a 0 a.cosig else err altered
]

-- `decode(token, key_of)`
unfoldable pub decode :
    Extern → TokenExtern → (Origin → Option (List ℕ)) → List ℕ → Result CosignError Action
unfolding verify_all trim strip_prefix
decode x t key_of token = elim (strip_prefix prefix (trim token)) [
  | none ↦ err not_a_token
  | some body ↦ elim (t.base64_decode (trim body)) [
    | none ↦ err bad_base64
    | some raw ↦ elim (t.action_from_slice raw) [
      | none ↦ err malformed
      | some a ↦ verify_all x key_of a >>= λ _. ok a
    ]
  ]
]

unfoldable pub add_cosig : Extern → Action → Origin → List ℕ → Result CosignError Action
add_cosig x a origin key =
    if a.origin == origin
    then err own_proposal
    else if any (λ (c : CoSig). c.origin == origin) a.cosig
    then err already_signed
    else ok (record a {
      cosig = a.cosig ++ record { origin = origin; sig = x.sign key (message_bytes x a) } ∷ [];
    })

-- The distinct members among the co-signers, after those seen, the last seen first.
unfoldable pub count_from : List Origin → List Origin → List CoSig → List Origin
count_from members seen [] = seen
count_from members seen (c ∷ cs) =
    count_from members
      (if any (λ m. m == c.origin) members && not (any (λ o. o == c.origin) seen)
        then c.origin ∷ seen
        else seen)
      cs

unfoldable pub endorser_count : Action → List Origin → ℕ
unfolding count_from
endorser_count a members =
    let first = if any (λ m. m == a.origin) members then a.origin ∷ [] else [] in
    length (count_from members first a.cosig)
