-- ===== src/P2p/Invite.antt =====
-- src/p2p/invite.rs: signed invitations and the join proofs that answer them.
pub mod Message
pub mod Verified
use Prim.Native.String.{String as Text}
use ph_reactor.Base.{
  ℕ, String, Bool, true, false, Option, none, some, List, [], ◌∷◌, ◌++◌, ◌||◌, not, any, length,
  eqb, is_empty, if◌then◌else◌,
}
use ph_reactor.Base.Bytes.{be_bytes, as_bytes}
use ph_reactor.Base.Chars.{trim, strip_prefix, codes}
use ph_reactor.Base.Result.{Result, ok, err, ◌>>=◌}
use ph_reactor.Action.{Extern}

pub record InviteToken : Type 0 where
  pub version : ℕ
  pub name : String
  pub peer_id : String
  pub pubkey : List ℕ
  pub addr : String
  pub nonce : List ℕ
  pub groups : List String
  pub sig : List ℕ

pub record InviteAccept : Type 0 where
  pub nonce : List ℕ
  pub name : String
  pub peer_id : String
  pub pubkey : List ℕ
  pub sig : List ℕ

pub data InviteError : Type 0 where
  bad_key_length bad_key bad_signature_length bad_signature : InviteError
  encoding bad_encoding malformed no_randomness : InviteError

-- `ph-reactor/invite/v1`
abbrev pub token_magic : List ℕ
token_magic = as_bytes "ph-reactor/invite/v1"

-- `ph-reactor/accept/v1`
abbrev pub accept_magic : List ℕ
accept_magic = as_bytes "ph-reactor/accept/v1"

-- `serde_json` and `base64` on invitations.
pub record InviteExtern : Type 0 where
  pub token_to_vec : InviteToken → Option (List ℕ)
  pub token_from_slice : List ℕ → Option InviteToken
  pub base64_encode : List ℕ → List ℕ
  pub base64_decode : List ℕ → Option (List ℕ)

-- What `push_str` appends.
unfoldable pub str_bytes : String → List ℕ
str_bytes s = be_bytes 4 (length (as_bytes s)) ++ as_bytes s

unfoldable pub group_bytes : List String → List ℕ
unfolding str_bytes
group_bytes [] = []
group_bytes (g ∷ gs) = str_bytes g ++ group_bytes gs

unfoldable pub token_bytes : InviteToken → List ℕ
unfolding str_bytes group_bytes
token_bytes t =
    token_magic
    ++ (be_bytes 4 t.version
        ++ (str_bytes t.name
            ++ (str_bytes t.peer_id
                ++ (t.pubkey
                    ++ (str_bytes t.addr
                        ++ (t.nonce ++ (be_bytes 4 (length t.groups) ++ group_bytes t.groups)))))))

unfoldable pub accept_bytes : InviteAccept → List ℕ
unfolding str_bytes
accept_bytes a =
    accept_magic ++ (a.nonce ++ (str_bytes a.name ++ (str_bytes a.peer_id ++ a.pubkey)))

-- `verifying_key`, then the signature's 64 bytes, then `verify_strict`.
unfoldable pub verify_bytes : Extern → List ℕ → List ℕ → List ℕ → Result InviteError (Unit {0})
verify_bytes x pubkey message sig =
    if not (eqb (length pubkey) 32)
    then err bad_key_length
    else if not (x.valid_key pubkey)
    then err bad_key
    else if not (eqb (length sig) 64)
    then err bad_signature_length
    else if x.verify_strict pubkey message sig
    then ok tt
    else err bad_signature

unfoldable pub sign_token : Extern → InviteToken → List ℕ → InviteToken
sign_token x t key = record t { sig = x.sign key (token_bytes t) }

unfoldable pub verify_token : Extern → InviteToken → Result InviteError (Unit {0})
unfolding verify_bytes
verify_token x t = verify_bytes x t.pubkey (token_bytes t) t.sig

-- `InviteToken::make`, with the nonce that the system's randomness gave.
unfoldable pub make_token :
    Extern
    → Option (List ℕ)
    → String
    → String
    → List ℕ
    → String
    → List String
    → Result InviteError InviteToken
unfolding sign_token
make_token x none name peer_id key addr groups = err no_randomness
make_token x (some nonce) name peer_id key addr groups = ok (
    sign_token x
      (record {
        version = 1;
        name = name;
        peer_id = peer_id;
        pubkey = x.public key;
        addr = addr;
        nonce = nonce;
        groups = groups;
        sig = [];
      })
      key)

unfoldable pub encode_token : InviteExtern → InviteToken → Result InviteError (List ℕ)
encode_token w t = elim (w.token_to_vec t) [
  | none ↦ err encoding
  | some json ↦ ok (w.base64_encode json)
]

unfoldable pub decode_token : Extern → InviteExtern → List ℕ → Result InviteError InviteToken
unfolding verify_token trim
decode_token x w s = elim (w.base64_decode (trim s)) [
  | none ↦ err bad_encoding
  | some json ↦ elim (w.token_from_slice json) [
    | none ↦ err malformed
    | some t ↦ verify_token x t >>= λ _. ok t
  ]
]

unfoldable pub sign_accept : Extern → InviteAccept → List ℕ → InviteAccept
sign_accept x a key = record a { sig = x.sign key (accept_bytes a) }

-- `InviteAccept::make`
unfoldable pub make_accept : Extern → List ℕ → String → String → List ℕ → InviteAccept
unfolding sign_accept
make_accept x nonce name peer_id key =
    sign_accept x
      (record { nonce = nonce; name = name; peer_id = peer_id; pubkey = x.public key; sig = [] })
      key

unfoldable pub verify_accept : Extern → InviteAccept → Result InviteError (Unit {0})
unfolding verify_bytes
verify_accept x a = verify_bytes x a.pubkey (accept_bytes a) a.sig

-- The first external address that is not blank, trimmed, or else the listening address.
unfoldable pub pick_invite_addr : List (List ℕ) → Option (List ℕ) → Option (List ℕ)
unfolding trim
pick_invite_addr [] listen = listen
pick_invite_addr (a ∷ r) listen =
    let rest = pick_invite_addr r listen in if is_empty (trim a) then rest else some (trim a)

-- `text.contains(part)`
contains_part : List ℕ → List ℕ → Bool
contains_part part [] = is_empty part
contains_part part (c ∷ cs) =
    let later = contains_part part cs in
    elim (strip_prefix part (c ∷ cs)) [ some rest ↦ true | none ↦ later ]

pub is_undialable_by_peers : List ℕ → Bool
unfolding contains_part codes
is_undialable_by_peers addr =
    any (λ (part : String). contains_part (codes part) addr)
      ("/ip4/0.0.0.0/" ∷ "/ip6/::/" ∷ "/ip4/127." ∷ "/ip6/::1/" ∷ [])
