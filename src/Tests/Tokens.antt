-- ===== src/Tests/Tokens.antt =====
-- Frames, invitations and proposals.
use ph_reactor.Base.{
  ℕ, ◌+◌, ◌-◌, ◌^◌, ◌<◌, ◌≡◌, refl, ap, ◌∙◌, String, Bool, true, false, Option, none, some, List,
  [], ◌∷◌, ◌++◌, All, arith, length, suc,
}
use ph_reactor.Base.Eq.{◌==◌, string_eq}
use ph_reactor.Base.Chars.{is_whitespace}
use ph_reactor.Base.Bytes.{be_bytes, as_bytes}
use ph_reactor.Base.Result.{ok}
use ph_reactor.Doc.Clock.{Origin}
use ph_reactor.Action.{Action, sign, verify}
use ph_reactor.Action.Message.{verify-sign_cosigned}
use ph_reactor.Store.Admit.{endorsers, signers}
use ph_reactor.Store.Admit.Quorum.{among}
use ph_reactor.P2p.Codec.{SyncMsg, chunk_request, MsgExtern, read_msg, write_msg, max_msg_bytes}
use ph_reactor.P2p.Codec.RoundTrip.{read_msg-write_msg}
use ph_reactor.P2p.Cosign.{TokenExtern, encode, decode, add_cosig, endorser_count}
use ph_reactor.P2p.Cosign.Count.{endorser_count_lem}
use ph_reactor.P2p.Cosign.Token.{LawfulTokens, Signed, relay}
use ph_reactor.P2p.Invite.{InviteToken, token_bytes}
use ph_reactor.P2p.Invite.Message.{IsSized, token_bytes-inj}
use ph_reactor.Tests.Fixture.{crypto, crypto-Lawful, alice_key, bob_key, from_alice}

-- Requests for chunks, with the hash for a body.
to_vec : SyncMsg → Option (List ℕ)
to_vec (chunk_request h) = some (h ∷ [])
to_vec _ = none

from_slice : List ℕ → Option SyncMsg
from_slice (h ∷ []) = some (chunk_request h)
from_slice _ = none

abbrev wire : MsgExtern
wire = record { msg_to_vec = to_vec; msg_from_slice = from_slice }

reads_back :
    (body : List ℕ)
    → to_vec (chunk_request 77) ≡ some body
    → from_slice body ≡ some (chunk_request 77)
unfolding to_vec from_slice
reads_back body e = let same : 77 ∷ [] ≡ body = cc in rw (← same) refl

abbrev frame : List ℕ
frame = 0 ∷ 0 ∷ 0 ∷ 1 ∷ 77 ∷ []

run_write : write_msg wire (chunk_request 77) ≡ ok frame
unfolding write_msg to_vec be_bytes
run_write = refl

read_msg-write_msg_example :
    read_msg wire max_msg_bytes (frame ++ 5 ∷ 6 ∷ []) ≡ ok (chunk_request 77, 5 ∷ 6 ∷ [])
read_msg-write_msg_example =
    read_msg-write_msg wire (chunk_request 77) frame (5 ∷ 6 ∷ []) reads_back run_write

abbrev sixteen : List ℕ
sixteen = be_bytes 16 99

abbrev invite : InviteToken
invite = record {
  version = 1;
  name = "alice";
  peer_id = "12D3";
  pubkey = be_bytes 32 7;
  addr = "/ip4/10.0.0.2/tcp/4201";
  nonce = be_bytes 16 99;
  groups = "staff" ∷ [];
  sig = 4 ∷ [];
}

abbrev resigned : InviteToken
resigned = record invite { sig = [] }

invite-IsSized : (sig : List ℕ) → IsSized (record invite { sig = sig })
unfolding as_bytes be_bytes ph_reactor.Base.Bytes.char_bytes
invite-IsSized sig = record {
  version = omega arith;
  name = omega arith;
  peer_id = omega arith;
  pubkey = refl;
  addr = omega arith;
  nonce = refl;
  group_count = omega arith;
  groups = (omega arith, tt);
}

same_bytes : token_bytes invite ≡ token_bytes resigned
unfolding token_bytes
same_bytes = refl

token_bytes-inj_example : record invite { sig = [] } ≡ record resigned { sig = [] }
token_bytes-inj_example =
    token_bytes-inj invite resigned (invite-IsSized (4 ∷ [])) (invite-IsSized []) same_bytes

-- Alice's proposal.
abbrev members : List Origin
members = "alice" ∷ "bob" ∷ []

endorser_count_lem_example :
    endorser_count from_alice members ≡ length (endorsers members (signers from_alice))
endorser_count_lem_example = endorser_count_lem from_alice members

key_of : Origin → Option (List ℕ)
key_of o = elim (o == "alice") [
  | true ↦ some alice_key
  | false ↦ elim (o == "bob") [ true ↦ some bob_key | false ↦ none ]
]

cosigned : Action
unfolding sign ph_reactor.Action.message_bytes
cosigned = record from_alice {
  cosig =
      record { origin = "bob"; sig = bob_key ++ ph_reactor.Action.message_bytes crypto from_alice }
      ∷ [];
}

-- A printable encoding, and a notation for the one action.
shift : List ℕ → List ℕ
shift [] = []
shift (b ∷ bs) = (b + 100000) ∷ shift bs

unshift : List ℕ → List ℕ
unshift [] = []
unshift (b ∷ bs) = (b - 100000) ∷ unshift bs

unshift-shift : (bs : List ℕ) → unshift (shift bs) ≡ bs
unfolding shift unshift
unshift-shift [] = refl
unshift-shift (b ∷ bs) =
    let first : b + 100000 - 100000 ≡ b = omega arith in rw (first, unshift-shift bs) refl

shift-printable : (bs : List ℕ) → All (λ c. is_whitespace c ≡ false) (shift bs)
unfolding shift is_whitespace
shift-printable [] = tt
shift-printable (b ∷ bs) = (ground arith, shift-printable bs)

abbrev notation : TokenExtern
notation = record {
  action_to_vec = λ a. some (1 ∷ []);
  action_from_slice = λ bytes. some cosigned;
  base64_encode = shift;
  base64_decode = λ text. some (unshift text);
}

notation-LawfulTokens : LawfulTokens notation cosigned
notation-LawfulTokens = record {
  base64 = λ bytes. ap some (unshift-shift bytes);
  printable = shift-printable;
  json = λ bytes h. refl;
}

abbrev token : List ℕ
token = ph_reactor.P2p.Cosign.prefix ++ 100001 ∷ []

run_encode : encode notation cosigned ≡ ok token
unfolding encode shift
run_encode = refl

run_add : add_cosig crypto from_alice "bob" bob_key ≡ ok cosigned
unfolding add_cosig cosigned sign ph_reactor.Action.message_bytes
run_add = refl

from_alice-Signed : Signed crypto key_of from_alice
unfolding key_of sign
from_alice-Signed = record {
  key = alice_key;
  known = refl;
  valid = verify-sign_cosigned crypto _ alice_key [] crypto-Lawful;
  cosigned = tt;
}

bob_known : key_of "bob" ≡ some (crypto.public bob_key)
unfolding key_of
bob_known = refl

relay_example :
    (decode crypto notation key_of token ≡ ok cosigned)
    × (among "bob" members ≡ true
        → endorser_count cosigned members ≡ suc (endorser_count from_alice members))
relay_example =
    relay crypto notation key_of from_alice cosigned "bob" bob_key token members crypto-Lawful
      notation-LawfulTokens from_alice-Signed bob_known run_add run_encode
