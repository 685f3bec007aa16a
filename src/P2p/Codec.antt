-- ===== src/P2p/Codec.antt =====
-- src/p2p/codec.rs: the messages of the sync protocol and their frames.
pub mod RoundTrip
use ph_reactor.Base.{
  ℕ, zero, suc, ◌^◌, String, Bool, true, false, Option, none, some, List, [], ◌∷◌, ◌++◌, length,
  take, drop, ltb, if◌then◌else◌,
}
use ph_reactor.Base.Bytes.{be_bytes, from_be_bytes}
use ph_reactor.Base.Result.{Result, ok, err, ◌>>=◌}
use ph_reactor.Json.{Value}
use ph_reactor.Doc.Clock.{VecClock}
use ph_reactor.Doc.Data.{DocId, Hash32, ModelRef}
use ph_reactor.Action.{Action}
use ph_reactor.Store.State.{DocState}
use ph_reactor.P2p.Invite.{InviteAccept}

abbrev pub protocol_version : ℕ
protocol_version = 3

abbrev pub max_msg_bytes : ℕ
max_msg_bytes = 2 ^ 20

abbrev pub catch_up_max_actions : ℕ
catch_up_max_actions = 64

pub record DocSummary : Type 0 where
  pub id : DocId
  pub name : String
  pub clock : VecClock

pub record Hello : Type 0 where
  pub version : ℕ
  pub name : String
  pub peer_id : String
  pub pubkey : String
  pub token : Option String
  pub accept : Option InviteAccept

pub record HelloAck : Type 0 where
  pub version : ℕ
  pub name : String
  pub docs : List DocSummary
  pub pubkey : Option String

pub data HelloError : Type 0 where
  bad_version : ℕ → ℕ → HelloError
  auth_required bad_token key_mismatch banned : HelloError

-- `HelloError::as_str`
pub error_text : HelloError → String
error_text (bad_version expected got) = "bad-version"
error_text auth_required = "auth-required"
error_text bad_token = "bad-token"
error_text key_mismatch = "key-mismatch"
error_text banned = "banned"

pub record CatchUp : Type 0 where
  pub doc_id : DocId
  pub have : VecClock

pub record CatchUpAck : Type 0 where
  pub doc_id : DocId
  pub state : Option DocState
  pub actions : List Action
  pub more : Bool

pub record Summary : Type 0 where
  pub clocks : List (DocId × VecClock)

pub record ActionMsg : Type 0 where
  pub action : Action
  pub name : Option String

pub record ChunkData : Type 0 where
  pub hash : Hash32
  pub bytes : Option (List ℕ)

pub record ModelDef : Type 0 where
  pub ref_ : ModelRef
  pub def_ : Option Value

pub data SyncMsg : Type 0 where
  hello : Hello → SyncMsg
  hello_ack : HelloAck → SyncMsg
  hello_err : HelloError → SyncMsg
  catch_up_request : CatchUp → SyncMsg
  catch_up_ack : CatchUpAck → SyncMsg
  summary_request summary_ack : Summary → SyncMsg
  model_request : ModelRef → SyncMsg
  model_def : ModelDef → SyncMsg
  chunk_request : Hash32 → SyncMsg
  chunk_data : ChunkData → SyncMsg

pub data IoError : Type 0 where
  unexpected_eof too_large bad_json serialize_failed : IoError

-- `serde_json` on messages.
pub record MsgExtern : Type 0 where
  pub msg_to_vec : SyncMsg → Option (List ℕ)
  pub msg_from_slice : List ℕ → Option SyncMsg

-- `read_exact`: that many bytes, and what is left of the stream.
unfoldable pub read_exact : ℕ → List ℕ → Result IoError (List ℕ × List ℕ)
read_exact n input =
    if ltb (length input) n then err unexpected_eof else ok (take n input, drop n input)

-- The message, and what is left of the stream.
unfoldable pub read_msg : MsgExtern → ℕ → List ℕ → Result IoError (SyncMsg × List ℕ)
unfolding read_exact from_be_bytes
read_msg w max_len input = read_exact 4 input >>= λ header.
    let len = from_be_bytes header.0 in
    if ltb max_len len
    then err too_large
    else read_exact len header.1 >>= λ body. elim (w.msg_from_slice body.0) [
      | none ↦ err bad_json
      | some msg ↦ ok (msg, body.1)
    ]

-- What is written to the stream.
unfoldable pub write_msg : MsgExtern → SyncMsg → Result IoError (List ℕ)
write_msg w msg = elim (w.msg_to_vec msg) [
  | none ↦ err serialize_failed
  | some body ↦
      if ltb max_msg_bytes (length body)
      then err too_large
      else ok (be_bytes 4 (length body) ++ body)
]
