-- ===== src/P2p/Engine/Serve.antt =====
-- `serve_request` of src/p2p/mod.rs: the answers to a peer's requests.
pub mod Readable
pub mod Proof
pub mod Gate
use ph_reactor.Base.{
  ℕ, ◌+◌, String, Bool, true, false, Option, none, some, List, [], ◌∷◌, not, is_some, length, take,
  map, eqb, ltb, ◌&&◌, if◌then◌else◌,
}
use ph_reactor.Base.Eq.{◌==◌, string_eq, nat_eq}
use ph_reactor.Base.Map.{Map, lookup, insert}
use ph_reactor.Base.Sets.{contains, set_insert}
use ph_reactor.Base.Result.{Result, ok, err}
use ph_reactor.Doc.Clock.{VecClock, u64}
use ph_reactor.Doc.Data.{DocId}
use ph_reactor.Action.{Action, Extern}
use ph_reactor.Store.State.{DocState, Inner}
use ph_reactor.Store.Read.{summary_for, may_peer_read, catch_up, register_peer_key}
use ph_reactor.Store.Feed.{doc_name, model_definition}
use ph_reactor.Blob.{get_chunk}
use ph_reactor.P2p.Codec.{
  SyncMsg, Hello, HelloAck, HelloError, bad_version, auth_required, bad_token, key_mismatch, banned,
  CatchUp, CatchUpAck, Summary, DocSummary, hello, hello_ack, hello_err, catch_up_request,
  catch_up_ack, summary_request, summary_ack, model_request, model_def, chunk_request, chunk_data,
  protocol_version, catch_up_max_actions,
}
use ph_reactor.P2p.Engine.{
  Peer, Instant, Engine, DriveRuntime, connecting, Net, set_status, update_drive,
  drive_name_by_peer,
}
use ph_reactor.P2p.Engine.Drives.{handle_invite_accept, record_auth_failure}

-- The token that a hello carries, against the one that is asked for.
pub data TokenCheck : Type 0 where
  passes wrong absent : TokenCheck

unfoldable pub check_token : Option String → Option String → TokenCheck
check_token none offered = passes
check_token (some need) none = absent
check_token (some need) (some offered) = if offered == need then passes else wrong

abbrev pub Reply : Type 0
Reply = SyncMsg × Engine

-- The acknowledgement: every document that the peer may read.
unfoldable pub ack_hello : Net → Extern → Engine → Peer → Reply
unfolding summary_for doc_name
ack_hello net x e peer = (
  hello_ack (record {
    version = protocol_version;
    name = e.pub_name;
    docs =
        map
          (λ (entry : DocId × VecClock). record {
            id = entry.0;
            name = doc_name e.store entry.0;
            clock = entry.1;
          })
          (summary_for e.store peer);
    pubkey = some (net.hex_encode (x.public e.store.key));
  }),
  e,
)

-- The peer is remembered and its key pinned.
unfoldable pub pin_peer : Net → Extern → Engine → Peer → List ℕ → Reply
unfolding register_peer_key ack_hello set_insert
pin_peer net x e peer key =
    let (pinned, store) = register_peer_key e.store peer key in
    let e' = record e { guests = set_insert peer e.guests; store = store } in
    elim pinned [ ok _ ↦ ack_hello net x e' peer | err _ ↦ (hello_err key_mismatch, e') ]

unfoldable pub mark_met : Instant → DriveRuntime → DriveRuntime
mark_met now rt = record rt {
  handshaken = true;
  last_seen = now;
  remote_clocks = [];
  status = connecting;
}

unfoldable pub needs_auth : Hello → DriveRuntime → Bool
needs_auth h rt = is_some rt.drive.token_env && not (is_some h.token)

-- After the token: the key, where it is one of 32 bytes, with the peer's drive.
unfoldable pub register_hello : Net → Extern → Instant → Engine → Peer → Hello → Reply
unfolding pin_peer mark_met needs_auth ack_hello update_drive set_status drive_name_by_peer
register_hello net x now e peer h = elim (net.hex_decode h.pubkey) [
  | none ↦ ack_hello net x e peer
  | some key ↦
      if not (eqb (length key) 32)
      then ack_hello net x e peer
      else elim (drive_name_by_peer e peer) [
        | none ↦ pin_peer net x e peer key
        | some name ↦ elim (lookup name e.drives) [
          | none ↦ pin_peer net x e peer key
          | some rt ↦
              let met = set_status (update_drive name (mark_met now) e) name connecting in
              if needs_auth h rt then (hello_err auth_required, e) else pin_peer net x met peer key
        ]
      ]
]

-- A join proof is taken before the token is looked at.
unfoldable pub accept_proof : Net → Extern → Instant → Engine → Peer → Hello → Engine
unfolding handle_invite_accept
accept_proof net x now e peer h = elim h.accept [
  | none ↦ e
  | some accept ↦ handle_invite_accept net x now e peer accept
]

unfoldable pub serve_hello : Net → Extern → Instant → Engine → Peer → Hello → Reply
unfolding accept_proof check_token record_auth_failure register_hello contains
serve_hello net x now e peer h =
    let e1 = accept_proof net x now e peer h in
    let (now_banned, e2) = record_auth_failure e1 now peer in
    if contains peer e.banned
    then (hello_err banned, e)
    else if not (eqb h.version protocol_version)
    then (hello_err (bad_version protocol_version h.version), e)
    else elim (check_token e1.token h.token) [
      | passes ↦ register_hello net x now e1 peer h
      | absent ↦ (hello_err bad_token, e1)
      | wrong ↦ (hello_err (if now_banned then banned else bad_token), e2)
    ]

-- The document's state and the first actions that the asker lacks, where it may read them.
unfoldable pub serve_catch_up : Extern → Engine → Peer → CatchUp → CatchUpAck × Engine
unfolding may_peer_read catch_up
serve_catch_up x e peer c =
    let (state, actions) = catch_up x e.store c.doc_id c.have in
    if not (may_peer_read e.store peer c.doc_id)
    then (
      record { doc_id = c.doc_id; state = none; actions = []; more = false },
      record e { withheld = u64 (e.withheld + 1) },
    )
    else (
      record {
        doc_id = c.doc_id;
        state = state;
        actions = take catch_up_max_actions actions;
        more = ltb catch_up_max_actions (length actions);
      },
      e,
    )

-- `remote_clocks.insert` for every entry.
unfoldable pub note_clocks : List (DocId × VecClock) → DriveRuntime → DriveRuntime
note_clocks [] rt = rt
note_clocks ((id, clock) ∷ rest) rt =
    note_clocks rest (record rt { remote_clocks = insert id clock rt.remote_clocks })

unfoldable pub serve_summary : Instant → Engine → Peer → Summary → Reply
unfolding summary_for note_clocks update_drive drive_name_by_peer
serve_summary now e peer s =
    let told = λ (rt : DriveRuntime). record (note_clocks s.clocks rt) { last_seen = now } in
    let noted : Engine = elim (drive_name_by_peer e peer) [
      | none ↦ e
      | some name ↦ update_drive name told e
    ] in
    (summary_ack (record { clocks = summary_for e.store peer }), noted)

-- The answer, if the message asks for one.
unfoldable pub serve_request :
    Net → Extern → Instant → Engine → Peer → SyncMsg → Option SyncMsg × Engine
unfolding serve_hello serve_catch_up serve_summary model_definition get_chunk
serve_request net x now e peer (hello h) =
    let (msg, e') = serve_hello net x now e peer h in (some msg, e')
serve_request net x now e peer (catch_up_request c) =
    let (ack, e') = serve_catch_up x e peer c in (some (catch_up_ack ack), e')
serve_request net x now e peer (summary_request s) =
    let (msg, e') = serve_summary now e peer s in (some msg, e')
serve_request net x now e peer (model_request ref_) =
    (some (model_def (record { ref_ = ref_; def_ = model_definition e.store ref_ })), e)
serve_request net x now e peer (chunk_request hash) =
    (some (chunk_data (record { hash = hash; bytes = get_chunk e.blobs hash })), e)
serve_request net x now e peer other = (none, e)
