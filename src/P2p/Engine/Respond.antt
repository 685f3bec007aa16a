-- ===== src/P2p/Engine/Respond.antt =====
-- `on_response` of src/p2p/mod.rs: what the answers to the node's own requests do, and the actions
-- that wait for their models.
pub mod Models
use ph_reactor.Base.{
  ℕ, String, Bool, true, false, Option, none, some, List, [], ◌∷◌, ◌++◌, not, any, is_some,
  is_empty, length, last?, map, keep, filter_map, unwrap_or, eqb, ◌&&◌, ◌||◌, ◌▷◌, if◌then◌else◌,
  suc,
}
use ph_reactor.Base.Eq.{◌==◌, string_eq, nat_eq, pair_eq}
use ph_reactor.Base.Map.{Map, lookup, insert}
use ph_reactor.Base.Sets.{contains, set_insert, set_remove}
use ph_reactor.Base.Result.{Result, ok, err}
use ph_reactor.Json.{Value, get, as_str}
use ph_reactor.Doc.Clock.{VecClock, covers}
use ph_reactor.Doc.Data.{DocId, ModelRef}
use ph_reactor.Doc.Apply.{ApplyResult}
use ph_reactor.Action.{Action, Extern, action_hash}
use ph_reactor.Model.L1.{from_def, as_model}
use ph_reactor.Model.L1.Interpreter.{model_def_hash}
use ph_reactor.Model.Interface.{Model}
use ph_reactor.Store.State.{Inner}
use ph_reactor.Store.Apply.{apply_action}
use ph_reactor.Store.Read.{summary, register_peer_key}
use ph_reactor.Store.Feed.{add_model, model_available, doc_name}
use ph_reactor.Blob.{BlobStore, put_chunk}
use ph_reactor.P2p.Codec.{
  SyncMsg, HelloAck, HelloError, bad_version, auth_required, bad_token, key_mismatch, banned,
  CatchUp, CatchUpAck, DocSummary, ModelDef, ChunkData, hello_ack, hello_err, catch_up_request,
  catch_up_ack, summary_ack, model_request, model_def, chunk_data,
}
use ph_reactor.P2p.Engine.{
  status_paused, Peer, Instant, RequestId, Engine, doc_changed, chunk_stored, DriveRuntime,
  DriveStatus, connecting, synced, paused, requires_auth, error, Net, send_event, set_status,
  send_request, update_drive, drive_name_by_peer,
}
use ph_reactor.P2p.Engine.Serve.{mark_met, note_clocks}

-- The definition of a missing model is asked for once.
unfoldable pub request_model : Engine → Peer → ModelRef → Engine
unfolding send_request contains set_insert
request_model e peer ref_ =
    let key : String × String = (ref_.name, ref_.version) in
    let asked = record e { requested_models = set_insert key e.requested_models } in
    if contains key e.requested_models then e else (send_request asked peer (model_request ref_)).0

-- Where the action came from no peer that is known, nobody is asked.
request_from : Engine → Option Peer → ModelRef → Engine
unfolding request_model
request_from e none ref_ = e
request_from e (some peer) ref_ = request_model e peer ref_

-- An action is held once, by its hash.
unfoldable pub note_pending : Extern → Engine → Action → Engine
note_pending x e a =
    if any (λ entry. action_hash x entry.1 == action_hash x a) e.pending_actions
    then e
    else record e { pending_actions = e.pending_actions ++ (a.model, a) ∷ [] }

-- Whether it was applied.
unfoldable pub apply_remote_action : Extern → Engine → Option Peer → Action → Bool × Engine
unfolding request_from note_pending model_available send_event doc_name
apply_remote_action x e peer a =
    let (result, store) = apply_action x e.store a in
    let e' = record e { store = store } in
    if not (model_available e.store a.model)
    then (false, note_pending x (request_from e peer a.model) a)
    else elim result [
      | err _ ↦ (false, e')
      | ok r ↦
          if r.applied
          then (true, send_event e' (doc_changed (doc_name store a.doc_id)))
          else (false, e')
    ]

-- One after another; the number of those applied.
unfoldable pub apply_remote_actions : Extern → Engine → Peer → List Action → ℕ × Engine
unfolding apply_remote_action
apply_remote_actions x e peer [] = (0, e)
apply_remote_actions x e peer (a ∷ rest) =
    let (applied, e1) = apply_remote_action x e (some peer) a in
    let (n, e2) = apply_remote_actions x e1 peer rest in (if applied then suc n else n, e2)

-- The documents on which the clocks are ahead of the store's, with the store's clocks.
unfoldable pub gaps_of : Inner → Map DocId VecClock → List CatchUp
unfolding summary
gaps_of s remote =
    filter_map
      (λ entry.
        let have = unwrap_or [] (lookup entry.0 (summary s)) in
        if covers have entry.1 then none else some (record { doc_id = entry.0; have = have }))
      remote

-- The requests go to the peer and into the drive's set.
unfoldable pub request_gaps : String → Peer → List CatchUp → Engine → Engine
unfolding send_request update_drive set_insert
request_gaps name peer [] e = e
request_gaps name peer (c ∷ cs) e =
    let (sent, id) = send_request e peer (catch_up_request c) in
    request_gaps name peer cs
      (update_drive name (λ rt. record rt { in_flight = set_insert id rt.in_flight }) sent)

-- The key of a `HelloAck`: 32 bytes, pinned; false where another key is pinned.
unfoldable pub pin_ack : Net → Engine → Peer → Option String → Bool × Engine
unfolding register_peer_key
pin_ack net e peer pubkey = elim (pubkey ▷ λ pk. net.hex_decode pk) [
  | none ↦ (true, e)
  | some key ↦
      let (pinned, store) = register_peer_key e.store peer key in
      if not (eqb (length key) 32) then (true, e) else elim pinned [
        | ok _ ↦ (true, record e { store = store })
        | err _ ↦ (false, record e { store = store })
      ]
]

unfoldable pub on_hello_ack : Net → Instant → Engine → String → Peer → HelloAck → Engine
unfolding pin_ack mark_met note_clocks gaps_of request_gaps update_drive set_status
on_hello_ack net now e name peer ack =
    let (accepted, e1) = pin_ack net e peer ack.pubkey in
    let clocks = map (λ (d : DocSummary). (d.id, d.clock)) ack.docs in
    let meet =
      λ (rt : DriveRuntime). note_clocks clocks (if rt.handshaken then rt else mark_met now rt) in
    if not accepted then set_status e1 name error else elim (lookup name e1.drives) [
      | none ↦ e1
      | some rt ↦
          let e2 = set_status (update_drive name meet e1) name connecting in
          request_gaps name peer (gaps_of e2.store (meet rt).remote_clocks) e2
    ]

unfoldable pub status_of_error : HelloError → DriveStatus
status_of_error (bad_version expected got) = error
status_of_error auth_required = requires_auth
status_of_error bad_token = requires_auth
status_of_error key_mismatch = error
status_of_error banned = error

unfoldable pub on_catch_up_ack : Extern → Instant → Engine → String → Peer → CatchUpAck → Engine
unfolding apply_remote_actions update_drive set_status status_paused
on_catch_up_ack x now e name peer ack =
    let (applied, e1) = apply_remote_actions x e peer ack.actions in
    let heard = λ (rt : DriveRuntime). record rt {
      remote_clocks = elim (last? ack.actions) [
        | none ↦ rt.remote_clocks
        | some a ↦ insert ack.doc_id a.clock rt.remote_clocks
      ];
      last_seen = now;
    } in
    let done = λ (rt : DriveRuntime).
      not ack.more && (is_empty rt.in_flight && not (status_paused rt.status)) in
    let settle =
      λ (rt : DriveRuntime). record (heard rt) { status = if done rt then synced else rt.status } in
    elim (lookup name e1.drives) [
      | none ↦ e1
      | some rt ↦
          let e2 = update_drive name settle e1 in if done rt then set_status e2 name synced else e2
    ]

field_is : Value → String → String → Bool
field_is v key want = elim (get v key ▷ λ f. as_str f) [ none ↦ false | some s ↦ s == want ]

unfoldable pub hash_fits : Extern → ModelRef → Value → Bool
hash_fits x ref_ def_ = elim ref_.hash [ none ↦ true | some want ↦ model_def_hash x def_ == want ]

-- Is the pending action one of this model's name and version?
of_model : String × String → ModelRef × Action → Bool
of_model key entry = (entry.0.name, entry.0.version) == key

-- The actions that wait for the model.
waiting : Engine → String × String → List Action
unfolding of_model
waiting e key = map (λ entry. entry.1) (keep (λ entry. of_model key entry) e.pending_actions)

-- The model is loaded, and nothing is asked for or pending under its name and version.
with_model : Engine → String × String → Model → Engine
unfolding of_model add_model set_remove
with_model e key model = record e {
  store = add_model e.store model;
  requested_models = set_remove key e.requested_models;
  pending_actions = keep (λ entry. not (of_model key entry)) e.pending_actions;
}

-- A definition is registered where its name, version and pinned hash fit; then what waited for it is
-- applied.
unfoldable pub on_model_def : Extern → Engine → Peer → ModelDef → Engine
unfolding field_is hash_fits waiting with_model apply_remote_actions from_def as_model
on_model_def x e peer d = elim d.def_ [
  | none ↦ e
  | some def_ ↦
      let key : String × String = (d.ref_.name, d.ref_.version) in
      if not (field_is def_ "name" d.ref_.name && field_is def_ "version" d.ref_.version)
      then e
      else if not (hash_fits x d.ref_ def_)
      then e
      else elim (from_def x def_) [
        | err _ ↦ e
        | ok m ↦ (apply_remote_actions x (with_model e key (as_model m)) peer (waiting e key)).1
      ]
]

unfoldable pub on_chunk_data : Extern → Engine → ChunkData → Engine
unfolding put_chunk send_event
on_chunk_data x e d = elim d.bytes [
  | none ↦ e
  | some bytes ↦ elim (put_chunk x e.blobs d.hash bytes) [
    | ok blobs ↦ send_event (record e { blobs = blobs }) (chunk_stored d.hash)
    | err _ ↦ send_event e (chunk_stored d.hash)
  ]
]

unfoldable pub respond : Net → Extern → Instant → Engine → String → Peer → SyncMsg → Engine
unfolding on_hello_ack on_catch_up_ack on_model_def on_chunk_data status_of_error update_drive
    set_status note_clocks
respond net x now e name peer (hello_ack ack) = on_hello_ack net now e name peer ack
respond net x now e name peer (hello_err err_) =
    let status = status_of_error err_ in
    set_status (update_drive name (λ rt. record rt { status = status }) e) name status
respond net x now e name peer (catch_up_ack ack) = on_catch_up_ack x now e name peer ack
respond net x now e name peer (summary_ack s) = update_drive name (note_clocks s.clocks) e
respond net x now e name peer (model_def d) = on_model_def x e peer d
respond net x now e name peer (chunk_data d) = on_chunk_data x e d
respond net x now e name peer other = e

-- A response counts only from the peer of a drive.
unfoldable pub on_response : Net → Extern → Instant → Engine → Peer → RequestId → SyncMsg → Engine
unfolding respond set_remove update_drive drive_name_by_peer
on_response net x now e peer id msg = elim (drive_name_by_peer e peer) [
  | none ↦ e
  | some name ↦
      respond net x now
        (update_drive name (λ rt. record rt { in_flight = set_remove id rt.in_flight }) e) name peer
        msg
]
