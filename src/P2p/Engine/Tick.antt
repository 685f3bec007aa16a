-- ===== src/P2p/Engine/Tick.antt =====
-- The periodic `tick` of src/p2p/mod.rs and the swarm's events.
use ph_reactor.Base.{
  ℕ, ◌+◌, String, Bool, true, false, Option, none, some, List, [], ◌∷◌, not, keep, ltb, ◌&&◌, eqb,
  if◌then◌else◌,
}
use ph_reactor.Base.Eq.{string_eq, nat_eq}
use ph_reactor.Base.Map.{lookup}
use ph_reactor.Action.{Action, Extern}
use ph_reactor.Store.Read.{summary}
use ph_reactor.Store.Feed.{drain_outbound}
use ph_reactor.P2p.Codec.{SyncMsg, ActionMsg, summary_request}
use ph_reactor.P2p.Engine.{
  status_paused, Peer, Instant, RequestId, Multiaddr, Engine, identity, peer_connected,
  DriveRuntime, DriveStatus, connecting, synced, paused, Net, send_event, set_status, send_request,
  update_drive, drive_name_by_peer, catch_up_tick, idle_after_silence, published_cap,
}
use ph_reactor.P2p.Engine.Publish.{publish_action}
use ph_reactor.P2p.Engine.Drives.{open_handshake}
use ph_reactor.P2p.Engine.Serve.{serve_request}
use ph_reactor.P2p.Engine.Respond.{gaps_of, request_gaps, on_response, apply_remote_action}

unfoldable pub publish_all : Net → Extern → List Action → Engine → Engine
unfolding publish_action
publish_all net x [] e = e
publish_all net x (a ∷ rest) e = publish_all net x rest (publish_action net published_cap x e a)

-- The drives whose turn it is.
unfoldable pub is_due : Instant → DriveRuntime → Bool
is_due now rt = not rt.drive.paused && (rt.handshaken && not (ltb now rt.next_catch_up))

unfoldable pub due_drives : Engine → Instant → List (String × DriveRuntime)
unfolding is_due
due_drives e now = keep (λ entry. is_due now entry.1) e.drives

-- The gaps of every due drive are asked for.
unfoldable pub catch_up_all : Instant → List (String × DriveRuntime) → Engine → Engine
unfolding gaps_of request_gaps update_drive
catch_up_all now [] e = e
catch_up_all now ((name, rt) ∷ rest) e =
    let later = update_drive name (λ rt. record rt { next_catch_up = now + catch_up_tick }) e in
    catch_up_all now rest (request_gaps name rt.peer (gaps_of e.store rt.remote_clocks) later)

is_connecting : DriveStatus → Bool
is_connecting connecting = true
is_connecting _ = false

-- Every due drive is told the clocks of all documents.
unfoldable pub summarize_all : List (String × DriveRuntime) → Engine → Engine
unfolding summary send_request update_drive set_status is_connecting
summarize_all [] e = e
summarize_all ((name, rt) ∷ rest) e =
    let sent = (send_request e rt.peer (summary_request (record { clocks = summary e.store }))).0 in
    let settled =
      set_status (update_drive name (λ rt. record rt { status = synced }) sent) name synced in
    let next : Engine = elim (lookup name e.drives) [
      | none ↦ sent
      | some now_rt ↦ if is_connecting now_rt.status then settled else sent
    ] in
    summarize_all rest next

unfoldable pub idle_check : ℕ → Engine → Engine
idle_check idle_for e =
    if ltb idle_after_silence idle_for && not e.idle_notified
    then record e { idle_notified = true }
    else if ltb idle_for idle_after_silence
    then record e { idle_notified = false }
    else e

-- `idle_for` is the time since the last event.
unfoldable pub tick : Net → Extern → Instant → ℕ → Engine → Engine
unfolding drain_outbound publish_all idle_check due_drives catch_up_all summarize_all
tick net x now idle_for e =
    let (queued, store) = drain_outbound e.store in
    let e1 = idle_check idle_for (publish_all net x queued (record e { store = store })) in
    let due = due_drives e1 now in summarize_all due (catch_up_all now due e1)

-- The events that reach the engine's own handlers.
pub data SwarmEvent : Type 0 where
  new_listen_addr : Multiaddr → SwarmEvent
  connection_established : Peer → SwarmEvent
  connection_closed : Peer → ℕ → SwarmEvent
  gossip_message : Option Peer → ActionMsg → SwarmEvent
  sync_request : Peer → SyncMsg → SwarmEvent
  sync_response : Peer → RequestId → SyncMsg → SwarmEvent
  outbound_failure : Peer → SwarmEvent

closed_status : DriveRuntime → DriveStatus
closed_status rt = if rt.drive.paused then paused else connecting

close_drive : Engine → String → Engine
unfolding closed_status update_drive set_status
close_drive e name = elim (lookup name e.drives) [
  | none ↦ set_status e name connecting
  | some rt ↦
      set_status
        (update_drive name
          (λ rt. record rt { handshaken = false; in_flight = []; status = closed_status rt }) e)
        name (closed_status rt)
]

fail_drive : Engine → String → Engine
unfolding status_paused update_drive set_status
fail_drive e name = elim (lookup name e.drives) [
  | none ↦ set_status e name connecting
  | some rt ↦
      if status_paused rt.status
      then e
      else set_status (update_drive name (λ rt. record rt { status = connecting }) e) name
          connecting
]

-- The answer to a request, if there is one, and the engine.
unfoldable pub on_swarm_event :
    Net → Extern → Instant → Engine → SwarmEvent → Option SyncMsg × Engine
unfolding send_event open_handshake close_drive fail_drive apply_remote_action serve_request
    on_response drive_name_by_peer
on_swarm_event net x now e (new_listen_addr address) =
    let told = send_event (record e { identity_sent = true }) (identity e.peer_id address) in
    (none, if e.identity_sent then e else told)
on_swarm_event net x now e (connection_established peer) =
    let e' = send_event e (peer_connected peer) in
    elim (drive_name_by_peer e' peer) [
      | none ↦ (none, e')
      | some name ↦ (none, open_handshake net x e' name)
    ]
on_swarm_event net x now e (connection_closed peer left) = elim (drive_name_by_peer e peer) [
  | none ↦ (none, e)
  | some name ↦ (none, if eqb left 0 then close_drive e name else e)
]
on_swarm_event net x now e (gossip_message source msg) =
    (none, (apply_remote_action x e source msg.action).1)
on_swarm_event net x now e (sync_request peer msg) = serve_request net x now e peer msg
on_swarm_event net x now e (sync_response peer id msg) = (none, on_response net x now e peer id msg)
on_swarm_event net x now e (outbound_failure peer) = elim (drive_name_by_peer e peer) [
  | none ↦ (none, e)
  | some name ↦ (none, fail_drive e name)
]
