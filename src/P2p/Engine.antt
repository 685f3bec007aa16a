-- ===== src/P2p/Engine.antt =====
-- The sync engine of src/p2p/mod.rs: its state, its drives and its helpers. What the engine hands to
-- libp2p is recorded in lists: requests, gossip, dials and the events for the daemon.
pub mod Publish
pub mod Drives
pub mod Serve
pub mod Respond
pub mod Tick
pub mod Ban
pub mod Sync
use ph_reactor.Base.{
  ℕ, zero, suc, ◌+◌, ◌*◌, String, Bool, true, false, Option, none, some, List, [], ◌∷◌, ◌++◌,
  unwrap_or, ◌▷◌, if◌then◌else◌, find_map,
}
use ph_reactor.Base.Eq.{◌==◌, string_eq, nat_eq}
use ph_reactor.Base.Map.{Map, lookup, insert}
use ph_reactor.Doc.Clock.{VecClock}
use ph_reactor.Doc.Data.{DocId, Hash32, ModelRef}
use ph_reactor.Action.{Action}
use ph_reactor.Store.State.{Inner}
use ph_reactor.Blob.{BlobStore}
use ph_reactor.P2p.Invite.{InviteAccept}
use ph_reactor.P2p.Codec.{SyncMsg, ActionMsg}

-- A peer id, in base58; an instant, in milliseconds; a request id of libp2p.
abbrev pub Peer : Type 0
Peer = String

abbrev pub Instant : Type 0
Instant = ℕ

abbrev pub RequestId : Type 0
RequestId = ℕ

abbrev pub Multiaddr : Type 0
Multiaddr = String

abbrev pub catch_up_tick : ℕ
catch_up_tick = 30 * 1000

abbrev pub idle_after_silence : ℕ
idle_after_silence = 30 * 60 * 1000

abbrev pub auth_ban_after : ℕ
auth_ban_after = 3

abbrev pub auth_ban_window : ℕ
auth_ban_window = 10 * 60 * 1000

abbrev pub published_cap : ℕ
published_cap = 8192

-- `Drive` and `DriveStatus` of src/drives.rs.
pub record Drive : Type 0 where
  pub name : String
  pub addr : Multiaddr
  pub token_env : Option String
  pub paused : Bool
  pub available_offline : Bool

pub data DriveStatus : Type 0 where
  synced connecting paused offline requires_auth error : DriveStatus

unfoldable pub status_paused : DriveStatus → Bool
status_paused paused = true
status_paused _ = false

pub record DriveRuntime : Type 0 where
  pub drive : Drive
  pub peer : Peer
  pub status : DriveStatus
  pub remote_clocks : Map DocId VecClock
  pub in_flight : List RequestId
  pub handshaken : Bool
  pub next_catch_up : Instant
  pub last_seen : Instant
  pub accept : Option InviteAccept

-- The events for the daemon; the texts of details are left out.
pub data EngineEvent : Type 0 where
  identity : Peer → Multiaddr → EngineEvent
  drive_status : String → DriveStatus → EngineEvent
  doc_changed : String → EngineEvent
  chunk_stored : Hash32 → EngineEvent
  peer_connected : Peer → EngineEvent
  drive_joined : String → Multiaddr → EngineEvent
  peer_auto_banned : Peer → EngineEvent
  invite_accepted : Peer → List ℕ → EngineEvent

pub record Engine : Type 0 where
  pub store : Inner
  pub peer_id : Peer
  pub pub_name : String
  pub blobs : BlobStore
  pub token : Option String
  pub drives : Map String DriveRuntime
  pub guests : List Peer
  pub banned : List Peer
  pub auth_failures : Map Peer (ℕ × Instant)
  pub running : Bool
  pub idle_notified : Bool
  pub withheld : ℕ
  pub identity_sent : Bool
  pub pending_actions : List (ModelRef × Action)
  pub requested_models : List (String × String)
  pub published : List Hash32
  pub published_order : List Hash32
  pub next_request : RequestId
  pub requests : List (RequestId × (Peer × SyncMsg))
  pub gossip : List ActionMsg
  pub dials : List Multiaddr
  pub events : List EngineEvent

-- What libp2p and `hex` give the engine. `gossip_fits` says whether a message can be encoded.
pub record Net : Type 0 where
  pub peer_of_addr : Multiaddr → Option Peer
  pub addr_of_peer : Peer → Option Multiaddr
  pub random_peer : Peer
  pub connected : Peer → Bool
  pub hex_encode : List ℕ → String
  pub hex_decode : String → Option (List ℕ)
  pub gossip_fits : ActionMsg → Bool

unfoldable pub send_event : Engine → EngineEvent → Engine
send_event e event = record e { events = e.events ++ event ∷ [] }

unfoldable pub set_status : Engine → String → DriveStatus → Engine
unfolding send_event
set_status e name status = send_event e (drive_status name status)

-- `sync.send_request`: the engine afterwards, and the request's id.
unfoldable pub send_request : Engine → Peer → SyncMsg → Engine × RequestId
send_request e peer msg = (
  record e {
    requests = e.requests ++ (e.next_request, (peer, msg)) ∷ [];
    next_request = e.next_request + 1;
  },
  e.next_request,
)

unfoldable pub dial : Engine → Multiaddr → Engine
dial e addr = record e { dials = e.dials ++ addr ∷ [] }

-- `if let Some(rt) = self.drives.get_mut(name)`
unfoldable pub update_drive : String → (DriveRuntime → DriveRuntime) → Engine → Engine
update_drive name f e = elim (lookup name e.drives) [
  | none ↦ e
  | some rt ↦ record e { drives = insert name (f rt) e.drives }
]

-- The first drive of a peer; the map's own order is not specified.
unfoldable pub drive_name_by_peer : Engine → Peer → Option String
drive_name_by_peer e peer =
    find_map (λ entry. if entry.1.peer == peer then some entry.0 else none) e.drives
