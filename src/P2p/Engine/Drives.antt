-- ===== src/P2p/Engine/Drives.antt =====
-- Drives of src/p2p/mod.rs: adding one, opening a handshake, join proofs and the daemon's commands.
use ph_reactor.Base.{
  ℕ, ◌+◌, ◌-◌, String, Bool, true, false, Option, none, some, List, [], ◌∷◌, not, unwrap_or, ◌&&◌,
  leb, ltb, map, if◌then◌else◌,
}
use ph_reactor.Base.Eq.{string_eq, nat_eq}
use ph_reactor.Base.Map.{lookup, insert, remove, contains_key}
use ph_reactor.Base.Sets.{contains, set_insert, set_remove}
use ph_reactor.Base.Chars.{take_chars, concat_str}
use ph_reactor.Base.Result.{ok, err}
use ph_reactor.Doc.Data.{Hash32}
use ph_reactor.Action.{Extern}
use ph_reactor.Store.Read.{register_peer_key}
use ph_reactor.Blob.{BlobRef, missing}
use ph_reactor.P2p.Invite.{InviteAccept, verify_accept}
use ph_reactor.P2p.Codec.{SyncMsg, Hello, hello, chunk_request, protocol_version}
use ph_reactor.P2p.Engine.{
  Peer, Instant, Multiaddr, Engine, drive_joined, invite_accepted, peer_auto_banned, Drive,
  DriveStatus, connecting, paused, offline, error, Net, send_event, set_status, send_request, dial,
  update_drive, drive_name_by_peer, auth_ban_after, auth_ban_window,
}

unfoldable pub hello_of : Net → Extern → Engine → Option InviteAccept → Hello
hello_of net x e accept = record {
  version = protocol_version;
  name = e.pub_name;
  peer_id = e.peer_id;
  pubkey = net.hex_encode (x.public e.store.key);
  token = e.token;
  accept = accept;
}

-- A hello to the drive's peer, unless it has shaken hands, is paused or is banned.
unfoldable pub open_handshake : Net → Extern → Engine → String → Engine
unfolding set_status send_request hello_of contains
open_handshake net x e name = elim (lookup name e.drives) [
  | none ↦ e
  | some rt ↦
      let taken = record e { drives = insert name (record rt { accept = none }) e.drives } in
      let sent = (send_request taken rt.peer (hello (hello_of net x e rt.accept))).0 in
      if not rt.handshaken && not rt.drive.paused
      then (if contains rt.peer e.banned then set_status e name error else sent)
      else e
]

unfoldable pub initial_status : Bool → DriveStatus
initial_status is_paused = if is_paused then paused else connecting

-- The peer that a drive's address names, or a random one.
unfoldable pub peer_of : Net → Drive → Peer
peer_of net drive = unwrap_or net.random_peer (net.peer_of_addr drive.addr)

-- The runtime of a new drive, in the place of an old one of its name.
unfoldable pub with_drive : Net → Instant → Engine → Drive → Engine
unfolding initial_status peer_of
with_drive net now e drive = record e {
  drives =
      insert drive.name
        (record {
          drive = drive;
          peer = peer_of net drive;
          status = initial_status drive.paused;
          remote_clocks = [];
          in_flight = [];
          handshaken = false;
          next_catch_up = now;
          last_seen = now;
          accept = none;
        })
        e.drives;
}

-- A drive of a known guest has shaken hands already; a connected one is greeted.
unfoldable pub add_drive_internal : Net → Extern → Instant → Engine → Drive → Engine
unfolding with_drive peer_of update_drive set_status open_handshake dial contains
add_drive_internal net x now e drive =
    let peer = peer_of net drive in
    let added = with_drive net now e drive in
    let met =
      set_status
        (update_drive drive.name (λ rt. record rt { handshaken = true; last_seen = now }) added)
        drive.name connecting in
    let greeted = if net.connected peer then open_handshake net x added drive.name else added in
    let next = if contains peer e.guests then met else greeted in
    if drive.paused then added else set_status (dial next drive.addr) drive.name connecting

-- The joiner's name and the beginning of its peer id.
unfoldable pub joiner_name : String → Peer → String
unfolding concat_str take_chars
joiner_name name peer = concat_str name (concat_str " (" (concat_str (take_chars 12 peer) ")"))

unfoldable pub joiner_drive : Peer → Multiaddr → InviteAccept → Drive
unfolding joiner_name
joiner_drive peer addr accept = record {
  name = joiner_name accept.name peer;
  addr = addr;
  token_env = none;
  paused = false;
  available_offline = true;
}

-- A drive for the joiner, at the peer of the connection.
unfoldable pub admit_joiner : Net → Extern → Instant → Engine → Peer → InviteAccept → Engine
unfolding add_drive_internal joiner_drive send_event
admit_joiner net x now e peer accept = elim (net.addr_of_peer peer) [
  | none ↦ e
  | some addr ↦
      let drive = joiner_drive peer addr accept in
      let added = add_drive_internal net x now e drive in
      send_event (send_event added (drive_joined drive.name addr))
        (invite_accepted peer accept.nonce)
]

-- A join proof: its key is pinned under the peer id that it names.
unfoldable pub handle_invite_accept : Net → Extern → Instant → Engine → Peer → InviteAccept → Engine
unfolding verify_accept register_peer_key admit_joiner contains
handle_invite_accept net x now e peer accept =
    let (pinned, store) = register_peer_key e.store accept.peer_id accept.pubkey in
    if contains peer e.banned then e else elim (verify_accept x accept) [
      | err _ ↦ e
      | ok _ ↦ elim pinned [
        | err _ ↦ record e { store = store }
        | ok _ ↦ admit_joiner net x now (record e { store = store }) peer accept
      ]
    ]

-- The failures counted with this one, where the last was within the window.
unfoldable pub failure_count : Engine → Instant → Peer → ℕ
failure_count e now peer = elim (lookup peer e.auth_failures) [
  | none ↦ 1
  | some (count, last) ↦ (if ltb auth_ban_window (now - last) then 0 else count) + 1
]

-- Whether the peer has just been banned.
unfoldable pub record_auth_failure : Engine → Instant → Peer → Bool × Engine
unfolding failure_count set_status send_event drive_name_by_peer set_insert
record_auth_failure e now peer =
    let count = failure_count e now peer in
    let banned = record e {
      auth_failures = remove peer e.auth_failures;
      banned = set_insert peer e.banned;
    } in
    let told : Engine = elim (drive_name_by_peer e peer) [
      | none ↦ banned
      | some name ↦ set_status banned name error
    ] in
    if leb auth_ban_after count
    then (true, send_event told (peer_auto_banned peer))
    else (false, record e { auth_failures = insert peer (count, now) e.auth_failures })

pub data EngineCommand : Type 0 where
  add_drive : Drive → EngineCommand
  remove_drive : String → EngineCommand
  set_paused : String → Bool → EngineCommand
  resync : String → EngineCommand
  fetch_blob : BlobRef → EngineCommand
  join : Drive → InviteAccept → EngineCommand
  ban unban : Peer → EngineCommand
  shutdown : EngineCommand

-- A request to each peer.
send_all : List Peer → SyncMsg → Engine → Engine
unfolding send_request
send_all [] msg e = e
send_all (p ∷ ps) msg e = send_all ps msg (send_request e p msg).0

request_chunks : List Hash32 → List Peer → Engine → Engine
unfolding send_all
request_chunks [] peers e = e
request_chunks (h ∷ hs) peers e = request_chunks hs peers (send_all peers (chunk_request h) e)

-- The commands that do not concern the distributed hash table.
unfoldable pub handle_cmd : Net → Extern → Instant → Engine → EngineCommand → Engine
unfolding add_drive_internal update_drive set_status dial set_insert set_remove request_chunks
    missing initial_status
handle_cmd net x now e (add_drive drive) = add_drive_internal net x now e drive
handle_cmd net x now e (join drive accept) =
    update_drive drive.name (λ rt. record rt { accept = some accept })
      (add_drive_internal net x now e drive)
handle_cmd net x now e (ban peer) = record e { banned = set_insert peer e.banned }
handle_cmd net x now e (unban peer) = record e { banned = set_remove peer e.banned }
handle_cmd net x now e (remove_drive name) =
    let e' = record e { drives = remove name e.drives } in
    if contains_key name e.drives then set_status e' name offline else e'
handle_cmd net x now e (set_paused name is_paused) = elim (lookup name e.drives) [
  | none ↦ e
  | some rt ↦
      let e' =
        update_drive name
          (λ rt. record rt {
            drive = record (rt.drive) { paused = is_paused };
            status = initial_status is_paused;
            next_catch_up = now;
          })
          e in
      if is_paused then e' else dial e' rt.drive.addr
]
handle_cmd net x now e (resync name) = elim (lookup name e.drives) [
  | none ↦ e
  | some rt ↦
      let due = update_drive name (λ rt. record rt { next_catch_up = now }) e in
      set_status (if rt.handshaken then due else e) name connecting
]
handle_cmd net x now e (fetch_blob blob) =
    request_chunks (missing e.blobs blob) (map (λ entry. entry.1.peer) e.drives) e
handle_cmd net x now e shutdown = record e { running = false }
