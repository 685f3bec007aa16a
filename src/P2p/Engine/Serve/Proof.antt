-- ===== src/P2p/Engine/Serve/Proof.antt =====
-- What a join proof leaves alone: the token that is asked for, the bans and the failures.
use ph_reactor.Base.{
  ℕ, ◌≡◌, refl, inl, inr, Bool, true, false, Option, List, arith, Bool-cases, Option-cases, String,
  if◌then◌else◌,
}
use ph_reactor.Base.Eq.{string_eq}
use ph_reactor.Base.Map.{Map, lookup}
use ph_reactor.Base.Sets.{contains}
use ph_reactor.Base.Result.{result-cases}
use ph_reactor.Action.{Extern}
use ph_reactor.Store.Read.{register_peer_key}
use ph_reactor.P2p.Invite.{InviteAccept, verify_accept}
use ph_reactor.P2p.Codec.{Hello}
use ph_reactor.P2p.Engine.{
  Peer, Instant, Engine, Drive, DriveRuntime, Net, send_event, dial, set_status, update_drive,
}
use ph_reactor.P2p.Engine.Drives.{
  peer_of, with_drive, open_handshake, add_drive_internal, joiner_drive, admit_joiner,
  handle_invite_accept,
}
use ph_reactor.P2p.Engine.Serve.{accept_proof}

-- The token that is asked for, the bans and the failures counted so far.
abbrev pub guard : Engine → Option String × (List Peer × Map Peer (ℕ × Instant))
guard e = (e.token, (e.banned, e.auth_failures))

abbrev pub SameGuard : Engine → Engine → Type 0
SameGuard e f = guard f ≡ guard e

update_drive-SameGuard :
    (name : String) (f : DriveRuntime → DriveRuntime) (e : Engine)
    → SameGuard e (update_drive name f e)
unfolding update_drive
update_drive-SameGuard name f e = elim (Option-cases (lookup name e.drives)) [
  | inl missing ↦ rw (missing, update_drive) refl
  | inr (rt, here) ↦ rw (here, update_drive) refl
]

open_handshake-SameGuard :
    (net : Net) (x : Extern) (e : Engine) (name : String)
    → SameGuard e (open_handshake net x e name)
unfolding open_handshake
open_handshake-SameGuard net x e name = elim (Option-cases (lookup name e.drives)) [
  | inl missing ↦ rw (missing, open_handshake) refl
  | inr (rt, here) ↦ rw (here, open_handshake) (ground arith)
]

if-SameGuard :
    (e : Engine) (b : Bool) (u v : Engine)
    → SameGuard e u
    → SameGuard e v
    → SameGuard e (if b then u else v)
if-SameGuard e true u v h k = h
if-SameGuard e false u v h k = k

add_drive-SameGuard :
    (net : Net) (x : Extern) (now : Instant) (e : Engine) (d : Drive)
    → SameGuard e (add_drive_internal net x now e d)
unfolding add_drive_internal with_drive set_status send_event dial
add_drive-SameGuard net x now e d =
    let added = with_drive net now e d in
    if-SameGuard e d.paused added _ refl (
      if-SameGuard e (contains (peer_of net d) e.guests) _ _ (update_drive-SameGuard d.name _ added)
        (if-SameGuard e (net.connected (peer_of net d)) _ added
          (open_handshake-SameGuard net x added d.name) refl))

admit_joiner-SameGuard :
    (net : Net) (x : Extern) (now : Instant) (e : Engine) (peer : Peer) (a : InviteAccept)
    → SameGuard e (admit_joiner net x now e peer a)
unfolding admit_joiner send_event
admit_joiner-SameGuard net x now e peer a = elim (Option-cases (net.addr_of_peer peer)) [
  | inl nowhere ↦ rw (nowhere, admit_joiner) refl
  | inr (addr, here) ↦
      rw (here, admit_joiner) (add_drive-SameGuard net x now e (joiner_drive peer addr a))
]

handle_accept-SameGuard :
    (net : Net) (x : Extern) (now : Instant) (e : Engine) (peer : Peer) (a : InviteAccept)
    → SameGuard e (handle_invite_accept net x now e peer a)
unfolding handle_invite_accept
handle_accept-SameGuard net x now e peer a = elim (Bool-cases (contains peer e.banned)) [
  | inl b ↦ rw (b, handle_invite_accept) refl
  | inr b ↦ elim (result-cases (verify_accept x a)) [
    | inr (u, bad) ↦ rw (b, bad, handle_invite_accept) refl
    | inl (u, good) ↦ elim (result-cases (register_peer_key e.store a.peer_id a.pubkey).0) [
      | inr (u, other) ↦ rw (b, good, other, handle_invite_accept) refl
      | inl (u, pinned) ↦
          rw (b, good, pinned, handle_invite_accept)
            (admit_joiner-SameGuard net x now
              (record e { store = (register_peer_key e.store a.peer_id a.pubkey).1 }) peer a)
    ]
  ]
]

pub accept_proof-SameGuard :
    (net : Net) (x : Extern) (now : Instant) (e : Engine) (peer : Peer) (h : Hello)
    → SameGuard e (accept_proof net x now e peer h)
unfolding accept_proof
accept_proof-SameGuard net x now e peer h = elim (Option-cases h.accept) [
  | inl nothing ↦ rw (nothing, accept_proof) refl
  | inr (a, here) ↦ rw (here, accept_proof) (handle_accept-SameGuard net x now e peer a)
]
