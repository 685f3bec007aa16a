-- ===== src/P2p/Engine/Serve/Gate.antt =====
-- Who gets an acknowledgement of a hello.
use ph_reactor.Base.{
  ℕ, ◌≡◌, ◌≢◌, refl, ap, ◌∙◌, ◌⊎◌, inl, inr, true, false, Option, none, some, List, length, eqb,
  eqb_iff, arith, Bool-cases, Option-cases, String,
}
use ph_reactor.Base.Eq.{==_iff, string_eq, nat_eq}
use ph_reactor.Base.Map.{lookup}
use ph_reactor.Base.Sets.{contains}
use ph_reactor.Base.Result.{result-cases}
use ph_reactor.Action.{Extern}
use ph_reactor.Store.Read.{register_peer_key}
use ph_reactor.Store.Read.Keys.{register_peer_key_pins}
use ph_reactor.P2p.Codec.{Hello, HelloAck, hello_ack, protocol_version}
use ph_reactor.P2p.Engine.{
  Peer, Instant, Engine, Net, connecting, set_status, update_drive, drive_name_by_peer,
}
use ph_reactor.P2p.Engine.Serve.Proof.{accept_proof-SameGuard}
use ph_reactor.P2p.Engine.Serve.{
  TokenCheck, passes, wrong, absent, check_token, ack_hello, pin_peer, mark_met, needs_auth,
  register_hello, accept_proof, serve_hello,
}

pin_peer-key :
    (net : Net) (x : Extern) (e : Engine) (peer : Peer) (key : List ℕ) (ack : HelloAck)
    → (pin_peer net x e peer key).0 ≡ hello_ack ack
    → lookup peer (pin_peer net x e peer key).1.store.known_keys ≡ some key
unfolding pin_peer ack_hello
pin_peer-key net x e peer key ack h = elim (result-cases (register_peer_key e.store peer key).0) [
  | inr (u, refused) ↦ absurd (let h1 = rw (refused, pin_peer) at h in cc)
  | inl (u, pinned) ↦
      rw (pinned, pin_peer) ((register_peer_key_pins e.store peer peer key key).2.0 pinned)
]

-- A hello that offers no key of 32 bytes pins none.
register_hello-unkeyed :
    (net : Net) (x : Extern) (now : Instant) (e : Engine) (peer : Peer) (h : Hello)
    → ((key : List ℕ) → net.hex_decode h.pubkey ≡ some key → length key ≢ 32)
    → (register_hello net x now e peer h).1 ≡ e
unfolding register_hello ack_hello
register_hello-unkeyed net x now e peer h none_fits =
    elim (Option-cases (net.hex_decode h.pubkey)) [
      | inl garbled ↦ rw (garbled, register_hello) refl
      | inr (key, decoded) ↦ elim (Bool-cases (eqb (length key) 32)) [
        | inl full ↦ absurd (none_fits key decoded ((eqb_iff (length key) 32).0 full))
        | inr odd ↦ rw (decoded, odd, register_hello) refl
      ]
    ]

register_hello-key :
    (net : Net) (x : Extern) (now : Instant) (e : Engine) (peer : Peer) (h : Hello) (ack : HelloAck)
    (key : List ℕ)
    → (register_hello net x now e peer h).0 ≡ hello_ack ack
    → net.hex_decode h.pubkey ≡ some key
    → length key ≡ 32
    → lookup peer (register_hello net x now e peer h).1.store.known_keys ≡ some key
unfolding register_hello
register_hello-key net x now e peer h ack key r decoded size =
    let full : eqb (length key) 32 ≡ true = (eqb_iff (length key) 32).1 size in
    elim (Option-cases (drive_name_by_peer e peer)) [
      | inl nobody ↦
          let r1 = rw (decoded, full, nobody, register_hello) at r in
          rw (decoded, full, nobody, register_hello) (pin_peer-key net x e peer key ack r1)
      | inr (name, found) ↦ elim (Option-cases (lookup name e.drives)) [
        | inl missing ↦
            let r1 = rw (decoded, full, found, missing, register_hello) at r in
            rw (decoded, full, found, missing, register_hello)
              (pin_peer-key net x e peer key ack r1)
        | inr (rt, here) ↦ elim (Bool-cases (needs_auth h rt)) [
          | inl auth ↦
              absurd (let r1 = rw (decoded, full, found, here, auth, register_hello) at r in cc)
          | inr free ↦
              let met = set_status (update_drive name (mark_met now) e) name connecting in
              let r1 = rw (decoded, full, found, here, free, register_hello) at r in
              rw (decoded, full, found, here, free, register_hello)
                (pin_peer-key net x met peer key ack r1)
        ]
      ]
    ]

-- What holds of a peer whose hello is acknowledged.
pub record Greeted (net : Net) (x : Extern) (now : Instant) (e e' : Engine) (peer : Peer)
    (h : Hello) : Type 0 where
  pub not_banned : contains peer e.banned ≡ false
  pub version : h.version ≡ protocol_version
  pub token : (need : String) → e.token ≡ some need → h.token ≡ some need
  pub key :
      (key : List ℕ)
      → net.hex_decode h.pubkey ≡ some key
      → length key ≡ 32
      → lookup peer e'.store.known_keys ≡ some key
  pub unkeyed :
      ((key : List ℕ) → net.hex_decode h.pubkey ≡ some key → length key ≢ 32)
      → e' ≡ accept_proof net x now e peer h

pub check_token-passes :
    (need offered : Option String)
    → check_token need offered ≡ passes
    → (s : String) → need ≡ some s
    → offered ≡ some s
unfolding check_token
check_token-passes none offered h s e = absurd (cc)
check_token-passes (some n) none h s e = absurd (cc)
check_token-passes (some n) (some o) h s e = ground (arith, h, e, ==_iff o n)

token-cases : (c : TokenCheck) → (c ≡ passes) ⊎ ((c ≡ wrong) ⊎ (c ≡ absent))
token-cases passes = inl refl
token-cases wrong = inr (inl refl)
token-cases absent = inr (inr refl)

-- A hello is acknowledged only from a peer that is not banned, speaks this version and carries the
-- token where one is asked for. Where an acknowledged hello offers a key of 32 bytes, that key is then
-- the one pinned for the peer; where it offers none, nothing has changed but what its join proof does,
-- if it carries one.
pub serve_hello-Greeted :
    (net : Net) (x : Extern) (now : Instant) (e : Engine) (peer : Peer) (h : Hello) (ack : HelloAck)
    → (serve_hello net x now e peer h).0 ≡ hello_ack ack
    → Greeted net x now e (serve_hello net x now e peer h).1 peer h
unfolding serve_hello
serve_hello-Greeted net x now e peer h ack r =
    let e1 = accept_proof net x now e peer h in
    let kept = ap (λ g. g.0) (accept_proof-SameGuard net x now e peer h) in
    elim (Bool-cases (contains peer e.banned)) [
      | inl b ↦ absurd (let r1 = rw (b, serve_hello) at r in cc)
      | inr b ↦ elim (Bool-cases (eqb h.version protocol_version)) [
        | inr v ↦ absurd (let r1 = rw (b, v, serve_hello) at r in cc)
        | inl v ↦ elim (token-cases (check_token e1.token h.token)) [
          | inr (inl t) ↦ absurd (let r1 = rw (b, v, t, serve_hello) at r in cc)
          | inr (inr t) ↦ absurd (let r1 = rw (b, v, t, serve_hello) at r in cc)
          | inl t ↦
              let r1 = rw (b, v, t, serve_hello) at r in
              record {
                not_banned = b;
                version = (eqb_iff h.version protocol_version).0 v;
                token = λ need asked. check_token-passes e1.token h.token t need (kept ∙ asked);
                key = λ key decoded size.
                    rw (b, v, t, serve_hello)
                      (register_hello-key net x now e1 peer h ack key r1 decoded size);
                unkeyed = λ none_fits.
                    rw (b, v, t, serve_hello)
                      (register_hello-unkeyed net x now e1 peer h none_fits);
              }
        ]
      ]
    ]
