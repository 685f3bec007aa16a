-- ===== src/P2p/Invite/Verified.antt =====
-- Invitations and join proofs that are made verify, and what is decoded has been verified.
use ph_reactor.Base.{
  ℕ, ◌≡◌, refl, String, Option, none, some, List, [], length, Option-cases, inl, inr,
}
use ph_reactor.Base.Chars.{trim}
use ph_reactor.Base.Result.{ok}
use ph_reactor.Action.{Extern, Lawful}
use ph_reactor.P2p.Invite.{
  InviteToken, InviteExtern, verify_bytes, verify_token, verify_accept, make_token, make_accept,
  sign_token, sign_accept, token_bytes, accept_bytes, encode_token, decode_token,
}

-- What the documentation of `serde_json`, `base64` and ed25519 promises.
pub record LawfulInvites (x : Extern) (w : InviteExtern) : Type 0 where
  pub base64 : (bytes : List ℕ) → w.base64_decode (trim (w.base64_encode bytes)) ≡ some bytes
  pub json :
      (t : InviteToken) (bytes : List ℕ)
      → w.token_to_vec t ≡ some bytes
      → w.token_from_slice bytes ≡ some t
  pub key_size : (key : List ℕ) → length (x.public key) ≡ 32
  pub sig_size : (key message : List ℕ) → length (x.sign key message) ≡ 64

verify-sign_bytes :
    (x : Extern) (w : InviteExtern) (key message : List ℕ)
    → Lawful x
    → LawfulInvites x w
    → verify_bytes x (x.public key) message (x.sign key message) ≡ ok tt
unfolding verify_bytes
verify-sign_bytes x w key message law sizes =
    rw
      (
        sizes.key_size key,
        law.public_valid key,
        sizes.sig_size key message,
        law.verify_sign key message,
      )
      refl

-- A join proof that was made verifies, whatever nonce it names.
pub verify-make_accept :
    (x : Extern) (w : InviteExtern) (nonce : List ℕ) (name peer_id : String) (key : List ℕ)
    → Lawful x
    → LawfulInvites x w
    → verify_accept x (make_accept x nonce name peer_id key) ≡ ok tt
unfolding verify_accept make_accept sign_accept accept_bytes
verify-make_accept x w nonce name peer_id key law sizes =
    verify-sign_bytes x w key (accept_bytes (make_accept x nonce name peer_id key)) law sizes

verify-make_token :
    (x : Extern) (w : InviteExtern) (nonce : List ℕ) (name peer_id : String) (key : List ℕ)
    (addr : String) (groups : List String) (t : InviteToken)
    → Lawful x
    → LawfulInvites x w
    → make_token x (some nonce) name peer_id key addr groups ≡ ok t
    → verify_token x t ≡ ok tt
unfolding make_token sign_token verify_token token_bytes
verify-make_token x w nonce name peer_id key addr groups t law sizes made =
    let same : sign_token x
          (record {
            version = 1;
            name = name;
            peer_id = peer_id;
            pubkey = x.public key;
            addr = addr;
            nonce = nonce;
            groups = groups;
            sig = [];
          })
          key
        ≡ t =
      cc in
    rw (← same) (verify-sign_bytes x w key _ law sizes)

-- An invitation that was made and encoded decodes to itself, verified under the key in it.
pub decode-encode_made :
    (x : Extern) (w : InviteExtern) (nonce : Option (List ℕ)) (name peer_id : String) (key : List ℕ)
    (addr : String) (groups : List String) (t : InviteToken) (text : List ℕ)
    → Lawful x
    → LawfulInvites x w
    → make_token x nonce name peer_id key addr groups ≡ ok t
    → encode_token w t ≡ ok text
    → decode_token x w text ≡ ok t
unfolding make_token encode_token decode_token
decode-encode_made x w none name peer_id key addr groups t text law sizes made e = absurd (cc)
decode-encode_made x w (some nonce) name peer_id key addr groups t text law sizes made e =
    elim (Option-cases (w.token_to_vec t)) [
      | inl failed ↦ absurd (let e1 = rw (failed, encode_token) at e in cc)
      | inr (json, encoded) ↦
          let e1 = rw (encoded, encode_token) at e in
          let written : w.base64_encode json ≡ text = cc in
          let verified =
            verify-make_token x w nonce name peer_id key addr groups t law sizes made in
          let parsed = sizes.json t json encoded in
          rw (← written) (rw (sizes.base64 json, parsed, verified, decode_token) refl)
    ]
