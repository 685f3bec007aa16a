-- ===== src/P2p/Invite/Message.antt =====
-- What the signature of an invitation covers.
use ph_reactor.Base.{
  ℕ, ◌≡◌, refl, sym, ap₂, ◌∙◌, ◌^◌, ◌<◌, String, List, [], ◌∷◌, ◌++◌, length, arith, append_assoc,
  All,
}
use ph_reactor.Base.Bytes.{be_bytes, as_bytes, append_split, be_bytes-split, as_bytes-inj}
use ph_reactor.P2p.Invite.{InviteToken, token_magic, str_bytes, group_bytes, token_bytes}

abbrev pub StrFits : String → Type 0
StrFits s = length (as_bytes s) < 2 ^ 32

str_bytes-split :
    (s t : String) (xs ys : List ℕ)
    → StrFits s
    → StrFits t
    → str_bytes s ++ xs ≡ str_bytes t ++ ys
    → (s ≡ t) × (xs ≡ ys)
unfolding str_bytes
str_bytes-split s t xs ys hs ht e =
    let b = as_bytes s in
    let d = as_bytes t in
    let flat =
      sym (append_assoc (be_bytes 4 (length b)) b xs)
      ∙ e
      ∙ append_assoc (be_bytes 4 (length d)) d ys in
    let (lengths, rest) =
      be_bytes-split 4 (length b) (length d) (b ++ xs) (d ++ ys) (omega arith) (omega arith) flat in
    let (same, after) = append_split b xs d ys lengths rest in (as_bytes-inj s t same, after)

group_bytes-inj :
    (gs hs : List String)
    → All StrFits gs
    → All StrFits hs
    → length gs ≡ length hs
    → group_bytes gs ≡ group_bytes hs
    → gs ≡ hs
unfolding group_bytes
group_bytes-inj [] [] fg fh n e = refl
group_bytes-inj [] (h ∷ hs) fg fh n e = absurd (omega arith)
group_bytes-inj (g ∷ gs) [] fg fh n e = absurd (omega arith)
group_bytes-inj (g ∷ gs) (h ∷ hs) fg fh n e =
    let (same, rest) = str_bytes-split g h _ _ fg.0 fh.0 e in
    ap₂ ◌∷◌ same (group_bytes-inj gs hs fg.1 fh.1 (omega arith) rest)

-- Texts and groups fit their length fields, the key and the nonce have their sizes.
pub record IsSized (t : InviteToken) : Type 0 where
  pub version : t.version < 256 ^ 4
  pub name : StrFits t.name
  pub peer_id : StrFits t.peer_id
  pub pubkey : length t.pubkey ≡ 32
  pub addr : StrFits t.addr
  pub nonce : length t.nonce ≡ 16
  pub group_count : length t.groups < 256 ^ 4
  pub groups : All StrFits t.groups

-- Two invitations of one byte string agree in every field but the signature, where the key has 32
-- bytes and the nonce 16, so a signature binds the granted groups and the address.
pub token_bytes-inj :
    (t u : InviteToken)
    → IsSized t
    → IsSized u
    → token_bytes t ≡ token_bytes u
    → record t { sig = [] } ≡ record u { sig = [] }
unfolding token_bytes
token_bytes-inj t u ft fu e =
    let (magic, r1) = append_split token_magic _ token_magic _ refl e in
    let (versions, r2) = be_bytes-split 4 t.version u.version _ _ ft.version fu.version r1 in
    let (names, r3) = str_bytes-split t.name u.name _ _ ft.name fu.name r2 in
    let (peers, r4) = str_bytes-split t.peer_id u.peer_id _ _ ft.peer_id fu.peer_id r3 in
    let (keys, r5) = append_split t.pubkey _ u.pubkey _ (ft.pubkey ∙ sym fu.pubkey) r4 in
    let (addrs, r6) = str_bytes-split t.addr u.addr _ _ ft.addr fu.addr r5 in
    let (nonces, r7) = append_split t.nonce _ u.nonce _ (ft.nonce ∙ sym fu.nonce) r6 in
    let (counts, r8) =
      be_bytes-split 4 (length t.groups) (length u.groups) _ _ ft.group_count fu.group_count r7 in
    let groups = group_bytes-inj t.groups u.groups ft.groups fu.groups counts r8 in
    cc (versions, names, peers, keys, addrs, nonces, groups)
