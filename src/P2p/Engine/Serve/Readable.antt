-- ===== src/P2p/Engine/Serve/Readable.antt =====
-- No answer holds what the peer may not read.
use ph_reactor.Base.{
  ℕ, ◌≡◌, refl, ◌⊎◌, inl, inr, Bool, true, none, some, List, [], ◌∷◌, keep, map, All, Bool-cases,
  Option-cases, if◌then◌else◌, eqb, length, String,
}
use ph_reactor.Base.Eq.{string_eq, nat_eq}
use ph_reactor.Base.Sets.{contains, set_insert}
use ph_reactor.Base.Map.{lookup}
use ph_reactor.Base.Result.{result-cases}
use ph_reactor.Doc.Clock.{VecClock}
use ph_reactor.Doc.Data.{DocId}
use ph_reactor.Action.{Extern}
use ph_reactor.Store.State.{Inner}
use ph_reactor.Store.Read.{summary_for, may_peer_read, register_peer_key}
use ph_reactor.P2p.Codec.{
  SyncMsg, Hello, hello, hello_ack, hello_err, catch_up_request, catch_up_ack, summary_request,
  summary_ack, model_request, model_def, chunk_request, chunk_data, banned, bad_token,
  protocol_version, DocSummary, CatchUp, Summary,
}
use ph_reactor.Store.Feed.{model_definition}
use ph_reactor.Blob.{get_chunk}
use ph_reactor.P2p.Engine.{
  DriveRuntime, Peer, set_status, connecting, Instant, Engine, Net, drive_name_by_peer,
  update_drive,
}
use ph_reactor.P2p.Engine.Drives.{record_auth_failure}
use ph_reactor.P2p.Engine.Serve.{
  ack_hello, pin_peer, register_hello, needs_auth, serve_hello, serve_catch_up, serve_summary,
  serve_request, Reply, check_token, accept_proof, TokenCheck, mark_met, passes, wrong, absent,
}

-- What the message says of documents is of those that the peer may read.
abbrev pub Readable : Inner → Peer → SyncMsg → Type 0
Readable s peer (hello_ack ack) =
    All (λ (d : DocSummary). may_peer_read s peer d.id ≡ true) ack.docs
Readable s peer (catch_up_ack ack) =
    (may_peer_read s peer ack.doc_id ≡ true) ⊎ ((ack.state ≡ none) × (ack.actions ≡ []))
Readable s peer (summary_ack answer) =
    All (λ (entry : DocId × VecClock). may_peer_read s peer entry.0 ≡ true) answer.clocks
Readable s peer other = Unit

All-keep : {A : Type 0} (p : A → Bool) (xs : List A) → All (λ x. p x ≡ true) (keep p xs)
All-keep p [] = tt
All-keep p (x ∷ xs) = elim (Bool-cases (p x)) [
  | inl kept ↦ rw kept (kept, All-keep p xs)
  | inr gone ↦ rw gone (All-keep p xs)
]

summary_for-readable :
    (s : Inner) (peer : Peer)
    → All (λ (entry : DocId × VecClock). may_peer_read s peer entry.0 ≡ true) (summary_for s peer)
unfolding summary_for
summary_for-readable s peer = All-keep (λ entry. may_peer_read s peer entry.0) _

All-docs :
    {B : Type 0} (P : DocId → Type 0) (f : DocId × VecClock → B) (id_of : B → DocId)
    → ((entry : DocId × VecClock) → id_of (f entry) ≡ entry.0)
    → (xs : List (DocId × VecClock)) → All (λ entry. P entry.0) xs
    → All (λ b. P (id_of b)) (map f xs)
All-docs P f id_of same [] h = tt
All-docs P f id_of same (x ∷ xs) h = (rw (same x) h.0, All-docs P f id_of same xs h.1)

abbrev ReplyReadable : Peer → Reply → Type 0
ReplyReadable peer r = Readable r.1.store peer r.0

module _ (net : Net) (x : Extern) (peer : Peer) where
  ack-Readable : (e : Engine) → ReplyReadable peer (ack_hello net x e peer)
  unfolding ack_hello
  ack-Readable e =
      All-docs (λ id. may_peer_read e.store peer id ≡ true) _ (λ (d : DocSummary). d.id)
        (λ entry. refl) _ (summary_for-readable e.store peer)

  pin-Readable : (e : Engine) (key : List ℕ) → ReplyReadable peer (pin_peer net x e peer key)
  unfolding pin_peer
  pin-Readable e key =
      let pinned_engine : Engine = record e {
        guests = set_insert peer e.guests;
        store = (register_peer_key e.store peer key).1;
      } in
      elim (result-cases (register_peer_key e.store peer key).0) [
        | inl (u, pinned) ↦ rw (pinned, pin_peer) (ack-Readable pinned_engine)
        | inr (u, refused) ↦ rw (refused, pin_peer) tt
      ]

  register-Readable :
      (now : Instant) (e : Engine) (h : Hello)
      → ReplyReadable peer (register_hello net x now e peer h)
  unfolding register_hello
  register-Readable now e h = elim (Option-cases (net.hex_decode h.pubkey)) [
    | inl none_ ↦ rw (none_, register_hello) (ack-Readable e)
    | inr (key, decoded) ↦ elim (Bool-cases (eqb (length key) 32)) [
      | inr short ↦ rw (decoded, short, register_hello) (ack-Readable e)
      | inl full ↦ elim (Option-cases (drive_name_by_peer e peer)) [
        | inl nobody ↦ rw (decoded, full, nobody, register_hello) (pin-Readable e key)
        | inr (name, found) ↦ elim (Option-cases (lookup name e.drives)) [
          | inl missing ↦ rw (decoded, full, found, missing, register_hello) (pin-Readable e key)
          | inr (rt, here) ↦ elim (Bool-cases (needs_auth h rt)) [
            | inl auth ↦ rw (decoded, full, found, here, auth, register_hello) tt
            | inr free ↦
                rw (decoded, full, found, here, free, register_hello)
                  (pin-Readable (set_status (update_drive name (mark_met now) e) name connecting)
                    key)
          ]
        ]
      ]
    ]
  ]

  hello-Readable :
      (now : Instant) (e : Engine) (h : Hello) → ReplyReadable peer (serve_hello net x now e peer h)
  unfolding serve_hello
  hello-Readable now e h = elim (Bool-cases (contains peer e.banned)) [
    | inl refused ↦ rw refused tt
    | inr free ↦ elim (Bool-cases (eqb h.version protocol_version)) [
      | inr other ↦ rw (free, other) tt
      | inl same ↦
          rw (free, same) (gate (check_token (accept_proof net x now e peer h).token h.token))
    ]
  ]
    where
      e1 : Engine
      e1 = accept_proof net x now e peer h

      gate :
          (c : TokenCheck)
          → ReplyReadable peer (elim c [
            | passes ↦ register_hello net x now e1 peer h
            | absent ↦ (hello_err bad_token, e1)
            | wrong ↦
                let (now_banned, e2) = record_auth_failure e1 now peer in
                (hello_err (if now_banned then banned else bad_token), e2)
          ])
      gate passes = register-Readable now e1 h
      gate absent = tt
      gate wrong = tt

  catch_up-Readable :
      (e : Engine) (c : CatchUp)
      → Readable
          (serve_catch_up x e peer c).1.store
          peer
          (catch_up_ack (serve_catch_up x e peer c).0)
  unfolding serve_catch_up
  catch_up-Readable e c = elim (Bool-cases (may_peer_read e.store peer c.doc_id)) [
    | inl may ↦ rw may (inl may)
    | inr may_not ↦ rw may_not (inr (refl, refl))
  ]

update_drive-store :
    (name : String) (f : DriveRuntime → DriveRuntime) (e : Engine)
    → (update_drive name f e).store ≡ e.store
unfolding update_drive
update_drive-store name f e = elim (Option-cases (lookup name e.drives)) [
  | inl missing ↦ rw (missing, update_drive) refl
  | inr (rt, here) ↦ rw (here, update_drive) refl
]

serve_summary-store :
    (now : Instant) (e : Engine) (peer : Peer) (s : Summary)
    → (serve_summary now e peer s).1.store ≡ e.store
unfolding serve_summary
serve_summary-store now e peer s = elim (Option-cases (drive_name_by_peer e peer)) [
  | inl nobody ↦ rw (nobody, serve_summary) refl
  | inr (name, found) ↦ rw (found, serve_summary) (update_drive-store name _ e)
]

-- Whatever a peer asks, the answer says nothing of a document that it may not read once the request
-- is served: no summary names it, and a catch-up of it is empty.
pub serve_request-Readable :
    (net : Net) (x : Extern) (now : Instant) (e : Engine) (peer : Peer) (msg reply : SyncMsg)
    → (serve_request net x now e peer msg).0 ≡ some reply
    → Readable (serve_request net x now e peer msg).1.store peer reply
unfolding serve_request serve_summary
serve_request-Readable net x now e peer (hello h) reply r =
    let same : (serve_hello net x now e peer h).0 ≡ reply = cc in
    rw (← same) (hello-Readable net x peer now e h)
serve_request-Readable net x now e peer (catch_up_request c) reply r =
    let same : catch_up_ack (serve_catch_up x e peer c).0 ≡ reply = cc in
    rw (← same) (catch_up-Readable net x peer e c)
serve_request-Readable net x now e peer (summary_request s) reply r =
    let readable : All
        (λ (entry : DocId × VecClock).
          may_peer_read (serve_summary now e peer s).1.store peer entry.0 ≡ true)
        (summary_for e.store peer) =
      rw (serve_summary-store now e peer s) (summary_for-readable e.store peer) in
    let same : summary_ack (record { clocks = summary_for e.store peer }) ≡ reply = cc in
    rw (← same) readable
serve_request-Readable net x now e peer (model_request ref_) reply r =
    let same : model_def (record { ref_ = ref_; def_ = model_definition e.store ref_ }) ≡ reply =
      cc in
    rw (← same) tt
serve_request-Readable net x now e peer (chunk_request hash) reply r =
    let same : chunk_data (record { hash = hash; bytes = get_chunk e.blobs hash }) ≡ reply = cc in
    rw (← same) tt
serve_request-Readable net x now e peer (hello_ack _) reply r = absurd (cc)
serve_request-Readable net x now e peer (hello_err _) reply r = absurd (cc)
serve_request-Readable net x now e peer (catch_up_ack _) reply r = absurd (cc)
serve_request-Readable net x now e peer (summary_ack _) reply r = absurd (cc)
serve_request-Readable net x now e peer (model_def _) reply r = absurd (cc)
serve_request-Readable net x now e peer (chunk_data _) reply r = absurd (cc)
