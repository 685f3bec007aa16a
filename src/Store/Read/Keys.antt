-- ===== src/Store/Read/Keys.antt =====
-- Trust on first use: the first key of an origin is the only one.
use ph_reactor.Base.{
  ℕ, ◌≡◌, none, some, List, arith, if◌then◌else◌, Bool-cases, Option-cases, inl, inr, ◌↔◌,
}
use ph_reactor.Base.Eq.{◌==◌, ==_iff, string_eq}
use ph_reactor.Base.Bytes.{bytes_eq, bytes_eq_iff}
use ph_reactor.Base.Map.{lookup, lookup-insert}
use ph_reactor.Base.Result.{ok}
use ph_reactor.Doc.Clock.{Origin}
use ph_reactor.Store.State.{Inner}
use ph_reactor.Store.Read.{register_peer_key}

-- What registering a key does to the keys of every origin: nobody's pinned key changes, an origin
-- that was not known gets exactly this key, and the call succeeds exactly when the origin's key is
-- afterwards the one that was offered.
pub register_peer_key_pins :
    (s : Inner) (origin o : Origin) (key k : List ℕ)
    → let (r, t) = register_peer_key s origin key in
      (lookup o s.known_keys ≡ some k → lookup o t.known_keys ≡ some k)
      × (lookup o s.known_keys ≡ none
          → lookup o t.known_keys ≡ (if origin == o then some key else none))
      × (r ≡ ok tt ↔ lookup origin t.known_keys ≡ some key)
unfolding register_peer_key
register_peer_key_pins s origin o key k = elim (Option-cases (lookup origin s.known_keys)) [
  | inl absent ↦
      rw (absent, register_peer_key, lookup-insert, lookup-insert)
        (ground (arith, ==_iff origin o, ==_iff origin origin))
  | inr (pinned, found) ↦ elim (Bool-cases (bytes_eq pinned key)) [
    | inl same ↦
        rw (found, register_peer_key, same)
          (ground (arith, ==_iff origin o, found, bytes_eq_iff pinned key))
    | inr differs ↦
        rw (found, register_peer_key, differs)
          (ground (arith, ==_iff origin o, found, bytes_eq_iff pinned key))
  ]
]
