-- ===== src/Store/Read/Access.antt =====
-- Who may read a document, and what a summary lists for a peer.
use ph_reactor.Base.{
  ◌≡◌, ◌≢◌, ◌⊎◌, inl, inr, refl, ◌↔◌, String, Bool, true, false, Option, none, some, [], ◌∷◌, any,
  arith, map, keep, ap, Bool-cases, ◌▷◌, if◌then◌else◌, Option-cases,
}
use ph_reactor.Base.Eq.{◌==◌, ==_iff, string_eq, nat_eq}
use ph_reactor.Base.Map.{Map, lookup}
use ph_reactor.Doc.Clock.{VecClock}
use ph_reactor.Doc.Data.{DocId, Doc}
use ph_reactor.Store.State.{Entry, Inner}
use ph_reactor.Store.Admit.{list_of}
use ph_reactor.Store.Read.{visibility_of, gate_opens, gate_of, may_peer_read, summary, summary_for}

-- A space is open to everyone where it is public, and to its members where it is not private.
abbrev pub Opens : Doc → String → Type 0
Opens gate peer =
    (visibility_of gate ≡ "public")
    ⊎ ((visibility_of gate ≢ "private") × (any (λ m. m == peer) (list_of gate "members") ≡ true))

-- The document is here, and is in no space or in a space that is here and open to the peer.
pub record MayRead (s : Inner) (peer : String) (id : DocId) : Type 0 where
  pub entry : Entry
  pub loaded : lookup id s.entries ≡ some entry
  pub allowed :
      (entry.space ≡ none)
      ⊎ ((space : DocId) × (gate : Entry) × (entry.space ≡ some space)
          × (gate_of s id entry space ≡ some gate)
          × Opens gate.doc peer)

gate_opens_iff : (d : Doc) (peer : String) → gate_opens d peer ≡ true ↔ Opens d peer
unfolding gate_opens
gate_opens_iff d peer =
    ground (arith, ==_iff (visibility_of d) "public", ==_iff (visibility_of d) "private")

in_gate :
    (s : Inner) (peer : String) (id : DocId) (e : Entry) (o : Option DocId)
    → e.space ≡ o
    → elim o [
      | none ↦ true
      | some space ↦ elim (gate_of s id e space) [
        | none ↦ false
        | some gate ↦ gate_opens gate.doc peer
      ]
    ]
      ≡ true
    → (e.space ≡ none)
      ⊎ ((space : DocId) × (gate : Entry) × (e.space ≡ some space)
          × (gate_of s id e space ≡ some gate)
          × Opens gate.doc peer)
in_gate s peer id e none q h = inl q
in_gate s peer id e (some space) q h = elim (Option-cases (gate_of s id e space)) [
  | inl absent ↦ absurd (cc (rw absent at h))
  | inr (gate, found) ↦
      inr (space, gate, q, found, (gate_opens_iff gate.doc peer).0 (rw found at h))
]

-- A peer may read a document exactly when it is here and in no space, or its space is here too and
-- is public, or is not private and lists the peer among its members.
pub may_peer_read_iff :
    (s : Inner) (peer : String) (id : DocId) → may_peer_read s peer id ≡ true ↔ MayRead s peer id
unfolding may_peer_read
may_peer_read_iff s peer id = (to, from)
  where
    to : may_peer_read s peer id ≡ true → MayRead s peer id
    to h = elim (Option-cases (lookup id s.entries)) [
      | inl absent ↦ absurd (cc (rw (absent, may_peer_read) at h))
      | inr (e, found) ↦ record {
        entry = e;
        loaded = found;
        allowed = in_gate s peer id e e.space refl (rw (found, may_peer_read) at h);
      }
    ]

    from : MayRead s peer id → may_peer_read s peer id ≡ true
    from r = elim (r.allowed) [
      | inl free ↦ rw (r.loaded, may_peer_read, free) refl
      | inr (space, gate, within, found, opens) ↦
          rw (r.loaded, may_peer_read, within, found) ((gate_opens_iff gate.doc peer).1 opens)
    ]

filtered :
    (p : DocId → Bool) (id : DocId) (m : Map DocId Entry)
    → lookup id
        (keep (λ entry. p entry.0) (map (λ (entry : DocId × Entry). (entry.0, entry.1.clock)) m))
      ≡ (if p id then lookup id m ▷ (λ e. some e.clock) else none)
unfolding lookup
filtered p id [] = ground arith
filtered p id ((j, e) ∷ m) = ground (arith, filtered p id m, ==_iff j id)

-- A summary for a peer gives a document exactly where the document is here and in no space, or its
-- space is here too and is public, or is not private and lists the peer among its members; and then
-- it gives the clock of that document.
pub summary_for_iff :
    (s : Inner) (peer : String) (id : DocId) (clock : VecClock)
    → lookup id (summary_for s peer) ≡ some clock
      ↔ (r : MayRead s peer id) × (r.entry.clock ≡ clock)
unfolding summary_for summary
summary_for_iff s peer id clock = (to, from)
  where
    given :
        lookup id (summary_for s peer)
        ≡ (if may_peer_read s peer id then lookup id s.entries ▷ (λ e. some e.clock) else none)
    given = filtered (may_peer_read s peer) id s.entries

    to :
        lookup id (summary_for s peer) ≡ some clock
        → (r : MayRead s peer id) × (r.entry.clock ≡ clock)
    to h = elim (Bool-cases (may_peer_read s peer id)) [
      | inr barred ↦ absurd (let h1 = rw (given, barred) at h in cc)
      | inl free ↦
          let r = (may_peer_read_iff s peer id).0 free in
          let h1 = rw (given, free, r.loaded) at h in (r, cc h1)
    ]

    from :
        (r : MayRead s peer id) × (r.entry.clock ≡ clock)
        → lookup id (summary_for s peer) ≡ some clock
    from (r, same) =
        let free : may_peer_read s peer id ≡ true = (may_peer_read_iff s peer id).1 r in
        rw (given, free, r.loaded) (ap some same)
