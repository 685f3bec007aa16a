-- ===== src/P2p/Engine/Sync.antt =====
-- Repeated catch-up: replies are capped, and asking again ends with the whole log.
use ph_reactor.Base.{
  ℕ, zero, suc, ◌-◌, ◌*◌, ◌≤◌, ◌≡◌, refl, ◌∙◌, inl, inr, true, false, some, List, [], ◌∷◌, take,
  length, arith, All, Bool-cases, ltb,
}
use ph_reactor.Base.Eq.{string_eq, nat_eq}
use ph_reactor.Base.Map.{lookup, Distinct}
use ph_reactor.Doc.Clock.{VecClock, covers, merge}
use ph_reactor.Doc.Clock.Laws.{covers_self, covers_trans, merge_least, merge-Distinct}
use ph_reactor.Doc.Data.{DocId}
use ph_reactor.Action.{Action, Extern}
use ph_reactor.Store.State.{Entry}
use ph_reactor.Store.Read.{may_peer_read, catch_up}
use ph_reactor.Store.Read.CatchUp.{
  absorb, DistinctClocks, absorb-covers, unseen, unseen-DistinctClocks,
}
use ph_reactor.P2p.Codec.{CatchUpAck, catch_up_max_actions}
use ph_reactor.P2p.Engine.{Peer, Engine}
use ph_reactor.P2p.Engine.Serve.{serve_catch_up}

-- The answer to one request, and the asker's clock after it.
unfoldable pub answer : Extern → Engine → Peer → DocId → VecClock → CatchUpAck
answer x e peer id have = (serve_catch_up x e peer (record { doc_id = id; have = have })).0

unfoldable pub ask : Extern → Engine → Peer → DocId → VecClock → VecClock
unfolding answer
ask x e peer id have = absorb have (answer x e peer id have).actions

-- Asking `n` times, each time with the clock that the last answer left.
unfoldable pub ask_times : ℕ → Extern → Engine → Peer → DocId → VecClock → VecClock
unfolding ask
ask_times zero x e peer id have = have
ask_times (suc n) x e peer id have = ask_times n x e peer id (ask x e peer id have)

abbrev CoveredBy : VecClock → List Action → Type 0
CoveredBy now log = All (λ (a : Action). covers now a.clock ≡ true) log

absorb-CoveredBy :
    (have : VecClock) (r : List Action)
    → DistinctClocks r
    → Distinct have
    → CoveredBy (absorb have r) r
absorb-CoveredBy have [] d dh = tt
absorb-CoveredBy have (a ∷ r) d dh =
    let next = merge-Distinct have a.clock dh in
    (
      absorb-covers (merge have a.clock) a.clock r d.1 next d.0 (merge_least have a.clock dh d.0).1,
      absorb-CoveredBy (merge have a.clock) r d.1 next,
    )

absorb-Distinct : (have : VecClock) (r : List Action) → Distinct have → Distinct (absorb have r)
absorb-Distinct have [] dh = dh
absorb-Distinct have (a ∷ r) dh =
    absorb-Distinct (merge have a.clock) r (merge-Distinct have a.clock dh)

take-DistinctClocks : (n : ℕ) (r : List Action) → DistinctClocks r → DistinctClocks (take n r)
take-DistinctClocks zero r d = tt
take-DistinctClocks (suc n) [] d = tt
take-DistinctClocks (suc n) (a ∷ r) d = (d.0, take-DistinctClocks n r d.1)

-- What the later clock has not seen, the earlier one had not.
unseen_later :
    (have now : VecClock) (log : List Action)
    → DistinctClocks log
    → covers now have ≡ true
    → length (unseen now log) ≤ length (unseen now (unseen have log))
unseen_later have now [] d h = omega arith
unseen_later have now (a ∷ log) d h = elim (Bool-cases (covers have a.clock)) [
  | inl known ↦
      let still = covers_trans now have a.clock d.0 h known in
      rw (known, still) (unseen_later have now log d.1 h)
  | inr new ↦
      let ih = unseen_later have now log d.1 h in
      rw new (elim (Bool-cases (covers now a.clock)) [
        | inl seen ↦ rw seen ih
        | inr other ↦ rw other (omega (arith, ih))
      ])
]

unseen-taken :
    (n : ℕ) (now : VecClock) (r : List Action)
    → CoveredBy now (take n r)
    → length (unseen now r) ≤ length r - n
unseen-taken zero now [] h = omega arith
unseen-taken zero now (a ∷ r) h = ground (arith, unseen-taken zero now r tt)
unseen-taken (suc n) now [] h = omega arith
unseen-taken (suc n) now (a ∷ r) h = rw h.0 (omega (arith, unseen-taken n now r h.1))

length-unseen : (have : VecClock) (log : List Action) → length (unseen have log) ≤ length log
length-unseen have [] = omega arith
length-unseen have (a ∷ log) = ground (arith, length-unseen have log)

none_left : (r : List Action) → length r ≤ 0 → r ≡ []
none_left [] h = refl
none_left (a ∷ r) h = absurd (omega arith)

all_seen : (now : VecClock) (log : List Action) → unseen now log ≡ [] → CoveredBy now log
all_seen now [] h = tt
all_seen now (a ∷ log) h = elim (Bool-cases (covers now a.clock)) [
  | inl seen ↦ (seen, all_seen now log (rw seen at h))
  | inr other ↦ absurd (let h1 = rw other at h in cc)
]

module _ (x : Extern) (e : Engine) (peer : Peer) (id : DocId) (entry : Entry) where
  answer_lem :
      (have : VecClock)
      → may_peer_read e.store peer id ≡ true
      → lookup id e.store.entries ≡ some entry
      → ((answer x e peer id have).actions ≡ take catch_up_max_actions (unseen have entry.log))
        × ((answer x e peer id have).more
            ≡ ltb catch_up_max_actions (length (unseen have entry.log)))
  unfolding answer serve_catch_up catch_up
  answer_lem have may found = (
    rw (may, found, answer, serve_catch_up, catch_up) refl,
    rw (may, found, answer, serve_catch_up, catch_up) refl,
  )

  progress :
      (have : VecClock)
      → may_peer_read e.store peer id ≡ true
      → lookup id e.store.entries ≡ some entry
      → DistinctClocks entry.log
      → Distinct have
      → length (unseen (ask x e peer id have) entry.log)
        ≤ length (unseen have entry.log) - catch_up_max_actions
  unfolding ask
  progress have may found d dh =
      let r = take catch_up_max_actions (unseen have entry.log) in
      let dr =
        take-DistinctClocks catch_up_max_actions _ (unseen-DistinctClocks have entry.log d) in
      let now = absorb have r in
      let above = absorb-covers have have r dr dh dh (covers_self have dh) in
      let later = unseen_later have now entry.log d above in
      let taken =
        unseen-taken catch_up_max_actions now (unseen have entry.log)
          (absorb-CoveredBy have r dr dh) in
      rw (answer_lem have may found).0 (omega (arith, later, taken))

  ask-Distinct : (have : VecClock) → Distinct have → Distinct (ask x e peer id have)
  unfolding ask
  ask-Distinct have dh = absorb-Distinct have (answer x e peer id have).actions dh

  left_over :
      (n : ℕ) (have : VecClock)
      → may_peer_read e.store peer id ≡ true
      → lookup id e.store.entries ≡ some entry
      → DistinctClocks entry.log
      → Distinct have
      → length (unseen have entry.log) ≤ n * catch_up_max_actions
      → unseen (ask_times n x e peer id have) entry.log ≡ []
  unfolding ask_times
  left_over zero have may found d dh h = none_left (unseen have entry.log) (omega (arith, h))
  left_over (suc n) have may found d dh h =
      let fewer = progress have may found d dh in
      left_over n (ask x e peer id have) may found d (ask-Distinct have dh)
        (omega (arith, fewer, h))

-- Asking a node again and again for a document, each time with the clock that the last answer left,
-- ends: once the number of requests times 64 reaches the number of logged actions, the next answer is
-- empty and says that there is no more, and the asker's clock covers the whole log. The peer may read
-- the document, which does not change in the meantime.
pub ask_times-ends :
    (x : Extern) (e : Engine) (peer : Peer) (id : DocId) (entry : Entry) (n : ℕ) (have : VecClock)
    → may_peer_read e.store peer id ≡ true
    → lookup id e.store.entries ≡ some entry
    → All (λ (a : Action). Distinct a.clock) entry.log
    → Distinct have
    → length entry.log ≤ n * catch_up_max_actions
    → let now = ask_times n x e peer id have in
      ((answer x e peer id now).actions ≡ [])
      × ((answer x e peer id now).more ≡ false)
      × All (λ (a : Action). covers now a.clock ≡ true) entry.log
ask_times-ends x e peer id entry n have may found d dh h =
    let now = ask_times n x e peer id have in
    let few = length-unseen have entry.log in
    let finished = left_over x e peer id entry n have may found d dh (omega (arith, few, h)) in
    let (actions, more) = answer_lem x e peer id entry now may found in
    (actions ∙ rw finished refl, more ∙ rw finished refl, all_seen now entry.log finished)
