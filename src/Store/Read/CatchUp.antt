-- ===== src/Store/Read/CatchUp.antt =====
-- What a catch-up reply brings to the peer that asked.
use ph_reactor.Base.{
  ◌≡◌, refl, sym, subst, true, false, some, List, [], ◌∷◌, not, keep, All, Bool-cases, inl, inr,
}
use ph_reactor.Base.Eq.{string_eq, nat_eq}
use ph_reactor.Base.Map.{lookup, Distinct}
use ph_reactor.Doc.Clock.{VecClock, covers, merge}
use ph_reactor.Doc.Clock.Laws.{covers_self, covers_trans, merge_least, merge-Distinct}
use ph_reactor.Doc.Data.{DocId}
use ph_reactor.Action.{Action, Extern}
use ph_reactor.Store.State.{Entry, Inner}
use ph_reactor.Store.Read.{catch_up}

-- The clock of the peer after the actions of a reply.
abbrev pub absorb : VecClock → List Action → VecClock
absorb have [] = have
absorb have (a ∷ rest) = absorb (merge have a.clock) rest

abbrev pub DistinctClocks : List Action → Type 0
DistinctClocks log = All (λ (a : Action). Distinct a.clock) log

-- Absorbing never loses what was covered.
pub absorb-covers :
    (have c : VecClock) (log : List Action)
    → DistinctClocks log
    → Distinct have
    → Distinct c
    → covers have c ≡ true
    → covers (absorb have log) c ≡ true
absorb-covers have c [] d dh dc h = h
absorb-covers have c (a ∷ log) d dh dc h =
    absorb-covers (merge have a.clock) c log d.1 (merge-Distinct have a.clock dh) dc
      (covers_trans (merge have a.clock) have c dc (merge_least have a.clock dh d.0).0 h)

abbrev pub unseen : VecClock → List Action → List Action
unseen have log = keep (λ (a : Action). not (covers have a.clock)) log

pub unseen-DistinctClocks :
    (have : VecClock) (log : List Action) → DistinctClocks log → DistinctClocks (unseen have log)
unseen-DistinctClocks have [] d = tt
unseen-DistinctClocks have (a ∷ log) d = elim (Bool-cases (covers have a.clock)) [
  | inl known ↦ rw known (unseen-DistinctClocks have log d.1)
  | inr new ↦ rw new (d.0, unseen-DistinctClocks have log d.1)
]

unseen-known :
    (have : VecClock) (a : Action) (log : List Action)
    → covers have a.clock ≡ true
    → unseen have (a ∷ log) ≡ unseen have log
unseen-known have a log h = rw h refl

unseen-new :
    (have : VecClock) (a : Action) (log : List Action)
    → covers have a.clock ≡ false
    → unseen have (a ∷ log) ≡ a ∷ unseen have log
unseen-new have a log h = rw h refl

caught_up :
    (have now : VecClock) (log : List Action)
    → DistinctClocks log
    → Distinct have
    → Distinct now
    → covers now have ≡ true
    → All (λ (a : Action). covers (absorb now (unseen have log)) a.clock ≡ true) log
caught_up have now [] d dh dn h = tt
caught_up have now (a ∷ log) d dh dn h =
    let Brings : List Action → Type 0 =
      λ r. All (λ (b : Action). covers (absorb now r) b.clock ≡ true) (a ∷ log) in
    elim (Bool-cases (covers have a.clock)) [
      | inl known ↦ subst Brings (sym (unseen-known have a log known)) (
        absorb-covers now a.clock (unseen have log) (unseen-DistinctClocks have log d.1) dn d.0
            (covers_trans now have a.clock d.0 h known),
        caught_up have now log d.1 dh dn h,
      )
      | inr new ↦
          let next = merge now a.clock in
          let above = merge_least now a.clock dn d.0 in
          subst Brings (sym (unseen-new have a log new)) (
            absorb-covers next a.clock (unseen have log) (unseen-DistinctClocks have log d.1)
                (merge-Distinct now a.clock dn) d.0 above.1,
            caught_up have next log d.1 dh (merge-Distinct now a.clock dn)
                (covers_trans next now have dh above.0 h),
          )
    ]

-- The reply has only what the asker's clock does not cover.
only_new :
    (have : VecClock) (log : List Action)
    → All (λ (a : Action). covers have a.clock ≡ false) (unseen have log)
only_new have [] = tt
only_new have (a ∷ log) = elim (Bool-cases (covers have a.clock)) [
  | inl known ↦ rw known (only_new have log)
  | inr new ↦ rw new (new, only_new have log)
]

-- A peer that asks with a clock is sent no action that its clock covers, and with the clocks of the
-- actions it is sent its clock covers every action of the log.
pub catch_up_completes :
    (x : Extern) (s : Inner) (id : DocId) (have : VecClock) (e : Entry)
    → lookup id s.entries ≡ some e
    → DistinctClocks e.log
    → Distinct have
    → let reply = (catch_up x s id have).1 in
      All (λ (a : Action). covers have a.clock ≡ false) reply
      × All (λ (a : Action). covers (absorb have reply) a.clock ≡ true) e.log
unfolding catch_up
catch_up_completes x s id have e found d dh =
    rw (found, catch_up)
      (only_new have e.log, caught_up have have e.log d dh dh (covers_self have dh))
