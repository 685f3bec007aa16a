-- ===== src/Store/Verify.antt =====
-- `Store::verify` of src/store.rs: the audit of a document's log.
use ph_reactor.Base.{
  ℕ, suc, String, Bool, false, Option, none, some, List, [], ◌∷◌, ◌++◌, ◌&&◌, all, any, is_empty,
  is_some, ◌▷◌, if◌then◌else◌,
}
use ph_reactor.Base.Eq.{◌==◌, string_eq, nat_eq}
use ph_reactor.Base.Map.{lookup}
use ph_reactor.Base.Result.{Result, ok, err}
use ph_reactor.Doc.Clock.{Origin}
use ph_reactor.Doc.Data.{DocId, Hash32, ModelRef, Doc}
use ph_reactor.Action.{Action, CoSig, Extern, verify, verify_cosig, action_hash}
use ph_reactor.Model.Interface.{Model, Reject, QuorumSpec}
use ph_reactor.Model.Registry.{find}
use ph_reactor.Store.State.{Entry, Inner, StoreError, no_doc, base_entry}
use ph_reactor.Store.Fold.{apply_ops_to_entry}
use ph_reactor.Store.Admit.{quorum_problem}

-- A problem of one action.
pub data Problem : Type 0 where
  model_not_loaded : String → Problem
  chain_broken : Hash32 → Problem
  chain_gap : Problem
  origin_invalid origin_malformed origin_unknown : Problem
  cosig_invalid cosig_malformed cosig_unknown : Origin → Problem
  precondition_failed : Reject → Problem
  quorum_failed : StoreError → Problem
  fields_differ : Problem

pub record ActionCheck : Type 0 where
  pub ts : ℕ
  pub origin : Origin
  pub kind : String
  pub model : Option ModelRef
  pub ok : Bool
  pub problems : List Problem

pub record VerifyReport : Type 0 where
  pub name : String
  pub doc_id : DocId
  pub model : Option ModelRef
  pub from_snapshot : Bool
  pub actions : List ActionCheck
  pub ok : Bool

-- `prev_hash` names an action seen before, and is missing only where nothing was seen.
unfoldable pub chain_problems : List Hash32 → Option Hash32 → List Problem
chain_problems seen (some got) = if any (λ h. h == got) seen then [] else chain_broken got ∷ []
chain_problems seen none = if is_empty seen then [] else chain_gap ∷ []

origin_problems : Extern → Inner → Action → List Problem
origin_problems x s a = elim (lookup a.origin s.known_keys) [
  | none ↦ origin_unknown ∷ []
  | some k ↦
      if x.valid_key k
      then if verify x a k then [] else origin_invalid ∷ []
      else origin_malformed ∷ []
]

cosig_problem : Extern → Inner → Action → ℕ → CoSig → List Problem
cosig_problem x s a i cs = elim (lookup cs.origin s.known_keys) [
  | none ↦ cosig_unknown cs.origin ∷ []
  | some k ↦
      if x.valid_key k
      then if verify_cosig x a i k then [] else cosig_invalid cs.origin ∷ []
      else cosig_malformed cs.origin ∷ []
]

cosig_problems : Extern → Inner → Action → ℕ → List CoSig → List Problem
unfolding cosig_problem
cosig_problems x s a i [] = []
cosig_problems x s a i (cs ∷ rest) = cosig_problem x s a i cs ++ cosig_problems x s a (suc i) rest

quorum_problems : Inner → Option QuorumSpec → Action → List Problem
quorum_problems s none a = []
quorum_problems s (some spec) a = elim (quorum_problem s spec a) [
  | ok _ ↦ []
  | err e ↦ quorum_failed e ∷ []
]

model_problems : Inner → Entry → Model → Action → List Problem
unfolding quorum_problems
model_problems s scratch m a =
    elim (m.check_precondition scratch.doc a) [ ok _ ↦ [] | err r ↦ precondition_failed r ∷ [] ]
    ++ quorum_problems s (m.quorum a.kind) a

-- All that is wrong with one action, at its place in the fold.
unfoldable pub action_problems : Extern → Inner → Entry → List Hash32 → Action → List Problem
unfolding chain_problems origin_problems cosig_problems model_problems
action_problems x s scratch seen a =
    elim (find s.models a.model) [ none ↦ model_not_loaded a.model.name ∷ [] | some m ↦ [] ]
    ++ (chain_problems seen a.prev_hash
        ++ (origin_problems x s a
            ++ (cosig_problems x s a 0 a.cosig ++ elim (find s.models a.model) [
              | none ↦ []
              | some m ↦ model_problems s scratch m a
            ])))

refold_one : Inner → Entry → Action → Entry
refold_one s scratch a = elim (find s.models a.model) [
  | none ↦ scratch
  | some m ↦ (apply_ops_to_entry scratch m a).0
]

check_of : Action → List Problem → ActionCheck
check_of a problems = record {
  ts = a.ts;
  origin = a.origin;
  kind = a.kind;
  model = some a.model;
  ok = is_empty problems;
  problems = problems;
}

-- The loop over the log: the re-folded entry and the checks.
unfoldable pub verify_log :
    Extern → Inner → Entry → List Hash32 → List Action → Entry × List ActionCheck
unfolding action_problems refold_one check_of
verify_log x s scratch seen [] = (scratch, [])
verify_log x s scratch seen (a ∷ rest) =
    let (final, checks) =
      verify_log x s (refold_one s scratch a) (seen ++ action_hash x a ∷ []) rest in
    (final, check_of a (action_problems x s scratch seen a) ∷ checks)

-- The last check fails, or a check is added, where the field maps differ.
fail_last : List ActionCheck → List ActionCheck
fail_last [] =
    record {
      ts = 0;
      origin = "";
      kind = "(field map)";
      model = none;
      ok = false;
      problems = fields_differ ∷ [];
    }
    ∷ []
fail_last (c ∷ []) = record c { ok = false; problems = c.problems ++ fields_differ ∷ [] } ∷ []
fail_last (c ∷ d ∷ rest) = c ∷ fail_last (d ∷ rest)

hash_list : Option Hash32 → List Hash32
hash_list none = []
hash_list (some h) = h ∷ []

named_entry : Inner → String → Option (DocId × Entry)
named_entry s name = lookup name s.names ▷ λ id. lookup id s.entries ▷ λ e. some (id, e)

-- `same` is `==` on documents.
unfoldable pub verify_doc :
    Extern → (Doc → Doc → Bool) → Inner → String → Result StoreError VerifyReport
unfolding verify_log fail_last hash_list named_entry
verify_doc x same s name = elim (named_entry s name) [
  | none ↦ err (no_doc name)
  | some (id, e) ↦
      let base = lookup id s.disk.snaps in
      let seen = hash_list (base ▷ λ b. b.log_hash) in
      let (final, checks) = verify_log x s (base_entry id base) seen e.log in
      let equal = same final.doc e.doc in
      ok (record {
        name = name;
        doc_id = id;
        model = elim e.log [ [] ↦ none | a ∷ rest ↦ some a.model ];
        from_snapshot = is_some base;
        actions = if equal then checks else fail_last checks;
        ok = all (λ (c : ActionCheck). c.ok) checks && equal;
      })
]
