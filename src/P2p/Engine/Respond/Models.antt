-- ===== src/P2p/Engine/Respond/Models.antt =====
-- When a peer's answer changes the loaded models.
use ph_reactor.Base.{
  ◌≡◌, refl, ◌∙◌, ap, ◌⊎◌, inl, inr, String, true, Option, none, some, List, [], ◌∷◌, ◌&&◌, arith,
  Bool-cases, Option-cases, &&-eq-true, ◌▷◌,
}
use ph_reactor.Base.Eq.{==_iff, string_eq, nat_eq}
use ph_reactor.Base.Result.{ok, result-cases}
use ph_reactor.Json.{Value, get, as_str}
use ph_reactor.Doc.Data.{Hash32, ModelRef}
use ph_reactor.Action.{Action, Extern}
use ph_reactor.Model.L1.{from_def, as_model}
use ph_reactor.Model.L1.Interpreter.{L1, model_def_hash}
use ph_reactor.Model.Registry.{ModelRegistry, insert_model}
use ph_reactor.Store.Apply.{apply_action}
use ph_reactor.Store.Apply.Frame.{apply_action-Frame}
use ph_reactor.Store.Feed.{add_model, model_available}
use ph_reactor.P2p.Codec.{ModelDef}
use ph_reactor.P2p.Engine.{Peer, Engine, send_request, send_event}
use ph_reactor.P2p.Engine.Respond.{
  request_from, request_model, note_pending, apply_remote_action, apply_remote_actions, field_is,
  hash_fits, waiting, with_model, on_model_def,
}

abbrev SameModels : Engine → Engine → Type 0
SameModels e f = f.store.models ≡ e.store.models

held-store :
    (x : Extern) (e : Engine) (peer : Option Peer) (a : Action)
    → (note_pending x (request_from e peer a.model) a).store ≡ e.store
unfolding note_pending request_from request_model send_request
held-store x e none a = ground arith
held-store x e (some p) a = ground arith

apply_remote_action-SameModels :
    (x : Extern) (e : Engine) (peer : Option Peer) (a : Action)
    → SameModels e (apply_remote_action x e peer a).1
unfolding apply_remote_action send_event
apply_remote_action-SameModels x e peer a = elim (Bool-cases (model_available e.store a.model)) [
  | inr missing ↦ rw (missing, apply_remote_action) (ap (λ s. s.models) (held-store x e peer a))
  | inl here ↦ elim (result-cases (apply_action x e.store a).0) [
    | inr (u, refused) ↦
        rw (here, refused, apply_remote_action) (apply_action-Frame x e.store a).models
    | inl (r, done) ↦ elim (Bool-cases r.applied) [
      | inl yes_ ↦
          rw (here, done, yes_, apply_remote_action) (apply_action-Frame x e.store a).models
      | inr no_ ↦ rw (here, done, no_, apply_remote_action) (apply_action-Frame x e.store a).models
    ]
  ]
]

apply_remote_actions-SameModels :
    (x : Extern) (e : Engine) (peer : Peer) (log : List Action)
    → SameModels e (apply_remote_actions x e peer log).1
unfolding apply_remote_actions
apply_remote_actions-SameModels x e peer [] = refl
apply_remote_actions-SameModels x e peer (a ∷ rest) =
    apply_remote_actions-SameModels x (apply_remote_action x e (some peer) a).1 peer rest
    ∙ apply_remote_action-SameModels x e (some peer) a

-- The received definition fits the reference that came with it, and has replaced what was loaded under
-- its name and version.
pub record Installed (x : Extern) (d : ModelDef) (before after : ModelRegistry) : Type 0 where
  pub def_ : Value
  pub received : d.def_ ≡ some def_
  pub model : L1
  pub parsed : from_def x def_ ≡ ok model
  pub fits : (want : Hash32) → d.ref_.hash ≡ some want → model_def_hash x def_ ≡ want
  pub named : (get def_ "name" ▷ as_str) ≡ some d.ref_.name
  pub versioned : (get def_ "version" ▷ as_str) ≡ some d.ref_.version
  pub registered : after ≡ insert_model (as_model model) before

field_is-some :
    (v : Value) (key want : String) → field_is v key want ≡ true → (get v key ▷ as_str) ≡ some want
unfolding field_is
field_is-some v key want h = elim (Option-cases (get v key ▷ λ f. as_str f)) [
  | inl nothing ↦ absurd (let h1 = rw (nothing, field_is) at h in cc)
  | inr (s, found) ↦ let h1 = rw (found, field_is) at h in found ∙ ap some ((==_iff s want).0 h1)
]

hash_fits-same :
    (x : Extern) (ref_ : ModelRef) (def_ : Value) (want : Hash32)
    → hash_fits x ref_ def_ ≡ true
    → ref_.hash ≡ some want
    → model_def_hash x def_ ≡ want
unfolding hash_fits
hash_fits-same x ref_ def_ want h pinned =
    let h1 = rw (pinned, hash_fits) at h in (==_iff (model_def_hash x def_) want).0 h1

-- A peer's answer changes the loaded models only to register a definition that has the name, the
-- version and, where there is one, the hash of the reference that the answer itself carries; it then
-- takes the place of whatever was loaded under its name and version.
pub on_model_def-Installed :
    (x : Extern) (e : Engine) (peer : Peer) (d : ModelDef)
    → let after = (on_model_def x e peer d).store.models in
      (after ≡ e.store.models) ⊎ Installed x d e.store.models after
unfolding on_model_def with_model add_model
on_model_def-Installed x e peer d = elim (Option-cases d.def_) [
  | inl nothing ↦ inl (rw (nothing, on_model_def) refl)
  | inr (def_, received) ↦
      elim (Bool-cases
        (field_is def_ "name" d.ref_.name && field_is def_ "version" d.ref_.version)) [
          | inr other ↦ inl (rw (received, other, on_model_def) refl)
          | inl same ↦ elim (Bool-cases (hash_fits x d.ref_ def_)) [
            | inr forged ↦ inl (rw (received, same, forged, on_model_def) refl)
            | inl true_hash ↦ elim (result-cases (from_def x def_)) [
              | inr (u, bad) ↦ inl (rw (received, same, true_hash, bad, on_model_def) refl)
              | inl (m, parsed) ↦
                  let key : String × String = (d.ref_.name, d.ref_.version) in
                  let (name, version) = &&-eq-true _ _ same in
                  inr (record {
                    def_ = def_;
                    received = received;
                    model = m;
                    parsed = parsed;
                    fits = λ want pinned. hash_fits-same x d.ref_ def_ want true_hash pinned;
                    named = field_is-some def_ "name" d.ref_.name name;
                    versioned = field_is-some def_ "version" d.ref_.version version;
                    registered =
                        rw (received, same, true_hash, parsed, on_model_def)
                          (apply_remote_actions-SameModels x (with_model e key (as_model m)) peer
                            (waiting e key));
                  })
            ]
          ]
        ]
]
