-- ===== src/Store/Local/Build.antt =====
-- The actions that this node builds pass its own signature check, and follow its clock.
use ph_reactor.Base.{
  ℕ, ◌≡◌, ◌+◌, ◌<◌, ◌^◌, refl, String, true, some, [], max, arith, ◌▷◌, last?, if◌then◌else◌,
}
use ph_reactor.Base.Eq.{◌==◌, string_eq}
use ph_reactor.Base.Map.{lookup}
use ph_reactor.Base.Result.{ok}
use ph_reactor.Json.{Value}
use ph_reactor.Doc.Clock.{Origin, clock_get, u64}
use ph_reactor.Doc.Clock.Laws.{tick_lem}
use ph_reactor.Doc.Data.{DocId, ModelRef}
use ph_reactor.Action.{Action, Extern, Lawful, verify, sign, action_hash}
use ph_reactor.Action.Message.{verify-sign_cosigned}
use ph_reactor.Store.State.{Entry, Inner}
use ph_reactor.Store.Admit.{check_origin}
use ph_reactor.Store.Local.{next_ts, draft, build_action}

-- What an action that this node has built promises about the state that it was built from.
pub record Built (x : Extern) (s t : Inner) (e : Entry) (now : ℕ) (a : Action) : Type 0 where
  pub passes : check_origin x t a ≡ ok tt
  pub later : s.ts_hint < a.ts
  pub current : now < a.ts
  pub marked : t.ts_hint ≡ a.ts
  pub counts :
      (o : Origin)
      → clock_get a.clock o
        ≡ (if s.origin == o then clock_get e.clock s.origin + 1 else clock_get e.clock o)
  pub linked : a.prev_hash ≡ (last? e.log ▷ λ p. some (action_hash x p))
  pub placed : a.space ≡ e.space

origin_passes :
    (x : Extern) (s : Inner) (a : Action)
    → Lawful x
    → lookup a.origin s.known_keys ≡ some (x.public s.key)
    → verify x a (x.public s.key) ≡ true
    → check_origin x s a ≡ ok tt
unfolding check_origin
origin_passes x s a law known good = rw (check_origin, known, law.public_valid s.key, good) refl

-- A node that knows its own key builds actions that its own signature check accepts; their
-- timestamp is above the node's high-water mark and above the clock on the wall, and is the new
-- mark; their clock counts one more for the node and as much for the others; and they carry the hash
-- of the last logged action and the document's space. The timestamp and the counter are below their
-- wrap.
pub build_action-Built :
    (x : Extern) (s : Inner) (now : ℕ) (e : Entry) (id : DocId) (model : ModelRef) (kind : String)
    (payload : Value)
    → Lawful x
    → lookup s.origin s.known_keys ≡ some (x.public s.key)
    → max s.ts_hint now + 1 < 2 ^ 64
    → clock_get e.clock s.origin + 1 < 2 ^ 64
    → let (a, t) = build_action x s now e id model kind payload in Built x s t e now a
unfolding build_action next_ts draft sign
build_action-Built x s now e id model kind payload law known fits counter =
    let ts = u64 (max s.ts_hint now + 1) in
    let small : ts ≡ max s.ts_hint now + 1 = omega arith in
    let t = record s { ts_hint = ts } in
    let d = draft x t e id ts model kind payload in
    record {
      passes = origin_passes x t (sign x d s.key) law known (verify-sign_cosigned x d s.key [] law);
      later = omega arith;
      current = omega arith;
      marked = refl;
      counts = λ o. (tick_lem e.clock s.origin o counter).1;
      linked = refl;
      placed = refl;
    }
