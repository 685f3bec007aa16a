-- ===== src/P2p/Engine/Publish.antt =====
-- `publish_action`: gossip of the node's own actions, public ones only and each once.
pub mod Bounds
use ph_reactor.Base.{
  ℕ, zero, suc, ◌-◌, Bool, true, false, Option, none, some, List, [], ◌∷◌, ◌++◌, length, not,
  unwrap_or, if◌then◌else◌,
}
use ph_reactor.Base.Eq.{nat_eq}
use ph_reactor.Base.Sets.{contains, set_insert, set_remove}
use ph_reactor.Doc.Data.{Hash32}
use ph_reactor.Action.{Action, Extern, action_hash}
use ph_reactor.Store.Read.{space_visibility, may_gossip}
use ph_reactor.P2p.Codec.{ActionMsg}
use ph_reactor.P2p.Engine.{Engine, Net, published_cap}

-- `while published_order.len() > PUBLISHED_CAP`: the oldest leave the queue and the set. The first
-- argument is the number of those in excess.
unfoldable pub evict : ℕ → List Hash32 → List Hash32 → List Hash32 × List Hash32
evict zero order set = (order, set)
evict (suc n) [] set = ([], set)
evict (suc n) (old ∷ order) set = evict n order (set_remove old set)

-- Documents in no space are gossiped, and those of a public space.
unfoldable pub gossips : Engine → Action → Bool
unfolding may_gossip
gossips e a = elim (space_visibility e.store a.doc_id) [
  | none ↦ true
  | some visibility ↦ may_gossip visibility
]

unfoldable pub publish_action : Net → ℕ → Extern → Engine → Action → Engine
unfolding gossips evict set_insert contains
publish_action net limit x e a =
    let h = action_hash x a in
    let order = e.published_order ++ h ∷ [] in
    let kept = evict (length order - limit) order (set_insert h e.published) in
    let msg : ActionMsg = record { action = a; name = some e.pub_name } in
    if not (gossips e a) then e else if contains h e.published then e else record e {
      published = kept.1;
      published_order = kept.0;
      gossip = if net.gossip_fits msg then e.gossip ++ msg ∷ [] else e.gossip;
    }
