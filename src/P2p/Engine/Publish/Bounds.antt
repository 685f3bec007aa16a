-- ===== src/P2p/Engine/Publish/Bounds.antt =====
-- The set of published actions stays bounded, and what is gossiped may be.
use ph_reactor.Base.{
  ℕ, zero, suc, ◌+◌, ◌-◌, ◌≤◌, ◌<◌, ◌≡◌, refl, sym, ap, ◌∙◌, inl, inr, Bool, true, false, some,
  List, [], ◌∷◌, ◌++◌, ◌||◌, length, arith, Bool-cases, length-append, any, if◌then◌else◌,
}
use ph_reactor.Base.Eq.{◌==◌, ==_iff, ==_self, nat_eq}
use ph_reactor.Base.Sets.{
  contains, set_insert, set_remove, contains-set_insert, contains-set_remove,
}
use ph_reactor.Doc.Data.{Hash32}
use ph_reactor.Action.{Action, Extern, action_hash}
use ph_reactor.P2p.Codec.{ActionMsg}
use ph_reactor.P2p.Engine.{Engine, Net}
use ph_reactor.P2p.Engine.Publish.{evict, gossips, publish_action}

-- No hash twice.
abbrev Once : List Hash32 → Type 0
Once [] = Unit
Once (h ∷ hs) = (contains h hs ≡ false) × Once hs

-- The queue has no repetitions, the set holds what the queue holds, and it is within the bound.
pub record Tracks (limit : ℕ) (order set : List Hash32) : Type 0 where
  pub bound : length order ≤ limit
  pub once : Once order
  pub same : (h : Hash32) → contains h set ≡ contains h order

contains-append :
    (h : Hash32) (xs ys : List Hash32) → contains h (xs ++ ys) ≡ (contains h xs || contains h ys)
unfolding contains
contains-append h [] ys = refl
contains-append h (x ∷ xs) ys = ground (arith, contains-append h xs ys)

Once-snoc : (xs : List Hash32) (h : Hash32) → Once xs → contains h xs ≡ false → Once (xs ++ h ∷ [])
unfolding contains
Once-snoc [] h o new = (refl, tt)
Once-snoc (x ∷ xs) h o new = (
  contains-append x xs (h ∷ []) ∙ ground (arith, o.0, new, ==_iff x h, ==_iff h x),
  Once-snoc xs h o.1 (ground (arith, new)),
)

forget_first :
    (old k : Hash32) (order set : List Hash32)
    → contains k set ≡ contains k (old ∷ order)
    → contains old order ≡ false
    → (if old == k then false else contains k set) ≡ contains k order
unfolding contains
forget_first old k order set same new =
    ground (arith, same, new, ==_iff old k, λ (q : old ≡ k). ap (λ z. any (λ x. x == z) order) q)

evict-Tracks :
    (n limit : ℕ) (order set : List Hash32)
    → Once order
    → ((h : Hash32) → contains h set ≡ contains h order)
    → length order ≤ n + limit
    → Tracks limit (evict n order set).0 (evict n order set).1
unfolding evict
evict-Tracks zero limit order set once same h = record {
  bound = omega (arith, h);
  once = once;
  same = same;
}
evict-Tracks (suc n) limit [] set once same h = record {
  bound = omega arith;
  once = tt;
  same = same;
}
evict-Tracks (suc n) limit (old ∷ order) set once same h =
    evict-Tracks n limit order (set_remove old set) once.1
      (λ k. contains-set_remove old k set ∙ forget_first old k order set (same k) once.0)
      (omega arith)

abbrev pub PublishedOk : ℕ → Engine → Type 0
PublishedOk limit e = Tracks limit e.published_order e.published

swap : (h k : Hash32) (b : Bool) → (b || contains k (h ∷ [])) ≡ (h == k || b)
unfolding contains
swap h k b = ground arith

-- The last in the queue is not in excess.
last_stays :
    (n : ℕ) (xs : List Hash32) (h : Hash32) (set : List Hash32)
    → n ≤ length xs
    → contains h (evict n (xs ++ h ∷ []) set).0 ≡ true
unfolding evict contains
last_stays zero [] h set p = ground (arith, ==_self h)
last_stays zero (x ∷ xs) h set p =
    let ih = last_stays zero xs h set (omega arith) in ground (arith, ih)
last_stays (suc n) [] h set p = absurd (omega arith)
last_stays (suc n) (x ∷ xs) h set p = last_stays n xs h (set_remove x set) (omega arith)

joined :
    (h k : Hash32) (order set : List Hash32)
    → contains k set ≡ contains k order
    → (h == k || contains k set) ≡ contains k (order ++ h ∷ [])
joined h k order set same = sym (
    contains-append k order (h ∷ [])
    ∙ swap h k (contains k order)
    ∙ ap (λ b. h == k || b) (sym same))

-- The engine after a new action has gone out.
sent : Net → ℕ → Extern → Engine → Action → Engine
sent net limit x e a =
    let h = action_hash x a in
    let order = e.published_order ++ h ∷ [] in
    let kept = evict (length order - limit) order (set_insert h e.published) in
    let msg : ActionMsg = record { action = a; name = some e.pub_name } in
    record e {
      published = kept.1;
      published_order = kept.0;
      gossip = if net.gossip_fits msg then e.gossip ++ msg ∷ [] else e.gossip;
    }

module _ (net : Net) (limit : ℕ) (x : Extern) (e : Engine) (a : Action) where
  sent-PublishedOk :
      PublishedOk limit e
      → contains (action_hash x a) e.published ≡ false
      → PublishedOk limit (sent net limit x e a)
  unfolding sent
  sent-PublishedOk ok new =
      let h = action_hash x a in
      let order = e.published_order ++ h ∷ [] in
      let unqueued : contains h e.published_order ≡ false = sym (ok.same h) ∙ new in
      evict-Tracks (length order - limit) limit order (set_insert h e.published)
        (Once-snoc e.published_order h ok.once unqueued)
        (λ k.
          contains-set_insert h k e.published
          ∙ joined h k e.published_order e.published (ok.same k))
        (omega arith)

  sent-contains :
      0 < limit
      → PublishedOk limit e
      → contains (action_hash x a) e.published ≡ false
      → contains (action_hash x a) (sent net limit x e a).published ≡ true
  unfolding sent
  sent-contains p ok new =
      let h = action_hash x a in
      let order = e.published_order ++ h ∷ [] in
      let excess : length order - limit ≤ length e.published_order =
        omega (arith, ok.bound, length-append e.published_order (h ∷ [])) in
      (sent-PublishedOk ok new).same h
      ∙ last_stays (length order - limit) e.published_order h (set_insert h e.published) excess

  sent_lem :
      gossips e a ≡ true
      → contains (action_hash x a) e.published ≡ false
      → publish_action net limit x e a ≡ sent net limit x e a
  unfolding publish_action sent
  sent_lem public_ new = rw (public_, new, publish_action) refl

  known_lem : contains (action_hash x a) e.published ≡ true → publish_action net limit x e a ≡ e
  unfolding publish_action
  known_lem old = elim (Bool-cases (gossips e a)) [
    | inr private_ ↦ rw (private_, publish_action) refl
    | inl public_ ↦ rw (public_, old, publish_action) refl
  ]

  private_lem : gossips e a ≡ false → publish_action net limit x e a ≡ e
  unfolding publish_action
  private_lem private_ = rw (private_, publish_action) refl

-- The hashes of what the node has published stay within their bound, queue and set in agreement. An
-- action that may not be gossiped changes nothing, and publishing an action again at once, as the
-- feed and the queue both do, changes nothing either.
pub publish_action-PublishedOk :
    (net : Net) (limit : ℕ) (x : Extern) (e : Engine) (a : Action)
    → 0 < limit
    → PublishedOk limit e
    → let e' = publish_action net limit x e a in
      PublishedOk limit e' × (publish_action net limit x e' a ≡ e') × (gossips e a ≡ false → e' ≡ e)
publish_action-PublishedOk net limit x e a p ok = elim (Bool-cases (gossips e a)) [
  | inr private_ ↦ let same = private_lem net limit x e a private_ in rw same (ok, same, λ h. refl)
  | inl public_ ↦ elim (Bool-cases (contains (action_hash x a) e.published)) [
    | inl old ↦ let same = known_lem net limit x e a old in rw same (ok, same, λ h. refl)
    | inr new ↦ rw (sent_lem net limit x e a public_ new) (
      sent-PublishedOk net limit x e a ok new,
      known_lem net limit x (sent net limit x e a) a (sent-contains net limit x e a p ok new),
      λ h. absurd (cc (h, public_)),
    )
  ]
]
