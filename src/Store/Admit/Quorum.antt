-- ===== src/Store/Admit/Quorum.antt =====
-- A quorum counts distinct members of the group who have signed.
use ph_reactor.Base.{
  ℕ, ◌≡◌, refl, sym, ◌∙◌, ◌≤◌, inl, inr, String, Bool, true, false, some, List, [], ◌∷◌, ◌||◌, not,
  ◌≢◌, ltb, any, All, Option-cases, length, arith, Bool-cases, ap, map,
}
use ph_reactor.Base.Eq.{◌==◌, ==_iff, ==_self, string_eq, nat_eq}
use ph_reactor.Base.Map.{lookup}
use ph_reactor.Base.Result.{ok, >>=-eq-ok}
use ph_reactor.Doc.Clock.{Origin}
use ph_reactor.Doc.Data.{DocId}
use ph_reactor.Action.{Action, CoSig}
use ph_reactor.Model.Interface.{QuorumSpec}
use ph_reactor.Store.State.{Entry, Inner, StoreError}
use ph_reactor.Store.Admit.{
  insert_new, endorsers, group_members, signers, group_name_of, quorum_problem, refuse_unless,
}

-- `o` is one of `xs`.
abbrev pub among : Origin → List Origin → Bool
among o xs = any (λ p. p == o) xs

-- No origin twice.
abbrev pub NoRepeat : List Origin → Type 0
NoRepeat [] = Unit
NoRepeat (o ∷ rest) = (among o rest ≡ false) × NoRepeat rest

among-insert_new :
    (o p : Origin) (seen : List Origin) → among p (insert_new o seen) ≡ (o == p || among p seen)
unfolding insert_new
among-insert_new o p seen = elim (Bool-cases (among o seen)) [
  | inl old ↦ rw old (ground (arith, ==_iff o p, old_lem))
  | inr new ↦ rw new
]
  where
    old_lem : o ≡ p → among o seen ≡ among p seen
    old_lem e = ap (λ q. among q seen) e

insert_new-NoRepeat :
    (o : Origin) (seen : List Origin) → NoRepeat seen → NoRepeat (insert_new o seen)
unfolding insert_new
insert_new-NoRepeat o seen h = elim (Bool-cases (among o seen)) [
  | inl old ↦ rw old h
  | inr new ↦ rw new (new, h)
]

pub endorsers-NoRepeat : (members xs : List Origin) → NoRepeat (endorsers members xs)
unfolding endorsers
endorsers-NoRepeat members [] = tt
endorsers-NoRepeat members (o ∷ rest) = elim (Bool-cases (among o members)) [
  | inl m ↦ rw m (insert_new-NoRepeat o (endorsers members rest) (endorsers-NoRepeat members rest))
  | inr m ↦ rw m (endorsers-NoRepeat members rest)
]

or_true : (b : Bool) → (b || true) ≡ true
or_true true = refl
or_true false = refl

drop_head :
    (members : List Origin) (o p : Origin) (rest : List Origin)
    → (o == p) ≡ false
    → among p (endorsers members (o ∷ rest)) ≡ true
    → among p (endorsers members rest) ≡ true
unfolding endorsers
drop_head members o p rest other h = elim (Bool-cases (among o members)) [
  | inl m ↦
      sym (ap (λ b. b || among p (endorsers members rest)) other)
      ∙ sym (among-insert_new o p (endorsers members rest))
      ∙ (rw m at h)
  | inr m ↦ rw m at h
]

-- The endorsers are the signers who are members.
pub among-endorsers :
    (members xs : List Origin) (p : Origin)
    → among p (endorsers members xs) ≡ true
    → (among p members ≡ true) × (among p xs ≡ true)
unfolding endorsers
among-endorsers members [] p h = absurd (cc)
among-endorsers members (o ∷ rest) p h = elim (Bool-cases (o == p)) [
  | inl same ↦ elim (Bool-cases (among o members)) [
    | inl m ↦
        let e : o ≡ p = (==_iff o p).0 same in (sym (ap (λ q. among q members) e) ∙ m, rw same)
    | inr m ↦ let ih = among-endorsers members rest p (rw m at h) in (ih.0, rw ih.1 (or_true _))
  ]
  | inr other ↦
      let ih = among-endorsers members rest p (drop_head members o p rest other h) in
      (ih.0, rw ih.1 (or_true _))
]

-- Who must have agreed, for a quorum to be met.
pub record QuorumMet (s : Inner) (spec : QuorumSpec) (a : Action) : Type 0 where
  pub name : String
  pub named : group_name_of s spec a ≡ ok name
  pub id : DocId
  pub indexed : lookup name s.names ≡ some id
  pub group : Entry
  pub loaded : lookup id s.entries ≡ some group
  pub who : List Origin
  pub distinct : NoRepeat who
  pub members :
      (o : Origin) → among o who ≡ true → among o (group_members group.doc spec.field) ≡ true
  pub signed : (o : Origin) → among o who ≡ true → among o (signers a) ≡ true
  pub enough : spec.min ≤ length who

not_below : (n k : ℕ) (e : StoreError) → refuse_unless (not (ltb n k)) e ≡ ok tt → k ≤ n
not_below n k e h = ground arith

met :
    (s : Inner) (spec : QuorumSpec) (a : Action) (name : String)
    → group_name_of s spec a ≡ ok name
    → (id : DocId) (group : Entry) → lookup name s.names ≡ some id
    → lookup id s.entries ≡ some group
    → spec.min ≤ length (endorsers (group_members group.doc spec.field) (signers a))
    → QuorumMet s spec a
met s spec a name named id group indexed loaded enough =
    let members = group_members group.doc spec.field in
    record {
      name = name;
      named = named;
      id = id;
      indexed = indexed;
      group = group;
      loaded = loaded;
      who = endorsers members (signers a);
      distinct = endorsers-NoRepeat members (signers a);
      members = λ o h. (among-endorsers members (signers a) o h).0;
      signed = λ o h. (among-endorsers members (signers a) o h).1;
      enough = enough;
    }

-- A quorum that the store accepts is met by that many distinct members of the group, each of whom
-- is the action's origin or one of its co-signers.
pub quorum_problem-QuorumMet :
    (s : Inner) (spec : QuorumSpec) (a : Action)
    → quorum_problem s spec a ≡ ok tt
    → QuorumMet s spec a
unfolding quorum_problem
quorum_problem-QuorumMet s spec a h =
    let (name, named, rest) = >>=-eq-ok (group_name_of s spec a) _ h in
    elim (Option-cases (lookup name s.names)) [
      | inl missing ↦ absurd (cc (rw missing at rest))
      | inr (id, indexed) ↦ elim (Option-cases (lookup id s.entries)) [
        | inl missing ↦ absurd (cc (rw (indexed, missing) at rest))
        | inr (group, loaded) ↦
            let counted = rw (indexed, loaded) at rest in
            met s spec a name named id group indexed loaded (not_below _ _ _ counted)
      ]
    ]

one_name :
    (o : Origin) (who : List Origin)
    → NoRepeat who
    → ((p : Origin) → among p who ≡ true → p ≡ o)
    → length who ≤ 1
one_name o [] d h = omega arith
one_name o (p ∷ []) d h = omega arith
one_name o (p ∷ q ∷ rest) d h =
    let first : p ≡ o = h p (rw (==_self p)) in
    let second : q ≡ o = h q (rw (==_self q) (or_true (p == q))) in
    absurd (apart ((==_iff q p).1 (second ∙ sym first)))
  where
    apart : (q == p) ≡ true → ⊥
    apart e = let f : (true || among p rest) ≡ false = rw e at (d.0) in cc

signers_one :
    (o p : Origin) (cosigs : List CoSig)
    → All (λ (cs : CoSig). cs.origin ≡ o) cosigs
    → among p (map (λ (cs : CoSig). cs.origin) cosigs) ≡ true
    → p ≡ o
signers_one o p [] all h = absurd (cc)
signers_one o p (cs ∷ rest) all h = elim (Bool-cases (cs.origin == p)) [
  | inl same ↦ sym ((==_iff cs.origin p).0 same) ∙ all.0
  | inr other ↦ signers_one o p rest all.1 (rw other at h)
]

signers_own :
    (a : Action) (p : Origin)
    → All (λ (cs : CoSig). cs.origin ≡ a.origin) a.cosig
    → among p (signers a) ≡ true
    → p ≡ a.origin
unfolding signers
signers_own a p own h = elim (Bool-cases (a.origin == p)) [
  | inl same ↦ sym ((==_iff a.origin p).0 same)
  | inr other ↦ signers_one a.origin p a.cosig own (rw other at h)
]

-- One node cannot reach a quorum of two: an action whose co-signatures are all its origin's own is
-- refused wherever the quorum asks for two or more.
quorum_needs_two :
    (s : Inner) (spec : QuorumSpec) (a : Action)
    → 2 ≤ spec.min
    → All (λ (cs : CoSig). cs.origin ≡ a.origin) a.cosig
    → quorum_problem s spec a ≢ ok tt
quorum_needs_two s spec a two own h =
    let q = quorum_problem-QuorumMet s spec a h in
    let one : length q.who ≤ 1 =
      one_name a.origin q.who q.distinct λ p in_who. signers_own a p own (q.signed p in_who) in
    absurd (omega (arith, q.enough))
