-- ===== src/Store/Admit/Sound.antt =====
-- What an admitted action has passed.
use ph_reactor.Base.{
  ℕ, suc, ◌≡◌, refl, ap, String, Bool, true, false, Option, none, some, List, [], ◌∷◌, is_empty,
  arith, subst,
}
use ph_reactor.Base.Eq.{==_iff, string_eq, nat_eq}
use ph_reactor.Base.Map.{lookup}
use ph_reactor.Base.Result.{Result, ok, err, >>=-eq-ok, >>-eq-ok}
use ph_reactor.Doc.Clock.{Origin}
use ph_reactor.Doc.Data.{DocId}
use ph_reactor.Action.{Action, CoSig, Extern, verify, verify_cosig}
use ph_reactor.Model.Interface.{Model, QuorumSpec, Reject}
use ph_reactor.Model.Registry.{find}
use ph_reactor.Store.State.{Entry, Inner, no_space}
use ph_reactor.Store.Admit.{
  check_origin, check_cosig, check_cosigs, find_model, from_reject, check_quorum, check_authorize,
  list_of, space_for, check_member, check_space_member, same_space, check_binding, admit,
  quorum_problem,
}
use ph_reactor.Store.Admit.Quorum.{QuorumMet, quorum_problem-QuorumMet, among}

-- The key that a signature verified under was pinned for its origin.
abbrev pub Signs : Extern → Inner → Origin → (List ℕ → Bool) → Type 0
Signs x s o check =
    (k : List ℕ) × (lookup o s.known_keys ≡ some k) × (x.valid_key k ≡ true) × (check k ≡ true)

abbrev pub CoSigned : Extern → Inner → Action → ℕ → List CoSig → Type 0
CoSigned x s a i [] = Unit
CoSigned x s a i (cs ∷ rest) =
    Signs x s cs.origin (verify_cosig x a i) × CoSigned x s a (suc i) rest

-- The space that gates the action names its origin in the list.
pub record InSpace (s : Inner) (a : Action) (list : String) : Type 0 where
  pub id : DocId
  pub chosen : space_for s a ≡ some id
  pub space : Entry
  pub loaded : lookup id s.entries ≡ some space
  pub listed : among a.origin (list_of space.doc list) ≡ true

pub record Admitted (x : Extern) (s : Inner) (a : Action) (m : Model) : Type 0 where
  pub signed : Signs x s a.origin (verify x a)
  pub cosigned : CoSigned x s a 0 a.cosig
  pub model : find s.models a.model ≡ some m
  pub payload : m.validate_payload a.kind a.payload ≡ ok tt
  pub quorum : (spec : QuorumSpec) → m.quorum a.kind ≡ some spec → QuorumMet s spec a
  pub authorized : (e : Entry) → lookup a.doc_id s.entries ≡ some e → m.authorize e.doc a ≡ ok tt
  pub member : (list : String) → m.requires_space_member a.kind ≡ some list → InSpace s a list
  pub bound :
      (e : Entry) → lookup a.doc_id s.entries ≡ some e → is_empty e.log ≡ false → e.space ≡ a.space

origin_lem :
    (x : Extern) (s : Inner) (a : Action)
    → check_origin x s a ≡ ok tt
    → Signs x s a.origin (verify x a)
unfolding check_origin
origin_lem x s a h = ground arith

cosig_lem :
    (x : Extern) (s : Inner) (a : Action) (i : ℕ) (cs : CoSig)
    → check_cosig x s a i cs ≡ ok tt
    → Signs x s cs.origin (verify_cosig x a i)
unfolding check_cosig
cosig_lem x s a i cs h = ground arith

cosigs_lem :
    (x : Extern) (s : Inner) (a : Action) (i : ℕ) (rest : List CoSig)
    → check_cosigs x s a i rest ≡ ok tt
    → CoSigned x s a i rest
unfolding check_cosigs
cosigs_lem x s a i [] h = tt
cosigs_lem x s a i (cs ∷ rest) h =
    let (first, later) = >>-eq-ok (check_cosig x s a i cs) (check_cosigs x s a (suc i) rest) h in
    (cosig_lem x s a i cs first.1, cosigs_lem x s a (suc i) rest later)

quorum_lem :
    (s : Inner) (o : Option QuorumSpec) (a : Action)
    → check_quorum s o a ≡ ok tt
    → (spec : QuorumSpec) → o ≡ some spec
    → QuorumMet s spec a
unfolding check_quorum
quorum_lem s none a h spec e = absurd (cc)
quorum_lem s (some spec') a h spec e =
    let same : spec' ≡ spec = cc in
    quorum_problem-QuorumMet s spec a (subst (λ q. quorum_problem s q a ≡ ok tt) same h)

authorize_lem :
    (s : Inner) (m : Model) (a : Action)
    → check_authorize s m a ≡ ok tt
    → (e : Entry) → lookup a.doc_id s.entries ≡ some e
    → m.authorize e.doc a ≡ ok tt
unfolding check_authorize
authorize_lem s m a h e found = ground arith

checked :
    (s : Inner) (a : Action) (list : String) (id : DocId)
    → check_member s a list id ≡ ok tt
    → (e : Entry) × (lookup id s.entries ≡ some e) × (among a.origin (list_of e.doc list) ≡ true)
unfolding check_member
checked s a list id h = ground arith

in_space :
    (s : Inner) (a : Action) (list : String) (o : Option DocId)
    → space_for s a ≡ o
    → elim o [ none ↦ err no_space | some id ↦ check_member s a list id ] ≡ ok tt
    → InSpace s a list
in_space s a list none e h = absurd (cc)
in_space s a list (some id) e h =
    let (space, loaded, listed) = checked s a list id h in
    record { id = id; chosen = e; space = space; loaded = loaded; listed = listed }

member_lem :
    (s : Inner) (o : Option String) (a : Action)
    → check_space_member s o a ≡ ok tt
    → (list : String) → o ≡ some list
    → InSpace s a list
unfolding check_space_member check_member
member_lem s none a h list e = absurd (cc)
member_lem s (some list') a h list e =
    let same : list' ≡ list = cc in
    subst (InSpace s a) same (in_space s a list' (space_for s a) refl h)

pub same_space-eq : (p q : Option DocId) → same_space p q ≡ true → p ≡ q
same_space-eq none none h = refl
same_space-eq none (some t) h = absurd (cc)
same_space-eq (some p) none h = absurd (cc)
same_space-eq (some p) (some q) h = ap some ((==_iff p q).0 h)

binding_lem :
    (s : Inner) (a : Action)
    → check_binding s a ≡ ok tt
    → (e : Entry) → lookup a.doc_id s.entries ≡ some e
    → is_empty e.log ≡ false
    → e.space ≡ a.space
unfolding check_binding
binding_lem s a h e found logged = ground (arith, same_space-eq e.space a.space)

model_lem :
    (s : Inner) (a : Action) (m : Model) → find_model s a ≡ ok m → find s.models a.model ≡ some m
unfolding find_model
model_lem s a m h = ground arith

pub passed : (r : Result Reject (Unit {0})) → from_reject r ≡ ok tt → r ≡ ok tt
passed (ok v) h = refl
passed (err e) h = absurd (cc)

-- An action that is admitted has passed every check: its signature and its co-signatures verify
-- under the pinned keys of the origins they name, its model is loaded (with the pinned hash), its
-- payload fits, the quorum is met, the document's authorization rule allows it, its origin is in
-- the list of its space that the reducer asks for, and it names the space that the document is in,
-- where that document has a logged action.
pub admit-Admitted :
    (x : Extern) (s : Inner) (a : Action) (m : Model) → admit x s a ≡ ok m → Admitted x s a m
unfolding admit
admit-Admitted x s a m h0 =
    let (h1, r1) = >>-eq-ok (check_origin x s a) _ h0 in
    let (h2, r2) = >>-eq-ok (check_cosigs x s a 0 a.cosig) _ r1 in
    let (m', h3, r3) = >>=-eq-ok (find_model s a) _ r2 in
    let (h4, r4) = >>-eq-ok (from_reject (m'.validate_payload a.kind a.payload)) _ r3 in
    let (h5, r5) = >>-eq-ok (check_quorum s (m'.quorum a.kind) a) _ r4 in
    let (h6, r6) = >>-eq-ok (check_authorize s m' a) _ r5 in
    let (h7, r7) = >>-eq-ok (check_space_member s (m'.requires_space_member a.kind) a) _ r6 in
    let (h8, r8) = >>-eq-ok (check_binding s a) _ r7 in
    let same : m' ≡ m = cc r8 in
    let all : Admitted x s a m' = record {
      signed = origin_lem x s a h1.1;
      cosigned = cosigs_lem x s a 0 a.cosig h2.1;
      model = model_lem s a m' h3;
      payload = passed _ h4.1;
      quorum = quorum_lem s (m'.quorum a.kind) a h5.1;
      authorized = authorize_lem s m' a h6.1;
      member = member_lem s (m'.requires_space_member a.kind) a h7.1;
      bound = binding_lem s a h8.1;
    } in
    subst (Admitted x s a) same all
