-- ===== src/Store/Admit/Unguarded.antt =====
-- Which actions of `open@1` are admitted: the document's own model has no say.
use ph_reactor.Base.{
  ℕ, suc, ◌≡◌, ◌≢◌, refl, sym, ◌∙◌, ◌↔◌, ◌||◌, if◌then◌else◌, ◌⊎◌, String, true, Option, none, some,
  List, [], ◌∷◌, is_empty, arith, ◌▷◌, Option-cases, Bool-cases, inl, inr,
}
use ph_reactor.Base.Eq.{◌==◌, ==_iff, ==_self, string_eq, nat_eq}
use ph_reactor.Base.Map.{lookup}
use ph_reactor.Base.Result.{ok, err}
use ph_reactor.Json.{Value, get, as_str}
use ph_reactor.Doc.Data.{DocId}
use ph_reactor.Action.{Action, CoSig, Extern, verify}
use ph_reactor.Model.Interface.{bad_payload, requires_field, field_empty}
use ph_reactor.Model.Open.{open_model, validate_payload}
use ph_reactor.Model.Registry.{find}
use ph_reactor.Store.State.{Entry, Inner}
use ph_reactor.Store.Admit.{
  check_origin, check_cosig, check_cosigs, find_model, check_quorum, check_authorize,
  check_space_member, same_space, check_binding, admit,
}
use ph_reactor.Store.Admit.Sound.{Admitted, Signs, CoSigned, admit-Admitted}

found_lem :
    (s : Inner) (a : Action)
    → find s.models a.model ≡ some open_model
    → find_model s a ≡ ok open_model
unfolding find_model
found_lem s a h = rw (find_model, h) refl

authorized_lem : (s : Inner) (a : Action) → check_authorize s open_model a ≡ ok tt
unfolding check_authorize open_model
authorized_lem s a = elim (Option-cases (lookup a.doc_id s.entries)) [
  | inl absent ↦ rw (absent, check_authorize) refl
  | inr (e, found) ↦ rw (found, check_authorize) refl
]

signed_passes :
    (x : Extern) (s : Inner) (a : Action)
    → Signs x s a.origin (verify x a)
    → check_origin x s a ≡ ok tt
unfolding check_origin
signed_passes x s a (k, pinned, valid, good) = rw (check_origin, pinned, valid, good) refl

cosigned_passes :
    (x : Extern) (s : Inner) (a : Action) (i : ℕ) (rest : List CoSig)
    → CoSigned x s a i rest
    → check_cosigs x s a i rest ≡ ok tt
unfolding check_cosigs check_cosig
cosigned_passes x s a i [] h = refl
cosigned_passes x s a i (cs ∷ rest) ((k, pinned, valid, good), later) =
    rw (check_cosigs, check_cosig, pinned, valid, good, cosigned_passes x s a (suc i) rest later)
      refl

-- What `open@1` asks of a payload: a write names its field, and there is nothing but writes and
-- deletes.
abbrev pub OpenPayload : String → Value → Type 0
OpenPayload kind payload =
    (((kind ≡ "create") ⊎ (kind ≡ "set"))
      × ((field : String) × ((get payload "field" ▷ as_str) ≡ some field) × (field ≢ "")))
    ⊎ (kind ≡ "delete")

-- Of the field that a write names, and of a kind that is no write.
named_iff :
    (o : Option String)
    → elim o [
      | none ↦ err (bad_payload requires_field)
      | some field ↦ if field == "" then err (bad_payload field_empty) else ok tt
    ]
        ≡ ok tt
      ↔ ((field : String) × (o ≡ some field) × (field ≢ ""))
named_iff none = (λ h. absurd (cc), λ (f, e, n). absurd (cc))
named_iff (some field) = (to, from)
  where
    to :
        (if field == "" then err (bad_payload field_empty) else ok tt) ≡ ok tt
        → (f : String) × (some field ≡ some f) × (f ≢ "")
    to h = (field, refl, λ e. absurd (cc (rw ((==_iff field "").1 e) at h)))

    from :
        (f : String) × (some field ≡ some f) × (f ≢ "")
        → (if field == "" then err (bad_payload field_empty) else ok tt) ≡ ok tt
    from (f, e, n) = elim (Bool-cases (field == "")) [
      | inr full ↦ rw full refl
      | inl blank ↦ let same : field ≡ f = cc e in absurd (n (sym same ∙ (==_iff field "").0 blank))
    ]

payload_iff :
    (kind : String) (payload : Value)
    → validate_payload kind payload ≡ ok tt ↔ OpenPayload kind payload
unfolding validate_payload
payload_iff kind payload =
    let named = named_iff (get payload "field" ▷ as_str) in
    elim (Bool-cases (kind == "create" || kind == "set")) [
      | inl write ↦
          let a_write : (kind ≡ "create") ⊎ (kind ≡ "set") =
            ground (arith, write, ==_iff kind "create", ==_iff kind "set") in
          let not_delete : kind ≡ "delete" → ⊥ = λ d. absurd (cc (rw d at write)) in
          rw (write, validate_payload)
            (
              λ h. inl (a_write, named.0 h),
              λ p. elim p [ inl (w, n) ↦ named.1 n | inr d ↦ absurd (not_delete d) ],
            )
      | inr other ↦ (
        λ h. elim (Bool-cases (kind == "delete")) [
          | inl d ↦ inr ((==_iff kind "delete").0 d)
          | inr unknown ↦ absurd (cc (rw (other, unknown, validate_payload) at h))
        ],
        λ p. elim p [
          | inl (w, n) ↦
              let written : (kind == "create" || kind == "set") ≡ true =
                ground (arith, w, ==_iff kind "create", ==_iff kind "set") in
              absurd (cc (written, other))
          | inr d ↦ rw (other, (==_iff kind "delete").1 d, validate_payload) refl
        ],
      )
    ]

-- The document has no logged action, or the action names the document's space.
abbrev pub BoundTo : Inner → Action → Type 0
BoundTo s a =
    (e : Entry) → lookup a.doc_id s.entries ≡ some e → (is_empty e.log ≡ true) ⊎ (e.space ≡ a.space)

same_space_self : (p : Option DocId) → same_space p p ≡ true
same_space_self none = refl
same_space_self (some id) = ==_self id

binding_passes : (s : Inner) (a : Action) → BoundTo s a → check_binding s a ≡ ok tt
unfolding check_binding
binding_passes s a bound = elim (Option-cases (lookup a.doc_id s.entries)) [
  | inl absent ↦ rw (absent, check_binding) refl
  | inr (e, found) ↦ elim (bound e found) [
    | inl fresh ↦ rw (found, fresh, check_binding) refl
    | inr same ↦
        let holds : (is_empty e.log || same_space e.space a.space) ≡ true = spaces e same in
        rw (found, holds, check_binding) refl
  ]
]
  where
    spaces : (e : Entry) → e.space ≡ a.space → (is_empty e.log || same_space e.space a.space) ≡ true
    spaces e same =
        let here : same_space e.space a.space ≡ true = rw (← same) (same_space_self e.space) in
        ground (arith, here)

-- An action that finds `open@1` is admitted exactly when its signature and its co-signatures verify
-- under the pinned keys of the origins that they name, its payload is a delete or a write that names a
-- field, and its document has no logged action or is in the space that it names: whatever model the
-- document has, neither its members nor its managers nor a quorum is asked.
pub admit_open_iff :
    (x : Extern) (s : Inner) (a : Action)
    → find s.models a.model ≡ some open_model
    → admit x s a ≡ ok open_model
      ↔ Signs x s a.origin (verify x a)
        × CoSigned x s a 0 a.cosig
        × OpenPayload a.kind a.payload
        × BoundTo s a
unfolding admit open_model check_quorum check_space_member
admit_open_iff x s a h = (to, from)
  where
    to :
        admit x s a ≡ ok open_model
        → Signs x s a.origin (verify x a)
          × CoSigned x s a 0 a.cosig
          × OpenPayload a.kind a.payload
          × BoundTo s a
    to k =
        let all : Admitted x s a open_model = admit-Admitted x s a open_model k in
        (
          all.signed,
          all.cosigned,
          (payload_iff a.kind a.payload).0 all.payload,
          λ e found. elim (Bool-cases (is_empty e.log)) [
            | inl fresh ↦ inl fresh
            | inr logged ↦ inr (all.bound e found logged)
          ],
        )

    from :
        Signs x s a.origin (verify x a)
          × CoSigned x s a 0 a.cosig
          × OpenPayload a.kind a.payload
          × BoundTo s a
        → admit x s a ≡ ok open_model
    from (signed, cosigned, fits, bound) =
        let o = signed_passes x s a signed in
        let c = cosigned_passes x s a 0 a.cosig cosigned in
        let p = (payload_iff a.kind a.payload).1 fits in
        rw (admit, o, c, found_lem s a h, p, authorized_lem s a, binding_passes s a bound) refl
