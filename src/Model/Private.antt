-- ===== src/Model/Private.antt =====
-- The private-entry rule of src/model/l1.rs: who may act on a private entry of an array.
use mathlib.Core.List.Memᴰ
use mathlib.Core.List.{Memᴰ}
use ph_reactor.Base.{
  ◌≡◌, refl, sym, ap, subst, ◌↔◌, inl, inr, String, Bool, true, false, Option, none, some, List, [],
  ◌∷◌, any, unwrap_or, ◌▷◌, ◌||◌, not, Bool-cases, Option-cases,
}
use ph_reactor.Base.Eq.{◌==◌, ==_iff, string_eq}
use ph_reactor.Base.Map.{lookup}
use ph_reactor.Base.Result.{ok}
use ph_reactor.Json.{Value, get, as_array, as_str, str}
use ph_reactor.Json.Equality.{value_eq_iff}
use ph_reactor.Doc.Data.{Doc, Field}
use ph_reactor.Action.{Action}
use ph_reactor.Model.L1.State.{current_array, current_value, str_is}
use ph_reactor.Model.L1.Eval.{eval_template}
use ph_reactor.Model.L1.Interpreter.{
  L1, get_or_null, authorize_entries, entry_is, authorize, get_str,
}

entry_is_iff :
    (entry want : Value) (key : String) → entry_is entry key want ≡ true ↔ get entry key ≡ some want
unfolding entry_is
entry_is_iff entry want key = elim (Option-cases (get entry key)) [
  | inl absent ↦ rw (absent, entry_is) (λ h. absurd (cc), λ h. absurd (cc))
  | inr (v, found) ↦
      rw (found, entry_is)
        (λ h. ap some ((value_eq_iff v want).0 h), λ h. (value_eq_iff v want).1 (cc h))
]

text_is_iff :
    (s : String) (o : Option String) → elim o [ none ↦ false | some t ↦ t == s ] ≡ true ↔ o ≡ some s
text_is_iff s none = (λ h. absurd (cc), λ h. absurd (cc))
text_is_iff s (some t) = (λ h. ap some ((==_iff t s).0 h), λ h. (==_iff t s).1 (cc h))

str_is_iff : (s : String) (v : Value) → str_is s v ≡ true ↔ as_str v ≡ some s
str_is_iff s v = text_is_iff s (as_str v)

-- The text is among the values.
abbrev pub HasText : String → List Value → Type 0
HasText s vs = (v : Value) × Memᴰ v vs × (as_str v ≡ some s)

HasText-any : (s : String) (vs : List Value) → any (str_is s) vs ≡ true → HasText s vs
HasText-any s [] h = absurd (cc)
HasText-any s (w ∷ vs) h = elim (Bool-cases (str_is s w)) [
  | inl here ↦ (w, Memᴰ.head refl, (str_is_iff s w).0 here)
  | inr other ↦ let (v, inside, e) = HasText-any s vs (rw other at h) in (v, Memᴰ.tail inside, e)
]

any-HasText : (s : String) (vs : List Value) → HasText s vs → any (str_is s) vs ≡ true
any-HasText s [] (v, inside, e) = absurd (Memᴰ.not-nil inside)
any-HasText s (w ∷ vs) (v, inside, e) = elim (Bool-cases (str_is s w)) [
  | inl here ↦ rw here refl
  | inr other ↦ rw other (elim (Memᴰ.cases_cons inside) [
    | inr later ↦ any-HasText s vs (v, later, e)
    | inl same ↦ absurd (cc ((str_is_iff s w).1 (rw (← same) e), other))
  ])
]

-- The entry is one of the array that the field holds, which is not deleted.
abbrev pub IsEntry : Doc → String → Value → Type 0
IsEntry state field entry =
    (f : Field) × (lookup field state.fields ≡ some f)
    × (f.deleted ≡ false)
    × ((vs : List Value) × (as_array f.value ≡ some vs) × Memᴰ entry vs)

-- An entry under the name that the action gives, and private, lists the actor.
abbrev pub Allowed : Value → Action → Value → Type 0
Allowed rule a entry =
    get entry (get_str rule "name" "name") ≡ some (eval_template a (get_or_null rule "match"))
    → get entry (get_str rule "visibility" "visibility")
      ≡ some (str (get_str rule "private" "private"))
    → (vs : List Value) × ((get entry (get_str rule "allow" "members") ▷ as_array) ≡ some vs)
      × HasText a.origin vs

allow_lem :
    (s : String) (o : Option (List Value))
    → any (str_is s) (unwrap_or [] o) ≡ true ↔ ((vs : List Value) × (o ≡ some vs) × HasText s vs)
allow_lem s none = (λ h. absurd (cc), λ (vs, e, t). absurd (cc))
allow_lem s (some vs) = (
  λ h. (vs, refl, HasText-any s vs h),
  λ (ws, e, t). let same : ws ≡ vs = cc e in any-HasText s vs (subst (HasText s) same t),
)

implied :
    {P Q R : Type 0} (b c d : Bool)
    → (b ≡ true) ↔ P
    → (c ≡ true) ↔ Q
    → (d ≡ true) ↔ R
    → (not b || not c || d) ≡ true ↔ (P → Q → R)
implied false c d p q r = (λ h x y. absurd (cc (p.1 x)), λ h. refl)
implied true false d p q r = (λ h x y. absurd (cc (q.1 y)), λ h. refl)
implied true true d p q r = (λ h x y. r.0 h, λ h. r.1 (h (p.0 refl) (q.0 refl)))

-- What one turn of the loop asks.
abbrev turn : Value → Action → Value → Bool
turn rule a entry =
    not (entry_is entry (get_str rule "name" "name") (eval_template a (get_or_null rule "match")))
    || not (
        entry_is entry (get_str rule "visibility" "visibility")
          (str (get_str rule "private" "private")))
    || any (str_is a.origin) (unwrap_or [] (get entry (get_str rule "allow" "members") ▷ as_array))

turn_iff :
    (rule : Value) (a : Action) (entry : Value) → turn rule a entry ≡ true ↔ Allowed rule a entry
turn_iff rule a entry =
    let named =
      entry_is_iff entry (eval_template a (get_or_null rule "match"))
        (get_str rule "name" "name") in
    let private =
      entry_is_iff entry (str (get_str rule "private" "private"))
        (get_str rule "visibility" "visibility") in
    let listed = allow_lem a.origin (get entry (get_str rule "allow" "members") ▷ as_array) in
    implied _ _ _ named private listed

passes-Allowed :
    (rule : Value) (a : Action) (entries : List Value)
    → authorize_entries rule (eval_template a (get_or_null rule "match")) a entries ≡ ok tt
    → (entry : Value) → Memᴰ entry entries
    → Allowed rule a entry
unfolding authorize_entries
passes-Allowed rule a [] h entry inside = absurd (Memᴰ.not-nil inside)
passes-Allowed rule a (e ∷ rest) h entry inside = elim (Bool-cases (turn rule a e)) [
  | inr stopped ↦ absurd (let h1 = rw (stopped, authorize_entries) at h in cc)
  | inl passed ↦ elim (Memᴰ.cases_cons inside) [
    | inl same ↦ subst (Allowed rule a) (sym same) ((turn_iff rule a e).0 passed)
    | inr later ↦ passes-Allowed rule a rest (rw (passed, authorize_entries) at h) entry later
  ]
]

Allowed-passes :
    (rule : Value) (a : Action) (entries : List Value)
    → ((entry : Value) → Memᴰ entry entries → Allowed rule a entry)
    → authorize_entries rule (eval_template a (get_or_null rule "match")) a entries ≡ ok tt
unfolding authorize_entries
Allowed-passes rule a [] k = refl
Allowed-passes rule a (e ∷ rest) k =
    let passed : turn rule a e ≡ true = (turn_iff rule a e).1 (k e (Memᴰ.head refl)) in
    rw (passed, authorize_entries)
      (Allowed-passes rule a rest (λ entry inside. k entry (Memᴰ.tail inside)))

-- The entries of the array are those of the field that is there.
current_array-IsEntry :
    (state : Doc) (field : String) (entry : Value)
    → Memᴰ entry (current_array state field) ↔ IsEntry state field entry
unfolding current_array current_value
current_array-IsEntry state field entry = (to, from)
  where
    to : Memᴰ entry (current_array state field) → IsEntry state field entry
    to h = elim (Option-cases (lookup field state.fields)) [
      | inl absent ↦ absurd (Memᴰ.not-nil (rw (absent, current_array) at h))
      | inr (f, found) ↦ elim (Bool-cases f.deleted) [
        | inl gone ↦ absurd (Memᴰ.not-nil (rw (found, gone, current_array) at h))
        | inr live ↦ elim (Option-cases (as_array f.value)) [
          | inl other ↦ absurd (Memᴰ.not-nil (rw (found, live, other, current_array) at h))
          | inr (vs, here) ↦
              (f, found, live, (vs, here, rw (found, live, here, current_array) at h))
        ]
      ]
    ]

    from : IsEntry state field entry → Memᴰ entry (current_array state field)
    from (f, found, live, (vs, here, inside)) = rw (found, live, here, current_array) inside

-- Under an authorization rule an action passes exactly when its actor is on the list of every entry
-- that is private and has the name that the action gives, among the entries of the array that the rule
-- names, where that field is there and not deleted.
pub authorize_iff :
    (m : L1) (state : Doc) (a : Action) (rule : Value)
    → get m.auth a.kind ≡ some rule
    → authorize m state a ≡ ok tt
      ↔ ((entry : Value) → IsEntry state (get_str rule "field" "") entry → Allowed rule a entry)
unfolding authorize
authorize_iff m state a rule found =
    let field = get_str rule "field" "" in
    let entries = current_array state field in
    rw (found, authorize)
      (
        λ h entry e.
            passes-Allowed rule a entries h entry ((current_array-IsEntry state field entry).1 e),
        λ k.
            Allowed-passes rule a entries
              (λ entry inside. k entry ((current_array-IsEntry state field entry).0 inside)),
      )
