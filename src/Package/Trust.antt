-- ===== src/Package/Trust.antt =====
-- src/package/trust.rs: the publishers that the operator has approved, by their keys.
use ph_reactor.Base.{
  String, Bool, true, false, Option, none, some, List, [], ◌≡◌, inl, inr, map, unwrap_or,
  if◌then◌else◌, arith, Option-cases,
}
use ph_reactor.Base.Eq.{◌==◌, ==_iff, string_eq}
use ph_reactor.Base.Map.{Map, lookup, insert, remove, contains_key, lookup-insert, lookup-remove}

pub record TrustedPublisher : Type 0 where
  pub key : String
  pub name : String
  pub approved_at : String

abbrev pub TrustStore : Type 0
TrustStore = Map String TrustedPublisher

-- Nobody is trusted where the file is missing or cannot be read.
unfoldable pub load_trust : Option TrustStore → TrustStore
load_trust file = unwrap_or [] file

unfoldable pub is_trusted : TrustStore → String → Bool
is_trusted t key = contains_key key t

pub list_trusted : TrustStore → List TrustedPublisher
list_trusted t = map (λ entry. entry.1) t

-- The first approval of a key stays.
unfoldable pub trust : TrustStore → String → String → String → TrustStore
trust t key name now =
    if contains_key key t
    then t
    else insert key (record { key = key; name = name; approved_at = now }) t

-- Whether the key was trusted, and the store without it.
unfoldable pub revoke : TrustStore → String → Bool × TrustStore
revoke t key = (contains_key key t, remove key t)

-- An approval makes trusted exactly its own key besides those that were, keeping what was recorded of
-- them, and a revocation takes away exactly its own.
pub trust_lem :
    (t : TrustStore) (key name now asked : String)
    → (is_trusted (trust t key name now) asked
        ≡ (if key == asked then true else is_trusted t asked))
      × ((p : TrustedPublisher)
          → lookup asked t ≡ some p
          → lookup asked (trust t key name now) ≡ some p)
      × (is_trusted (revoke t key).1 asked ≡ (if key == asked then false else is_trusted t asked))
unfolding trust is_trusted revoke
trust_lem t key name now asked = (
  elim (Option-cases (lookup key t)) [
    | inl new ↦ rw new (rw (lookup-insert key asked fresh t) (ground arith))
    | inr (p, old) ↦ rw old (ground (arith, old, ==_iff key asked, known p old))
  ],
  λ p held. elim (Option-cases (lookup key t)) [
    | inl new ↦ rw new (
        rw (lookup-insert key asked fresh t) (ground (arith, held, new, ==_iff key asked, clash p)))
    | inr (q, old) ↦ rw old held
  ],
  rw (lookup-remove key asked t) (ground arith),
)
  where
    fresh : TrustedPublisher
    fresh = record { key = key; name = name; approved_at = now }

    known : (p : TrustedPublisher) → lookup key t ≡ some p → key ≡ asked → lookup asked t ≡ some p
    known p old q = rw (← q) old

    clash : (p : TrustedPublisher) → key ≡ asked → lookup key t ≡ none → lookup asked t ≡ none
    clash p q new = rw (← q) new
