-- ===== src/Action.antt =====
-- src/action.rs: the signed action envelope, its canonical bytes, its signatures and its hash.
pub mod Message
use ph_reactor.Base.{
  ℕ, ◌≡◌, String, Bool, true, false, Option, none, some, List, [], ◌∷◌, ◌++◌, ◌&&◌, length, head?,
  drop, if◌then◌else◌, zero, suc,
}
use ph_reactor.Base.Bytes.{be_bytes, as_bytes}
use ph_reactor.Base.Text.{str_lt}
use ph_reactor.Json.{Value}
use ph_reactor.Doc.Clock.{Origin, VecClock}
use ph_reactor.Doc.Data.{DocId, Hash32, Sig, ModelRef}

-- The functions of other crates that the store calls: ed25519, SHA-256 and `serde_json::to_vec`.
-- A key is its 32 bytes.
pub record Extern : Type 0 where
  pub valid_key : List ℕ → Bool
  pub verify_strict : List ℕ → List ℕ → Sig → Bool
  pub public : List ℕ → List ℕ
  pub sign : List ℕ → List ℕ → Sig
  pub sha256 : List ℕ → Hash32
  pub to_vec : Value → List ℕ

-- What their documentation promises.
pub record Lawful (x : Extern) : Type 0 where
  pub public_valid : (key : List ℕ) → x.valid_key (x.public key) ≡ true
  pub verify_sign :
      (key message : List ℕ) → x.verify_strict (x.public key) message (x.sign key message) ≡ true
  pub to_vec-inj : (a b : Value) → x.to_vec a ≡ x.to_vec b → a ≡ b

pub record CoSig : Type 0 where
  pub origin : Origin
  pub sig : Sig

pub record Action : Type 0 where
  pub doc_id : DocId
  pub model : ModelRef
  pub kind : String
  pub payload : Value
  pub ts : ℕ
  pub clock : VecClock
  pub origin : Origin
  pub cosig : List CoSig
  pub prev_hash : Option Hash32
  pub space : Option DocId
  pub sig : Sig

-- A length of four bytes, then the bytes.
framed : List ℕ → List ℕ
framed bytes = be_bytes 4 (length bytes) ++ bytes

hash_bytes : Option Hash32 → List ℕ
hash_bytes none = 0 ∷ []
hash_bytes (some h) = 1 ∷ be_bytes 32 h

-- Nothing at all where there is no space.
space_bytes : Option DocId → List ℕ
space_bytes none = []
space_bytes (some s) = 1 ∷ be_bytes 16 s

-- `VecClock::iter`: the entries in the order of their origins.
place : Origin → ℕ → VecClock → VecClock
place o n [] = (o, n) ∷ []
place o n ((p, m) ∷ c) =
    let later = (p, m) ∷ place o n c in if str_lt p o then later else (o, n) ∷ (p, m) ∷ c

unfoldable pub clock_iter : VecClock → VecClock
unfolding place str_lt
clock_iter [] = []
clock_iter ((o, n) ∷ c) = place o n (clock_iter c)

entries_bytes : VecClock → List ℕ
unfolding framed
entries_bytes [] = []
entries_bytes ((o, n) ∷ c) = framed (as_bytes o) ++ (be_bytes 8 n ++ entries_bytes c)

unfoldable pub vec_clock_bytes : VecClock → List ℕ
unfolding entries_bytes clock_iter
vec_clock_bytes c = entries_bytes (clock_iter c)

module _ (x : Extern) where
  unfoldable pub message_bytes : Action → List ℕ
  unfolding framed hash_bytes space_bytes vec_clock_bytes
  message_bytes a =
      be_bytes 16 a.doc_id
      ++ (1 ∷ framed (as_bytes a.model.name)
          ++ (1 ∷ framed (as_bytes a.model.version)
              ++ (hash_bytes a.model.hash
                  ++ (1 ∷ framed (as_bytes a.kind)
                      ++ (1 ∷ framed (x.to_vec a.payload)
                          ++ (be_bytes 8 a.ts
                              ++ (1 ∷ framed (vec_clock_bytes a.clock)
                                  ++ (1 ∷ framed (as_bytes a.origin)
                                      ++ (hash_bytes a.prev_hash ++ space_bytes a.space)))))))))

  -- `Action::sign`
  unfoldable pub sign : Action → List ℕ → Action
  sign a key = record a { sig = x.sign key (message_bytes a) }

  -- The signature is 64 bytes, and verifies.
  signed_by : Sig → List ℕ → List ℕ → Bool
  signed_by sig pk message = x.verify_strict pk message sig

  unfoldable pub verify : Action → List ℕ → Bool
  unfolding signed_by
  verify a pk = signed_by a.sig pk (message_bytes a)

  -- Co-signer `i`, by its entry: the callers walk over `cosig`.
  unfoldable pub verify_cosig : Action → ℕ → List ℕ → Bool
  unfolding signed_by
  verify_cosig a i pk = elim (head? (drop i a.cosig)) [
    | none ↦ false
    | some c ↦ signed_by c.sig pk (message_bytes a)
  ]

  -- `Action::hash`
  unfoldable pub action_hash : Action → Hash32
  action_hash a = x.sha256 (message_bytes a)
