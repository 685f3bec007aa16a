-- ===== src/Action/Message.antt =====
-- What a signature covers: the canonical bytes determine every field but the signatures.
use ph_reactor.Base.{
  ◌≡◌, true, refl, sym, ap, ◌∙◌, ◌^◌, ◌<◌, Option, none, some, List, [], ◌∷◌, ◌++◌, length, arith,
  append_assoc, All, length-append, head?, drop, ℕ,
}
use ph_reactor.Base.Bytes.{
  be_bytes, as_bytes, append_split, be_bytes-split, be_bytes-inj, length-be_bytes, as_bytes-inj,
}
use ph_reactor.Doc.Clock.{Origin, VecClock}
use ph_reactor.Doc.Data.{DocId, Hash32}
use ph_reactor.Action.{
  Extern, Lawful, CoSig, Action, framed, hash_bytes, space_bytes, entries_bytes, vec_clock_bytes,
  clock_iter, message_bytes, sign, verify, verify_cosig, signed_by,
}

framed-split :
    (b d xs ys : List ℕ)
    → length b < 2 ^ 32
    → length d < 2 ^ 32
    → framed b ++ xs ≡ framed d ++ ys
    → (b ≡ d) × (xs ≡ ys)
unfolding framed
framed-split b d xs ys hb hd e =
    let flat =
      sym (append_assoc (be_bytes 4 (length b)) b xs)
      ∙ e
      ∙ append_assoc (be_bytes 4 (length d)) d ys in
    let (lengths, rest) =
      be_bytes-split 4 (length b) (length d) (b ++ xs) (d ++ ys) (omega arith) (omega arith) flat in
    append_split b xs d ys lengths rest

tagged : (x y : ℕ) (xs ys : List ℕ) → x ∷ xs ≡ y ∷ ys → xs ≡ ys
tagged x y xs ys e = cc

abbrev pub Fits : ℕ → Option ℕ → Type 0
Fits w none = Unit
Fits w (some n) = n < 256 ^ w

hash_bytes-split :
    (g h : Option Hash32) (xs ys : List ℕ)
    → Fits 32 g
    → Fits 32 h
    → hash_bytes g ++ xs ≡ hash_bytes h ++ ys
    → (g ≡ h) × (xs ≡ ys)
unfolding hash_bytes
hash_bytes-split none none xs ys fg fh e = (refl, cc)
hash_bytes-split none (some h) xs ys fg fh e = absurd (cc)
hash_bytes-split (some g) none xs ys fg fh e = absurd (cc)
hash_bytes-split (some g) (some h) xs ys fg fh e =
    let (same, rest) = be_bytes-split 32 g h xs ys fg fh (tagged 1 1 _ _ e) in (ap some same, rest)

space_bytes-inj :
    (s t : Option DocId) → Fits 16 s → Fits 16 t → space_bytes s ≡ space_bytes t → s ≡ t
unfolding space_bytes
space_bytes-inj none none fs ft e = refl
space_bytes-inj none (some t) fs ft e = absurd (cc)
space_bytes-inj (some s) none fs ft e = absurd (cc)
space_bytes-inj (some s) (some t) fs ft e = ap some (be_bytes-inj 16 s t fs ft (cc))

framed-nonempty : (b xs : List ℕ) → framed b ++ xs ≡ [] → ⊥
unfolding framed
framed-nonempty b xs e = omega (
  arith,
  ap length e,
  length-append (be_bytes 4 (length b) ++ b) xs,
  length-append (be_bytes 4 (length b)) b,
  length-be_bytes 4 (length b),
)

abbrev pub EntryFits : Origin × ℕ → Type 0
EntryFits e = (length (as_bytes e.0) < 2 ^ 32) × (e.1 < 256 ^ 8)

entries_bytes-inj :
    (c d : VecClock) → All EntryFits c → All EntryFits d → entries_bytes c ≡ entries_bytes d → c ≡ d
unfolding entries_bytes
entries_bytes-inj [] [] fc fd e = refl
entries_bytes-inj [] ((p, m) ∷ d) fc fd e = absurd (framed-nonempty (as_bytes p) _ (sym e))
entries_bytes-inj ((o, n) ∷ c) [] fc fd e = absurd (framed-nonempty (as_bytes o) _ e)
entries_bytes-inj ((o, n) ∷ c) ((p, m) ∷ d) fc fd e =
    let (origins, rest) = framed-split (as_bytes o) (as_bytes p) _ _ fc.0.0 fd.0.0 e in
    let (counts, tails) = be_bytes-split 8 n m _ _ fc.0.1 fd.0.1 rest in
    cc (as_bytes-inj o p origins, counts, entries_bytes-inj c d fc.1 fd.1 tails)

-- The lengths fit their four bytes, and the numbers their fixed widths.
pub record IsSized (x : Extern) (a : Action) : Type 0 where
  pub doc_id : a.doc_id < 256 ^ 16
  pub name : length (as_bytes a.model.name) < 2 ^ 32
  pub version : length (as_bytes a.model.version) < 2 ^ 32
  pub model_hash : Fits 32 a.model.hash
  pub kind : length (as_bytes a.kind) < 2 ^ 32
  pub payload : length (x.to_vec a.payload) < 2 ^ 32
  pub ts : a.ts < 256 ^ 8
  pub clock : length (vec_clock_bytes a.clock) < 2 ^ 32
  pub entries : All EntryFits (clock_iter a.clock)
  pub origin : length (as_bytes a.origin) < 2 ^ 32
  pub prev_hash : Fits 32 a.prev_hash
  pub space : Fits 16 a.space

-- Equal in all that is signed.
pub record SameSigned (a b : Action) : Type 0 where
  pub doc_id : a.doc_id ≡ b.doc_id
  pub name : a.model.name ≡ b.model.name
  pub version : a.model.version ≡ b.model.version
  pub model_hash : a.model.hash ≡ b.model.hash
  pub kind : a.kind ≡ b.kind
  pub payload : a.payload ≡ b.payload
  pub ts : a.ts ≡ b.ts
  pub clock : clock_iter a.clock ≡ clock_iter b.clock
  pub origin : a.origin ≡ b.origin
  pub prev_hash : a.prev_hash ≡ b.prev_hash
  pub space : a.space ≡ b.space

-- Two actions of one byte string agree in every field but the signatures: the space suffix, which
-- is absent where there is no space, is never mistaken for another field. The sizes fit their
-- length fields.
pub message_bytes-inj :
    (x : Extern) (a b : Action)
    → Lawful x
    → IsSized x a
    → IsSized x b
    → message_bytes x a ≡ message_bytes x b
    → SameSigned a b
unfolding message_bytes vec_clock_bytes
message_bytes-inj x a b law fa fb e =
    let (ids, r1) = be_bytes-split 16 a.doc_id b.doc_id _ _ fa.doc_id fb.doc_id e in
    let (names, r2) = framed-split _ _ _ _ fa.name fb.name (tagged 1 1 _ _ r1) in
    let (versions, r3) = framed-split _ _ _ _ fa.version fb.version (tagged 1 1 _ _ r2) in
    let (hashes, r4) = hash_bytes-split _ _ _ _ fa.model_hash fb.model_hash r3 in
    let (kinds, r5) = framed-split _ _ _ _ fa.kind fb.kind (tagged 1 1 _ _ r4) in
    let (payloads, r6) = framed-split _ _ _ _ fa.payload fb.payload (tagged 1 1 _ _ r5) in
    let (times, r7) = be_bytes-split 8 a.ts b.ts _ _ fa.ts fb.ts r6 in
    let (clocks, r8) = framed-split _ _ _ _ fa.clock fb.clock (tagged 1 1 _ _ r7) in
    let (origins, r9) = framed-split _ _ _ _ fa.origin fb.origin (tagged 1 1 _ _ r8) in
    let (prevs, r10) = hash_bytes-split _ _ _ _ fa.prev_hash fb.prev_hash r9 in
    record {
      doc_id = ids;
      name = as_bytes-inj _ _ names;
      version = as_bytes-inj _ _ versions;
      model_hash = hashes;
      kind = as_bytes-inj _ _ kinds;
      payload = law.to_vec-inj _ _ payloads;
      ts = times;
      clock = entries_bytes-inj _ _ fa.entries fb.entries clocks;
      origin = as_bytes-inj _ _ origins;
      prev_hash = prevs;
      space = space_bytes-inj _ _ fa.space fb.space r10;
    }

-- The bytes do not depend on the signature and the co-signatures, so a signed action verifies
-- under its signer's key, and goes on doing so when co-signatures are added.
pub verify-sign_cosigned :
    (x : Extern) (a : Action) (key : List ℕ) (cosigs : List CoSig)
    → Lawful x
    → verify x (record (sign x a key) { cosig = cosigs }) (x.public key) ≡ true
unfolding verify sign message_bytes
verify-sign_cosigned x a key cosigs law = law.verify_sign key (message_bytes x a)

pub verify_cosig-at :
    (x : Extern) (a : Action) (i : ℕ) (c : CoSig) (pk : List ℕ)
    → head? (drop i a.cosig) ≡ some c
    → verify_cosig x a i pk ≡ x.verify_strict pk (message_bytes x a) c.sig
unfolding verify_cosig signed_by
verify_cosig-at x a i c pk e = rw (e, verify_cosig) refl

-- Neither the signature nor the co-signatures are among the signed bytes.
pub message_bytes-cosig :
    (x : Extern) (a : Action) (cosigs : List CoSig)
    → message_bytes x (record a { cosig = cosigs }) ≡ message_bytes x a
unfolding message_bytes
message_bytes-cosig x a cosigs = refl

pub verify-cosig :
    (x : Extern) (a : Action) (cosigs : List CoSig) (pk : List ℕ)
    → verify x (record a { cosig = cosigs }) pk ≡ verify x a pk
unfolding verify message_bytes
verify-cosig x a cosigs pk = refl
