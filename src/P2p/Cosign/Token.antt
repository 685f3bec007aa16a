-- ===== src/P2p/Cosign/Token.antt =====
-- Tokens: what decodes is signed by all whom it names, and a member's signature adds one endorser.
use ph_reactor.Base.{
  ℕ, suc, ◌≡◌, ◌↔◌, refl, sym, ap, ◌∙◌, inl, inr, Bool, true, false, Option, some, List, [], ◌∷◌,
  ◌++◌, length, head?, drop, any, All, All-append, append_assoc, arith, Bool-cases, Option-cases,
}
use ph_reactor.Base.Eq.{◌==◌, string_eq}
use ph_reactor.Base.Chars.{trim, strip_prefix, drop_while, drop_end, is_whitespace}
use ph_reactor.Base.Result.{ok, ◌>>=◌, >>=-eq-ok}
use ph_reactor.Doc.Clock.{Origin}
use ph_reactor.Action.{Action, CoSig, Extern, Lawful, message_bytes, verify}
use ph_reactor.Action.Message.{verify_cosig-at, verify-cosig}
use ph_reactor.Store.Admit.Quorum.{among}
use ph_reactor.P2p.Cosign.Count.{endorser_count-add}
use ph_reactor.P2p.Cosign.{
  endorser_count, TokenExtern, prefix, encode, decode, verify_cosigs, verify_all, add_cosig,
}

-- What the documentation of `base64` and `serde_json` promises, for the action `a`.
pub record LawfulTokens (t : TokenExtern) (a : Action) : Type 0 where
  pub base64 : (bytes : List ℕ) → t.base64_decode (t.base64_encode bytes) ≡ some bytes
  pub printable : (bytes : List ℕ) → All (λ c. is_whitespace c ≡ false) (t.base64_encode bytes)
  pub json : (bytes : List ℕ) → t.action_to_vec a ≡ some bytes → t.action_from_slice bytes ≡ some a

-- The co-signer's key is known, and the signature covers the action's bytes.
pub record SignedBy (x : Extern) (key_of : Origin → Option (List ℕ)) (message : List ℕ) (c : CoSig)
    : Type 0 where
  pub key : List ℕ
  pub known : key_of c.origin ≡ some key
  pub valid : x.verify_strict key message c.sig ≡ true

head-drop :
    (before : List CoSig) (c : CoSig) (rest : List CoSig)
    → head? (drop (length before) (before ++ c ∷ rest)) ≡ some c
head-drop [] c rest = refl
head-drop (b ∷ before) c rest = head-drop before c rest

length-snoc : (before : List CoSig) (c : CoSig) → length (before ++ c ∷ []) ≡ suc (length before)
length-snoc [] c = refl
length-snoc (b ∷ before) c = ap suc (length-snoc before c)

module _ (x : Extern) (key_of : Origin → Option (List ℕ)) (a : Action) where
  verify_cosigs_iff :
      (before cs : List CoSig)
      → a.cosig ≡ before ++ cs
      → (verify_cosigs x key_of a (length before) cs ≡ ok tt)
        ↔ All (SignedBy x key_of (message_bytes x a)) cs
  unfolding verify_cosigs
  verify_cosigs_iff before [] e = (λ h. tt, λ h. refl)
  verify_cosigs_iff before (c ∷ cs) e =
      let at : head? (drop (length before) a.cosig) ≡ some c = rw e (head-drop before c cs) in
      let later : a.cosig ≡ (before ++ c ∷ []) ++ cs = e ∙ sym (append_assoc before (c ∷ []) cs) in
      let ih = rw (length-snoc before c) at (verify_cosigs_iff (before ++ c ∷ []) cs later) in
      let checked = λ (k : List ℕ). verify_cosig-at x a (length before) c k at in
      (
        λ h. elim (Option-cases (key_of c.origin)) [
          | inl unknown ↦ absurd (let e1 = rw (unknown, verify_cosigs) at h in cc)
          | inr (k, known) ↦ elim (Bool-cases (x.verify_strict k (message_bytes x a) c.sig)) [
            | inr bad ↦ absurd (let e1 = rw (known, checked k, bad, verify_cosigs) at h in cc)
            | inl good ↦
                let rest = rw (known, checked k, good, verify_cosigs) at h in
                (record { key = k; known = known; valid = good }, ih.0 rest)
          ]
        ],
        λ all. rw (all.0.known, checked all.0.key, all.0.valid, verify_cosigs) (ih.1 all.1),
      )

  -- The proposer's key is known and its signature verifies, and so do all co-signatures.
  pub record Signed : Type 0 where
    pub key : List ℕ
    pub known : key_of a.origin ≡ some key
    pub valid : verify x a key ≡ true
    pub cosigned : All (SignedBy x key_of (message_bytes x a)) a.cosig

  verify_all_iff : (verify_all x key_of a ≡ ok tt) ↔ Signed
  unfolding verify_all
  verify_all_iff = (
    λ h. elim (Option-cases (key_of a.origin)) [
      | inl unknown ↦ absurd (let e1 = rw (unknown, verify_all) at h in cc)
      | inr (k, known) ↦ elim (Bool-cases (verify x a k)) [
        | inr bad ↦ absurd (let e1 = rw (known, bad, verify_all) at h in cc)
        | inl good ↦
            let rest = rw (known, good, verify_all) at h in
            record {
              key = k;
              known = known;
              valid = good;
              cosigned = (verify_cosigs_iff [] a.cosig refl).0 rest;
            }
      ]
    ],
    λ s. rw (s.known, s.valid, verify_all) ((verify_cosigs_iff [] a.cosig refl).1 s.cosigned),
  )

drop_while-none : (p : ℕ → Bool) (cs : List ℕ) → All (λ c. p c ≡ false) cs → drop_while p cs ≡ cs
unfolding drop_while
drop_while-none p [] h = refl
drop_while-none p (c ∷ cs) h = rw h.0 refl

drop_end-none : (p : ℕ → Bool) (cs : List ℕ) → All (λ c. p c ≡ false) cs → drop_end p cs ≡ cs
unfolding drop_end
drop_end-none p [] h = refl
drop_end-none p (c ∷ cs) h = rw h.0 (ap (λ r. c ∷ r) (drop_end-none p cs h.1))

trim-none : (cs : List ℕ) → All (λ c. is_whitespace c ≡ false) cs → trim cs ≡ cs
unfolding trim
trim-none cs h = rw (drop_while-none is_whitespace cs h) (drop_end-none is_whitespace cs h)

prefix-printable : All (λ c. is_whitespace c ≡ false) prefix
unfolding is_whitespace
prefix-printable = (refl, (refl, (refl, (refl, (refl, (refl, (refl, (refl, (refl, tt)))))))))

decode-encode :
    (x : Extern) (t : TokenExtern) (key_of : Origin → Option (List ℕ)) (a : Action) (token : List ℕ)
    → LawfulTokens t a
    → encode t a ≡ ok token
    → decode x t key_of token ≡ (verify_all x key_of a >>= λ _. ok a)
unfolding decode encode
decode-encode x t key_of a token law e = elim (Option-cases (t.action_to_vec a)) [
  | inl failed ↦ absurd (let e1 = rw (failed, encode) at e in cc)
  | inr (json, encoded) ↦
      let e1 = rw (encoded, encode) at e in
      let body = t.base64_encode json in
      let written : prefix ++ body ≡ token = cc in
      let clean =
        All-append (λ c. is_whitespace c ≡ false) prefix body prefix-printable
          (law.printable json) in
      let trimmed : trim token ≡ prefix ++ body = rw (← written) (trim-none _ clean) in
      rw
        (
          trimmed,
          trim-none body (law.printable json),
          law.base64 json,
          law.json json encoded,
          decode,
        )
        refl
]

-- A token that decodes holds an action whose proposer's and co-signers' keys are all known, and
-- whose signatures all verify under them.
pub decode-Signed :
    (x : Extern) (t : TokenExtern) (key_of : Origin → Option (List ℕ)) (token : List ℕ) (a : Action)
    → decode x t key_of token ≡ ok a
    → Signed x key_of a
unfolding decode
decode-Signed x t key_of token a e = elim (Option-cases (strip_prefix prefix (trim token))) [
  | inl other ↦ absurd (let e1 = rw (other, decode) at e in cc)
  | inr (body, stripped) ↦ elim (Option-cases (t.base64_decode (trim body))) [
    | inl bad ↦ absurd (let e1 = rw (stripped, bad, decode) at e in cc)
    | inr (raw, decoded) ↦ elim (Option-cases (t.action_from_slice raw)) [
      | inl bad ↦ absurd (let e1 = rw (stripped, decoded, bad, decode) at e in cc)
      | inr (b, parsed) ↦
          let rest = rw (stripped, decoded, parsed, decode) at e in
          let (u, all, same) = >>=-eq-ok (verify_all x key_of b) _ rest in
          let same_action : b ≡ a = cc in rw (← same_action) ((verify_all_iff x key_of b).0 all)
    ]
  ]
]

added :
    (x : Extern) (a b : Action) (origin : Origin) (key : List ℕ)
    → add_cosig x a origin key ≡ ok b
    → ((a.origin == origin) ≡ false)
      × (any (λ (c : CoSig). c.origin == origin) a.cosig ≡ false)
      × (record a {
        cosig = a.cosig ++ record { origin = origin; sig = x.sign key (message_bytes x a) } ∷ [];
      }
          ≡ b)
unfolding add_cosig
added x a b origin key e = ground (arith, e)

-- The next member: the token of a proposal with a member's co-signature added decodes to that
-- action, every signature verified, and has exactly one endorser more. The action's signatures
-- verified before, and the member's key is the known one.
pub relay :
    (x : Extern) (t : TokenExtern) (key_of : Origin → Option (List ℕ)) (a b : Action)
    (origin : Origin) (key token : List ℕ) (members : List Origin)
    → Lawful x
    → LawfulTokens t b
    → Signed x key_of a
    → key_of origin ≡ some (x.public key)
    → add_cosig x a origin key ≡ ok b
    → encode t b ≡ ok token
    → (decode x t key_of token ≡ ok b)
      × (among origin members ≡ true → endorser_count b members ≡ suc (endorser_count a members))
unfolding message_bytes
relay x t key_of a b origin key token members law tokens signed known e written =
    let (other, fresh, same) = added x a b origin key e in
    let mine : CoSig = record { origin = origin; sig = x.sign key (message_bytes x a) } in
    let verified : Signed x key_of b = rw (← same) (record {
      key = signed.key;
      known = signed.known;
      valid = verify-cosig x a _ signed.key ∙ signed.valid;
      cosigned =
          All-append (SignedBy x key_of (message_bytes x a)) a.cosig (mine ∷ []) signed.cosigned (
            record {
              key = x.public key;
              known = known;
              valid = law.verify_sign key (message_bytes x a);
            },
            tt,
          );
    }) in
    (
      decode-encode x t key_of b token tokens written
          ∙ rw ((verify_all_iff x key_of b).1 verified) refl,
      λ member. rw (← same) (endorser_count-add a members mine member other fresh),
    )
