-- ===== src/Update/Candidate.antt =====
-- `best_candidate` of src/settings/updates.rs: the release that a node would run next.
use ph_reactor.Base.{
  ◌≡◌, refl, ◌⊎◌, inl, inr, String, Bool, true, false, Option, none, some, List, [], ◌∷◌, ◌&&◌, All,
  Bool-cases, &&-eq-true, if◌then◌else◌,
}
use ph_reactor.Base.Result.{Result, ok, err}
use ph_reactor.Action.{Extern}
use ph_reactor.Update.{Release, ReleaseExtern, verify_release, runs_on, is_newer_than}
use ph_reactor.Update.Versions.{newer_strict, never_self}

-- A release document's name, its release, and whether its publisher is trusted.
abbrev pub Offer : Type 0
Offer = String × (Release × Bool)

unfoldable pub is_ok {ℓ} : {E A : Type ℓ} → Result E A → Bool
is_ok (ok a) = true
is_ok (err e) = false

module _ (x : Extern) (w : ReleaseExtern) (current platform : String) where
  -- What applying would ask for.
  unfoldable pub is_willing : Offer → Bool
  unfolding is_ok verify_release runs_on is_newer_than
  is_willing (doc, (r, trusted)) =
      trusted && (is_ok (verify_release x w r) && (runs_on r platform && is_newer_than r current))

  -- Without one so far, or newer than it.
  unfoldable pub is_better : Option (String × Release) → Release → Bool
  unfolding is_newer_than
  is_better none r = true
  is_better (some (doc, b)) r = is_newer_than r b.version

  unfoldable pub best_of : Option (String × Release) → List Offer → Option (String × Release)
  unfolding is_willing is_better
  best_of best [] = best
  best_of best ((doc, (r, trusted)) ∷ offers) =
      let taken = best_of (some (doc, r)) offers in
      let passed = best_of best offers in
      if is_willing (doc, (r, trusted)) && is_better best r then taken else passed

  unfoldable pub best_candidate : List Offer → Option (String × Release)
  unfolding best_of
  best_candidate offers = best_of none offers

  abbrev Above : Release → Release → Type 0
  Above r b = (r ≡ b) ⊎ (is_newer_than r b.version ≡ true)

  Above-newer : (r o b : Release) → Above r o → is_newer_than o b.version ≡ true → Above r b
  Above-newer r o b (inl same) h = inr (rw same h)
  Above-newer r o b (inr newer) h = inr (newer_strict r o b.version newer h).0

  -- The best so far is kept, or is given up for a newer one.
  best_of-Above :
      (offers : List Offer) (doc : String) (b : Release)
      → (found : String) × (r : Release) × (best_of (some (doc, b)) offers ≡ some (found, r))
        × Above r b
  unfolding best_of is_better
  best_of-Above [] doc b = (doc, b, refl, inl refl)
  best_of-Above ((name, (o, trusted)) ∷ offers) doc b =
      elim (Bool-cases (is_willing (name, (o, trusted)) && is_newer_than o b.version)) [
        | inr passed ↦ rw passed (best_of-Above offers doc b)
        | inl taken ↦
            let (found, r, e, above) = best_of-Above offers name o in
            let newer = (&&-eq-true _ _ taken).1 in
            rw taken (found, r, e, Above-newer r o b above newer)
      ]

  -- Nothing that is above is exceeded by what it is above of.
  not_newer :
      (o b r : Release)
      → Above r b
      → is_newer_than o b.version ≡ false
      → is_newer_than o r.version ≡ false
  not_newer o b r (inl same) h = rw same h
  not_newer o b r (inr newer) h = elim (Bool-cases (is_newer_than o r.version)) [
    | inr under ↦ under
    | inl over ↦ absurd (cc ((newer_strict o r b.version over newer).0, h))
  ]

  abbrev NotExceeded : Release → Offer → Type 0
  NotExceeded r o = is_willing o ≡ true → is_newer_than o.1.0 r.version ≡ false

  -- The head of the offers, where the best so far was not exceeded by it.
  head_lem :
      (name : String) (o : Release) (trusted : Bool) (offers : List Offer)
      (best : Option (String × Release)) (found : String) (r : Release)
      → best_of best ((name, (o, trusted)) ∷ offers) ≡ some (found, r)
      → NotExceeded r (name, (o, trusted))
  unfolding best_of is_better
  head_lem name o trusted offers none found r e willing =
      let (doc, top, found_top, above) = best_of-Above offers name o in
      let e1 = rw (willing, found_top) at e in
      let same : top ≡ r = cc in rw (← same) (not_newer o o top above (never_self o))
  head_lem name o trusted offers (some (old, b)) found r e willing =
      elim (Bool-cases (is_newer_than o b.version)) [
        | inl newer ↦
            let (doc, top, found_top, above) = best_of-Above offers name o in
            let e1 = rw (willing, newer, found_top) at e in
            let same : top ≡ r = cc in rw (← same) (not_newer o o top above (never_self o))
        | inr older ↦
            let (doc, top, found_top, above) = best_of-Above offers old b in
            let e1 = rw (willing, older, found_top) at e in
            let same : top ≡ r = cc in rw (← same) (not_newer o b top above older)
      ]

  none_exceeds :
      (offers : List Offer) (best : Option (String × Release)) (found : String) (r : Release)
      → best_of best offers ≡ some (found, r)
      → All (NotExceeded r) offers
  unfolding best_of
  none_exceeds [] best found r e = tt
  none_exceeds ((name, (o, trusted)) ∷ offers) best found r e =
      elim (Bool-cases (is_willing (name, (o, trusted)) && is_better best o)) [
        | inl taken ↦
            let rest = rw taken at e in
            (
              head_lem name o trusted offers best found r e,
              none_exceeds offers (some (name, o)) found r rest,
            )
        | inr passed ↦
            let rest = rw passed at e in
            (head_lem name o trusted offers best found r e, none_exceeds offers best found r rest)
      ]

  willing-trusted :
      (name : String) (o : Release) (trusted : Bool)
      → is_willing (name, (o, trusted)) ≡ true
      → trusted ≡ true
  unfolding is_willing
  willing-trusted name o trusted h = (&&-eq-true trusted _ h).0

  -- One of the offers, that is willingly run.
  abbrev pub Chosen : List Offer → String → Release → Type 0
  Chosen [] found r = ⊥
  Chosen (o ∷ offers) found r =
      ((o ≡ (found, (r, true))) × (is_willing o ≡ true)) ⊎ Chosen offers found r

  comes_from :
      (offers : List Offer) (best : Option (String × Release)) (found : String) (r : Release)
      → best_of best offers ≡ some (found, r)
      → (best ≡ some (found, r)) ⊎ Chosen offers found r
  unfolding best_of
  comes_from [] best found r e = inl e
  comes_from ((name, (o, trusted)) ∷ offers) best found r e =
      elim (Bool-cases (is_willing (name, (o, trusted)) && is_better best o)) [
        | inr passed ↦ elim (comes_from offers best found r (rw passed at e)) [
          | inl old ↦ inl old
          | inr later ↦ inr (inr later)
        ]
        | inl taken ↦ elim (comes_from offers (some (name, o)) found r (rw taken at e)) [
          | inr later ↦ inr (inr later)
          | inl here ↦
              let willing = (&&-eq-true _ _ taken).0 in
              let trusted_ = willing-trusted name o trusted willing in
              let names : name ≡ found = cc here in
              let releases : o ≡ r = cc here in inr (inl (cc (names, releases, trusted_), willing))
        ]
      ]

-- The candidate is one of the offers that the node is willing to run, from a trusted publisher, and
-- no offer that it is willing to run is newer.
pub best_candidate-best :
    (x : Extern) (w : ReleaseExtern) (current platform : String) (offers : List Offer)
    (found : String) (r : Release)
    → best_candidate x w current platform offers ≡ some (found, r)
    → Chosen x w current platform offers found r
      × All
          (λ (o : Offer).
            is_willing x w current platform o ≡ true → is_newer_than o.1.0 r.version ≡ false)
          offers
unfolding best_candidate
best_candidate-best x w current platform offers found r e = (
  elim (comes_from x w current platform offers none found r e) [
    | inl nothing ↦ absurd (cc)
    | inr chosen ↦ chosen
  ],
  none_exceeds x w current platform offers none found r e,
)
