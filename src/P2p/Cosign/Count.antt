-- ===== src/P2p/Cosign/Count.antt =====
-- The count of endorsers before the submission is the store's count.
use ph_reactor.Base.{
  suc, ◌≤◌, ◌<◌, ◌≡◌, ◌≢◌, refl, sym, ap, ◌∙◌, inl, inr, true, false, List, [], ◌∷◌, ◌++◌, ◌||◌,
  ◌&&◌, not, any, keep, length, map, arith, Bool-cases, &&-eq-true, if◌then◌else◌,
}
use ph_reactor.Base.Eq.{◌==◌, ==_iff, ==_self, string_eq}
use ph_reactor.Doc.Clock.{Origin}
use ph_reactor.Action.{Action, CoSig}
use ph_reactor.Store.Admit.{endorsers, signers, insert_new}
use ph_reactor.Store.Admit.Quorum.{among, NoRepeat, endorsers-NoRepeat, among-endorsers}
use ph_reactor.P2p.Cosign.{count_from, endorser_count}

abbrev Among : Origin → List Origin → Type 0
Among o xs = among o xs ≡ true

without : Origin → List Origin → List Origin
without o xs = keep (λ p. not (p == o)) xs

length-without : (o : Origin) (xs : List Origin) → length (without o xs) ≤ length xs
unfolding without
length-without o [] = omega arith
length-without o (x ∷ xs) = ground (arith, length-without o xs)

fewer-without : (o : Origin) (xs : List Origin) → Among o xs → length (without o xs) < length xs
unfolding without
fewer-without o [] h = cc
fewer-without o (x ∷ xs) h = ground (arith, length-without o xs, fewer-without o xs)

Among-without : (o p : Origin) (xs : List Origin) → o ≢ p → Among p xs → Among p (without o xs)
unfolding without
Among-without o p [] ne h = h
Among-without o p (x ∷ xs) ne h = ground (arith, ==_iff x o, ==_iff x p, Among-without o p xs ne)

Among-cons : (o x : Origin) (xs : List Origin) → Among o xs → Among o (x ∷ xs)
Among-cons o x xs h = ground (arith, h)

-- Distinct origins that are all among `ys` are no more than `ys`.
length-le :
    (xs ys : List Origin)
    → NoRepeat xs
    → ((o : Origin) → Among o xs → Among o ys)
    → length xs ≤ length ys
length-le [] ys d h = omega arith
length-le (x ∷ xs) ys d h =
    let here : Among x ys = h x (rw (==_self x) refl) in
    let rest : length xs ≤ length (without x ys) = length-le xs (without x ys) d.1 λ o m.
      Among-without x o ys (λ q. absurd (cc (ap (λ z. among z xs) q, d.0, m)))
        (h o (Among-cons o x xs m)) in
    omega (arith, fewer-without x ys here, rest)

abbrev origins : List CoSig → List Origin
origins cs = map (λ (c : CoSig). c.origin) cs

count_from-Among :
    (members seen : List Origin) (cs : List CoSig) (p : Origin)
    → among p (count_from members seen cs)
      ≡ (among p seen || (among p members && among p (origins cs)))
unfolding count_from
count_from-Among members seen [] p = ground arith
count_from-Among members seen (c ∷ cs) p =
    let member : c.origin ≡ p → among c.origin members ≡ among p members =
      λ q. ap (λ z. among z members) q in
    let before : c.origin ≡ p → among c.origin seen ≡ among p seen =
      λ q. ap (λ z. among z seen) q in
    let same = ==_iff c.origin p in
    elim (Bool-cases (among c.origin members && not (among c.origin seen))) [
      | inl new ↦
          let ih = count_from-Among members (c.origin ∷ seen) cs p in
          rw new (ih ∙ ground (arith, new, same, member, before))
      | inr old ↦
          let ih = count_from-Among members seen cs p in
          rw old (ih ∙ ground (arith, old, same, member, before))
    ]

count_from-NoRepeat :
    (members seen : List Origin) (cs : List CoSig)
    → NoRepeat seen
    → NoRepeat (count_from members seen cs)
unfolding count_from
count_from-NoRepeat members seen [] d = d
count_from-NoRepeat members seen (c ∷ cs) d =
    elim (Bool-cases (among c.origin members && not (among c.origin seen))) [
      | inl new ↦
          let apart : among c.origin seen ≡ false = ground (arith, new) in
          rw new (count_from-NoRepeat members (c.origin ∷ seen) cs (apart, d))
      | inr old ↦ rw old (count_from-NoRepeat members seen cs d)
    ]

Among-insert_new :
    (o p : Origin) (seen : List Origin) → Among p (o ∷ seen) → Among p (insert_new o seen)
unfolding insert_new
Among-insert_new o p seen h = ground (arith, h, ==_iff o p, λ (q : o ≡ p). ap (λ z. among z seen) q)

endorsers-Among :
    (members xs : List Origin) (p : Origin)
    → Among p members
    → Among p xs
    → Among p (endorsers members xs)
unfolding endorsers
endorsers-Among members [] p m h = h
endorsers-Among members (o ∷ xs) p m h = elim (Bool-cases (among o members)) [
  | inl mem ↦
      let ih = endorsers-Among members xs p m in
      rw mem (Among-insert_new o p (endorsers members xs) (ground (arith, h, ih)))
  | inr not_mem ↦
      let apart : o ≡ p → ⊥ = λ q. cc (ap (λ z. among z members) q, m, not_mem) in
      let later : Among p xs = ground (arith, h, ==_iff o p, apart) in
      rw not_mem (endorsers-Among members xs p m later)
]

seen_first : List Origin → Origin → List Origin
seen_first members o = if among o members then o ∷ [] else []

seen_first-NoRepeat : (members : List Origin) (o : Origin) → NoRepeat (seen_first members o)
unfolding seen_first
seen_first-NoRepeat members o = elim (Bool-cases (among o members)) [
  | inl mem ↦ rw mem (refl, tt)
  | inr not_mem ↦ rw not_mem tt
]

counted :
    (members : List Origin) (a : Action) (p : Origin)
    → among p (count_from members (seen_first members a.origin) a.cosig)
      ≡ (among p members && among p (signers a))
unfolding seen_first signers
counted members a p =
    let member : a.origin ≡ p → among a.origin members ≡ among p members =
      λ q. ap (λ z. among z members) q in
    let same = ==_iff a.origin p in
    elim (Bool-cases (among a.origin members)) [
      | inl mem ↦
          rw mem
            (count_from-Among members (a.origin ∷ []) a.cosig p ∙ ground (arith, mem, same, member))
      | inr not_mem ↦
          rw not_mem (count_from-Among members [] a.cosig p ∙ ground (arith, not_mem, same, member))
    ]

-- The count that a member sees before submitting is the number of endorsers that the store counts
-- towards the quorum.
pub endorser_count_lem :
    (a : Action) (members : List Origin)
    → endorser_count a members ≡ length (endorsers members (signers a))
unfolding endorser_count seen_first
endorser_count_lem a members =
    let mine = count_from members (seen_first members a.origin) a.cosig in
    let theirs = endorsers members (signers a) in
    let apart : NoRepeat mine =
      count_from-NoRepeat members (seen_first members a.origin) a.cosig
        (seen_first-NoRepeat members a.origin) in
    let less : length mine ≤ length theirs = length-le mine theirs apart λ o h.
      let (mem, sig) =
        &&-eq-true (among o members) (among o (signers a)) (sym (counted members a o) ∙ h) in
      endorsers-Among members (signers a) o mem sig in
    let more : length theirs ≤ length mine =
      length-le theirs mine (endorsers-NoRepeat members (signers a)) λ o h.
        let (mem, sig) = among-endorsers members (signers a) o h in
        counted members a o ∙ rw (mem, sig) refl in
    omega (arith, less, more)

count_from-snoc :
    (members : List Origin) (cs : List CoSig) (seen : List Origin) (c : CoSig)
    → among c.origin members ≡ true
    → among c.origin (count_from members seen cs) ≡ false
    → count_from members seen (cs ++ c ∷ []) ≡ c.origin ∷ count_from members seen cs
unfolding count_from
count_from-snoc members [] seen c mem new = rw (mem, new) refl
count_from-snoc members (d ∷ cs) seen c mem new = count_from-snoc members cs _ c mem new

any-origins :
    (o : Origin) (cs : List CoSig) → any (λ (c : CoSig). c.origin == o) cs ≡ among o (origins cs)
any-origins o [] = refl
any-origins o (c ∷ cs) = ap (λ b. c.origin == o || b) (any-origins o cs)

-- A new co-signature of a member counts once.
pub endorser_count-add :
    (a : Action) (members : List Origin) (c : CoSig)
    → among c.origin members ≡ true
    → (a.origin == c.origin) ≡ false
    → any (λ (d : CoSig). d.origin == c.origin) a.cosig ≡ false
    → endorser_count (record a { cosig = a.cosig ++ c ∷ [] }) members
      ≡ suc (endorser_count a members)
unfolding endorser_count seen_first signers
endorser_count-add a members c mem other fresh =
    let unsigned : among c.origin (signers a) ≡ false =
      rw other (sym (any-origins c.origin a.cosig) ∙ fresh) in
    let new = counted members a c.origin ∙ rw (unsigned, mem) refl in
    ap length (count_from-snoc members a.cosig (seen_first members a.origin) c mem new)
