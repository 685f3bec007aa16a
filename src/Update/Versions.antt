-- ===== src/Update/Versions.antt =====
-- The order of versions.
use ph_reactor.Base.{
  ℕ, zero, suc, ◌≤◌, ◌<◌, ◌≡◌, ◌↔◌, refl, ap, sym, ◌∙◌, inl, inr, String, true, false, some, List,
  [], ◌∷◌, max, length, arith, lt-cases, Option-cases, Bool-cases, ltb, ltb→lt,
}
use ph_reactor.Update.{
  Order, less, equal, greater, Release, parse_version, resize, vec_cmp, compare_parts, compare,
  is_newer_than,
}

-- The number in place `i` of a version, zero past its end.
unfoldable pub part : List ℕ → ℕ → ℕ
part [] i = 0
part (n ∷ ns) zero = n
part (n ∷ ns) (suc i) = part ns i

-- Equal before place `i`, and more there.
pub record Exceeds (a b : List ℕ) : Type 0 where
  pub place : ℕ
  pub before : (j : ℕ) → j < place → part a j ≡ part b j
  pub there : part b place < part a place

part-resize : (n : ℕ) (v : List ℕ) (i : ℕ) → part (resize n v) i ≡ part v i
unfolding part resize
part-resize zero v i = refl
part-resize (suc n) [] zero = refl
part-resize (suc n) [] (suc i) = part-resize n [] i
part-resize (suc n) (c ∷ v) zero = refl
part-resize (suc n) (c ∷ v) (suc i) = part-resize n v i

length-resize : (n : ℕ) (v : List ℕ) → length v ≤ n → length (resize n v) ≡ n
unfolding resize
length-resize zero [] h = refl
length-resize zero (c ∷ v) h = absurd (omega arith)
length-resize (suc n) [] h = ap suc (length-resize n [] (omega arith))
length-resize (suc n) (c ∷ v) h = ap suc (length-resize n v (omega arith))

step : (a b : ℕ) (r s : List ℕ) → a ≡ b → Exceeds r s → Exceeds (a ∷ r) (b ∷ s)
unfolding part
step a b r s e x = record { place = suc x.place; before = earlier; there = x.there }
  where
    earlier : (j : ℕ) → j < suc x.place → part (a ∷ r) j ≡ part (b ∷ s) j
    earlier zero h = e
    earlier (suc j) h = x.before j (omega arith)

greater-Exceeds : (a b : List ℕ) → length a ≡ length b → vec_cmp a b ≡ greater → Exceeds a b
unfolding vec_cmp part
greater-Exceeds [] [] n e = absurd (cc)
greater-Exceeds [] (b ∷ bs) n e = absurd (omega arith)
greater-Exceeds (a ∷ r) [] n e = absurd (omega arith)
greater-Exceeds (a ∷ r) (b ∷ bs) n e = elim (Bool-cases (ltb a b)) [
  | inl below ↦ absurd (let e1 = rw below at e in cc)
  | inr not_below ↦ elim (Bool-cases (ltb b a)) [
    | inl above ↦ record {
      place = 0;
      before = λ j h. absurd (omega arith);
      there = ltb→lt b a above;
    }
    | inr not_above ↦
        let rest = rw (not_below, not_above) at e in
        let same : a ≡ b = ground (arith, not_below, not_above) in
        step a b r bs same (greater-Exceeds r bs (omega arith) rest)
  ]
]

Exceeds-greater : (a b : List ℕ) → length a ≡ length b → Exceeds a b → vec_cmp a b ≡ greater
unfolding vec_cmp part
Exceeds-greater [] [] n x = absurd (let there = x.there in omega arith)
Exceeds-greater [] (b ∷ bs) n x = absurd (omega arith)
Exceeds-greater (a ∷ r) [] n x = absurd (omega arith)
Exceeds-greater (a ∷ r) (b ∷ bs) n x =
    go (λ rest. Exceeds-greater r bs (omega arith) rest) x.place x.before x.there
  where
    go :
        (Exceeds r bs → vec_cmp r bs ≡ greater)
        → (i : ℕ) → ((j : ℕ) → j < i → part (a ∷ r) j ≡ part (b ∷ bs) j)
        → part (b ∷ bs) i < part (a ∷ r) i
        → vec_cmp (a ∷ r) (b ∷ bs) ≡ greater
    go ih zero before there = ground (arith, there)
    go ih (suc i) before there =
        let same : a ≡ b = before 0 (omega arith) in
        let rest : Exceeds r bs = record {
          place = i;
          before = λ j h. before (suc j) (omega arith);
          there = there;
        } in
        ground (arith, same, ih rest)

Exceeds-same :
    (a b c d : List ℕ)
    → ((i : ℕ) → part c i ≡ part a i)
    → ((i : ℕ) → part d i ≡ part b i)
    → Exceeds a b
    → Exceeds c d
Exceeds-same a b c d ca db x = record {
  place = x.place;
  before = λ j h. ca j ∙ (x.before j h ∙ sym (db j));
  there = rw (ca x.place, db x.place) x.there;
}

pub compare_parts_iff : (a b : List ℕ) → (compare_parts a b ≡ greater) ↔ Exceeds a b
unfolding compare_parts
compare_parts_iff a b = (
  λ e.
      Exceeds-same _ _ a b (λ i. sym (part-resize n a i)) (λ i. sym (part-resize n b i))
        (greater-Exceeds _ _ lengths e),
  λ x.
      Exceeds-greater _ _ lengths
        (Exceeds-same a b _ _ (λ i. part-resize n a i) (λ i. part-resize n b i) x),
)
  where
    n : ℕ
    n = max (length a) (length b)

    lengths : length (resize n a) ≡ length (resize n b)
    lengths = length-resize n a (omega arith) ∙ sym (length-resize n b (omega arith))

Exceeds-trans : (a b c : List ℕ) → Exceeds a b → Exceeds b c → Exceeds a c
Exceeds-trans a b c x y = elim (lt-cases x.place y.place) [
  | inl first ↦ record {
    place = x.place;
    before = λ j h. x.before j h ∙ y.before j (omega arith);
    there = rw (← y.before x.place first) x.there;
  }
  | inr (inl second) ↦ record {
    place = y.place;
    before = λ j h. x.before j (omega arith) ∙ y.before j h;
    there = rw (x.before y.place second) y.there;
  }
  | inr (inr same) ↦ record {
    place = x.place;
    before = λ j h. x.before j h ∙ y.before j (omega arith);
    there =
        let high = x.there in
        let low = y.there in omega (arith, ap (part b) same, ap (part c) same, ap (part a) same);
  }
]

is_greater : (o : Order) → elim o [ greater ↦ true | _ ↦ false ] ≡ true → o ≡ greater
is_greater less e = cc
is_greater equal e = cc
is_greater greater e = refl

-- Both texts are versions, and at the first place where they differ, with zeros past the end of the
-- shorter one, the first has more.
pub record Supersedes (version current : String) : Type 0 where
  pub ours : List ℕ
  pub theirs : List ℕ
  pub parsed : parse_version version ≡ some ours
  pub parsed_current : parse_version current ≡ some theirs
  pub exceeds : Exceeds ours theirs

-- A release supersedes a version exactly when both are dotted numbers and at the first place where
-- they differ, with zeros past the end of the shorter one, the release has the greater number.
pub newer_iff :
    (r : Release) (current : String)
    → (is_newer_than r current ≡ true) ↔ Supersedes r.version current
unfolding is_newer_than compare
newer_iff r current = (to, from)
  where
    to : is_newer_than r current ≡ true → Supersedes r.version current
    to e = elim (Option-cases (parse_version r.version)) [
      | inl bad ↦ absurd (let e1 = rw (bad, is_newer_than) at e in cc)
      | inr (a, ours) ↦ elim (Option-cases (parse_version current)) [
        | inl bad ↦ absurd (let e1 = rw (ours, bad, is_newer_than) at e in cc)
        | inr (b, theirs) ↦
            let e1 = rw (ours, theirs, is_newer_than) at e in
            record {
              ours = a;
              theirs = b;
              parsed = ours;
              parsed_current = theirs;
              exceeds = (compare_parts_iff a b).0 (is_greater (compare_parts a b) e1);
            }
      ]
    ]

    from : Supersedes r.version current → is_newer_than r current ≡ true
    from n =
        rw (n.parsed, n.parsed_current, is_newer_than)
          (rw ((compare_parts_iff n.ours n.theirs).1 n.exceeds) refl)

pub never_self : (r : Release) → is_newer_than r r.version ≡ false
never_self r = elim (Bool-cases (is_newer_than r r.version)) [
  | inr old ↦ old
  | inl new ↦
      let x = (newer_iff r r.version).0 new in
      let same : x.ours ≡ x.theirs = cc (x.parsed, x.parsed_current) in
      let there = x.exceeds.there in absurd (omega (arith, ap (λ v. part v x.exceeds.place) same))
]

-- Being newer is a strict order, so a chain of upgrades never comes back to a version it has left.
pub newer_strict :
    (r q : Release) (current : String)
    → is_newer_than r q.version ≡ true
    → is_newer_than q current ≡ true
    → (is_newer_than r current ≡ true) × (is_newer_than r r.version ≡ false)
newer_strict r q current e f =
    let x = (newer_iff r q.version).0 e in
    let y = (newer_iff q current).0 f in
    let same : x.theirs ≡ y.ours = cc (x.parsed_current, y.parsed) in
    let middle : Exceeds y.ours y.theirs = y.exceeds in
    let high : Exceeds x.ours y.theirs =
      Exceeds-trans x.ours y.ours y.theirs (rw (← same) x.exceeds) middle in
    (
      (newer_iff r current).1 (record {
        ours = x.ours;
        theirs = y.theirs;
        parsed = x.parsed;
        parsed_current = y.parsed_current;
        exceeds = high;
      }),
      never_self r,
    )
