-- ===== src/Doc/Merge/Converge.antt =====
-- Convergence: operations that keep the promises of timestamps and clocks commute.
use mathlib.Core.Logic.{∥∥₁_elim}
use text.Mathlib.TextEquality.{IsScalar-prop}
use mathlib.Core.List.{Perm, Permᴰ}
use ph_reactor.Base.{
  ◌≡◌, refl, sym, ◌∙◌, ap, ◌⊎◌, inl, inr, String, Bool, true, false, Option, none, some, List, ◌||◌,
  arith, if◌then◌else◌, subst, Bool-cases, is_some, All, All-map, ap₂,
}
use ph_reactor.Base.Eq.{◌==◌, ==_iff, string_eq}
use ph_reactor.Base.Map.{Distinct}
use ph_reactor.Doc.Data.{Field, Op, field_from_op}
use ph_reactor.Doc.Apply.{Target, changes}
use ph_reactor.Doc.Merge.Order.{
  Compat, cell, cell-absent, cell-present, top, top_comm, top_swap, top-Compat,
}
use ph_reactor.Doc.Merge.View.{
  View, View-path, view, field_at, field_live, step, run, apply_ops, view-run, is_none,
}

View-set : IsSet View
View-set = hlevel IsScalar-prop

or_swap : (x y z : Bool) → (x || y || z) ≡ (x || z || y)
or_swap x y z = ground arith

-- `Write k f` holds of the writes of field `k` that may meet in one document, and `Present k` of the
-- fields that the document starts with.
module _ (Write : String → Field → Type 0) (Present : String → Type 0)
    (compat : (k : String) (f g : Field) → Write k f → Write k g → Compat f g) where
  -- An operation whose effect may be reordered: it writes a value, or deletes a field that is there,
  -- or deletes the whole document.
  abbrev pub OkAt : Option String → Op → Type 0
  OkAt none op = Unit
  OkAt (some k) op = Write k (field_from_op op) × ((is_some op.value ≡ true) ⊎ Present k)

  abbrev pub OkOp : Op → Type 0
  OkOp op = OkAt op.key op × Distinct op.clock

  pub record Good (v : View) : Type 0 where
    pub written : (k : String) (f : Field) → v.field k ≡ some f → Write k f
    pub kept : (k : String) → Present k → v.deleted ≡ false → is_some (v.field k) ≡ true

  cell_fresh :
      (k : String) (op : Op)
      → (Present k → ⊥)
      → OkAt (some k) op
      → cell none op ≡ some (field_from_op op)
  cell_fresh k op absent (ok, inl value) = cell-absent op value
  cell_fresh k op absent (ok, inr present) = absurd (absent present)

  -- Two operations on one field commute.
  cell_comm :
      (k : String) (c : Option Field) (a b : Op)
      → ((f : Field) → c ≡ some f → Write k f)
      → (Present k → is_some c ≡ true)
      → OkAt (some k) a
      → OkAt (some k) b
      → cell (cell c a) b ≡ cell (cell c b) a
  cell_comm k none a b w p oka okb =
      let fa = field_from_op a in
      let fb = field_from_op b in
      let absent : Present k → ⊥ = λ h. cc (p h) in
      let ab : Compat fa fb = compat k fa fb oka.0 okb.0 in
      rw (cell_fresh k a absent oka, cell_fresh k b absent okb)
        (cell-present fa b ab
          ∙ ap some (top_swap fa fb ab)
          ∙ sym (cell-present fb a (compat k fb fa okb.0 oka.0)))
  cell_comm k (some f) a b w p oka okb =
      let fa = field_from_op a in
      let fb = field_from_op b in
      let cf = compat k f fa (w f refl) oka.0 in
      let cg = compat k f fb (w f refl) okb.0 in
      let ab = compat k fa fb oka.0 okb.0 in
      let ba = compat k fb fa okb.0 oka.0 in
      rw (cell-present f a cf, cell-present f b cg)
        (cell-present (top f fa) b (top-Compat f fa fb cg ab)
          ∙ ap some (top_comm f fa fb cf cg ab)
          ∙ sym (cell-present (top f fb) a (top-Compat f fb fa cf ba)))

  -- The same for the fields of a document, whatever the two keys are.
  field_comm :
      (v : View) (ka kb : Option String) (a b : Op) (j : String)
      → Good v
      → OkAt ka a
      → OkAt kb b
      → (if v.deleted || is_none ka then field_at ka v a j else field_live kb (field_at ka v a) b j)
        ≡ (if v.deleted || is_none kb
            then field_at kb v b j
            else field_live ka (field_at kb v b) a j)
  field_comm v ka kb a b j good oka okb = elim (Bool-cases v.deleted) [
    | inl dead ↦ rw dead
    | inr alive ↦ rw alive (live ka kb oka okb alive)
  ]
    where
      live :
          (ka kb : Option String)
          → OkAt ka a
          → OkAt kb b
          → v.deleted ≡ false
          → (if is_none ka
              then field_live ka v.field a j
              else field_live kb (field_live ka v.field a) b j)
            ≡ (if is_none kb
                then field_live kb v.field b j
                else field_live ka (field_live kb v.field b) a j)
      live none none oka okb alive = refl
      live none (some l) oka okb alive = refl
      live (some k) none oka okb alive = refl
      live (some k) (some l) oka okb alive = elim (Bool-cases (k == j)) [
        | inr other ↦ rw other
        | inl at_k ↦ elim (Bool-cases (l == j)) [
          | inr other ↦ rw (at_k, other)
          | inl at_l ↦
              let oka' : OkAt (some j) a = subst (λ x. OkAt (some x) a) ((==_iff k j).0 at_k) oka in
              let okb' : OkAt (some j) b = subst (λ x. OkAt (some x) b) ((==_iff l j).0 at_l) okb in
              rw (at_k, at_l)
                (cell_comm j (v.field j) a b (good.written j) (λ h. good.kept j h alive) oka' okb')
        ]
      ]

  step_comm :
      (v : View) (a b : Op) → Good v → OkOp a → OkOp b → step (step v a) b ≡ step (step v b) a
  step_comm v a b good oka okb =
      View-path _ _ (λ j. field_comm v a.key b.key a b j good oka.0 okb.0) (λ o. omega arith)
        (or_swap v.deleted (is_none a.key) (is_none b.key))

  cell_written :
      (k : String) (c : Option Field) (op : Op) (f : Field)
      → ((g : Field) → c ≡ some g → Write k g)
      → Write k (field_from_op op)
      → cell c op ≡ some f
      → Write k f
  unfolding cell
  cell_written k c op f old new h = elim (Bool-cases (changes c op)) [
    | inl writes ↦
        let written : some (field_from_op op) ≡ some f = rw writes at h in
        let same : field_from_op op ≡ f = cc in subst (Write k) same new
    | inr skips ↦ old f (rw skips at h)
  ]

  cell_kept : (c : Option Field) (op : Op) → is_some c ≡ true → is_some (cell c op) ≡ true
  unfolding cell
  cell_kept c op h = ground arith

  live-written :
      (v : View) (key : Option String) (op : Op) (j : String) (f : Field)
      → Good v
      → OkAt key op
      → field_live key v.field op j ≡ some f
      → Write j f
  live-written v none op j f good ok h = cc
  live-written v (some k) op j f good ok h = elim (Bool-cases (k == j)) [
    | inl here ↦
        let at_j : Write j (field_from_op op) =
          subst (λ x. Write x (field_from_op op)) ((==_iff k j).0 here) ok.0 in
        cell_written j (v.field j) op f (good.written j) at_j (rw here at h)
    | inr other ↦ good.written j f (rw other at h)
  ]

  live-kept :
      (v : View) (key : Option String) (op : Op) (j : String)
      → is_none key ≡ false
      → is_some (v.field j) ≡ true
      → is_some (field_live key v.field op j) ≡ true
  live-kept v none op j alive h = cc
  live-kept v (some k) op j alive h = ground (arith, cell_kept (v.field j) op)

  step-Good : (v : View) (op : Op) → Good v → OkOp op → Good (step v op)
  step-Good v op good ok = record {
    written = λ k f h. elim (Bool-cases v.deleted) [
      | inl dead ↦ good.written k f (rw dead at h)
      | inr alive ↦ live-written v op.key op k f good ok.0 (rw alive at h)
    ];
    kept = λ k present h. elim (Bool-cases v.deleted) [
      | inl dead ↦ cc (rw dead at h)
      | inr alive ↦ rw alive (live-kept v op.key op k (rw alive at h) (good.kept k present alive))
    ];
  }

  run_permᴰ :
      {xs ys : List Op}
      → Permᴰ xs ys
      → (v : View) → Good v
      → All OkOp xs
      → (run v xs ≡ run v ys) × All OkOp ys
  run_permᴰ Permᴰ.nil v good ok = (refl, tt)
  run_permᴰ (Permᴰ.cons {a} {b} {l₁} {l₂} e p) v good ok =
      let okb : OkOp b = subst OkOp e ok.0 in
      let (same, rest) = run_permᴰ p (step v b) (step-Good v b good okb) ok.1 in
      (ap (λ x. run (step v x) l₁) e ∙ same, (okb, rest))
  run_permᴰ (Permᴰ.swap {a} {b} {l = l} e f) v good ok = (
    ap (λ w. run w l) (step_comm v a b good ok.0 ok.1.0)
        ∙ ap₂ (λ x y. run (step (step v x) y) l) f e,
    (subst OkOp f ok.1.0, (subst OkOp e ok.0, ok.1.1)),
  )
  run_permᴰ (Permᴰ.trans p q) v good ok =
      let (first, okm) = run_permᴰ p v good ok in
      let (second, okz) = run_permᴰ q v good okm in (first ∙ second, okz)

  Distinct-All : (xs : List Op) → All OkOp xs → All (λ op. Distinct op.clock) xs
  Distinct-All xs = All-map OkOp (λ op. Distinct op.clock) xs (λ op ok. ok.1)

  -- Two nodes that apply the same operations in any two orders show the same document: the same
  -- fields with their tombstones, the same counters and the same deletion flag. The operations are
  -- those of `OkOp`, and writes of one field keep the promises of `Compat`.
  pub converge :
      (t : Target) (xs ys : List Op)
      → Perm xs ys
      → Good (view t)
      → All OkOp xs
      → All (λ op. Distinct op.clock) ys
      → view (apply_ops t xs) ≡ view (apply_ops t ys)
  converge t xs ys p good ok d =
      view-run t xs (Distinct-All xs ok)
      ∙ ∥∥₁_elim p (View-set _ _) (λ q. (run_permᴰ q (view t) good ok).0)
      ∙ sym (view-run t ys d)
