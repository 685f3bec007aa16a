-- ===== src/Store/Apply/Keeps.antt =====
-- What the parts of a composed step keep, the whole keeps.
use ph_reactor.Base.{◌≡◌, refl, ap, Bool, true, false, if◌then◌else◌}
use ph_reactor.Base.Result.{ok, err}
use ph_reactor.Store.State.{Inner}
use ph_reactor.Store.Apply.{Outcome, then_with}

-- A composed step keeps what both parts keep.
pub then_with-keeps :
    {A B : Type 0} (R : Inner → Type 0) (p : Outcome A) (f : A → Inner → Outcome B)
    → R p.1
    → ((v : A) (t : Inner) → R t → R (f v t).1)
    → R (then_with p f).1
then_with-keeps R (ok v, s) f r k = k v s r
then_with-keeps R (err e, s) f r k = r

pub if-keeps :
    (R : Inner → Type 0) (test : Bool) (s t : Inner) → R s → R t → R (if test then s else t)
if-keeps R true s t r q = r
if-keeps R false s t r q = q

pub then-keeps :
    {A : Type 0} (R : Inner → Type 0) (test : Bool) (p q : Outcome A)
    → R p.1
    → R q.1
    → R (if test then p else q).1
then-keeps R true p q r t = r
then-keeps R false p q r t = t

-- A composed step succeeds where both parts do.
pub then_with-eq-ok :
    {A B : Type 0} (p : Outcome A) (f : A → Inner → Outcome B) {v : B} {t : Inner}
    → then_with p f ≡ (ok v, t)
    → (u : A) × (s : Inner) × (p ≡ (ok u, s)) × (f u s ≡ (ok v, t))
then_with-eq-ok (ok u, s) f h = (u, s, refl, h)
then_with-eq-ok (err e, s) f h = absurd (cc (ap (λ o. o.0) h))
