-- ===== src/Json/Equality.antt =====
-- `==` on `serde_json::Value`, and that it decides equality.
use ph_reactor.Base.{◌≡◌, refl, ap, ◌↔◌, Bool, true, false, ◌&&◌, arith, &&-eq-true}
use ph_reactor.Base.Eq.{◌==◌, ==_iff, ==_self, string_eq, nat_eq}
use ph_reactor.Json.Data.{
  Value, null, bool, num, other_num, str, arr, obj, Values, nil, cons, Members, end, member,
}

abbrev pub bool_eq : Bool → Bool → Bool
bool_eq true b = b
bool_eq false true = false
bool_eq false false = true

unfoldable mutual
  pub value_eq : Value → Value → Bool
  value_eq null null = true
  value_eq (bool a) (bool b) = bool_eq a b
  value_eq (num a) (num b) = a == b
  value_eq (other_num a) (other_num b) = a == b
  value_eq (str a) (str b) = a == b
  value_eq (arr a) (arr b) = values_eq a b
  value_eq (obj a) (obj b) = members_eq a b
  value_eq _ _ = false

  pub values_eq : Values → Values → Bool
  values_eq nil nil = true
  values_eq (cons a r) (cons b s) = value_eq a b && values_eq r s
  values_eq _ _ = false

  pub members_eq : Members → Members → Bool
  members_eq end end = true
  members_eq (member j a r) (member k b s) = j == k && (value_eq a b && members_eq r s)
  members_eq _ _ = false

mutual
  unfolding value_eq values_eq members_eq

  value_eq_sound : (a b : Value) → value_eq a b ≡ true → a ≡ b
  value_eq_sound null null h = refl
  value_eq_sound (bool true) (bool true) h = refl
  value_eq_sound (bool false) (bool false) h = refl
  value_eq_sound (num a) (num b) h = ap num ((==_iff a b).0 h)
  value_eq_sound (other_num a) (other_num b) h = ap other_num ((==_iff a b).0 h)
  value_eq_sound (str a) (str b) h = ap str ((==_iff a b).0 h)
  value_eq_sound (arr a) (arr b) h = ap arr (values_eq_sound a b h)
  value_eq_sound (obj a) (obj b) h = ap obj (members_eq_sound a b h)
  value_eq_sound _ _ h = cc

  values_eq_sound : (a b : Values) → values_eq a b ≡ true → a ≡ b
  values_eq_sound nil nil h = refl
  values_eq_sound (cons a r) (cons b s) h = ground (arith, value_eq_sound a b, values_eq_sound r s)
  values_eq_sound _ _ h = cc

  members_eq_sound : (a b : Members) → members_eq a b ≡ true → a ≡ b
  members_eq_sound end end h = refl
  members_eq_sound (member j a r) (member k b s) h =
      let (same_key, rest) = &&-eq-true (j == k) (value_eq a b && members_eq r s) h in
      let (same, same_rest) = &&-eq-true (value_eq a b) (members_eq r s) rest in
      cc ((==_iff j k).0 same_key, value_eq_sound a b same, members_eq_sound r s same_rest)
  members_eq_sound _ _ h = cc

mutual
  unfolding value_eq values_eq members_eq

  value_eq_self : (a : Value) → value_eq a a ≡ true
  value_eq_self null = refl
  value_eq_self (bool true) = refl
  value_eq_self (bool false) = refl
  value_eq_self (num a) = ==_self a
  value_eq_self (other_num a) = ==_self a
  value_eq_self (str a) = ==_self a
  value_eq_self (arr a) = values_eq_self a
  value_eq_self (obj a) = members_eq_self a

  values_eq_self : (a : Values) → values_eq a a ≡ true
  values_eq_self nil = refl
  values_eq_self (cons a r) = rw (value_eq_self a) (values_eq_self r)

  members_eq_self : (a : Members) → members_eq a a ≡ true
  members_eq_self end = refl
  members_eq_self (member j a r) = rw (==_self j, value_eq_self a) (members_eq_self r)

-- Two values compare equal exactly when they are the same value.
pub value_eq_iff : (a b : Value) → (value_eq a b ≡ true) ↔ (a ≡ b)
value_eq_iff a b = (value_eq_sound a b, λ e. rw (← e) (value_eq_self a))
