-- ===== src/Utils/Json/Equal.antt =====
-- `==` of two `serde_json::Value`, decided. The fields of two equal objects are listed in one order.
use weavegraph.Base.{String-key, ◌≡◌, refl, sym, ap, Bool, true, false, Key}
use weavegraph.Utils.Json.{
  Value, null, bool, number, string, array, object, Items, nil, item, Fields, no_fields, field,
}

pub true_apart : ¬ (true ≡ false)
true_apart e = cc

abbrev bool_eq? : (a b : Bool) → Dec (a ≡ b)
bool_eq? true true = yes refl
bool_eq? false false = yes refl
bool_eq? true false = no true_apart
bool_eq? false true = no (λ e. true_apart (sym e))

module _ {N : Type 0} ⦃key : Key N⦄ where
  unfoldable mutual
    pub value_eq? : (v w : Value N) → Dec (v ≡ w)
    value_eq? null null = yes refl
    value_eq? (bool a) (bool b) = elim (bool_eq? a b) [
      | yes e ↦ yes (ap bool e)
      | no other ↦ no (λ e. other cc)
    ]
    value_eq? (number m) (number n) = elim (key.eq? m n) [
      | yes e ↦ yes (ap number e)
      | no other ↦ no (λ e. other cc)
    ]
    value_eq? (string s) (string t) = elim (String-key.eq? s t) [
      | yes e ↦ yes (ap string e)
      | no other ↦ no (λ e. other cc)
    ]
    value_eq? (array xs) (array ys) = elim (items_eq? xs ys) [
      | yes e ↦ yes (ap array e)
      | no other ↦ no (λ e. other cc)
    ]
    value_eq? (object fs) (object gs) = elim (fields_eq? fs gs) [
      | yes e ↦ yes (ap object e)
      | no other ↦ no (λ e. other cc)
    ]
    value_eq? v w = no (λ e. cc)

    items_eq? : (xs ys : Items N) → Dec (xs ≡ ys)
    items_eq? nil nil = yes refl
    items_eq? (item x xs) (item y ys) = elim (value_eq? x y) [
      | no other ↦ no (λ e. other cc)
      | yes e ↦ elim (items_eq? xs ys) [ yes f ↦ yes cc | no other ↦ no (λ g. other cc) ]
    ]
    items_eq? xs ys = no (λ e. cc)

    fields_eq? : (fs gs : Fields N) → Dec (fs ≡ gs)
    fields_eq? no_fields no_fields = yes refl
    fields_eq? (field k v fs) (field j w gs) = elim (String-key.eq? k j) [
      | no other ↦ no (λ e. other cc)
      | yes d ↦ elim (value_eq? v w) [
        | no other ↦ no (λ e. other cc)
        | yes e ↦ elim (fields_eq? fs gs) [ yes f ↦ yes cc | no other ↦ no (λ g. other cc) ]
      ]
    ]
    fields_eq? fs gs = no (λ e. cc)

  instance abbrev pub Value-key : Key (Value N)
  Value-key = record { eq? = value_eq? }
