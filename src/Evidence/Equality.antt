-- ===== src/Evidence/Equality.antt =====
-- Python's `==` on JSON values. The keys of an object are kept in one order, so that equality does
-- not depend on how they came.
use mathlib.Core.Path.{subst}
use night_recon.Prelude.{
  &&-eq-true, Bool, Eq, ap, arith, bool_Eq, bool_eq, eq_of_beq, eq_refl, false, list_Eq, nat_Eq,
  option_Eq, pair_Eq, refl, string_Eq, true, ◌&&◌, ◌==◌, ◌↔◌, ◌≡◌,
}
use night_recon.Json.{
  Fields, Items, Json, array, boolean, closed, done, field, item, null, number, object, text,
}

unfoldable mutual
  pub json_eq : Json → Json → Bool
  json_eq null null = true
  json_eq (text s) (text t) = s == t
  json_eq (number m) (number n) = m == n
  json_eq (boolean a) (boolean b) = bool_eq a b
  json_eq (array xs) (array ys) = items_eq xs ys
  json_eq (object fs) (object gs) = fields_eq fs gs
  json_eq a b = false

  pub items_eq : Items → Items → Bool
  items_eq done done = true
  items_eq (item x xs) (item y ys) = json_eq x y && items_eq xs ys
  items_eq xs ys = false

  pub fields_eq : Fields → Fields → Bool
  fields_eq closed closed = true
  fields_eq (field k v fs) (field j w gs) = k == j && json_eq v w && fields_eq fs gs
  fields_eq fs gs = false

mutual
  unfolding json_eq

  json_eq_sound : (a b : Json) → json_eq a b ≡ true → a ≡ b
  json_eq_sound null b h = ground (arith, h)
  json_eq_sound (text s) b h =
      elim b as (λ b. json_eq (text s) b ≡ true → text s ≡ b) [
        | text t ↦ λ h. ground (arith, h, string_Eq.equal_iff s t)
        | _ ↦ λ h. absurd (ground (arith, h))
      ]
        h
  json_eq_sound (number m) b h = ground (arith, h)
  json_eq_sound (boolean m) b h = ground (arith, h)
  json_eq_sound (array xs) b h =
      elim b as (λ b. json_eq (array xs) b ≡ true → array xs ≡ b) [
        | array ys ↦ λ h. ap array (items_eq_sound xs ys h)
        | _ ↦ λ h. absurd (ground (arith, h))
      ]
        h
  json_eq_sound (object fs) b h =
      elim b as (λ b. json_eq (object fs) b ≡ true → object fs ≡ b) [
        | object gs ↦ λ h. ap object (fields_eq_sound fs gs h)
        | _ ↦ λ h. absurd (ground (arith, h))
      ]
        h

  items_eq_sound : (xs ys : Items) → items_eq xs ys ≡ true → xs ≡ ys
  items_eq_sound done done h = refl
  items_eq_sound done (item y ys) h = absurd (ground (arith, h))
  items_eq_sound (item x xs) done h = absurd (ground (arith, h))
  items_eq_sound (item x xs) (item y ys) h =
      let (a, b) = &&-eq-true (json_eq x y) (items_eq xs ys) h in
      λ i. item (json_eq_sound x y a i) (items_eq_sound xs ys b i)

  fields_eq_sound : (fs gs : Fields) → fields_eq fs gs ≡ true → fs ≡ gs
  fields_eq_sound closed closed h = refl
  fields_eq_sound closed (field j w gs) h = absurd (ground (arith, h))
  fields_eq_sound (field k v fs) closed h = absurd (ground (arith, h))
  fields_eq_sound (field k v fs) (field j w gs) h =
      let (first, c) = &&-eq-true (k == j && json_eq v w) (fields_eq fs gs) h in
      let (a, b) = &&-eq-true (k == j) (json_eq v w) first in
      λ i. field (eq_of_beq k j a i) (json_eq_sound v w b i) (fields_eq_sound fs gs c i)

mutual
  unfolding json_eq

  json_eq_refl : (a : Json) → json_eq a a ≡ true
  json_eq_refl null = refl
  json_eq_refl (text s) = eq_refl s
  json_eq_refl (number n) = eq_refl n
  json_eq_refl (boolean b) = eq_refl b
  json_eq_refl (array xs) = items_eq_refl xs
  json_eq_refl (object fs) = fields_eq_refl fs

  items_eq_refl : (xs : Items) → items_eq xs xs ≡ true
  items_eq_refl done = refl
  items_eq_refl (item x xs) = ground (arith, json_eq_refl x, items_eq_refl xs)

  fields_eq_refl : (fs : Fields) → fields_eq fs fs ≡ true
  fields_eq_refl closed = refl
  fields_eq_refl (field k v fs) = ground (arith, eq_refl k, json_eq_refl v, fields_eq_refl fs)

pub json_eq_iff : (a b : Json) → (json_eq a b ≡ true) ↔ (a ≡ b)
json_eq_iff a b = (json_eq_sound a b, λ e. subst (λ c. json_eq a c ≡ true) e (json_eq_refl a))

instance abbrev pub json_Eq : Eq Json
json_Eq = record { equal = json_eq; equal_iff = json_eq_iff }
