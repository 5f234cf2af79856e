-- ===== src/Math/Exact.antt =====
-- A concrete `Math` for witnesses and tests: integers for `float`, and their triples for vectors.
-- Division rounds towards zero, lengths are kept squared.
use bark_direct_x.Prelude.{suc, ◌+◌, ◌/◌, ◌^◌, ◌≡◌, refl, arith}
pub use bark_direct_x.Prelude.Integers.{
  ℤ, pos, negsuc, pos_part, neg_part, sub_ℕ, ◌+ℤ◌, ◌-ℤ◌, ◌*ℤ◌, le_ℤ, lt_ℤ,
}
use bark_direct_x.Math.{Math}
use bark_direct_x.Math.Laws.{
  IsOrdered, IsSigned, IsComponentwise, IsSymmetric, IsMonotone, IsReflecting,
}

infixl 70 ◌/ℤ◌
abbrev ◌/ℤ◌ : ℤ → ℤ → ℤ
pos a /ℤ pos b = pos (a / b)
pos a /ℤ negsuc b = sub_ℕ 0 (a / suc b)
negsuc a /ℤ pos b = sub_ℕ 0 (suc a / b)
negsuc a /ℤ negsuc b = pos (suc a / suc b)

abbrev abs : ℤ → ℤ
abs a = pos (pos_part a + neg_part a)

pub record Triple : Type 0 where
  pub x : ℤ
  pub y : ℤ
  pub z : ℤ

abbrev pub triple : ℤ → ℤ → ℤ → Triple
triple a b c = record { x = a; y = b; z = c }

abbrev all_equal : ℤ → Triple
all_equal a = triple a a a

abbrev dot : Triple → Triple → ℤ
dot u v = u.x *ℤ v.x +ℤ u.y *ℤ v.y +ℤ u.z *ℤ v.z

instance abbrev pub exact : Math
exact = record {
  Float = ℤ;
  zero_f = pos 0;
  one_f = pos 1;
  two_f = pos 2;
  half_f = pos 0;
  max_f = pos 1000000;
  min_f = pos 1;
  literal = λ n k. pos (n / 10 ^ k);
  sqrt = λ a. a;
  add = ◌+ℤ◌;
  sub = ◌-ℤ◌;
  mul = ◌*ℤ◌;
  div = ◌/ℤ◌;
  neg = λ a. pos 0 -ℤ a;
  lt = lt_ℤ;
  le = le_ℤ;
  Vector = Triple;
  xm_set = λ x y z w. triple x y z;
  xm_braces = λ x y. triple x y (pos 0);
  xm_zero = triple (pos 0) (pos 0) (pos 0);
  identity_r1 = triple (pos 0) (pos 1) (pos 0);
  get_x = λ v. v.x;
  get_y = λ v. v.y;
  set_x = λ v a. triple a v.y v.z;
  set_y = λ v a. triple v.x a v.z;
  xm_add = λ u v. triple (u.x +ℤ v.x) (u.y +ℤ v.y) (u.z +ℤ v.z);
  xm_subtract = λ u v. triple (u.x -ℤ v.x) (u.y -ℤ v.y) (u.z -ℤ v.z);
  xm_divide = λ u v. triple (u.x /ℤ v.x) (u.y /ℤ v.y) (u.z /ℤ v.z);
  xm_scale = λ v a. triple (v.x *ℤ a) (v.y *ℤ a) (v.z *ℤ a);
  xm_abs = λ v. triple (abs v.x) (abs v.y) (abs v.z);
  length_sq3 = λ v. all_equal (dot v v);
  length3 = λ v. all_equal (dot v v);
  normalize3 = λ v. v;
  dot3 = λ u v. all_equal (dot u v);
  store_float = λ v. v.x;
}

pub exact-IsOrdered : IsOrdered exact
exact-IsOrdered = record {
  le_trans = λ a b c h k. ground arith;
  le_number = λ a b h. ground arith;
  le_total = λ a b h k. ground arith;
  lt_not_le = λ a b h. ground arith;
  not_lt_le = λ a b h k l. ground arith;
}

pub exact-IsSigned : IsSigned exact
exact-IsSigned = record { one_nonneg = refl; neg_one_negative = refl }

pub exact-IsComponentwise : IsComponentwise exact
exact-IsComponentwise = record {
  get_x_set = λ x y z w. refl;
  get_y_set = λ x y z w. refl;
  get_x_braces = λ x y. refl;
  get_y_braces = λ x y. refl;
  get_x_add = λ u v. refl;
  get_y_add = λ u v. refl;
}

square_sub : (a b : ℤ) → (a -ℤ b) *ℤ (a -ℤ b) ≡ (b -ℤ a) *ℤ (b -ℤ a)
square_sub a b = ground arith

pub exact-IsSymmetric : IsSymmetric exact
exact-IsSymmetric = record {
  add_comm = λ a b. ground arith;
  length_sq_subtract = λ u v. rw (square_sub u.x v.x, square_sub u.y v.y, square_sub u.z v.z);
}

pub exact-IsMonotone : IsMonotone exact
exact-IsMonotone = record { add_mono = λ a b c h k l. ground arith }

pub exact-IsReflecting : IsReflecting exact
exact-IsReflecting = record {
  zero_number = refl;
  neg_negative = λ a h. ground arith;
  neg_nonneg = λ a h. ground arith;
  get_x_set_x = λ v a. refl;
  get_y_set_x = λ v a. refl;
  get_x_set_y = λ v a. refl;
  get_y_set_y = λ v a. refl;
}
