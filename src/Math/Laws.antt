-- ===== src/Math/Laws.antt =====
-- What the theorems assume of `float` and DirectXMath.
use bark_direct_x.Prelude.{◌≡◌, true, false, ◌⊎◌, arith}
use bark_direct_x.Math.{Math}

-- A value that is not a NaN compares equal to itself.
abbrev pub IsNumber : ⦃m : Math⦄ → m.Float → Type 0
IsNumber ⦃m⦄ a = m.le a a ≡ true

-- The comparisons of IEEE 754: a total order away from NaN, and false at a NaN.
pub record IsOrdered (m : Math) : Type 0 where
  pub le_trans : (a b c : m.Float) → m.le a b ≡ true → m.le b c ≡ true → m.le a c ≡ true
  pub le_number : (a b : m.Float) → m.le a b ≡ true → (m.le a a ≡ true) × (m.le b b ≡ true)
  pub le_total :
      (a b : m.Float) → m.le a a ≡ true → m.le b b ≡ true → (m.le a b ≡ true) ⊎ (m.le b a ≡ true)
  pub lt_not_le : (a b : m.Float) → m.lt a b ≡ true → (m.le a b ≡ true) × (m.le b a ≡ false)
  pub not_lt_le :
      (a b : m.Float) → m.le a a ≡ true → m.le b b ≡ true → m.lt a b ≡ false → m.le b a ≡ true

pub le-not_lt : {m : Math} (laws : IsOrdered m) (a b : m.Float) → m.le a b ≡ true → m.lt b a ≡ false
le-not_lt laws a b h = ground (arith, h, laws.lt_not_le b a)

-- The signs of the two masses that `Enable` and `Disable` store.
pub record IsSigned (m : Math) : Type 0 where
  pub one_nonneg : m.le m.zero_f m.one_f ≡ true
  pub neg_one_negative : m.le m.zero_f (m.neg m.one_f) ≡ false

-- `XMVectorSet`, the accessors, and addition component by component.
pub record IsComponentwise (m : Math) : Type 0 where
  pub get_x_set : (x y z w : m.Float) → m.get_x (m.xm_set x y z w) ≡ x
  pub get_y_set : (x y z w : m.Float) → m.get_y (m.xm_set x y z w) ≡ y
  pub get_x_braces : (x y : m.Float) → m.get_x (m.xm_braces x y) ≡ x
  pub get_y_braces : (x y : m.Float) → m.get_y (m.xm_braces x y) ≡ y
  pub get_x_add : (u v : m.Vector) → m.get_x (m.xm_add u v) ≡ m.add (m.get_x u) (m.get_x v)
  pub get_y_add : (u v : m.Vector) → m.get_y (m.xm_add u v) ≡ m.add (m.get_y u) (m.get_y v)

-- Addition is commutative, and `XMVector3LengthSq` does not see the sign of a difference.
pub record IsSymmetric (m : Math) : Type 0 where
  pub add_comm : (a b : m.Float) → m.add a b ≡ m.add b a
  pub length_sq_subtract :
      (u v : m.Vector) → m.length_sq3 (m.xm_subtract u v) ≡ m.length_sq3 (m.xm_subtract v u)

-- Addition of one value is monotone.
pub record IsMonotone (m : Math) : Type 0 where
  pub add_mono :
      (a b c : m.Float)
      → m.le a b ≡ true
      → m.le (m.add a c) (m.add a c) ≡ true
      → m.le (m.add b c) (m.add b c) ≡ true
      → m.le (m.add a c) (m.add b c) ≡ true

-- Signs and negation, and `XMVectorSetX` and `XMVectorSetY`, which replace one component.
pub record IsReflecting (m : Math) : Type 0 where
  pub zero_number : m.le m.zero_f m.zero_f ≡ true
  pub neg_negative : (a : m.Float) → m.lt a m.zero_f ≡ true → m.le m.zero_f (m.neg a) ≡ true
  pub neg_nonneg : (a : m.Float) → m.le m.zero_f a ≡ true → m.le (m.neg a) m.zero_f ≡ true
  pub get_x_set_x : (v : m.Vector) (a : m.Float) → m.get_x (m.set_x v a) ≡ a
  pub get_y_set_x : (v : m.Vector) (a : m.Float) → m.get_y (m.set_x v a) ≡ m.get_y v
  pub get_x_set_y : (v : m.Vector) (a : m.Float) → m.get_x (m.set_y v a) ≡ m.get_x v
  pub get_y_set_y : (v : m.Vector) (a : m.Float) → m.get_y (m.set_y v a) ≡ a
