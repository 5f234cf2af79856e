-- ===== src/Math.antt =====
-- C++ `float` and DirectXMath, which are not part of the repository: a record of the types and
-- operations that the code calls. A definition that computes with them takes the record as an
-- instance argument, a theorem takes the laws that it needs as hypotheses.
pub mod Laws
pub mod Exact
use bark_direct_x.Prelude.{ℕ, Bool}

pub record Math : Type 1 where
  -- `float`: the constants in use, arithmetic, `<` and `<=` (`a > b` is `b < a`), and the limits
  -- `std::numeric_limits<float>::max()` and `min()` (the least positive normal value).
  pub Float : Type 0
  pub zero_f : Float
  pub one_f : Float
  pub two_f : Float
  pub half_f : Float
  pub max_f : Float
  pub min_f : Float
  -- A decimal literal or the conversion of an integer: `literal 25 1` is `2.5f`.
  pub literal : ℕ → ℕ → Float
  pub sqrt : Float → Float
  pub add : Float → Float → Float
  pub sub : Float → Float → Float
  pub mul : Float → Float → Float
  pub div : Float → Float → Float
  pub neg : Float → Float
  pub lt : Float → Float → Bool
  pub le : Float → Float → Bool
  -- DirectXMath: `XMVECTOR` and the `XMVector…` functions. `xm_braces x y` is `XMVECTOR{x, y}`, and
  -- `identity_r1` is `g_XMIdentityR1`.
  pub Vector : Type 0
  pub xm_set : Float → Float → Float → Float → Vector
  pub xm_braces : Float → Float → Vector
  pub xm_zero : Vector
  pub identity_r1 : Vector
  pub get_x : Vector → Float
  pub get_y : Vector → Float
  pub set_x : Vector → Float → Vector
  pub set_y : Vector → Float → Vector
  pub xm_add : Vector → Vector → Vector
  pub xm_subtract : Vector → Vector → Vector
  pub xm_divide : Vector → Vector → Vector
  pub xm_scale : Vector → Float → Vector
  pub xm_abs : Vector → Vector
  pub length_sq3 : Vector → Vector
  pub length3 : Vector → Vector
  pub normalize3 : Vector → Vector
  pub dot3 : Vector → Vector → Vector
  -- `XMStoreFloat`.
  pub store_float : Vector → Float
