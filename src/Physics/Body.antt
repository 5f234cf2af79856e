-- ===== src/Physics/Body.antt =====
-- Physics/include/Body.h and Physics/src/Body.cpp.
use bark_direct_x.Prelude.{Bool, true, false}
use bark_direct_x.Math.{Math}

pub data BodyType : Type 0 where
  dynamic static none : BodyType

-- `Type == BodyType::DYNAMIC`, and `STATIC`.
abbrev pub is_dynamic : BodyType → Bool
is_dynamic dynamic = true
is_dynamic _ = false

abbrev pub is_static : BodyType → Bool
is_static static = true
is_static _ = false

module _ ⦃m : Math⦄ where
  open m use {Float, Vector, zero_f, one_f, neg, le, xm_zero, xm_add}

  pub record Body : Type 0 where
    pub position : Vector
    pub velocity : Vector
    pub mass : Float
    pub type : BodyType
    pub force : Vector

  -- `Body()`.
  abbrev pub default : Body
  default = record {
    position = xm_zero;
    velocity = xm_zero;
    mass = neg one_f;
    type = dynamic;
    force = xm_zero;
  }

  unfoldable pub make : Vector → Vector → Float → Body
  make position velocity mass = record default {
    position = position;
    velocity = velocity;
    mass = mass;
  }

  unfoldable pub apply_force : Body → Vector → Body
  apply_force body force = record body { force = xm_add body.force force }

  unfoldable pub is_enabled : Body → Bool
  is_enabled body = le zero_f body.mass

  unfoldable pub enable : Body → Body
  enable body = record body { mass = one_f }

  unfoldable pub disable : Body → Body
  disable body = record body { mass = neg one_f }

  unfoldable pub reset_force : Body → Body
  reset_force body = record body { force = xm_zero }
