-- ===== src/Shape/Polygon.antt =====
-- `class Polygon` of Physics/include/Shape.h. Its `Center` and `Size` call members that XMVECTOR
-- does not have; nothing instantiates them, and they are left out.
use bark_direct_x.Prelude.{ℕ, List, map, length}
use bark_direct_x.Math.{Math}

module _ ⦃m : Math⦄ where
  open m use {Vector, xm_add}

  pub record Polygon : Type 0 where
    pub vertices : List Vector

  abbrev pub make : List Vector → Polygon
  make vertices = record { vertices = vertices }

  abbrev pub vertices_count : Polygon → ℕ
  vertices_count p = length p.vertices

  unfoldable pub set_vertices : Polygon → List Vector → Polygon
  set_vertices p vertices = record p { vertices = vertices }

  -- `operator+`.
  unfoldable pub translate : Polygon → Vector → Polygon
  translate p vec = make (map (λ vertex. xm_add vertex vec) p.vertices)
