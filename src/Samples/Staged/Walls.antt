-- ===== src/Samples/Staged/Walls.antt =====
-- The walls of the window in samples/src/TriggerSample.cpp and BouncingCollisionSample.cpp.
use bark_direct_x.Prelude.{
  ℕ, ◌<◌, ◌≡◌, refl, ap, sym, subst, ◌∙◌, Bool, true, false, arith, if_rule,
}
use bark_direct_x.Prelude.Outcome.{Yields}
use bark_direct_x.Math.{Math}
use bark_direct_x.Math.Laws.{IsNumber, IsOrdered, IsReflecting}
use bark_direct_x.Common.Utility.{abs}
use bark_direct_x.Shape.Rectangle.{Rectangle}
use bark_direct_x.Physics.Refs.{ColliderRef}
use bark_direct_x.Physics.Body.{Body}
use bark_direct_x.Physics.Collider.{get_bounds}
use bark_direct_x.Physics.World.{World}
use bark_direct_x.Physics.World.Ready.{IsReady, Refers, Extends}
use bark_direct_x.Physics.World.Ready.Changes.{Refers-get, modify_body-IsReady}
use bark_direct_x.Samples.Objects.{bounce_x, bounce_y, bounce, bounce_object}
use bark_direct_x.Samples.Metrics.{width, height}

module _ ⦃m : Math⦄ where
  open m use {Float, Vector, zero_f, literal, neg, le, lt, get_x, get_y, set_x, set_y}

  pub bounce_object-IsReady :
      (k n : ℕ) (w : World) (ref : ColliderRef)
      → IsReady k w
      → n < k
      → Refers w n ref
      → Yields
          (λ w'. IsReady k w' × Extends w w' × (w' ≡ record w { bodies = w'.bodies }))
          (bounce_object w ref)
  unfolding bounce_object
  bounce_object-IsReady k n w ref r h is =
      let (col, found, _, live) = Refers-get k n w ref r h is in
      let (w', e, r', x, f) =
        modify_body-IsReady k w col.body_ref (bounce (get_bounds col)) r live.0 in
      (w', rw found e, (r', x, f))

  module _ (order : IsOrdered m) (reflecting : IsReflecting m) where
    abs_nonneg : (a : Float) → IsNumber a → le zero_f (abs a) ≡ true
    unfolding abs
    abs_nonneg a number =
        ground
          (arith, reflecting.neg_negative a, order.not_lt_le a zero_f number reflecting.zero_number)

    neg_abs_nonpos : (a : Float) → IsNumber a → le (neg (abs a)) zero_f ≡ true
    neg_abs_nonpos a number = reflecting.neg_nonneg (abs a) (abs_nonneg a number)

    -- The velocity of a body after the walls of one axis: it points inwards where the bounds touch
    -- a wall, the lower one first, and is what it was where they touch none.
    abbrev pub Inwards : Bool → Bool → Float → Float → Type 0
    Inwards low high before after =
        (low ≡ true → le zero_f after ≡ true)
        × (low ≡ false → high ≡ true → le after zero_f ≡ true)
        × (low ≡ false → high ≡ false → after ≡ before)

    module _ (bounds : Rectangle) (body : Body) where
      abbrev pub low_x : Bool
      low_x = le (get_x bounds.min_bound) zero_f

      abbrev pub high_x : Bool
      high_x = le (literal width 0) (get_x bounds.max_bound)

      abbrev pub low_y : Bool
      low_y = le (get_y bounds.min_bound) zero_f

      abbrev pub high_y : Bool
      high_y = le (literal height 0) (get_y bounds.max_bound)

      bounce_x-Inwards :
          IsNumber (get_x body.velocity)
          → Inwards low_x high_x (get_x body.velocity) (get_x (bounce_x bounds body).velocity)
            × (get_y (bounce_x bounds body).velocity ≡ get_y body.velocity)
      unfolding bounce_x
      bounce_x-Inwards number =
          let v = body.velocity in
          let a = abs (get_x v) in
          ground (
            arith,
            reflecting.get_x_set_x v a,
            reflecting.get_x_set_x v (neg a),
            reflecting.get_y_set_x v a,
            reflecting.get_y_set_x v (neg a),
            abs_nonneg (get_x v) number,
            neg_abs_nonpos (get_x v) number,
          )

      bounce_y-Inwards :
          IsNumber (get_y body.velocity)
          → Inwards low_y high_y (get_y body.velocity) (get_y (bounce_y bounds body).velocity)
            × (get_x (bounce_y bounds body).velocity ≡ get_x body.velocity)
      unfolding bounce_y
      bounce_y-Inwards number =
          let v = body.velocity in
          let a = abs (get_y v) in
          ground (
            arith,
            reflecting.get_y_set_y v a,
            reflecting.get_y_set_y v (neg a),
            reflecting.get_x_set_y v a,
            reflecting.get_x_set_y v (neg a),
            abs_nonneg (get_y v) number,
            neg_abs_nonpos (get_y v) number,
          )

    -- Only the velocity changes.
    abbrev pub Turns : Body → Body → Type 0
    Turns body body' = body' ≡ record body { velocity = body'.velocity }

    bounce_x-Turns : (bounds : Rectangle) (body : Body) → Turns body (bounce_x bounds body)
    unfolding bounce_x
    bounce_x-Turns bounds body =
        if_rule (Turns body) (le (get_x bounds.min_bound) zero_f) _ _ (λ _. refl)
          (λ _.
            if_rule (Turns body) (le (literal width 0) (get_x bounds.max_bound)) _ _ (λ _. refl)
              (λ _. refl))

    bounce_y-Turns : (bounds : Rectangle) (body : Body) → Turns body (bounce_y bounds body)
    unfolding bounce_y
    bounce_y-Turns bounds body =
        if_rule (Turns body) (le (get_y bounds.min_bound) zero_f) _ _ (λ _. refl)
          (λ _.
            if_rule (Turns body) (le (literal height 0) (get_y bounds.max_bound)) _ _ (λ _. refl)
              (λ _. refl))

    -- Where numbers are ordered, negation changes signs and a vector is made of its components: the
    -- bounce at the walls changes nothing of a body but its velocity, whose components are numbers.
    -- On each axis, where the bounds reach the lower wall the velocity does not point to it
    -- afterwards; where they reach the upper wall only, it does not point to that; and where they
    -- reach neither, it is what it was.
    pub bounce-Inwards :
        (bounds : Rectangle) (body : Body)
        → IsNumber (get_x body.velocity)
        → IsNumber (get_y body.velocity)
        → Turns body (bounce bounds body)
          × Inwards
              (low_x bounds body)
              (high_x bounds body)
              (get_x body.velocity)
              (get_x (bounce bounds body).velocity)
          × Inwards
              (low_y bounds body)
              (high_y bounds body)
              (get_y body.velocity)
              (get_y (bounce bounds body).velocity)
    unfolding bounce
    bounce-Inwards bounds body nx ny =
        let one = bounce_x bounds body in
        let (x, same_y) = bounce_x-Inwards bounds body nx in
        let (y, same_x) =
          bounce_y-Inwards bounds one (subst (λ a. le a a ≡ true) (sym same_y) ny) in
        (
          bounce_y-Turns bounds one
              ∙ ap (λ (b : Body). record b { velocity = (bounce_y bounds one).velocity })
                  (bounce_x-Turns bounds body),
          subst (Inwards (low_x bounds body) (high_x bounds body) (get_x body.velocity))
              (sym same_x) x,
          subst
              (λ a.
                Inwards (low_y bounds body) (high_y bounds body) a
                  (get_y (bounce_y bounds one).velocity))
              same_y y,
        )
