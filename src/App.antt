-- ===== src/App.antt =====
-- SFML/include/SFMLApp.h, SFML/src/SFMLApp.cpp and Main.cpp. SFML and Dear ImGui are not part of the
-- repository: what they report in a round of the main loop is an argument, and what is drawn is a list
-- of drawings.
pub mod Rounds
pub mod Main
use bark_direct_x.Prelude.{
  ℕ, zero, suc, ◌+◌, ◌-◌, ◌%◌, Bool, true, false, Option, none, some, List, [], ◌∷◌, ◌++◌, map,
  length, ltb, if◌then◌else◌,
}
use bark_direct_x.Prelude.Integers.{ℤ, pos, negsuc}
use bark_direct_x.Prelude.Outcome.{Outcome, ok, ◌>>=◌, noexcept, at}
use bark_direct_x.Math.{Math}
use bark_direct_x.Shape.{Shape, circle_shape, rectangle_shape, polygon_shape}
use bark_direct_x.Samples.{Input, GraphicsData, Color}
use bark_direct_x.Samples.Manager.{
  SampleFunctions, SampleManager, get_sample_nbr, update_sample, change_sample, next_sample,
  previous_sample, regenerate_sample, get_sample_data, give_mouse_position, give_left_mouse_click,
  give_right_mouse_click,
}
use bark_direct_x.Samples.Manager

-- `sf::Event`, by its type and the member that the program reads.
pub data Key : Type 0 where
  left_key right_key space_key other_key : Key

pub data Button : Type 0 where
  left_button right_button other_button : Button

pub data WindowEvent : Type 0 where
  closed other_event : WindowEvent
  key_released : Key → WindowEvent
  mouse_button_released : Button → WindowEvent

-- `static_cast<sf::Uint8>`.
abbrev pub to_uint8 : ℤ → ℕ
to_uint8 (pos n) = n % 256
to_uint8 (negsuc n) = 255 - n % 256

-- `sf::Color`.
pub record Rgba : Type 0 where
  pub r : ℕ
  pub g : ℕ
  pub b : ℕ
  pub a : ℕ

abbrev pub to_rgba : Color → Rgba
to_rgba color = record {
  r = to_uint8 color.r;
  g = to_uint8 color.g;
  b = to_uint8 color.b;
  a = to_uint8 color.a;
}

module _ ⦃m : Math⦄ where
  open m use {Float, Vector, zero_f, sub, get_x, get_y, xm_set}

  -- A shape that the window is asked to draw: a circle around its origin, a rectangle with its
  -- corner and size, filled or as an outline, and a convex polygon with its points.
  pub data Drawing : Type 0 where
    circle_drawing : Float → Float → Float → Rgba → Drawing
    rectangle_drawing : Float → Float → Float → Float → Rgba → Drawing
    border_drawing : Float → Float → Float → Float → Rgba → Drawing
    polygon_drawing : List (Float × Float) → Rgba → Drawing

  abbrev pub draw_circle : Vector → Float → Rgba → List Drawing
  draw_circle center radius color = circle_drawing (get_x center) (get_y center) radius color ∷ []

  unfoldable pub draw_rectangle : Vector → Vector → Rgba → List Drawing
  draw_rectangle min_bound max_bound color =
      let width = sub (get_x max_bound) (get_x min_bound) in
      let height = sub (get_y max_bound) (get_y min_bound) in
      rectangle_drawing (get_x min_bound) (get_y min_bound) width height color ∷ []

  unfoldable pub draw_rectangle_border : Vector → Vector → Rgba → List Drawing
  draw_rectangle_border min_bound max_bound color =
      let width = sub (get_x max_bound) (get_x min_bound) in
      let height = sub (get_y max_bound) (get_y min_bound) in
      border_drawing (get_x min_bound) (get_y min_bound) width height color ∷ []

  unfoldable pub draw_polygon : List Vector → Rgba → List Drawing
  draw_polygon vertices color =
      if ltb (length vertices) 3
      then []
      else polygon_drawing (map (λ v. (get_x v, get_y v)) vertices) color ∷ []

  -- The body of the loop in `DrawAllGraphicsData`.
  unfoldable pub draw_data : GraphicsData → List Drawing
  unfolding draw_rectangle draw_rectangle_border draw_polygon
  draw_data gd = elim gd.shape [
    | circle_shape c ↦ draw_circle c.center c.radius (to_rgba gd.color)
    | rectangle_shape r ↦
        if gd.filled
        then draw_rectangle r.min_bound r.max_bound (to_rgba gd.color)
        else draw_rectangle_border r.min_bound r.max_bound (to_rgba gd.color)
    | polygon_shape p ↦ draw_polygon p.vertices (to_rgba gd.color)
  ]

  unfoldable pub draw_all : List GraphicsData → List Drawing
  unfolding draw_data
  draw_all [] = []
  draw_all (gd ∷ rest) = draw_data gd ++ draw_all rest

  -- What SFML and ImGui report in a round of the main loop: the events, with what a call for each
  -- of them reads from outside; whether the list of samples is open and which of its entries are
  -- chosen; the buttons that are pressed; and the mouse.
  pub record Round : Type 0 where
    pub events : List (WindowEvent × Input)
    pub combo_open : Bool
    pub chosen : ℕ → Bool
    pub choice_input : ℕ → Input
    pub previous_pressed : Option Input
    pub regenerate_pressed : Option Input
    pub next_pressed : Option Input
    pub mouse_x : Float
    pub mouse_y : Float
    pub update_input : Input

  -- The state of `Run`: `quit`, the sample manager, and what the window shows.
  pub record App (S : Type 0) : Type 0 where
    pub manager : SampleManager S
    pub mouse_pos : Vector
    pub quit : Bool
    pub shown : List Drawing

  module _ {S : Type 0} (functions : SampleFunctions S) where
    -- `SampleManager` after a call at it.
    abbrev pub with_manager : App S → Outcome (SampleManager S) → Outcome (App S)
    with_manager app r = r >>= λ manager. ok (record app { manager = manager })

    -- The `switch` in the loop over the events.
    unfoldable pub handle : WindowEvent → Input → App S → Outcome (App S)
    unfolding previous_sample next_sample regenerate_sample give_left_mouse_click
        give_right_mouse_click
    handle closed input app = ok (record app { quit = true })
    handle other_event input app = ok app
    handle (key_released left_key) input app =
        with_manager app (previous_sample functions input app.manager)
    handle (key_released right_key) input app =
        with_manager app (next_sample functions input app.manager)
    handle (key_released space_key) input app =
        with_manager app (regenerate_sample functions input app.manager)
    handle (key_released other_key) input app = ok app
    handle (mouse_button_released left_button) input app =
        with_manager app (give_left_mouse_click functions app.manager)
    handle (mouse_button_released right_button) input app =
        with_manager app (give_right_mouse_click functions app.manager)
    handle (mouse_button_released other_button) input app = ok app

    unfoldable pub handle_all : List (WindowEvent × Input) → App S → Outcome (App S)
    unfolding handle
    handle_all [] app = ok app
    handle_all ((event, input) ∷ events) app = do
      app' ← handle event input app
      handle_all events app'

    -- The loop over the samples in the list, from `index` on.
    unfoldable pub choose : Round → ℕ → ℕ → App S → Outcome (App S)
    unfolding change_sample
    choose round index zero app = ok app
    choose round index (suc left) app = do
      _ ← at app.manager.samples index
      app' ←
          if round.chosen index
          then with_manager app
              (change_sample functions (pos index) (round.choice_input index) app.manager)
          else ok app
      choose round (suc index) left app'

    -- A button that calls `f` when it is pressed.
    unfoldable pub press :
        (Input → SampleManager S → Outcome (SampleManager S))
        → Option Input
        → App S
        → Outcome (App S)
    press f none app = ok app
    press f (some input) app = with_manager app (f input app.manager)

    -- The window of the sample manager.
    unfoldable pub show_manager : Round → App S → Outcome (App S)
    unfolding choose press get_sample_nbr previous_sample regenerate_sample next_sample
    show_manager round app = do
      _ ← at app.manager.samples app.manager.sample_idx
      app1 ← if round.combo_open then choose round 0 (get_sample_nbr app.manager) app else ok app
      _ ← at app1.manager.samples app1.manager.sample_idx
      app2 ← press (previous_sample functions) round.previous_pressed app1
      app3 ← press (regenerate_sample functions) round.regenerate_pressed app2
      press (next_sample functions) round.next_pressed app3

    -- The update of the sample and its drawing.
    unfoldable pub show_sample : Round → App S → Outcome (App S)
    unfolding give_mouse_position update_sample get_sample_data draw_all
    show_sample round app = do
      let mouse = xm_set round.mouse_x round.mouse_y zero_f zero_f
      moved ← give_mouse_position functions mouse app.manager
      updated ← update_sample functions round.update_input moved
      graphics ← get_sample_data functions updated
      ok (record app { manager = updated; mouse_pos = mouse; shown = draw_all graphics })

    -- The body of the main loop.
    unfoldable pub play : Round → App S → Outcome (App S)
    unfolding handle_all show_manager show_sample
    play round app = do
      app1 ← handle_all round.events app
      app2 ← show_manager round app1
      show_sample round app2

    -- `Run`, for the rounds that are played at most; it ends after the round in which the window is
    -- closed.
    unfoldable pub run : List Round → App S → Outcome (App S)
    unfolding play
    run [] app = ok app
    run (round ∷ rounds) app =
        if app.quit then ok app else (do app' ← play round app; run rounds app')

    -- `main`: `SetUp` and `Run`. `memory` is what the mouse's position is before it is set.
    unfoldable pub main : Vector → List S → Input → List Round → Outcome (App S)
    unfolding Manager.set_up run
    main memory made input rounds = do
      manager ← Manager.set_up functions made input Manager.new_manager
      noexcept
          (run rounds (record { manager = manager; mouse_pos = memory; quit = false; shown = [] }))
