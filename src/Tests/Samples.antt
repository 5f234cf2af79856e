-- ===== src/Tests/Samples.antt =====
-- Runs of the samples of samples/src, of their manager and of the application.
use bark_direct_x.Prelude.{
  ℕ, ◌<◌, ◌≡◌, refl, true, false, none, some, List, [], ◌∷◌, arith, length, ◌==◌, All-get,
}
use bark_direct_x.Prelude.Outcome.{◌>>=◌, Yields}
use bark_direct_x.Math.Exact.{
  pos, negsuc, Triple, triple, exact, exact-IsSigned, exact-IsOrdered, exact-IsReflecting,
}
use bark_direct_x.Shape.Rectangle.{Rectangle}
use bark_direct_x.Shape.Rectangle
use bark_direct_x.Physics.Body.{Body}
use bark_direct_x.Physics.Body
use bark_direct_x.Physics.World.Ready.{new_world-IsClear}
use bark_direct_x.Samples.{Input, Sample, new_sample, update}
use bark_direct_x.Samples.Objects.{bounce, draw_quadtree, draw_fuel}
use bark_direct_x.Samples.Staged.Walls.{
  Turns, Inwards, low_x, high_x, low_y, high_y, bounce-Inwards,
}
use bark_direct_x.Samples.Staged.Drawing.{Outlines, LeavesOf, draw_root-Outlines}
use bark_direct_x.Samples.Counters.{Counts}
use bark_direct_x.Samples.Trigger.{Trigger, hooks}
use bark_direct_x.Samples.Trigger.Life.{IsSetUp, set_up-IsSetUp, update-Counts}
use bark_direct_x.Samples.Manager.{
  SampleManager, next_sample, previous_sample, next_index, set_up_current,
}
use bark_direct_x.Samples.Manager.Lifecycle.{
  IsTidy, Manages, set_up_current-Manages, next_sample-Manages,
}
use bark_direct_x.Samples.Manager.Rotation.{next_all, next_all-reaches, previous_sample-next_sample}
use bark_direct_x.Samples.All.{AnySample, functions, made}
use bark_direct_x.Samples.All.Program.{life, made-AllDown}
use bark_direct_x.App.{
  Round, App, main, closed, key_released, mouse_button_released, right_key, space_key, left_button,
}
use bark_direct_x.App.Main.{main-Returns}
use bark_direct_x.Samples

abbrev nowhere : Triple
nowhere = triple (pos 0) (pos 0) (pos 0)

-- The clock stands at 7, every distribution returns its lower bound.
abbrev an_input : Input
an_input = record {
  now = pos 7;
  seconds = λ t. t;
  draws = record { real = λ k min max. min; integer = λ k min max. min };
}

abbrev quiet_round : Round
quiet_round = record {
  events = [];
  combo_open = false;
  chosen = λ n. false;
  choice_input = λ n. an_input;
  previous_pressed = none;
  regenerate_pressed = none;
  next_pressed = none;
  mouse_x = pos 3;
  mouse_y = pos 4;
  update_input = an_input;
}

-- The next sample by a key, the fifth from the list, the one before it by the button, a click, and
-- the window is closed.
abbrev some_rounds : List Round
some_rounds =
    record quiet_round { events = (key_released right_key, an_input) ∷ [] }
    ∷ record quiet_round { combo_open = true; chosen = λ n. n == 4 }
    ∷ record quiet_round { previous_pressed = some an_input }
    ∷ record quiet_round {
      events =
          (mouse_button_released left_button, an_input)
          ∷ (key_released space_key, an_input)
          ∷ (closed, an_input)
          ∷ [];
    }
    ∷ []

main-Returns_example :
    Yields
      (λ (app : App AnySample). IsTidy functions (life exact-IsSigned) app.manager)
      (main functions nowhere (made nowhere) an_input some_rounds)
main-Returns_example = main-Returns exact-IsSigned nowhere an_input some_rounds

abbrev unset : SampleManager AnySample
unset = record { samples = made nowhere; sample_idx = 0 }

-- The manager of the six samples after `SetUp`, and after `NextSample`.
begun :
    Yields
      (λ after. Manages functions (life exact-IsSigned) 6 after × (after.sample_idx ≡ 0))
      (set_up_current functions an_input unset)
unfolding made
begun =
    set_up_current-Manages functions (life exact-IsSigned) an_input unset (omega arith) (λ i s at.
      All-get (life exact-IsSigned).IsDown (made nowhere) i (made-AllDown exact-IsSigned nowhere)
        at)

abbrev first : SampleManager AnySample
first = begun.0

next_all-reaches_example :
    (k : ℕ) × (k < length first.samples)
    × ((inputs : List Input)
        → length inputs ≡ k
        → Yields
            (λ after. IsTidy functions (life exact-IsSigned) after × (after.sample_idx ≡ 3))
            (next_all functions (life exact-IsSigned) inputs first))
next_all-reaches_example =
    next_all-reaches functions (life exact-IsSigned) first 3 begun.2.0.0 (omega arith)
      (omega (arith, begun.2.0.1))

moved_on :
    Yields
      (λ after.
        Manages functions (life exact-IsSigned) 6 after
        × (after.sample_idx ≡ next_index functions first))
      (next_sample functions an_input first)
moved_on =
    next_sample-Manages functions (life exact-IsSigned) an_input first 6 (omega arith) begun.2.0

abbrev second : SampleManager AnySample
second = moved_on.0

second-index : second.sample_idx ≡ 1
unfolding next_index
second-index = ground (arith, moved_on.2.1, begun.2.1, begun.2.0.1)

previous_sample-next_sample_example :
    Yields
      (λ after.
        IsTidy functions (life exact-IsSigned) after × (after.sample_idx ≡ second.sample_idx))
      (next_sample functions an_input second >>= previous_sample functions an_input)
    × Yields
        (λ after.
          IsTidy functions (life exact-IsSigned) after × (after.sample_idx ≡ second.sample_idx))
        (previous_sample functions an_input second >>= next_sample functions an_input)
previous_sample-next_sample_example =
    previous_sample-next_sample functions (life exact-IsSigned) an_input an_input second
      moved_on.2.0.0 (omega (arith, second-index))

abbrev bounds : Rectangle
bounds = Rectangle.make (triple (negsuc 0) (pos 5) (pos 0)) (triple (pos 2) (pos 9) (pos 0))

-- It touches the left wall and moves to it.
abbrev leaving : Body
leaving = record Body.default { mass = pos 1; velocity = triple (negsuc 2) (pos 1) (pos 0) }

bounce-Inwards_example :
    Turns exact-IsOrdered exact-IsReflecting leaving (bounce bounds leaving)
    × Inwards exact-IsOrdered exact-IsReflecting
        (low_x exact-IsOrdered exact-IsReflecting bounds leaving)
        (high_x exact-IsOrdered exact-IsReflecting bounds leaving)
        (negsuc 2)
        (exact.get_x (bounce bounds leaving).velocity)
    × Inwards exact-IsOrdered exact-IsReflecting
        (low_y exact-IsOrdered exact-IsReflecting bounds leaving)
        (high_y exact-IsOrdered exact-IsReflecting bounds leaving)
        (pos 1)
        (exact.get_y (bounce bounds leaving).velocity)
bounce-Inwards_example = bounce-Inwards exact-IsOrdered exact-IsReflecting bounds leaving refl refl

bounced : (bounce bounds leaving).velocity ≡ triple (pos 3) (pos 1) (pos 0)
unfolding bounce
bounced = refl

abbrev trigger : Sample Trigger
trigger =
    new_sample nowhere
      (record { quad_tree_graphics_data = []; trigger_nbr_per_collider = []; nb_objects = 0 })

-- The sample with its 300 objects.
started : Yields (IsSetUp 300) (bark_direct_x.Samples.set_up hooks an_input trigger)
unfolding new_sample
started =
    set_up-IsSetUp exact-IsSigned an_input trigger
      (record { clear = new_world-IsClear; no_bodies = refl; no_cols = refl; no_graphics = refl })
      refl

update-Counts_example :
    Yields
      (λ s'.
        (k' : ℕ) × IsSetUp k' s' × Counts s'.own.trigger_nbr_per_collider k' s'.world.col_ref_pairs)
      (update hooks an_input started.0)
update-Counts_example = update-Counts exact-IsSigned an_input 300 started.0 started.2

draw_root-Outlines_example :
    Yields
      (Outlines (LeavesOf started.0.world.quad_tree 0) [])
      (draw_quadtree draw_fuel started.0.world.quad_tree 0 [])
draw_root-Outlines_example = draw_root-Outlines 300 started.0.world started.2.staged.ready
