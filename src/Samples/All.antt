-- ===== src/Samples/All.antt =====
-- The six samples that samples/src/SampleManager.cpp makes, behind the pointers to class `Sample`.
pub mod Program
use bark_direct_x.Prelude.{ℕ, List, [], ◌∷◌}
use bark_direct_x.Prelude.Outcome.{Outcome, ok, ◌>>=◌}
use bark_direct_x.Math.{Math}
use bark_direct_x.Samples.{Sample, Hooks, Input, GraphicsData, new_sample}
use bark_direct_x.Samples.Laws.{functions_of}
use bark_direct_x.Samples.Manager.{SampleFunctions}
use bark_direct_x.Samples.Default
use bark_direct_x.Samples.StarSystem.{StarSystem}
use bark_direct_x.Samples.StarSystem
use bark_direct_x.Samples.FormsTrigger.{FormsTrigger}
use bark_direct_x.Samples.FormsTrigger
use bark_direct_x.Samples.Trigger.{Trigger}
use bark_direct_x.Samples.Trigger
use bark_direct_x.Samples.BouncingCollision.{BouncingCollision}
use bark_direct_x.Samples.BouncingCollision
use bark_direct_x.Samples.GroundCollision

module _ ⦃m : Math⦄ where
  open m use {Vector}

  pub data AnySample : Type 0 where
    default_sample : Sample Unit → AnySample
    star_system_sample : Sample StarSystem → AnySample
    forms_trigger_sample : Sample FormsTrigger → AnySample
    trigger_sample : Sample Trigger → AnySample
    bouncing_collision_sample : Sample BouncingCollision → AnySample
    ground_collision_sample : Sample Unit → AnySample

  -- A call that may fail, and one that returns, at a sample of one class.
  abbrev pub call_at :
      {Own : Type 0}
      → (Sample Own → AnySample)
      → (SampleFunctions (Sample Own) → Sample Own → Outcome (Sample Own))
      → Hooks Own
      → Sample Own
      → Outcome AnySample
  call_at any call hooks s = call (functions_of hooks) s >>= λ s'. ok (any s')

  -- The virtual calls.
  unfoldable pub dispatch :
      ((Own : Type 0) → SampleFunctions (Sample Own) → Sample Own → Outcome (Sample Own))
      → AnySample
      → Outcome AnySample
  unfolding functions_of Default.hooks StarSystem.hooks FormsTrigger.hooks Trigger.hooks
      BouncingCollision.hooks GroundCollision.hooks
  dispatch call (default_sample s) = call_at default_sample (call Unit) Default.hooks s
  dispatch call (star_system_sample s) =
      call_at star_system_sample (call StarSystem) StarSystem.hooks s
  dispatch call (forms_trigger_sample s) =
      call_at forms_trigger_sample (call FormsTrigger) FormsTrigger.hooks s
  dispatch call (trigger_sample s) = call_at trigger_sample (call Trigger) Trigger.hooks s
  dispatch call (bouncing_collision_sample s) =
      call_at bouncing_collision_sample (call BouncingCollision) BouncingCollision.hooks s
  dispatch call (ground_collision_sample s) =
      call_at ground_collision_sample (call Unit) GroundCollision.hooks s

  unfoldable pub change :
      ((Own : Type 0) → SampleFunctions (Sample Own) → Sample Own → Sample Own)
      → AnySample
      → AnySample
  unfolding functions_of Default.hooks StarSystem.hooks FormsTrigger.hooks Trigger.hooks
      BouncingCollision.hooks GroundCollision.hooks
  change f (default_sample s) = default_sample (f Unit (functions_of Default.hooks) s)
  change f (star_system_sample s) =
      star_system_sample (f StarSystem (functions_of StarSystem.hooks) s)
  change f (forms_trigger_sample s) =
      forms_trigger_sample (f FormsTrigger (functions_of FormsTrigger.hooks) s)
  change f (trigger_sample s) = trigger_sample (f Trigger (functions_of Trigger.hooks) s)
  change f (bouncing_collision_sample s) =
      bouncing_collision_sample (f BouncingCollision (functions_of BouncingCollision.hooks) s)
  change f (ground_collision_sample s) =
      ground_collision_sample (f Unit (functions_of GroundCollision.hooks) s)

  unfoldable pub graphics_of : AnySample → List GraphicsData
  graphics_of (default_sample s) = s.all_graphics_data
  graphics_of (star_system_sample s) = s.all_graphics_data
  graphics_of (forms_trigger_sample s) = s.all_graphics_data
  graphics_of (trigger_sample s) = s.all_graphics_data
  graphics_of (bouncing_collision_sample s) = s.all_graphics_data
  graphics_of (ground_collision_sample s) = s.all_graphics_data

  unfoldable pub functions : SampleFunctions AnySample
  unfolding dispatch change graphics_of
  functions = record {
    set_up = λ input. dispatch (λ _ f. f.set_up input);
    update = λ input. dispatch (λ _ f. f.update input);
    tear_down = change (λ _ f. f.tear_down);
    get_mouse_pos = λ v. change (λ _ f. f.get_mouse_pos v);
    on_left_click = change (λ _ f. f.on_left_click);
    on_right_click = change (λ _ f. f.on_right_click);
    graphics = graphics_of;
  }

  -- The samples that `SampleManager::SetUp` makes, in their order; `memory` is what the mouse's
  -- position is before it is set.
  unfoldable pub made : Vector → List AnySample
  unfolding new_sample
  made memory =
      default_sample (new_sample memory tt)
      ∷ star_system_sample (
          new_sample memory
            (record { circles = []; sun_ref = record { index = 0; gen_index = 0 } }))
      ∷ forms_trigger_sample (
          new_sample memory (record {
            trigger_nbr_per_collider = [];
            movable_triangle_ref = record { index = 0; gen_index = 0 };
          }))
      ∷ trigger_sample (
          new_sample memory (record {
            quad_tree_graphics_data = [];
            trigger_nbr_per_collider = [];
            nb_objects = 0;
          }))
      ∷ bouncing_collision_sample (
          new_sample memory (record {
            quad_tree_graphics_data = [];
            collision_nbr_per_collider = [];
            nb_objects = 0;
          }))
      ∷ ground_collision_sample (new_sample memory tt)
      ∷ []
