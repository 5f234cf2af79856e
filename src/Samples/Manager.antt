-- ===== src/Samples/Manager.antt =====
-- samples/include/SampleManager.h and samples/src/SampleManager.cpp, for samples of any type with the
-- functions of class `Sample`. Samples.All has the type of the six samples of the program.
pub mod Lifecycle
pub mod Rotation
use bark_direct_x.Prelude.{ℕ, ◌+◌, ◌-◌, ◌^◌, List, [], ◌∷◌, ◌++◌, length, set, leb, if◌then◌else◌}
use bark_direct_x.Prelude.Integers.{ℤ, pos, negsuc}
use bark_direct_x.Prelude.Outcome.{Outcome, ok, ◌>>=◌, at, modify}
use bark_direct_x.Math.{Math}
use bark_direct_x.Samples.{Input, GraphicsData}

-- The conversion of an `int` to `std::size_t`.
abbrev pub to_size : ℤ → ℕ
to_size (pos n) = n
to_size (negsuc n) = 2 ^ 64 - 1 - n

module _ ⦃m : Math⦄ where
  open m use {Vector}

  -- The public functions of a sample.
  pub record SampleFunctions (S : Type 0) : Type 0 where
    pub set_up : Input → S → Outcome S
    pub update : Input → S → Outcome S
    pub tear_down : S → S
    pub get_mouse_pos : Vector → S → S
    pub on_left_click : S → S
    pub on_right_click : S → S
    pub graphics : S → List GraphicsData

  pub record SampleManager (S : Type 0) : Type 0 where
    pub samples : List S
    pub sample_idx : ℕ

  -- `SampleManager()`.
  abbrev pub new_manager : {S : Type 0} → SampleManager S
  new_manager = record { samples = []; sample_idx = 0 }

  unfoldable pub get_sample_nbr : {S : Type 0} → SampleManager S → ℕ
  get_sample_nbr manager = length manager.samples

  module _ {S : Type 0} (functions : SampleFunctions S) where
    -- `_samples[_sampleIdx]->SetUp()`.
    unfoldable pub set_up_current : Input → SampleManager S → Outcome (SampleManager S)
    set_up_current input manager = do
      sample ← at manager.samples manager.sample_idx
      sample' ← functions.set_up input sample
      ok (record manager { samples = set manager.samples manager.sample_idx sample' })

    -- A call at `_samples[_sampleIdx]` that returns.
    unfoldable pub change_current : (S → S) → SampleManager S → Outcome (SampleManager S)
    change_current f manager = do
      samples ← modify manager.samples manager.sample_idx f
      ok (record manager { samples = samples })

    -- `SetUp`, with the samples that it makes.
    unfoldable pub set_up : List S → Input → SampleManager S → Outcome (SampleManager S)
    unfolding set_up_current
    set_up made input manager =
        set_up_current input (record manager { samples = manager.samples ++ made })

    unfoldable pub update_sample : Input → SampleManager S → Outcome (SampleManager S)
    update_sample input manager = do
      sample ← at manager.samples manager.sample_idx
      sample' ← functions.update input sample
      ok (record manager { samples = set manager.samples manager.sample_idx sample' })

    -- The current sample is torn down, the index changes, and the sample there is set up.
    unfoldable pub switch :
        (SampleManager S → ℕ) → Input → SampleManager S → Outcome (SampleManager S)
    unfolding set_up_current change_current
    switch choose input manager = do
      down ← change_current functions.tear_down manager
      set_up_current input (record down { sample_idx = choose down })

    unfoldable pub change_sample : ℤ → Input → SampleManager S → Outcome (SampleManager S)
    unfolding switch
    change_sample idx = switch (λ _. to_size idx)

    -- The index after `NextSample`, and after `PreviousSample`.
    unfoldable pub next_index : SampleManager S → ℕ
    next_index manager =
        if leb (length manager.samples - 1) manager.sample_idx then 1 else manager.sample_idx + 1

    unfoldable pub previous_index : SampleManager S → ℕ
    previous_index manager =
        if leb manager.sample_idx 1 then length manager.samples - 1 else manager.sample_idx - 1

    unfoldable pub next_sample : Input → SampleManager S → Outcome (SampleManager S)
    unfolding switch next_index
    next_sample = switch next_index

    unfoldable pub previous_sample : Input → SampleManager S → Outcome (SampleManager S)
    unfolding switch previous_index
    previous_sample = switch previous_index

    unfoldable pub regenerate_sample : Input → SampleManager S → Outcome (SampleManager S)
    unfolding switch
    regenerate_sample = switch (λ down. down.sample_idx)

    unfoldable pub get_sample_data : SampleManager S → Outcome (List GraphicsData)
    get_sample_data manager = do
      sample ← at manager.samples manager.sample_idx
      ok (functions.graphics sample)

    unfoldable pub give_mouse_position : Vector → SampleManager S → Outcome (SampleManager S)
    unfolding change_current
    give_mouse_position position = change_current (functions.get_mouse_pos position)

    unfoldable pub give_left_mouse_click : SampleManager S → Outcome (SampleManager S)
    unfolding change_current
    give_left_mouse_click = change_current functions.on_left_click

    unfoldable pub give_right_mouse_click : SampleManager S → Outcome (SampleManager S)
    unfolding change_current
    give_right_mouse_click = change_current functions.on_right_click

  -- A call of the manager by the application.
  pub data Command : Type 0 where
    update_command next_command previous_command regenerate_command : Input → Command
    change_command : ℤ → Input → Command
    mouse_command : Vector → Command
    left_click_command right_click_command : Command

  module _ {S : Type 0} (functions : SampleFunctions S) where
    unfoldable pub run : Command → SampleManager S → Outcome (SampleManager S)
    unfolding update_sample next_sample previous_sample regenerate_sample change_sample
        give_mouse_position give_left_mouse_click give_right_mouse_click
    run (update_command input) = update_sample functions input
    run (next_command input) = next_sample functions input
    run (previous_command input) = previous_sample functions input
    run (regenerate_command input) = regenerate_sample functions input
    run (change_command idx input) = change_sample functions idx input
    run (mouse_command position) = give_mouse_position functions position
    run left_click_command = give_left_mouse_click functions
    run right_click_command = give_right_mouse_click functions
