-- ===== src/App/Main.antt =====
-- Main.cpp: the whole program, with its six samples.
use bark_direct_x.Prelude.{refl, List, [], false, arith, All-get}
use bark_direct_x.Prelude.Outcome.{Yields}
use bark_direct_x.Math.{Math}
use bark_direct_x.Math.Laws.{IsSigned}
use bark_direct_x.Samples.{Input}
use bark_direct_x.Samples.Manager.{SampleManager}
use bark_direct_x.Samples.Manager.Lifecycle.{IsTidy, set_up_current-Manages}
use bark_direct_x.Samples.Manager
use bark_direct_x.Samples.All.{functions, made}
use bark_direct_x.Samples.All.Program.{life, made-AllDown}
use bark_direct_x.App.{Round, main}
use bark_direct_x.App.Rounds.{run-IsSound}

module _ ⦃m : Math⦄ (signs : IsSigned m) where
  open m use {Vector}

  -- Where 1 is not negative and -1 is, the program never fails, whatever SFML and ImGui report: `main` with its
  -- six samples returns normally after any list of rounds of the main loop, whatever events, presses,
  -- choices, mouse positions, clocks and random numbers they bring. No exception reaches
  -- `std::terminate`, no vector is accessed out of range, no null pointer is followed, no counter
  -- overflows and no recursion is endless. Afterwards the manager's index is in range, the sample
  -- there is set up, and all others are torn down.
  pub main-Returns :
      (memory : Vector) (input : Input) (rounds : List Round)
      → Yields
          (λ app. IsTidy functions (life signs) app.manager)
          (main functions memory (made memory) input rounds)
  unfolding main made Manager.set_up
  main-Returns memory input rounds =
      let (ready, e, (managed, _)) =
        set_up_current-Manages functions (life signs) input
          (record { samples = made memory; sample_idx = 0 }) (omega arith)
          (λ i s at. All-get (life signs).IsDown (made memory) i (made-AllDown signs memory) at) in
      let (app, e', (tidy, _)) =
        run-IsSound functions (life signs) 6 (omega arith) rounds
          (record { manager = ready; mouse_pos = memory; quit = false; shown = [] }) managed in
      (app, rw (e, e') refl, tidy)
