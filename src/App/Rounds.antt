-- ===== src/App/Rounds.antt =====
-- SFML/src/SFMLApp.cpp: the main loop keeps the samples of the manager in order. The samples are known
-- by what their functions promise.
use bark_direct_x.Prelude.{
  ℕ, zero, suc, ◌+◌, ◌≤◌, ◌<◌, ◌≡◌, refl, true, Option, none, some, List, [], ◌∷◌, arith,
  get_elem?-some, if_rule,
}
use bark_direct_x.Prelude.Integers.{pos}
use bark_direct_x.Prelude.Outcome.{Outcome, ok, ◌>>=◌, at, Yields}
use bark_direct_x.Math.{Math}
use bark_direct_x.Samples.{Input}
use bark_direct_x.Samples.Manager.{
  SampleFunctions, SampleManager, get_sample_nbr, get_sample_data, update_command, next_command,
  previous_command, regenerate_command, change_command, mouse_command, left_click_command,
  right_click_command, next_sample, previous_sample, regenerate_sample, change_sample,
}
use bark_direct_x.Samples.Manager.Lifecycle.{Lifecycle, Manages, run-Manages}
use bark_direct_x.App.{
  WindowEvent, closed, other_event, key_released, mouse_button_released, left_key, right_key,
  space_key, other_key, left_button, right_button, other_button, Round, App, draw_all, with_manager,
  handle, handle_all, choose, press, show_manager, show_sample, play, run,
}
use bark_direct_x.Samples.Manager

module _ ⦃m : Math⦄ {S : Type 0} (functions : SampleFunctions S) (life : Lifecycle functions)
    (n : ℕ) (many : 1 < n) where
  open m use {Vector}

  -- The manager has `n` samples, of which exactly the current one is up.
  abbrev pub IsSound : App S → Type 0
  IsSound app = Manages functions life n app.manager

  with_manager-IsSound :
      (app : App S) (r : Outcome (SampleManager S))
      → Yields (Manages functions life n) r
      → Yields IsSound (with_manager functions app r)
  with_manager-IsSound app r (manager, e, managed) =
      (record app { manager = manager }, rw e refl, managed)

  current-Yields :
      (app : App S) → IsSound app → (s : S) × (at app.manager.samples app.manager.sample_idx ≡ ok s)
  current-Yields app (t, size) =
      let (s, e) = get_elem?-some app.manager.samples app.manager.sample_idx t.in_range in
      (s, rw e refl)

  handle-IsSound :
      (event : WindowEvent) (input : Input) (app : App S)
      → IsSound app
      → Yields IsSound (handle functions event input app)
  unfolding handle Manager.run
  handle-IsSound closed input app sound = (record app { quit = true }, refl, sound)
  handle-IsSound other_event input app sound = (app, refl, sound)
  handle-IsSound (key_released left_key) input app sound =
      with_manager-IsSound app _
        (run-Manages functions life (previous_command input) app.manager n many tt sound)
  handle-IsSound (key_released right_key) input app sound =
      with_manager-IsSound app _
        (run-Manages functions life (next_command input) app.manager n many tt sound)
  handle-IsSound (key_released space_key) input app sound =
      with_manager-IsSound app _
        (run-Manages functions life (regenerate_command input) app.manager n many tt sound)
  handle-IsSound (key_released other_key) input app sound = (app, refl, sound)
  handle-IsSound (mouse_button_released left_button) input app sound =
      with_manager-IsSound app _
        (run-Manages functions life left_click_command app.manager n many tt sound)
  handle-IsSound (mouse_button_released right_button) input app sound =
      with_manager-IsSound app _
        (run-Manages functions life right_click_command app.manager n many tt sound)
  handle-IsSound (mouse_button_released other_button) input app sound = (app, refl, sound)

  handle_all-IsSound :
      (events : List (WindowEvent × Input)) (app : App S)
      → IsSound app
      → Yields IsSound (handle_all functions events app)
  unfolding handle_all
  handle_all-IsSound [] app sound = (app, refl, sound)
  handle_all-IsSound ((event, input) ∷ events) app sound =
      let (app1, e1, sound1) = handle-IsSound event input app sound in
      let (app2, e2, sound2) = handle_all-IsSound events app1 sound1 in (app2, rw e1 e2, sound2)

  -- An entry of the list is one of the samples, so `ChangeSample` is called in range.
  choose-IsSound :
      (round : Round) (index left : ℕ) (app : App S)
      → index + left ≤ n
      → IsSound app
      → Yields IsSound (choose functions round index left app)
  unfolding choose Manager.run
  choose-IsSound round index zero app h sound = (app, refl, sound)
  choose-IsSound round index (suc left) app h sound =
      let (s, e) = get_elem?-some app.manager.samples index (omega (arith, sound.1, h)) in
      let (app1, e1, sound1) =
        if_rule (Yields IsSound) (round.chosen index)
          (with_manager functions app
            (change_sample functions (pos index) (round.choice_input index) app.manager))
          (ok app)
          (λ _. with_manager-IsSound app _ (
            run-Manages functions life (change_command (pos index) (round.choice_input index))
              app.manager n many (omega (arith, h)) sound))
          (λ _. (app, refl, sound)) in
      let (app2, e2, sound2) =
        choose-IsSound round (suc index) left app1 (omega (arith, h)) sound1 in
      (app2, rw (e, e1) e2, sound2)

  press-IsSound :
      (f : Input → SampleManager S → Outcome (SampleManager S)) (pressed : Option Input)
      (app : App S)
      → ((input : Input) → Yields (Manages functions life n) (f input app.manager))
      → IsSound app
      → Yields IsSound (press functions f pressed app)
  unfolding press
  press-IsSound f none app keeps sound = (app, refl, sound)
  press-IsSound f (some input) app keeps sound = with_manager-IsSound app _ (keeps input)

  show_manager-IsSound :
      (round : Round) (app : App S)
      → IsSound app
      → Yields IsSound (show_manager functions round app)
  unfolding show_manager Manager.run get_sample_nbr
  show_manager-IsSound round app sound =
      let (s, e) = current-Yields app sound in
      let (app1, e1, sound1) =
        if_rule (Yields IsSound) round.combo_open
          (choose functions round 0 (get_sample_nbr app.manager) app) (ok app)
          (λ _.
            choose-IsSound round 0 (get_sample_nbr app.manager) app (omega (arith, sound.1)) sound)
          (λ _. (app, refl, sound)) in
      let (s1, e1') = current-Yields app1 sound1 in
      let (app2, e2, sound2) =
        press-IsSound (previous_sample functions) round.previous_pressed app1
          (λ input.
            run-Manages functions life (previous_command input) app1.manager n many tt sound1)
          sound1 in
      let (app3, e3, sound3) =
        press-IsSound (regenerate_sample functions) round.regenerate_pressed app2
          (λ input.
            run-Manages functions life (regenerate_command input) app2.manager n many tt sound2)
          sound2 in
      let (app4, e4, sound4) =
        press-IsSound (next_sample functions) round.next_pressed app3
          (λ input. run-Manages functions life (next_command input) app3.manager n many tt sound3)
          sound3 in
      (app4, rw (e, e1, e1', e2, e3) e4, sound4)

  show_sample-IsSound :
      (round : Round) (app : App S) → IsSound app → Yields IsSound (show_sample functions round app)
  unfolding show_sample Manager.run get_sample_data
  show_sample-IsSound round app sound =
      let mouse = m.xm_set round.mouse_x round.mouse_y m.zero_f m.zero_f in
      let (moved, e1, managed1) =
        run-Manages functions life (mouse_command mouse) app.manager n many tt sound in
      let (updated, e2, managed2) =
        run-Manages functions life (update_command round.update_input) moved n many tt managed1 in
      let (s, e3) = get_elem?-some updated.samples updated.sample_idx managed2.0.in_range in
      (
        record app {
          manager = updated;
          mouse_pos = mouse;
          shown = draw_all (functions.graphics s);
        },
        rw (e1, e2, e3) refl,
        managed2,
      )

  pub play-IsSound :
      (round : Round) (app : App S) → IsSound app → Yields IsSound (play functions round app)
  unfolding play
  play-IsSound round app sound =
      let (app1, e1, sound1) = handle_all-IsSound round.events app sound in
      let (app2, e2, sound2) = show_manager-IsSound round app1 sound1 in
      let (app3, e3, sound3) = show_sample-IsSound round app2 sound2 in
      (app3, rw (e1, e2) e3, sound3)

  pub run-IsSound :
      (rounds : List Round) (app : App S) → IsSound app → Yields IsSound (run functions rounds app)
  unfolding run
  run-IsSound [] app sound = (app, refl, sound)
  run-IsSound (round ∷ rounds) app sound =
      let (app1, e1, sound1) = play-IsSound round app sound in
      let (app2, e2, sound2) = run-IsSound rounds app1 sound1 in
      if_rule (Yields IsSound) app.quit (ok app) (play functions round app >>= run functions rounds)
        (λ _. (app, refl, sound)) (λ _. (app2, rw e1 e2, sound2))
