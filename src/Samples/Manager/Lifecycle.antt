-- ===== src/Samples/Manager/Lifecycle.antt =====
-- samples/src/SampleManager.cpp: which of the samples is set up. The samples are known by what
-- their functions promise.
use bark_direct_x.Prelude.{
  ℕ, ◌<◌, ◌≡◌, ◌≢◌, refl, sym, subst, ◌∙◌, inl, inr, some, List, arith, length, get_elem?, set,
  get_elem?-some, get_elem?-set_self, get_elem?-set_ne, get_elem?-set_cases, length-set,
}
use bark_direct_x.Prelude.Outcome.{Outcome, Yields}
use bark_direct_x.Math.{Math}
use bark_direct_x.Samples.{Input}
use bark_direct_x.Samples.Manager.{
  SampleFunctions, SampleManager, Command, update_command, next_command, previous_command,
  regenerate_command, change_command, mouse_command, left_click_command, right_click_command,
  to_size, set_up_current, change_current, update_sample, switch, next_sample, previous_sample,
  next_index, previous_index, run, change_sample, regenerate_sample, give_mouse_position,
  give_left_mouse_click, give_right_mouse_click,
}

module _ ⦃m : Math⦄ where
  open m use {Vector}

  -- What the functions of a sample promise: a sample that is down can be set up, one that is up
  -- stays up until it is torn down.
  pub record Lifecycle {S : Type 0} (functions : SampleFunctions S) : Type 1 where
    pub IsDown : S → Type 0
    pub IsUp : S → Type 0
    pub set_up : (input : Input) (s : S) → IsDown s → Yields IsUp (functions.set_up input s)
    pub update : (input : Input) (s : S) → IsUp s → Yields IsUp (functions.update input s)
    pub tear_down : (s : S) → IsUp s → IsDown (functions.tear_down s)
    pub get_mouse_pos : (v : Vector) (s : S) → IsUp s → IsUp (functions.get_mouse_pos v s)
    pub on_left_click : (s : S) → IsUp s → IsUp (functions.on_left_click s)
    pub on_right_click : (s : S) → IsUp s → IsUp (functions.on_right_click s)

  module _ {S : Type 0} (functions : SampleFunctions S) (life : Lifecycle functions) where
    open life use {IsDown, IsUp}

    -- All samples are down but the one at the index, if any.
    abbrev OthersDown : List S → ℕ → Type 0
    OthersDown samples idx = (i : ℕ) (s : S) → i ≢ idx → get_elem? samples i ≡ some s → IsDown s

    -- Exactly the current sample is up.
    pub record IsTidy (manager : SampleManager S) : Type 0 where
      pub in_range : manager.sample_idx < length manager.samples
      pub current : (s : S) → get_elem? manager.samples manager.sample_idx ≡ some s → IsUp s
      pub others : OthersDown manager.samples manager.sample_idx

    -- `n` samples, of which the current one is up.
    abbrev pub Manages : ℕ → SampleManager S → Type 0
    Manages n manager = IsTidy manager × (length manager.samples ≡ n)

    -- The current sample is replaced by one that is up.
    put-IsTidy :
        (samples : List S) (idx : ℕ) (s : S)
        → idx < length samples
        → OthersDown samples idx
        → IsUp s
        → IsTidy (record { samples = set samples idx s; sample_idx = idx })
    put-IsTidy samples idx s h others up = record {
      in_range = subst (λ n. idx < n) (sym (length-set samples idx s)) h;
      current = λ s' at.
          let same : s ≡ s' = ground (arith, get_elem?-set_self samples idx s h, at) in
          subst IsUp same up;
      others = λ i s' apart at.
          others i s' apart (sym (get_elem?-set_ne samples idx i s (λ e. apart (sym e))) ∙ at);
    }

    change_current-Manages :
        (f : S → S) (manager : SampleManager S) (n : ℕ)
        → ((s : S) → IsUp s → IsUp (f s))
        → Manages n manager
        → Yields
            (λ after. Manages n after × (after.sample_idx ≡ manager.sample_idx))
            (change_current functions f manager)
    unfolding change_current
    change_current-Manages f manager n keeps (t, size) =
        let (s, at) = get_elem?-some manager.samples manager.sample_idx t.in_range in
        (
          record manager { samples = set manager.samples manager.sample_idx (f s) },
          rw at refl,
          (
            (
              put-IsTidy manager.samples manager.sample_idx (f s) t.in_range t.others
                  (keeps s (t.current s at)),
              length-set manager.samples manager.sample_idx (f s) ∙ size,
            ),
            refl,
          ),
        )

    update_sample-Manages :
        (input : Input) (manager : SampleManager S) (n : ℕ)
        → Manages n manager
        → Yields (Manages n) (update_sample functions input manager)
    unfolding update_sample
    update_sample-Manages input manager n (t, size) =
        let (s, at) = get_elem?-some manager.samples manager.sample_idx t.in_range in
        let (s', e, up) = life.update input s (t.current s at) in
        (
          record manager { samples = set manager.samples manager.sample_idx s' },
          rw (at, e) refl,
          (
            put-IsTidy manager.samples manager.sample_idx s' t.in_range t.others up,
            length-set manager.samples manager.sample_idx s' ∙ size,
          ),
        )

    -- Where all samples are down, the one at the index is set up.
    pub set_up_current-Manages :
        (input : Input) (manager : SampleManager S)
        → manager.sample_idx < length manager.samples
        → ((i : ℕ) (s : S) → get_elem? manager.samples i ≡ some s → IsDown s)
        → Yields
            (λ after.
              Manages (length manager.samples) after × (after.sample_idx ≡ manager.sample_idx))
            (set_up_current functions input manager)
    unfolding set_up_current
    set_up_current-Manages input manager h down =
        let (s, at) = get_elem?-some manager.samples manager.sample_idx h in
        let (s', e, up) = life.set_up input s (down manager.sample_idx s at) in
        (
          record manager { samples = set manager.samples manager.sample_idx s' },
          rw (at, e) refl,
          (
            (
              put-IsTidy manager.samples manager.sample_idx s' h (λ i s _ at. down i s at) up,
              length-set manager.samples manager.sample_idx s',
            ),
            refl,
          ),
        )

    -- The current sample torn down, all are.
    torn-Down :
        (manager : SampleManager S) (s : S)
        → IsTidy manager
        → get_elem? manager.samples manager.sample_idx ≡ some s
        → (i : ℕ) (s' : S)
        → get_elem? (set manager.samples manager.sample_idx (functions.tear_down s)) i ≡ some s'
        → IsDown s'
    torn-Down manager s t at i s' at' =
        elim (get_elem?-set_cases manager.samples manager.sample_idx i (functions.tear_down s)
          at') [
            | inl (_, e) ↦ subst IsDown (sym e) (life.tear_down s (t.current s at))
            | inr (apart, old) ↦ t.others i s' (λ e. apart (sym e)) old
          ]

    -- `choose` depends on the number of samples and the index only, and stays in range.
    pub switch-Manages :
        (choose : SampleManager S → ℕ) (input : Input) (manager : SampleManager S) (n target : ℕ)
        → ((samples : List S)
            → length samples ≡ n
            → choose (record manager { samples = samples }) ≡ target)
        → target < n
        → Manages n manager
        → Yields
            (λ after. Manages n after × (after.sample_idx ≡ target))
            (switch functions choose input manager)
    unfolding switch change_current
    switch-Manages choose input manager n target picks h (t, size) =
        let (s, at) = get_elem?-some manager.samples manager.sample_idx t.in_range in
        let torn = set manager.samples manager.sample_idx (functions.tear_down s) in
        let same : length torn ≡ n =
          length-set manager.samples manager.sample_idx (functions.tear_down s) ∙ size in
        let chosen = picks torn same in
        let (after, e, (manages, idx)) =
          set_up_current-Manages input
            (record { samples = torn; sample_idx = choose (record manager { samples = torn }) })
            (omega (arith, chosen, same)) (torn-Down manager s t at) in
        (after, rw at e, (subst (λ k. Manages k after) same manages, idx ∙ chosen))

    -- The index that `ChangeSample` is called with lies in range.
    abbrev pub InRange : ℕ → Command → Type 0
    InRange n (change_command idx input) = to_size idx < n
    InRange n _ = Unit

    next_index-lt :
        (manager : SampleManager S)
        → 1 < length manager.samples
        → next_index functions manager < length manager.samples
    unfolding next_index
    next_index-lt manager h = ground arith

    previous_index-lt :
        (manager : SampleManager S)
        → manager.sample_idx < length manager.samples
        → previous_index functions manager < length manager.samples
    unfolding previous_index
    previous_index-lt manager h = ground arith

    pub next_sample-Manages :
        (input : Input) (manager : SampleManager S) (n : ℕ)
        → 1 < n
        → Manages n manager
        → Yields
            (λ after. Manages n after × (after.sample_idx ≡ next_index functions manager))
            (next_sample functions input manager)
    unfolding next_sample next_index
    next_sample-Manages input manager n h managed =
        switch-Manages (next_index functions) input manager n (next_index functions manager)
          (λ samples e. rw (e, managed.1) refl)
          (omega (arith, next_index-lt manager (omega (arith, managed.1)), managed.1)) managed

    pub previous_sample-Manages :
        (input : Input) (manager : SampleManager S) (n : ℕ)
        → Manages n manager
        → Yields
            (λ after. Manages n after × (after.sample_idx ≡ previous_index functions manager))
            (previous_sample functions input manager)
    unfolding previous_sample previous_index
    previous_sample-Manages input manager n managed =
        switch-Manages (previous_index functions) input manager n (previous_index functions manager)
          (λ samples e. rw (e, managed.1) refl)
          (omega (arith, previous_index-lt manager managed.0.in_range, managed.1)) managed

    -- The part of a result that is about the manager.
    forget :
        {P : SampleManager S → Type 0} (n : ℕ) (r : Outcome (SampleManager S))
        → Yields (λ after. Manages n after × P after) r
        → Yields (Manages n) r
    forget n r (after, e, (managed, _)) = (after, e, managed)

    pub run-Manages :
        (command : Command) (manager : SampleManager S) (n : ℕ)
        → 1 < n
        → InRange n command
        → Manages n manager
        → Yields (Manages n) (run functions command manager)
    unfolding run change_sample regenerate_sample give_mouse_position give_left_mouse_click
        give_right_mouse_click
    run-Manages (update_command input) manager n h range managed =
        update_sample-Manages input manager n managed
    run-Manages (next_command input) manager n h range managed =
        forget n _ (next_sample-Manages input manager n h managed)
    run-Manages (previous_command input) manager n h range managed =
        forget n _ (previous_sample-Manages input manager n managed)
    run-Manages (regenerate_command input) manager n h range managed = forget n _ (
        switch-Manages (λ down. down.sample_idx) input manager n manager.sample_idx (λ _ _. refl)
          (omega (arith, managed.0.in_range, managed.1)) managed)
    run-Manages (change_command idx input) manager n h range managed = forget n _ (
        switch-Manages (λ _. to_size idx) input manager n (to_size idx) (λ _ _. refl) range managed)
    run-Manages (mouse_command position) manager n h range managed = forget n _ (
        change_current-Manages (functions.get_mouse_pos position) manager n
          (life.get_mouse_pos position) managed)
    run-Manages left_click_command manager n h range managed =
        forget n _
          (change_current-Manages functions.on_left_click manager n life.on_left_click managed)
    run-Manages right_click_command manager n h range managed =
        forget n _
          (change_current-Manages functions.on_right_click manager n life.on_right_click managed)
