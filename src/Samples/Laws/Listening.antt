-- ===== src/Samples/Laws/Listening.antt =====
-- The calls of the contact listener between two frames of a sample of samples/src.
use bark_direct_x.Prelude.{
  ℕ, ◌≡◌, refl, sym, subst, inl, none, some, List, [], ◌∷◌, ◌++◌, length, All, take_before,
}
use bark_direct_x.Prelude.Outcome.{ok, Yields}
use bark_direct_x.Math.{Math}
use bark_direct_x.Common.Random.{Draws}
use bark_direct_x.Common.Timer.{Timer}
use bark_direct_x.Physics.World.{World, Event, set_contact_listener}
use bark_direct_x.Physics.World
use bark_direct_x.Physics.World.Protocol.{Names, slots}
use bark_direct_x.Physics.World.Frames.{KeepsBodies}
use bark_direct_x.Samples.{Sample, Hooks, new_calls, receive_all, init_size}
use bark_direct_x.Samples.Staged.{IsStaged}
use bark_direct_x.Samples.Laws.{IsDown, prepared, prepared-IsStaged}

module _ ⦃m : Math⦄ {Own : Type 0} where
  -- A sample without a listener.
  abbrev pub IsDeaf : Sample Own → Type 0
  IsDeaf s = s.world.contact_listener ≡ none

  pub deaf-IsStaged :
      (timer : Timer) (s : Sample Own) → IsDown s → IsDeaf s → IsStaged 0 (prepared timer s)
  unfolding set_contact_listener World.set_up
  deaf-IsStaged timer s d deaf =
      subst
        (λ listener. IsStaged 0 (record (prepared timer s) {
          world = set_contact_listener (World.set_up s.world init_size) listener;
        }))
        (sym deaf) (prepared-IsStaged timer s none d (inl refl))

  pub deaf-calls :
      (s : Sample Own) (w : World)
      → IsDeaf s
      → KeepsBodies s.world w
      → (w.contact_listener ≡ none) × (new_calls s.world.contact_listener w.contact_listener ≡ [])
  unfolding new_calls
  deaf-calls s w deaf x = (x.unheard deaf, rw (x.unheard deaf) refl)

  -- A sample whose handlers do nothing.
  pub receive_all-nothing :
      (hooks : Hooks Own) (draws : Draws) (calls : List Event) (s : Sample Own)
      → ((k : ℕ) (event : Event) (s' : Sample Own) → hooks.receive draws k event s' ≡ ok s')
      → receive_all hooks draws calls s ≡ ok s
  unfolding receive_all
  receive_all-nothing hooks draws [] s nothing = refl
  receive_all-nothing hooks draws (event ∷ calls) s nothing =
      rw (receive_all-nothing hooks draws calls s nothing) (nothing (length calls) event s)

  -- The calls of a frame are the new end of the log, and about attached colliders.
  pub heard-calls :
      (s : Sample Own) (w : World) (log : List Event)
      → s.world.contact_listener ≡ some log
      → KeepsBodies s.world w
      → (calls : List Event) × (w.contact_listener ≡ some (calls ++ log))
        × (new_calls s.world.contact_listener w.contact_listener ≡ calls)
        × All (Names (slots w)) calls
  unfolding new_calls
  heard-calls s w log listens x =
      let (calls, e, named) = x.heard log listens in
      (calls, e, rw (listens, e) (take_before calls log), named)

  -- What each call keeps, all of them keep; `Q` holds of the log at every call.
  pub receive_all-Yields :
      (hooks : Hooks Own) (draws : Draws) (P : List Event → Sample Own → Type 0)
      (Q : List Event → Type 0) (calls log : List Event) (s : Sample Own)
      → ((event : Event) (log : List Event) → Q (event ∷ log) → Q log)
      → ((k : ℕ) (event : Event) (log : List Event) (s : Sample Own)
          → Q (event ∷ log)
          → P log s
          → Yields (P (event ∷ log)) (hooks.receive draws k event s))
      → Q (calls ++ log)
      → P log s
      → Yields (P (calls ++ log)) (receive_all hooks draws calls s)
  unfolding receive_all
  receive_all-Yields hooks draws P Q [] log s shrink step q p = (s, refl, p)
  receive_all-Yields hooks draws P Q (event ∷ calls) log s shrink step q p =
      let (s1, e1, p1) =
        receive_all-Yields hooks draws P Q calls log s shrink step (shrink event (calls ++ log) q)
          p in
      let (s2, e2, p2) = step (length calls) event (calls ++ log) s1 q p1 in (s2, rw e1 e2, p2)
