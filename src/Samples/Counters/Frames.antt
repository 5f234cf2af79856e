-- ===== src/Samples/Counters/Frames.antt =====
-- The counters of samples/src/TriggerSample.cpp and FormsTriggerSample.cpp over the calls of a frame.
use bark_direct_x.Prelude.{
  ℕ, ◌+◌, ◌*◌, ◌<◌, ◌≡◌, sym, ap, subst, ◌∙◌, some, List, [], ◌∷◌, ◌++◌, All, All-append,
}
use bark_direct_x.Prelude.Integers.{ℤ}
use bark_direct_x.Prelude.Outcome.{ok, ◌>>=◌, Yields}
use bark_direct_x.Math.{Math}
use bark_direct_x.Common.Random.{Draws}
use bark_direct_x.Physics.World.{
  World, Event, on_trigger_enter, on_trigger_exit, on_collision_enter, on_collision_exit,
}
use bark_direct_x.Physics.World.Protocol.{open_pairs, Names, slots}
use bark_direct_x.Physics.World.Frames.{KeepsBodies}
use bark_direct_x.Physics.World.Ready.{IsReady}
use bark_direct_x.Samples.{Sample, Hooks, receive_all, new_calls}
use bark_direct_x.Samples.Objects.{int_max, count_call}
use bark_direct_x.Samples.Laws.Listening.{heard-calls, receive_all-Yields}
use bark_direct_x.Samples.Counters.{Counts}
use bark_direct_x.Samples.Counters.Pairs.{EventSettled}
use bark_direct_x.Samples.Counters.Handlers.{IsOrderly, IsOrderly-rest, count_call-Counts}

module _ ⦃m : Math⦄ where
  -- An event about attached colliders of a ready world is about settled references.
  Names-Settled :
      (k : ℕ) (w : World) (event : Event)
      → IsReady k w
      → Names (slots w) event
      → EventSettled k w.collider_gen_indices event
  Names-Settled k w (on_trigger_enter a b) r ((ca, ea, oa, ga), (cb, eb, ob, gb)) =
      ((r.beyond a.index ca ea oa, ga), (r.beyond b.index cb eb ob, gb))
  Names-Settled k w (on_trigger_exit a b) r ((ca, ea, oa, ga), (cb, eb, ob, gb)) =
      ((r.beyond a.index ca ea oa, ga), (r.beyond b.index cb eb ob, gb))
  Names-Settled k w (on_collision_enter a b) r ((ca, ea, oa, ga), (cb, eb, ob, gb)) =
      ((r.beyond a.index ca ea oa, ga), (r.beyond b.index cb eb ob, gb))
  Names-Settled k w (on_collision_exit a b) r ((ca, ea, oa, ga), (cb, eb, ob, gb)) =
      ((r.beyond a.index ca ea oa, ga), (r.beyond b.index cb eb ob, gb))

  All-Settled :
      (k : ℕ) (w : World) (calls : List Event)
      → IsReady k w
      → All (Names (slots w)) calls
      → All (EventSettled k w.collider_gen_indices) calls
  All-Settled k w [] r h = tt
  All-Settled k w (event ∷ calls) r (h, hs) =
      (Names-Settled k w event r h, All-Settled k w calls r hs)

  -- The counters of a world: its listener's log is orderly, and they count the pairs that are open.
  pub record Watching (counters : List ℤ) (k : ℕ) (w : World) : Type 0 where
    pub room : 2 * k + 1 < int_max
    pub log : List Event
    pub hears : w.contact_listener ≡ some log
    pub settled : All (EventSettled k w.collider_gen_indices) log
    pub counts : Counts counters k (open_pairs log)

  -- In a sound world they count the pairs of the world.
  pub Watching-Counts :
      (counters : List ℤ) (k : ℕ) (w : World)
      → IsReady k w
      → Watching counters k w
      → Counts counters k w.col_ref_pairs
  Watching-Counts counters k w r x =
      subst (Counts counters k) (r.sound.protocol x.log x.hears).1 x.counts

  -- Bodies change and the world goes on listening.
  pub moved-Watching :
      (counters : List ℤ) (k : ℕ) (w w' : World)
      → w' ≡ record w { bodies = w'.bodies }
      → Watching counters k w
      → Watching counters k w'
  moved-Watching counters k w w' f x = subst (Watching counters k) (sym f) (record {
    room = x.room;
    log = x.log;
    hears = x.hears;
    settled = x.settled;
    counts = x.counts;
  })

  module _ {Own : Type 0} (hooks : Hooks Own) (get : Own → List ℤ) (put : Own → List ℤ → Own)
      (get_put : (own : Own) (cs : List ℤ) → get (put own cs) ≡ cs)
      (put_put : (own : Own) (cs ds : List ℤ) → put (put own cs) ds ≡ put own ds)
      (put_get : (own : Own) → put own (get own) ≡ own)
      (receives : (draws : Draws) (n : ℕ) (event : Event) (s : Sample Own)
        → hooks.receive draws n event s
          ≡ (count_call event (get s.own) >>= λ cs. ok (record s { own = put s.own cs }))) where
    abbrev counted : Sample Own → List ℤ → Sample Own
    counted s cs = record s { own = put s.own cs }

    -- After a frame the handlers have counted its calls.
    pub hear-Watching :
        (draws : Draws) (k : ℕ) (s s0 : Sample Own) (w : World)
        → Watching (get s.own) k s.world
        → IsReady k w
        → KeepsBodies s.world w
        → s0.own ≡ s.own
        → Yields
            (λ s'. (cs : List ℤ) × (s' ≡ counted s0 cs) × Watching cs k w)
            (receive_all hooks draws (new_calls s.world.contact_listener w.contact_listener) s0)
    hear-Watching draws k s s0 w x r keeps own =
        let (calls, after, same, named) = heard-calls s w x.log x.hears keeps in
        let gens = w.collider_gen_indices in
        let old : All (EventSettled k gens) x.log =
          subst (λ g. All (EventSettled k g) x.log) (sym keeps.collider_gens) x.settled in
        let settled : All (EventSettled k gens) (calls ++ x.log) =
          All-append (EventSettled k gens) calls x.log (All-Settled k w calls r named) old in
        let orderly : IsOrderly k gens (calls ++ x.log) =
          ((r.sound.protocol (calls ++ x.log) after).0, settled) in
        let (s', e, (cs, is, counts)) =
          receive_all-Yields hooks draws
            (λ log v. (cs : List ℤ) × (v ≡ counted s0 cs) × Counts cs k (open_pairs log))
            (IsOrderly k gens) calls x.log s0 (IsOrderly-rest k gens)
            (λ n event log v q (cs, is, counts). step draws n gens event log v q cs is counts)
            orderly
            (
              get s0.own,
              ap (λ o. record s0 { own = o }) (sym (put_get s0.own)),
              subst (λ o. Counts (get o) k (open_pairs x.log)) (sym own) x.counts,
            ) in
        (
          s',
          ap (λ cs. receive_all hooks draws cs s0) same ∙ e,
          (
            cs,
            is,
            record {
              room = x.room;
              log = calls ++ x.log;
              hears = after;
              settled = settled;
              counts = counts;
            },
          ),
        )
      where
        step :
            (draws : Draws) (n : ℕ) (gens : List ℕ) (event : Event) (log : List Event)
            (v : Sample Own)
            → IsOrderly k gens (event ∷ log)
            → (cs : List ℤ) → v ≡ counted s0 cs
            → Counts cs k (open_pairs log)
            → Yields
                (λ v'.
                  (cs' : List ℤ) × (v' ≡ counted s0 cs') × Counts cs' k (open_pairs (event ∷ log)))
                (hooks.receive draws n event v)
        step draws n gens event log v q cs is counts =
            let (cs', e, counts') = count_call-Counts k gens x.room event cs log q counts in
            let here : get v.own ≡ cs = ap (λ (u : Sample Own). get u.own) is ∙ get_put s0.own cs in
            let there : record v { own = put v.own cs' } ≡ counted s0 cs' =
              ap (λ (u : Sample Own). record u { own = put u.own cs' }) is
              ∙ ap (λ o. record s0 { own = o }) (put_put s0.own cs cs') in
            let ran : (count_call event (get v.own) >>= λ ds. ok (record v { own = put v.own ds }))
                ≡ ok (record v { own = put v.own cs' }) =
              ap (λ r. r >>= λ ds. ok (record v { own = put v.own ds }))
                (ap (count_call event) here ∙ e) in
            (
              record v { own = put v.own cs' },
              receives draws n event v ∙ ran,
              (cs', there, counts'),
            )
