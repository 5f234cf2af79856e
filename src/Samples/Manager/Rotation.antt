-- ===== src/Samples/Manager/Rotation.antt =====
-- `NextSample` and `PreviousSample` of samples/src/SampleManager.cpp: the order in which they go
-- through the samples.
use bark_direct_x.Prelude.{
  ℕ, ◌+◌, ◌-◌, ◌≤◌, ◌<◌, ◌≡◌, refl, List, [], ◌∷◌, arith, length, leb, if◌then◌else◌,
}
use bark_direct_x.Prelude.Outcome.{Outcome, ok, ◌>>=◌, Yields}
use bark_direct_x.Math.{Math}
use bark_direct_x.Samples.{Input}
use bark_direct_x.Samples.Manager.{
  SampleFunctions, SampleManager, next_sample, previous_sample, next_index, previous_index,
}
use bark_direct_x.Samples.Manager.Lifecycle.{
  Lifecycle, IsTidy, Manages, next_sample-Manages, previous_sample-Manages,
}

module _ ⦃m : Math⦄ {S : Type 0} (functions : SampleFunctions S) (life : Lifecycle functions) where
  -- `NextSample` for each of the inputs.
  unfoldable pub next_all : List Input → SampleManager S → Outcome (SampleManager S)
  unfolding next_sample
  next_all [] manager = ok manager
  next_all (input ∷ inputs) manager = do
    manager' ← next_sample functions input manager
    next_all inputs manager'

  -- From one of the samples after the first, `NextSample` followed by `PreviousSample`, and
  -- `PreviousSample` followed by `NextSample`, return normally to the same sample, which is again the
  -- only one that is up.
  pub previous_sample-next_sample :
      (input1 input2 : Input) (manager : SampleManager S)
      → IsTidy functions life manager
      → 1 ≤ manager.sample_idx
      → Yields
          (λ after. IsTidy functions life after × (after.sample_idx ≡ manager.sample_idx))
          (next_sample functions input1 manager >>= previous_sample functions input2)
        × Yields
            (λ after. IsTidy functions life after × (after.sample_idx ≡ manager.sample_idx))
            (previous_sample functions input1 manager >>= next_sample functions input2)
  unfolding next_index previous_index
  previous_sample-next_sample input1 input2 manager t h =
      let n = length manager.samples in
      let many : 1 < n = omega (arith, t.in_range) in
      let (a, ea, (ma, ia)) = next_sample-Manages functions life input1 manager n many (t, refl) in
      let (b, eb, (mb, ib)) = previous_sample-Manages functions life input2 a n ma in
      let (c, ec, (mc, ic)) = previous_sample-Manages functions life input1 manager n (t, refl) in
      let (d, ed, (md, id)) = next_sample-Manages functions life input2 c n many mc in
      (
        (b, rw ea eb, (mb.0, ground (arith, ia, ib, ma.1, t.in_range))),
        (d, rw ec ed, (md.0, ground (arith, ic, id, mc.1, t.in_range))),
      )

  -- The number of calls of `NextSample` that lead from one index to another.
  abbrev pub distance : ℕ → ℕ → ℕ → ℕ
  distance n idx target = if leb idx target then target - idx else n - 1 - idx + target

  next_all-counts :
      (inputs : List Input) (manager : SampleManager S) (n target : ℕ)
      → 1 ≤ target
      → target < n
      → Manages functions life n manager
      → length inputs ≡ distance n manager.sample_idx target
      → Yields
          (λ after. Manages functions life n after × (after.sample_idx ≡ target))
          (next_all inputs manager)
  unfolding next_all next_index
  next_all-counts [] manager n target low high managed h =
      (manager, refl, (managed, ground (arith, h, managed.0.in_range, managed.1)))
  next_all-counts (input ∷ inputs) manager n target low high managed h =
      let many : 1 < n = omega arith in
      let (a, ea, (ma, ia)) = next_sample-Manages functions life input manager n many managed in
      let left : length inputs ≡ distance n a.sample_idx target =
        ground (arith, ia, managed.0.in_range, managed.1, h) in
      let (b, eb, reached) = next_all-counts inputs a n target low high ma left in
      (b, rw ea eb, reached)

  -- Wherever the manager of some samples stands, every sample but the first is reached by fewer calls
  -- of `NextSample` than there are samples: all of them return normally, and then that sample is the
  -- only one that is up.
  pub next_all-reaches :
      (manager : SampleManager S) (target : ℕ)
      → IsTidy functions life manager
      → 1 ≤ target
      → target < length manager.samples
      → (k : ℕ) × (k < length manager.samples)
        × ((inputs : List Input)
            → length inputs ≡ k
            → Yields
                (λ after. IsTidy functions life after × (after.sample_idx ≡ target))
                (next_all inputs manager))
  next_all-reaches manager target t low high =
      let n = length manager.samples in
      (
        distance n manager.sample_idx target,
        ground (arith, t.in_range),
        λ inputs h.
            let (a, e, (managed, idx)) =
              next_all-counts inputs manager n target low high (t, refl) h in
            (a, e, (managed.0, idx)),
      )
