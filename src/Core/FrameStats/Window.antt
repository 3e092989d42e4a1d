-- ===== src/Core/FrameStats/Window.antt =====
-- The statistics keep the last frames.
use burnout_3_recompiled.Common.{
  ℕ, zero, suc, false, List, [], ◌∷◌, ◌+◌, ◌-◌, ◌%◌, ◌==◌, ◌<◌, ◌≡◌, ap, ◌∙◌, arith, get_or, length,
  min, length-set, length-replicate, get_or-set_self, get_or-set_ne,
}
use burnout_3_recompiled.Core.FrameStats.{
  Doubles, Sample, FrameStats, empty_sample, reset, add_frame, snapshot,
}

module _ (d : Doubles) where
  -- The statistics after frames were added to none, the last one first.
  abbrev pub added : List (Sample d) → FrameStats d
  added [] = reset d
  added (newest ∷ older) = add_frame d newest (added older)

  pub record IsWindow (frames : List (Sample d)) (stats : FrameStats d) : Type 0 where
    pub index : stats.next_index ≡ length frames % 120
    pub counted : stats.count ≡ min (length frames) 120
    pub room : length stats.samples ≡ 120

  added-IsWindow : (frames : List (Sample d)) → IsWindow frames (added frames)
  unfolding reset add_frame
  added-IsWindow [] = record {
    index = omega arith;
    counted = omega arith;
    room = length-replicate 120 (empty_sample d);
  }
  added-IsWindow (newest ∷ older) =
      let h = added-IsWindow older in
      record {
        index = omega (arith, h.index);
        counted = ground (arith, h.counted);
        room = length-set (added older).samples (added older).next_index newest ∙ h.room;
      }

  get_or-window :
      (frames : List (Sample d)) (i : ℕ)
      → i < length frames
      → i < 120
      → get_or (added frames).samples ((length frames - 1 - i) % 120) (empty_sample d)
        ≡ get_or frames i (empty_sample d)
  unfolding add_frame
  get_or-window [] i h k = absurd (omega arith)
  get_or-window (newest ∷ older) zero h k =
      let w = added-IsWindow older in
      let here : (length (newest ∷ older) - 1 - 0) % 120 ≡ (added older).next_index =
        omega (arith, w.index) in
      rw here (
        get_or-set_self (added older).samples (added older).next_index newest (empty_sample d)
          (omega (arith, w.index, w.room)))
  get_or-window (newest ∷ older) (suc j) h k =
      let w = added-IsWindow older in
      let there : (length (newest ∷ older) - 1 - suc j) % 120 ≡ (length older - 1 - j) % 120 =
        omega (arith, h) in
      rw there (
        get_or-set_ne (added older).samples (added older).next_index ((length older - 1 - j) % 120)
          newest (empty_sample d) (λ e. omega (arith, w.index, e, h, k))
        ∙ get_or-window older j (omega (arith, h)) (omega (arith, k)))

  -- After any frames, each of the last 120 stands in the window where its number, counted from the
  -- first frame, says modulo 120; and the samples are counted as the frames are, up to 120.
  pub get_or-added :
      (frames : List (Sample d)) (i : ℕ)
      → i < length frames
      → i < 120
      → (get_or (added frames).samples ((length frames - 1 - i) % 120) (empty_sample d)
          ≡ get_or frames i (empty_sample d))
        × ((added frames).count ≡ min (length frames) 120)
  get_or-added frames i h k = (get_or-window frames i h k, (added-IsWindow frames).counted)

  latest_index :
      (newest : Sample d) (older : List (Sample d))
      → ((added (newest ∷ older)).next_index + 120 - 1) % 120
        ≡ (length (newest ∷ older) - 1 - 0) % 120
  latest_index newest older = omega (arith, (added-IsWindow (newest ∷ older)).index)

  -- A snapshot after some frames shows the simulation steps of the newest one, and as many samples as
  -- there were frames, up to 120.
  pub snapshot-added :
      (newest : Sample d) (older : List (Sample d))
      → ((snapshot d (added (newest ∷ older))).simulation_steps ≡ newest.sample_steps)
        × ((snapshot d (added (newest ∷ older))).sample_count ≡ min (length (newest ∷ older)) 120)
  unfolding snapshot
  snapshot-added newest older =
      let stats = added (newest ∷ older) in
      let counted = (added-IsWindow (newest ∷ older)).counted in
      let some_frame : (stats.count == 0) ≡ false = ground (arith, counted) in
      rw (some_frame, snapshot)
        (
          ap (λ k. (get_or stats.samples k (empty_sample d)).sample_steps)
                (latest_index newest older)
              ∙ ap (λ (x : Sample d). x.sample_steps)
                  (get_or-window (newest ∷ older) 0 (omega arith) (omega arith)),
          counted,
        )
