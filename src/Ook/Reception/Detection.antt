-- ===== src/Ook/Reception/Detection.antt =====
-- A transmission of proxyd/src/ook.rs between two silences, as its streaming detector sees it.
use hackrf_proxy.Base.{
  ℕ, zero, suc, ◌+◌, ◌*◌, ◌≤◌, ◌<◌, true, false, List, [], ◌∷◌, ◌++◌, append_assoc, map, replicate,
  length, length-map, All, ◌≡◌, sym, ap, ◌∙◌, subst, arith, leb,
}
use hackrf_proxy.Base.Int.{ℤ, pos, negsuc, leb_ℤ, i64_max}
use hackrf_proxy.Base.Floats.{F64}
use hackrf_proxy.Ook.Envelope.{samples, envelope, abs_i8}
use hackrf_proxy.Ook.Runs.{runs}
use hackrf_proxy.Ook.Bursts.{split_bursts}
use hackrf_proxy.Ook.Bursts.Heard.{resent, IsSendable}
use hackrf_proxy.Ook.Detector.{DetectorConfig, new, push, tuned_threshold}
use hackrf_proxy.Ook.Detector.View.{timings_of}
use hackrf_proxy.Ook.Detector.Warmup.{first_threshold}
use hackrf_proxy.Ook.Detector.Offline.{IsTimed}
use hackrf_proxy.Ook.Detector.Offline.Streaming.{
  shortest, gap, lasts, length-samples, StartsBelow, push-split_bursts,
}
use hackrf_proxy.Ook.Render.{synthesize, sample_count, to_u8, fill, render_transmission}
use hackrf_proxy.Ook.Render.Length.{sample_total, length-synthesize}
use hackrf_proxy.Ook.Render.Hearing.{synthesize-append, render_transmission-resent}
use hackrf_proxy.Ook.Render.RoundTrip.{TakeTurns, IsExact, run_of, envelope-fill, synthesize-runs}
use hackrf_proxy.Ook.Reception.Framing.{between, between-TakeTurns, split_bursts-between}

starts_low : (t n : ℕ) (rest : List ℕ) → 1 ≤ n → 0 < t → StartsBelow t (replicate n 0 ++ rest)
starts_low t zero rest some low = absurd (omega arith)
starts_low t (suc n) rest some low = low

All-replicate : (t n : ℕ) → 0 < t → All (λ m. m < t) (replicate n 0 ++ [])
All-replicate t zero low = tt
All-replicate t (suc n) low = (low, All-replicate t n low)

module _ (fp : F64) (rate : ℕ) (amplitude : ℤ) where
  -- A silence, sent.
  abbrev pub silence : ℕ → List ℕ
  silence a = synthesize fp (negsuc a ∷ []) rate amplitude

  envelope-silence :
      (a : ℕ) (rest : List ℕ)
      → envelope (silence a ++ rest)
        ≡ replicate (sample_count fp rate (negsuc a)) 0 ++ envelope rest
  unfolding synthesize
  envelope-silence a rest =
      ap (λ w. envelope w) (append_assoc (fill (sample_count fp rate (negsuc a)) 0) [] rest)
      ∙ envelope-fill (sample_count fp rate (negsuc a)) 0 rest

  synthesize-between :
      (a m : ℕ) (frame : List ℤ) (k b : ℕ)
      → synthesize fp (between a m frame (negsuc k) b) rate amplitude
        ≡ (silence a ++ render_transmission fp frame m (suc k) rate amplitude) ++ silence b
  synthesize-between a m frame k b =
      let sent = resent m frame (negsuc k) in
      synthesize-append fp rate amplitude (negsuc a ∷ []) (sent ++ negsuc b ∷ [])
      ∙ ap (λ w. silence a ++ w) (synthesize-append fp rate amplitude sent (negsuc b ∷ []))
      ∙ ap (λ w. silence a ++ (w ++ silence b))
          (sym (render_transmission-resent fp frame m k rate amplitude))
      ∙ sym (
          append_assoc (silence a) (render_transmission fp frame m (suc k) rate amplitude)
            (silence b))

first_threshold-positive :
    (fp : F64) (config : DetectorConfig fp.Float) (iq : List ℕ) → 0 < first_threshold fp config iq
unfolding tuned_threshold
first_threshold-positive fp config iq = omega arith

sample_total-append :
    (fp : F64) (rate : ℕ) (xs ys : List ℤ)
    → sample_total fp rate (xs ++ ys) ≡ sample_total fp rate xs + sample_total fp rate ys
sample_total-append fp rate [] ys = omega arith
sample_total-append fp rate (x ∷ xs) ys = omega (arith, sample_total-append fp rate xs ys)

module _ (fp : F64) (config : DetectorConfig fp.Float) (n : ℕ) (ts : List ℤ) (repeat k a b : ℕ)
    (amplitude : ℤ) where
  abbrev pub frame : List ℤ
  frame = pos (suc n) ∷ ts

  -- The samples that are sent: the transmission between two silences.
  abbrev pub sent : List ℕ
  sent =
      silence fp config.sample_rate amplitude a
      ++ render_transmission fp frame repeat (suc k) config.sample_rate amplitude

  abbrev pub quiet_end : List ℕ
  quiet_end = silence fp config.sample_rate amplitude b

  abbrev pub all_timings : List ℤ
  all_timings = between a repeat frame (negsuc k) b

  abbrev Exact : ℤ → Type 0
  Exact t = IsExact fp config.sample_rate (shortest fp config) t

  waveform : synthesize fp all_timings config.sample_rate amplitude ≡ sent ++ quiet_end
  waveform = synthesize-between fp config.sample_rate amplitude a repeat frame k b

  length-sent :
      length sent
      ≡ 2 * sample_total fp config.sample_rate (negsuc a ∷ resent repeat frame (negsuc k))
  length-sent =
      ap (λ w. length (silence fp config.sample_rate amplitude a ++ w))
        (render_transmission-resent fp frame repeat k config.sample_rate amplitude)
      ∙ ap length (
          sym (
            synthesize-append fp config.sample_rate amplitude (negsuc a ∷ [])
              (resent repeat frame (negsuc k))))
      ∙ length-synthesize fp (negsuc a ∷ resent repeat frame (negsuc k)) config.sample_rate
          amplitude

  length-quiet_end : length (samples quiet_end) ≡ sample_count fp config.sample_rate (negsuc b)
  length-quiet_end =
      length-samples (sample_total fp config.sample_rate (negsuc b ∷ [])) quiet_end
        (length-synthesize fp (negsuc b ∷ []) config.sample_rate amplitude)
      ∙ omega arith

  low_start : (t : ℕ) → 0 < t → Exact (negsuc a) → StartsBelow t (envelope (sent ++ quiet_end))
  low_start t low exact =
      let rest =
        render_transmission fp frame repeat (suc k) config.sample_rate amplitude ++ quiet_end in
      subst (StartsBelow t)
        (sym (
          ap envelope (
            append_assoc (silence fp config.sample_rate amplitude a)
              (render_transmission fp frame repeat (suc k) config.sample_rate amplitude) quiet_end)
          ∙ envelope-silence fp config.sample_rate amplitude a rest))
        (starts_low t (sample_count fp config.sample_rate (negsuc a)) (envelope rest)
          exact.some_samples low)

  envelope-quiet_end :
      envelope quiet_end ≡ replicate (sample_count fp config.sample_rate (negsuc b)) 0 ++ []
  unfolding envelope synthesize
  envelope-quiet_end = envelope-fill (sample_count fp config.sample_rate (negsuc b)) 0 []

  low_end : (t : ℕ) → 0 < t → All (λ m. m < t) (envelope quiet_end)
  low_end t low =
      subst (All (λ m. m < t)) (sym envelope-quiet_end)
        (All-replicate t (sample_count fp config.sample_rate (negsuc b)) low)

  -- A transmission between two silences is detected as it was sent, by a detector that has just set
  -- its threshold from its first window: it returns the frame, once and once more for each
  -- repetition, in order. The amplitude reaches the threshold; the frame starts and ends on a mark,
  -- its marks and spaces take turns, its spaces are shorter than the detector's gap and its length
  -- is within the bounds; the gap between repetitions and the last silence are no shorter
  -- than the detector's. All timings are exact at the sample rate and at least as long as the
  -- shortest run, at most 4096 of them, and shorter together than a window; durations are as
  -- `IsTimed` says, the window is below 2^63 and bursts have an edge.
  pub render_transmission-detected :
      (first : List ℕ)
      → IsTimed (lasts fp config) (shortest fp config) (gap fp config) config.gap_us
      → 1 ≤ config.min_edges
      → 1 ≤ config.window_samples
      → config.window_samples ≤ i64_max
      → length first ≡ 2 * config.window_samples
      → leb (first_threshold fp config first) (abs_i8 (to_u8 amplitude) + 0) ≡ true
      → TakeTurns frame
      → IsSendable config.gap_us config.min_edges n ts
      → All Exact all_timings
      → leb_ℤ config.gap_us (pos (suc k)) ≡ true
      → leb_ℤ config.gap_us (pos (suc b)) ≡ true
      → gap fp config ≤ sample_count fp config.sample_rate (negsuc b)
      → sample_total fp config.sample_rate all_timings < config.window_samples
      → length all_timings ≤ 4096
      → timings_of (push fp (new fp config) (first ++ (sent ++ quiet_end))).1
        ≡ replicate (suc repeat) frame
  render_transmission-detected first timed some_edge some_window fits whole loud turns sendable
        exact long last silent short few =
      let t = first_threshold fp config first in
      let positive = first_threshold-positive fp config first in
      let above : leb t 0 ≡ false = ground arith in
      let sliced : runs fp (envelope (sent ++ quiet_end)) t config.sample_rate config.min_us
          ≡ map run_of all_timings =
        ap (λ w. runs fp (envelope w) t config.sample_rate config.min_us) (sym waveform)
        ∙ synthesize-runs fp all_timings amplitude t config.sample_rate config.min_us loud above
            (between-TakeTurns config.gap_us config.min_edges some_edge n ts k sendable turns a b
              repeat)
            exact in
      let total =
        sample_total-append fp config.sample_rate (negsuc a ∷ resent repeat frame (negsuc k))
          (negsuc b ∷ []) in
      push-split_bursts fp config first sent quiet_end
        (sample_total fp config.sample_rate (negsuc a ∷ resent repeat frame (negsuc k))) timed
        some_edge some_window fits whole length-sent (omega (arith, total, short, length-quiet_end))
        (low_start t positive exact.0) (low_end t positive)
        (omega (arith, silent, length-quiet_end))
        (omega (arith, few, ap length sliced, length-map run_of all_timings))
      ∙ ap (λ rs. split_bursts rs config.gap_us config.min_edges) sliced
      ∙ split_bursts-between config.gap_us config.min_edges some_edge n ts k sendable turns a b
          repeat long last
