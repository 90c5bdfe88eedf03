-- ===== src/Radio/Scan/Readings.antt =====
-- That `scan` of proxyd/src/radio.rs ends, and what it reads.
use hackrf_proxy.Base.{
  ℕ, zero, suc, ◌+◌, ◌-◌, ◌*◌, ◌%◌, ◌≤◌, ◌<◌, min, List, [], ◌∷◌, ltb, leb, length, ◌≡◌, refl,
  arith, if-elim, ltb→lt, subst, if◌then◌else◌,
}
use hackrf_proxy.Base.Int.{two64}
use hackrf_proxy.Base.Results.{Error}
use hackrf_proxy.Base.Programs.{out_of_fuel, done, and_then, EndsIn, and_then-EndsIn, called-EndsIn}
use hackrf_proxy.Base.Floats.{F64}
use hackrf_proxy.Ook.Histogram
use hackrf_proxy.Ook.Histogram.{add_iq}
use hackrf_proxy.Radio.Driver.{Driver, transfer_size}
use hackrf_proxy.Radio.Capture.{Files, bytes_in}
use hackrf_proxy.Radio.Capture.Ending.{Reads, accepted-EndsIn, bytes_in-lt}
use hackrf_proxy.Radio.Scan.{
  ScanParams, Reading, Sweep, Dwell, note, dwell_chunk, dwell_loop, reading_of, scan_band,
  scan_bands, scan_passes, scan_some, scan, saturated,
}

-- How many readings are at full scale.
abbrev pub overloads : List Reading → ℕ
overloads [] = 0
overloads (r ∷ rs) = (if leb saturated r.signal then 1 else 0) + overloads rs

-- So many readings, of which the saturated ones are counted.
abbrev Read : ℕ → Sweep → Type 0
Read n s = (length s.readings ≡ n) × (s.saturated_bands ≡ overloads s.readings % two64)

note-Read : (n : ℕ) (s : Sweep) (r : Reading) → Read n s → Read (n + 1) (note s r)
unfolding note
note-Read n s r h = ground arith

module _ {Handle Stream W : Type 0} (drv : Driver Handle Stream W) (reads : Reads drv) where
  dwell_chunk-EndsIn :
      (total : ℕ) (stream : Stream) (d : Dwell) (w : W)
      → total < two64
      → d.collected < total
      → EndsIn
          (λ d' w'. (d.collected < d'.collected) × (d'.collected ≤ total))
          (dwell_chunk drv total stream d w)
  unfolding dwell_chunk
  dwell_chunk-EndsIn total stream d w t h = called-EndsIn _ _ _ λ chunk e.
      let sized = reads stream (min (total - d.collected) transfer_size) w chunk (omega arith) e in
      (omega (arith, sized.0, sized.1), omega (arith, sized.0, sized.1))

  dwell_loop-EndsIn :
      (fuel total : ℕ) (stream : Stream) (d : Dwell) (w : W)
      → total < two64
      → d.collected ≤ total
      → total ≤ d.collected + fuel
      → EndsIn (λ d' w'. d'.collected ≡ total) (dwell_loop drv fuel total stream d w)
  unfolding dwell_loop
  dwell_loop-EndsIn zero total stream d w t h f =
      if-elim (EndsIn (λ d' w'. d'.collected ≡ total)) (ltb d.collected total) out_of_fuel
        (done d w) (λ e. absurd (omega (arith, ltb→lt d.collected total e))) (λ e. ground arith)
  dwell_loop-EndsIn (suc fuel) total stream d w t h f =
      if-elim (EndsIn (λ d' w'. d'.collected ≡ total)) (ltb d.collected total)
        (and_then (dwell_chunk drv total stream d w)
          (λ d' w'. dwell_loop drv fuel total stream d' w'))
        (done d w)
        (λ e.
          and_then-EndsIn (λ d' w'. (d.collected < d'.collected) × (d'.collected ≤ total))
            (λ d' w'. d'.collected ≡ total) _ _
            (dwell_chunk-EndsIn total stream d w t (ltb→lt d.collected total e))
            (λ d' w' g. dwell_loop-EndsIn fuel total stream d' w' t g.1 (omega (arith, g.0))))
        (λ e. ground arith)

  module _ (fp : F64) (total : ℕ) (t : total < two64) (radio : Handle) (stream : Stream) where
    scan_band-EndsIn :
        (f n : ℕ) (s : Sweep) (w : W)
        → Read n s
        → EndsIn (λ s' w'. Read (n + 1) s') (scan_band drv fp total total radio stream f s w)
    unfolding scan_band
    scan_band-EndsIn f n s w h = called-EndsIn _ _ _ λ u e₁. called-EndsIn _ _ _ λ transient e₂.
        and_then-EndsIn (λ d w'. d.collected ≡ total) _ _ _
          (dwell_loop-EndsIn total total stream
            (record { histogram = Histogram.new; collected = 0 }) _ t (omega arith) (omega arith))
          λ d w₃ g. note-Read n s (reading_of drv fp total total radio stream d) h

    scan_bands-EndsIn :
        (fs : List ℕ) (n : ℕ) (s : Sweep) (w : W)
        → Read n s
        → EndsIn
            (λ s' w'. Read (n + length fs) s')
            (scan_bands drv fp total total radio stream fs s w)
    unfolding scan_bands
    scan_bands-EndsIn [] n s w h = ground arith
    scan_bands-EndsIn (f ∷ fs) n s w h =
        and_then-EndsIn (λ s' w'. Read (n + 1) s') _ _ _ (scan_band-EndsIn f n s w h)
          λ s' w' g.
            let count : n + 1 + length fs ≡ n + suc (length fs) = omega arith in
            subst
              (λ m.
                EndsIn (λ s₂ w₂. Read m s₂) (scan_bands drv fp total total radio stream fs s' w'))
              count (scan_bands-EndsIn fs (n + 1) s' w' g)

    scan_passes-EndsIn :
        (passes : ℕ) (fs : List ℕ) (n : ℕ) (s : Sweep) (w : W)
        → Read n s
        → EndsIn
            (λ s' w'. Read (n + passes * length fs) s')
            (scan_passes drv fp total total radio stream passes fs s w)
    unfolding scan_passes
    scan_passes-EndsIn zero fs n s w h =
        let count : n ≡ n + 0 * length fs = omega arith in subst (λ m. Read m s) count h
    scan_passes-EndsIn (suc passes) fs n s w h =
        and_then-EndsIn (λ s' w'. Read (n + length fs) s') _ _ _ (scan_bands-EndsIn fs n s w h)
          λ s' w' g.
            let count : n + length fs + passes * length fs ≡ n + suc passes * length fs =
              grind arith in
            subst
              (λ m.
                EndsIn (λ s₂ w₂. Read m s₂)
                  (scan_passes drv fp total total radio stream passes fs s' w'))
              count (scan_passes-EndsIn passes fs (n + length fs) s' w' g)

  module _ {File : Type 0} (files : Files File W) (fp : F64) (no_frequencies : Error) where
    abbrev dwell_bytes : ScanParams fp.Float → ℕ
    dwell_bytes p = bytes_in drv files fp p.dwell_seconds p.sample_rate

    abbrev no_readings : Sweep
    no_readings = record { saturated_bands = 0; readings = [] }

    whole_sweep :
        (p : ScanParams fp.Float) (radio : Handle) (stream : Stream) (w : W)
        → EndsIn
            (λ s w'. Read (p.passes * length p.frequencies) s)
            (scan_passes drv fp
              (dwell_bytes p)
              (dwell_bytes p)
              radio
              stream
              p.passes
              p.frequencies
              no_readings
              w)
    whole_sweep p radio stream w =
        let count : 0 + p.passes * length p.frequencies ≡ p.passes * length p.frequencies =
          omega arith in
        let fits = bytes_in-lt drv files reads fp p.dwell_seconds p.sample_rate in
        subst
          (λ n.
            EndsIn (λ s w'. Read n s)
              (scan_passes drv fp (dwell_bytes p) (dwell_bytes p) radio stream p.passes
                p.frequencies no_readings w))
          count
          (scan_passes-EndsIn fp (dwell_bytes p) fits radio stream p.passes p.frequencies 0
            no_readings w (refl, refl))

    scan_some-EndsIn :
        (p : ScanParams fp.Float) (fs : List ℕ) (w : W)
        → EndsIn
            (λ s w'. Read (p.passes * length p.frequencies) s)
            (scan_some drv files fp no_frequencies (dwell_bytes p) p fs w)
    unfolding scan_some
    scan_some-EndsIn p [] w = tt
    scan_some-EndsIn p (first ∷ rest) w = called-EndsIn _ _ _ λ radio e₃.
        called-EndsIn _ _ _ λ u e₄. called-EndsIn _ _ _ λ stream e₅. whole_sweep p radio stream _

    -- On fuel for one round for each byte of a dwell, a scan ends; and if no call fails, it has taken
    -- one reading for each frequency and pass, and counted (modulo 2^64) those whose 99.9th percentile
    -- is at full scale. The driver reads at least one byte at a time, and at most those asked for.
    pub scan_ends :
        (p : ScanParams fp.Float) (w : W)
        → EndsIn
            (λ s w'.
              (length s.readings ≡ p.passes * length p.frequencies)
              × (s.saturated_bands ≡ overloads s.readings % two64))
            (scan drv files fp no_frequencies
              (bytes_in drv files fp p.dwell_seconds p.sample_rate)
              p
              w)
    unfolding scan
    scan_ends p w =
        accepted-EndsIn drv _ _ _ _
          (accepted-EndsIn drv _ _ _ _ (scan_some-EndsIn p p.frequencies w))
