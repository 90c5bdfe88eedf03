-- ===== src/Radio/Capture/Ending.antt =====
-- That `capture` of proxyd/src/radio.rs ends, and how much it writes.
use hackrf_proxy.Base.{
  ℕ, zero, suc, ◌+◌, ◌-◌, ◌≤◌, ◌<◌, min, List, String, ltb, length, ◌≡◌, arith, if-elim, ltb→lt, [],
  ◌++◌, sym, ap, ◌∙◌, length-append,
}
use hackrf_proxy.Base.Int.{two64}
use hackrf_proxy.Base.Words.{add_u64}
use hackrf_proxy.Base.Results.{Error, Result, ok, err}
use hackrf_proxy.Base.Programs.{
  Run, out_of_fuel, done, and_then, EndsIn, and_then-EndsIn, called-EndsIn,
}
use hackrf_proxy.Base.Floats.{F64}
use hackrf_proxy.Radio.Driver.{Driver, transfer_size}
use hackrf_proxy.Radio.Gains.{Refusal}
use hackrf_proxy.Radio.Capture.{
  Files, CaptureParams, Meter, new_meter, measure, accept, capture_chunk, capture_loop, bytes_in,
  capture,
}

-- A check of the settings, and what follows it.
pub accepted-EndsIn :
    {Handle Stream W B : Type 0} (drv : Driver Handle Stream W) (Q : B → W → Type 0)
    (checked : Result Refusal (Unit {0})) (w : W) (next : Unit {0} → W → Run W B)
    → EndsIn Q (next tt w)
    → EndsIn Q (and_then (accept drv checked w) next)
unfolding and_then
accepted-EndsIn drv Q (ok u) w next h = h
accepted-EndsIn drv Q (err e) w next h = tt

-- The driver reads at least one byte, and no more than it was asked for.
abbrev pub Reads : {Handle Stream W : Type 0} → Driver Handle Stream W → Type 0
Reads {Handle} {Stream} {W} drv =
    (stream : Stream) (n : ℕ) (w : W) (chunk : List ℕ)
    → 0 < n
    → (drv.read_sync stream n w).0 ≡ ok chunk
    → (0 < length chunk) × (length chunk ≤ n)

-- The bytes that were read from the radio, and those that were written, since the file was created.
pub record Tape : Type 0 where
  pub read : List ℕ
  pub written : List ℕ

abbrev pub blank : Tape
blank = record { read = []; written = [] }

abbrev heard : Result Error (List ℕ) → Tape → Tape
heard (ok chunk) t = record t { read = t.read ++ chunk }
heard (err e) t = t

abbrev kept : List ℕ → Result Error (Unit {0}) → Tape → Tape
kept chunk (ok u) t = record t { written = t.written ++ chunk }
kept chunk (err e) t = t

abbrev emptied : {File : Type 0} → Result Error File → Tape → Tape
emptied (ok file) t = blank
emptied (err e) t = t

-- The driver, with a tape of the bytes that it delivers.
abbrev pub taped :
    {Handle Stream W : Type 0} → Driver Handle Stream W → Driver Handle Stream (Tape × W)
taped drv = record {
  open_first = λ s. let (r, w) = drv.open_first s.1 in (r, (s.0, w));
  scan = λ s. let (r, w) = drv.scan s.1 in (r, (s.0, w));
  set_freq = λ h f s. let (r, w) = drv.set_freq h f s.1 in (r, (s.0, w));
  start_rx = λ h c s. let (r, w) = drv.start_rx h c s.1 in (r, (s.0, w));
  start_rx_stream = λ h n s. let (r, w) = drv.start_rx_stream h n s.1 in (r, (s.0, w));
  read_sync = λ t n s. let (r, w) = drv.read_sync t n s.1 in (r, (heard r s.0, w));
  start_tx = λ h c s. let (r, w) = drv.start_tx h c s.1 in (r, (s.0, w));
  start_tx_stream = λ h s. let (r, w) = drv.start_tx_stream h s.1 in (r, (s.0, w));
  write_sync = λ t c s. let (r, w) = drv.write_sync t c s.1 in (r, (s.0, w));
  stop = λ h s. let (r, w) = drv.stop h s.1 in (r, (s.0, w));
  identify = λ h s. let (r, w) = drv.identify h s.1 in (r, (s.0, w));
  refusal_text = drv.refusal_text;
  not_receiving = drv.not_receiving;
  no_radio = drv.no_radio;
  no_access = drv.no_access;
}

-- The files, with a tape of the bytes that are written to the one that was created last.
abbrev pub filed : {File W : Type 0} → Files File W → Files File (Tape × W)
filed files = record {
  create = λ path s. let (r, w) = files.create path s.1 in (r, (emptied r s.0, w));
  write_all = λ f chunk s. let (r, w) = files.write_all f chunk s.1 in (r, (kept chunk r s.0, w));
  flush = λ f s. let (r, w) = files.flush f s.1 in (r, (s.0, w));
}

module _ {Handle Stream W File : Type 0} (drv : Driver Handle Stream W) (files : Files File W)
    (reads : Reads drv) where
  -- The file holds what was read, and the count is the number of its bytes.
  abbrev Holds : Meter → Tape → Type 0
  Holds m t = (t.written ≡ t.read) × (length t.written ≡ m.written)

  -- What a round of the loop makes of the count.
  abbrev Further : ℕ → Meter → Meter → Tape × W → Type 0
  Further total m m' s = (m.written < m'.written) × (m'.written ≤ total) × Holds m' s.0

  measure-written :
      (rate : ℕ) (m : Meter) (chunk : List ℕ)
      → (measure rate m chunk).written ≡ add_u64 m.written (length chunk)
  unfolding measure
  measure-written rate m chunk = ground arith

  -- The tape after a chunk that was read and written.
  kept_heard :
      (chunk : List ℕ) (r : Result Error (List ℕ)) (u : Result Error (Unit {0})) (t : Tape)
      → r ≡ ok chunk
      → u ≡ ok tt
      → kept chunk u (heard r t) ≡ (record { read = t.read ++ chunk; written = t.written ++ chunk })
  kept_heard chunk r u t e f =
      ap (λ v. kept chunk v (heard r t)) f ∙ ap (λ v. kept chunk (ok tt) (heard v t)) e

  chunk-Holds :
      (rate : ℕ) (m : Meter) (chunk : List ℕ) (t after : Tape)
      → after ≡ (record { read = t.read ++ chunk; written = t.written ++ chunk })
      → t.written ≡ t.read
      → length t.written ≡ m.written
      → m.written + length chunk < two64
      → Holds (measure rate m chunk) after
  chunk-Holds rate m chunk t after e same count fits =
      let counted = length-append t.written chunk in
      let now = measure-written rate m chunk in
      (
        ap (λ (x : Tape). x.written) e
            ∙ ap (λ l. l ++ chunk) same
            ∙ sym (ap (λ (x : Tape). x.read) e),
        ap (λ (x : Tape). length x.written) e ∙ omega (arith, counted, now, count),
      )

  capture_chunk-Further :
      (total rate : ℕ) (stream : Stream) (file : File) (m : Meter) (s : Tape × W)
      → total < two64
      → m.written < total
      → Holds m s.0
      → EndsIn
          (Further total m)
          (capture_chunk (taped drv) (filed files) total rate stream file m s)
  unfolding capture_chunk
  capture_chunk-Further total rate stream file m s t h holds =
      let wanted = min (total - m.written) transfer_size in
      called-EndsIn (Further total m) ((taped drv).read_sync stream wanted s) _ λ chunk e.
        let sized = reads stream wanted s.1 chunk (omega arith) e in
        let s₁ = ((taped drv).read_sync stream wanted s).1 in
        called-EndsIn (Further total m) ((filed files).write_all file chunk s₁)
          (λ u s₂. done (measure rate m chunk) s₂)
          λ u d.
            let after = ((filed files).write_all file chunk s₁).1 in
            let tape =
              kept_heard chunk (drv.read_sync stream wanted s.1).0
                (files.write_all file chunk s₁.1).0 s.0 e d in
            let written_is_read =
              chunk-Holds rate m chunk s.0 after.0 tape holds.0 holds.1 (omega (arith, sized.1)) in
            (
              omega (arith, measure-written rate m chunk, sized.0, sized.1),
              omega (arith, measure-written rate m chunk, sized.0, sized.1),
              written_is_read,
            )

  created-Holds :
      (r : Result Error File) (t : Tape) (file : File) → r ≡ ok file → Holds new_meter (emptied r t)
  created-Holds r t file e = (
    ap (λ (x : Result Error File). (emptied x t).written) e
        ∙ sym (ap (λ (x : Result Error File). (emptied x t).read) e),
    ap (λ (x : Result Error File). length (emptied x t).written) e,
  )

  -- The file is complete.
  abbrev pub Filled : ℕ → Meter → Tape × W → Type 0
  Filled total m s = (m.written ≡ total) × (s.0.written ≡ s.0.read) × (length s.0.written ≡ total)

  capture_loop-EndsIn :
      (fuel total rate : ℕ) (stream : Stream) (file : File) (m : Meter) (s : Tape × W)
      → total < two64
      → m.written ≤ total
      → total ≤ m.written + fuel
      → Holds m s.0
      → EndsIn
          (Filled total)
          (capture_loop (taped drv) (filed files) fuel total rate stream file m s)
  unfolding capture_loop
  capture_loop-EndsIn zero total rate stream file m s t h f holds =
      if-elim (EndsIn (Filled total)) (ltb m.written total) out_of_fuel (done m s)
        (λ e. absurd (omega (arith, ltb→lt m.written total e)))
        (λ e. let all : m.written ≡ total = ground arith in (all, holds.0, holds.1 ∙ all))
  capture_loop-EndsIn (suc fuel) total rate stream file m s t h f holds =
      if-elim (EndsIn (Filled total)) (ltb m.written total)
        (and_then (capture_chunk (taped drv) (filed files) total rate stream file m s)
          (λ m' s'. capture_loop (taped drv) (filed files) fuel total rate stream file m' s'))
        (done m s)
        (λ e.
          and_then-EndsIn (Further total m) (Filled total)
            (capture_chunk (taped drv) (filed files) total rate stream file m s)
            (λ m' s'. capture_loop (taped drv) (filed files) fuel total rate stream file m' s')
            (capture_chunk-Further total rate stream file m s t (ltb→lt m.written total e) holds)
            (λ m' s' g.
              let (more, bound, holds') = g in
              capture_loop-EndsIn fuel total rate stream file m' s' t bound (omega (arith, more))
                holds'))
        (λ e. let all : m.written ≡ total = ground arith in (all, holds.0, holds.1 ∙ all))

  module _ (fp : F64) where
    pub bytes_in-lt : (seconds : fp.Float) (rate : ℕ) → bytes_in drv files fp seconds rate < two64
    unfolding bytes_in
    bytes_in-lt seconds rate = omega arith

    -- On fuel for one round for each byte, a capture ends; and if no call fails, the file that it
    -- created holds exactly the bytes that were read from the radio, in order, which are as many as
    -- the duration asks for, and so many are counted. The driver reads at least one byte at a time,
    -- and at most those asked for.
    pub capture_ends :
        (p : CaptureParams fp.Float) (out : String) (w : W)
        → let total = bytes_in drv files fp p.seconds p.sample_rate in
          EndsIn
            (λ m s. (m.written ≡ total) × (s.0.written ≡ s.0.read) × (length s.0.written ≡ total))
            (capture (taped drv) (filed files) fp total p out (blank, w))
    unfolding capture bytes_in
    capture_ends p out w =
        let total = bytes_in drv files fp p.seconds p.sample_rate in
        let fits = bytes_in-lt p.seconds p.sample_rate in
        accepted-EndsIn (taped drv) _ _ _ _ (
          accepted-EndsIn (taped drv) _ _ _ _ (
            called-EndsIn _ _ _ λ radio e₃. called-EndsIn _ _ _ λ u e₄.
              called-EndsIn _ _ _ λ stream e₅. called-EndsIn _ _ _ λ file e₆.
                and_then-EndsIn (Filled total) _ _ _
                  (capture_loop-EndsIn total total _ stream file new_meter _ fits (omega arith)
                    (omega arith) (created-Holds _ _ file e₆))
                  λ m w₇ done. called-EndsIn _ _ _ λ u e₈. done))
