-- ===== src/Cli/Demod.antt =====
-- Turning a capture into timings, `demod`, `offline_demod`, `stream_demod` and `report_bursts` of
-- proxyd/src/main.rs. Files, JSON and the console are parameters over the state `W` of the world;
-- of a line that is printed, the model has the data in it.
pub mod Chunking
pub mod Reporting
use hackrf_proxy.Base.{
  ℕ, zero, suc, ◌+◌, ◌-◌, ◌/◌, Bool, true, false, Option, none, some, List, [], ◌∷◌, ◌++◌, String,
  length, map, ltb, leb, if◌then◌else◌, min, max,
}
use hackrf_proxy.Base.Results.{Error, Result}
use hackrf_proxy.Base.Programs.{Run, done, failed, panicked, and_then, call}
use hackrf_proxy.Base.Words.{saturating_sub}
use hackrf_proxy.Base.Int.{ℤ, two64}
use hackrf_proxy.Base.Floats.{F64}
use hackrf_proxy.Ook.Envelope.{envelope}
use hackrf_proxy.Ook.Histogram.{Levels, levels_of}
use hackrf_proxy.Ook.Runs.{runs}
use hackrf_proxy.Ook.Bursts.{split_bursts}
use hackrf_proxy.Ook.Detector
use hackrf_proxy.Ook.Detector.{Detector, DetectorConfig, Burst}
use hackrf_proxy.Ook.Reports.{BurstAgreement, compare_bursts, duration_us, width_histogram}
use hackrf_proxy.Radio.Driver.{chunks, transfer_size}
use hackrf_proxy.Cli.Options.{DemodArgs}

pub data Line : Type 0 where
  characterised : ℕ → Levels → Line
  barely_rises : Line
  detected : ℕ → Option ℕ → Line
  peaks : ℕ → ℕ → Line
  burst_count : ℕ → Line
  -- The number of a burst, its edges and its duration.
  burst : ℕ → ℕ → ℤ → Line
  repeats_agree : ℤ → Line
  repeats_differ : Line
  widths_of : ℕ → Line
  width : ℤ → ℕ → Line
  wrote_all : ℕ → String → Line
  wrote : ℕ → ℕ → String → Line

-- The file system, `serde_json::to_writer` and the console, and the texts of the errors.
pub record Desk (File W : Type 0) : Type 0 where
  pub read_file : String → W → Result Error (List ℕ) × W
  pub create : String → W → Result Error File × W
  pub write_timings : File → List ℤ → W → Result Error (Unit {0}) × W
  pub write_bursts : File → List (List ℤ) → W → Result Error (Unit {0}) × W
  pub flush : File → W → Result Error (Unit {0}) × W
  pub print : Line → W → W
  pub empty_capture : Error
  pub no_bursts : Error
  pub no_such_burst : ℕ → Error

abbrev pub bytes_per_sample : ℕ
bytes_per_sample = 2

-- `iter().min()` and `max()` of a list that is not empty.
abbrev pub least_peak : ℕ → List ℕ → ℕ
least_peak p [] = p
least_peak p (q ∷ qs) = least_peak (min p q) qs

abbrev pub greatest_peak : ℕ → List ℕ → ℕ
greatest_peak p [] = p
greatest_peak p (q ∷ qs) = greatest_peak (max p q) qs

abbrev pub peaks_line : List ℕ → List Line
peaks_line [] = []
peaks_line (p ∷ ps) = peaks (least_peak p ps) (greatest_peak p ps) ∷ []

abbrev pub agreement_line : BurstAgreement → Line
agreement_line a = if a.same_edge_count then repeats_agree a.max_deviation_us else repeats_differ

-- `compare_bursts(bursts).filter(|_| bursts.len() > 1)`
abbrev pub agreement_lines : List (List ℤ) → List Line
agreement_lines bursts = elim (compare_bursts bursts) [
  | none ↦ []
  | some a ↦ if ltb 1 (length bursts) then agreement_line a ∷ [] else []
]

-- One line for each burst, numbered from `index + 1`.
abbrev pub burst_lines : ℕ → List (List ℤ) → List Line
burst_lines index [] = []
burst_lines index (b ∷ bs) =
    burst (index + 1) (length b) (duration_us b) ∷ burst_lines (index + 1) bs

-- `bursts.get(i)`
abbrev pub get_elem? : List (List ℤ) → ℕ → Option (List ℤ)
get_elem? [] i = none
get_elem? (b ∷ bs) zero = some b
get_elem? (b ∷ bs) (suc i) = get_elem? bs i

-- `args.burst - 1` on a `usize`.
abbrev pub burst_index : ℕ → ℕ
burst_index zero = two64 - 1
burst_index (suc i) = i

module _ {F : Type 0} where
  abbrev pub stream_config : DemodArgs F → DetectorConfig F → DetectorConfig F
  stream_config args config = record config {
    threshold_fraction = args.threshold;
    min_us = args.min_us;
    gap_us = args.gap_us;
    min_edges = args.min_edges;
  }

module _ (fp : F64) where
  open fp use {Float}

  -- The bursts of `offline_demod`, and what it prints.
  unfoldable pub offline_demod : List ℕ → DemodArgs Float → List (List ℤ) × List Line
  offline_demod raw args =
      let magnitude = envelope raw in
      let levels = levels_of fp magnitude args.threshold in
      let warning =
        if ltb (saturating_sub levels.signal levels.noise_floor) 10
        then barely_rises ∷ []
        else [] in
      let rs = runs fp magnitude levels.threshold args.sample_rate args.min_us in
      (
        split_bursts rs args.gap_us args.min_edges,
        characterised (length magnitude) levels ∷ warning,
      )

  -- The loop over the chunks.
  unfoldable pub push_chunks : Detector Float → List (List ℕ) → Detector Float × List Burst
  push_chunks d [] = (d, [])
  push_chunks d (c ∷ cs) =
      let (d', first) = Detector.push fp d c in
      let (d'', rest) = push_chunks d' cs in (d'', first ++ rest)

  -- The bursts of `stream_demod`, and what it prints.
  unfoldable pub stream_demod : List ℕ → DemodArgs Float → List (List ℤ) × List Line
  unfolding push_chunks
  stream_demod raw args =
      let config = stream_config args (Detector.config_new fp args.sample_rate) in
      let (d, bursts) =
        push_chunks (Detector.new fp config) (chunks (length raw) transfer_size raw) in
      (
        map (λ b. b.timings) bursts,
        detected (length raw / bytes_per_sample) d.threshold
            ∷ peaks_line (map (λ b. b.peak) bursts),
      )

  -- The bursts of a capture, and what is printed on the way to them.
  unfoldable pub found : List ℕ → DemodArgs Float → List (List ℤ) × List Line
  unfolding offline_demod stream_demod
  found raw args = if args.stream then stream_demod raw args else offline_demod raw args

module _ {File W : Type 0} (desk : Desk File W) where
  abbrev pub print_all : List Line → W → W
  print_all [] w = w
  print_all (l ∷ ls) w = print_all ls (desk.print l w)

  -- `File::create`, `to_writer` and `flush`, if there is a path, and the line that says so.
  unfoldable pub save :
      Option String
      → (File → W → Result Error (Unit {0}) × W)
      → (String → Line)
      → W
      → Run W (Unit {0})
  save none write line w = done tt w
  save (some path) write line w = and_then (call (desk.create path w)) λ file w₁.
      and_then (call (write file w₁))
        λ u w₂. and_then (call (desk.flush file w₂)) λ u w₃. done tt (desk.print (line path) w₃)

  module _ {F : Type 0} where
    -- `report_bursts`, from the widths of the selected burst on; that they cannot be counted panics.
    unfoldable pub report_widths :
        List (List ℤ) → List ℤ → DemodArgs F → Option (List (ℤ × ℕ)) → W → Run W (Unit {0})
    unfolding save
    report_widths bursts selected args none w = panicked w
    report_widths bursts selected args (some widths) w =
        and_then
          (save args.out_all (λ file. desk.write_bursts file bursts) (wrote_all (length bursts))
            (print_all (map (λ e. width e.0 e.1) widths) w))
          λ u w'.
            save args.out (λ file. desk.write_timings file selected)
              (wrote args.burst (length selected)) w'

    -- `report_bursts`, from the selection of a burst on.
    unfoldable pub report_selected :
        List (List ℤ) → DemodArgs F → Option (List ℤ) → W → Run W (Unit {0})
    unfolding report_widths
    report_selected bursts args none w = failed (desk.no_such_burst args.burst) w
    report_selected bursts args (some selected) w =
        report_widths bursts selected args (width_histogram selected args.bucket_us)
          (desk.print (widths_of args.burst) w)

    unfoldable pub report_bursts : List (List ℤ) → DemodArgs F → W → Run W (Unit {0})
    unfolding report_selected
    report_bursts bursts args w =
        let lines =
          burst_count (length bursts) ∷ (burst_lines 0 bursts ++ agreement_lines bursts) in
        report_selected bursts args (get_elem? bursts (burst_index args.burst)) (print_all lines w)

    unfoldable pub report_found : List (List ℤ) → DemodArgs F → W → Run W (Unit {0})
    unfolding report_bursts
    report_found [] args w = failed desk.no_bursts w
    report_found (b ∷ bs) args w = report_bursts (b ∷ bs) args w

  module _ (fp : F64) where
    -- `demod`, once the capture is read.
    unfoldable pub demod_raw : List ℕ → DemodArgs fp.Float → W → Run W (Unit {0})
    unfolding found report_found
    demod_raw raw args w =
        if ltb (length raw) bytes_per_sample
        then failed desk.empty_capture w
        else report_found (found fp raw args).0 args (print_all (found fp raw args).1 w)

    unfoldable pub demod : DemodArgs fp.Float → W → Run W (Unit {0})
    unfolding demod_raw
    demod args w = and_then (call (desk.read_file args.input w)) λ raw w₁. demod_raw raw args w₁
