-- ===== src/Cli/Demod/Reporting.antt =====
-- What `demod` of proxyd/src/main.rs writes, over a desk that logs what is created and
-- written.
use hackrf_proxy.Base.{
  ℕ, suc, true, Option, none, some, List, [], ◌∷◌, ◌++◌, String, length, map, ltb, if-elim, ◌≡◌,
  refl, sym, ap, ◌∙◌, subst, append_assoc, append-nil, arith,
}
use hackrf_proxy.Base.Results.{Error, Result, ok, err}
use hackrf_proxy.Base.Programs.{EndsIn, called-EndsIn, and_then-EndsIn}
use hackrf_proxy.Base.Int.{ℤ, pos}
use hackrf_proxy.Base.Floats.{F64}
use hackrf_proxy.Ook.Reports.{width_histogram, add_widths, all_divide}
use hackrf_proxy.Cli.Options.{DemodArgs}
use hackrf_proxy.Cli.Demod.{
  Desk, Line, width, widths_of, wrote, wrote_all, print_all, save, report_widths, report_selected,
  report_bursts, report_found, found, demod_raw, get_elem?, burst_index, burst_count, burst_lines,
  agreement_lines, bytes_per_sample,
}

pub data Write : Type 0 where
  creates : String → Write
  bursts_to : String → List (List ℤ) → Write
  timings_to : String → List ℤ → Write

abbrev opened : {File : Type 0} → String → Result Error File → Result Error (String × File)
opened path (ok file) = ok (path, file)
opened path (err e) = err e

-- The desk, with a log of the files that are created and of what is written to which path.
abbrev pub logged : {File W : Type 0} → Desk File W → Desk (String × File) (List Write × W)
logged desk = record {
  read_file = λ path s. let (r, w) = desk.read_file path s.1 in (r, (s.0, w));
  create =
      λ path s. let (r, w) = desk.create path s.1 in (opened path r, (s.0 ++ creates path ∷ [], w));
  write_timings = λ f ts s.
      let (r, w) = desk.write_timings f.1 ts s.1 in (r, (s.0 ++ timings_to f.0 ts ∷ [], w));
  write_bursts =
      λ f bs s. let (r, w) = desk.write_bursts f.1 bs s.1 in (r, (s.0 ++ bursts_to f.0 bs ∷ [], w));
  flush = λ f s. let (r, w) = desk.flush f.1 s.1 in (r, (s.0, w));
  print = λ line s. (s.0, desk.print line s.1);
  empty_capture = desk.empty_capture;
  no_bursts = desk.no_bursts;
  no_such_burst = desk.no_such_burst;
}

-- The file that is created at a path, and the write to it, if there is a path.
abbrev pub saved : Option String → (String → Write) → List Write
saved none write = []
saved (some path) write = creates path ∷ write path ∷ []

-- Every burst goes to `--out-all`, then the selected one to `--out`.
abbrev pub writes_of : {F : Type 0} → List (List ℤ) → DemodArgs F → Option (List ℤ) → List Write
writes_of bursts args none = []
writes_of bursts args (some selected) =
    saved args.out_all (λ path. bursts_to path bursts)
    ++ saved args.out (λ path. timings_to path selected)

all_divide-positive : (n : ℕ) (ts : List ℤ) → all_divide (pos (suc n)) ts ≡ true
unfolding all_divide
all_divide-positive n [] = refl
all_divide-positive n (t ∷ ts) = let rest = all_divide-positive n ts in ground arith

-- A bucket that is not zero makes a histogram.
histogram-positive :
    (n : ℕ) (ts : List ℤ) → width_histogram ts (pos (suc n)) ≡ some (add_widths (pos (suc n)) [] ts)
unfolding width_histogram
histogram-positive n ts = let d = all_divide-positive n ts in ground arith

opened-path :
    {File : Type 0} (path : String) (r : Result Error File) (f : String × File)
    → opened path r ≡ ok f
    → f.0 ≡ path
opened-path {File = File} path (ok file) f h =
    sym (ap (λ (q : Result Error (String × File)). elim q [ ok g ↦ g.0 | err e ↦ path ]) h)
opened-path path (err e) f h = ground arith

module _ {File W : Type 0} (desk : Desk File W) where
  print_all-log :
      (lines : List Line) (s : List Write × W) → (print_all (logged desk) lines s).0 ≡ s.0
  print_all-log [] s = refl
  print_all-log (l ∷ ls) s = print_all-log ls ((logged desk).print l s)

  save-writes :
      (path : Option String)
      (write : String × File → List Write × W → Result Error (Unit {0}) × (List Write × W))
      (line : String → Line) (entry : String → Write) (s : List Write × W)
      → ((f : String × File) (s' : List Write × W) → (write f s').1.0 ≡ s'.0 ++ entry f.0 ∷ [])
      → EndsIn (λ u s'. s'.0 ≡ s.0 ++ saved path entry) (save (logged desk) path write line s)
  unfolding save
  save-writes none write line entry s h = sym (append-nil s.0)
  save-writes (some path) write line entry s h = called-EndsIn _ _ _ λ file e₁.
      called-EndsIn _ _ _ λ u e₂. called-EndsIn _ _ _ λ u e₃.
        let s₁ = ((logged desk).create path s).1 in
        h file s₁
        ∙ ap (λ p. s₁.0 ++ entry p ∷ []) (opened-path path (desk.create path s.1).0 file e₁)
        ∙ append_assoc s.0 (creates path ∷ []) (entry path ∷ [])

  module _ {F : Type 0} where
    report_widths-writes :
        (bursts : List (List ℤ)) (selected : List ℤ) (args : DemodArgs F) (widths : List (ℤ × ℕ))
        (s : List Write × W)
        → EndsIn
            (λ u s'.
              s'.0
              ≡ s.0
                ++ (saved args.out_all (λ path. bursts_to path bursts)
                    ++ saved args.out (λ path. timings_to path selected)))
            (report_widths (logged desk) bursts selected args (some widths) s)
    unfolding report_widths
    report_widths-writes bursts selected args widths s =
        let lines = map (λ (e : ℤ × ℕ). width e.0 e.1) widths in
        let s₁ = print_all (logged desk) lines s in
        let printed = print_all-log lines s in
        let all = λ (path : String). bursts_to path bursts in
        let one = λ (path : String). timings_to path selected in
        and_then-EndsIn _ _ _ _
          (save-writes args.out_all (λ file. (logged desk).write_bursts file bursts)
            (wrote_all (length bursts)) all s₁ (λ f s'. refl))
          (λ u s₂ first.
            subst
              (λ l.
                EndsIn (λ u s'. s'.0 ≡ l)
                  (save (logged desk) args.out (λ file. (logged desk).write_timings file selected)
                    (wrote args.burst (length selected)) s₂))
              (ap (λ l. l ++ saved args.out one)
                  (first ∙ ap (λ l. l ++ saved args.out_all all) printed)
                ∙ append_assoc s.0 (saved args.out_all all) (saved args.out one))
              (save-writes args.out (λ file. (logged desk).write_timings file selected)
                (wrote args.burst (length selected)) one s₂ (λ f s'. refl)))

    report_selected-writes :
        (bursts : List (List ℤ)) (args : DemodArgs F) (o : Option (List ℤ)) (n : ℕ)
        (s : List Write × W)
        → args.bucket_us ≡ pos (suc n)
        → EndsIn
            (λ u s'. s'.0 ≡ s.0 ++ writes_of bursts args o)
            (report_selected (logged desk) bursts args o s)
    unfolding report_selected
    report_selected-writes bursts args none n s b = tt
    report_selected-writes bursts args (some selected) n s b =
        let made = ap (width_histogram selected) b ∙ histogram-positive n selected in
        let s₁ = (logged desk).print (widths_of args.burst) s in
        subst
          (λ h.
            EndsIn (λ u s'. s'.0 ≡ s.0 ++ writes_of bursts args (some selected))
              (report_widths (logged desk) bursts selected args h s₁))
          (sym made)
          (report_widths-writes bursts selected args (add_widths (pos (suc n)) [] selected) s₁)

    report_bursts-writes :
        (bursts : List (List ℤ)) (args : DemodArgs F) (n : ℕ) (s : List Write × W)
        → args.bucket_us ≡ pos (suc n)
        → EndsIn
            (λ u s'.
              s'.0 ≡ s.0 ++ writes_of bursts args (get_elem? bursts (burst_index args.burst)))
            (report_bursts (logged desk) bursts args s)
    unfolding report_bursts
    report_bursts-writes bursts args n s b =
        let lines =
          burst_count (length bursts) ∷ (burst_lines 0 bursts ++ agreement_lines bursts) in
        let o = get_elem? bursts (burst_index args.burst) in
        subst
          (λ l.
            EndsIn (λ u s'. s'.0 ≡ l ++ writes_of bursts args o)
              (report_selected (logged desk) bursts args o (print_all (logged desk) lines s)))
          (print_all-log lines s)
          (report_selected-writes bursts args o n (print_all (logged desk) lines s) b)

    report_found-writes :
        (bursts : List (List ℤ)) (args : DemodArgs F) (n : ℕ) (s : List Write × W)
        → args.bucket_us ≡ pos (suc n)
        → EndsIn
            (λ u s'.
              s'.0 ≡ s.0 ++ writes_of bursts args (get_elem? bursts (burst_index args.burst)))
            (report_found (logged desk) bursts args s)
    unfolding report_found
    report_found-writes [] args n s b = tt
    report_found-writes (x ∷ xs) args n s b = report_bursts-writes (x ∷ xs) args n s b

  -- With a positive bucket, demodulating a capture never panics; if it succeeds, then it has
  -- created the file `--out-all` and written every burst that was found to it, and then created
  -- `--out` and written the burst that `--burst` selects to it, each if it is given, and neither
  -- created a file nor written anything else.
  pub demod_raw-writes :
      (fp : F64) (raw : List ℕ) (args : DemodArgs fp.Float) (n : ℕ) (s : List Write × W)
      → args.bucket_us ≡ pos (suc n)
      → let bursts = (found fp raw args).0 in
        EndsIn
          (λ u s'. s'.0 ≡ s.0 ++ writes_of bursts args (get_elem? bursts (burst_index args.burst)))
          (demod_raw (logged desk) fp raw args s)
  unfolding demod_raw
  demod_raw-writes fp raw args n s b =
      let bursts = (found fp raw args).0 in
      let lines = (found fp raw args).1 in
      let o = get_elem? bursts (burst_index args.burst) in
      if-elim (EndsIn (λ u s'. s'.0 ≡ s.0 ++ writes_of bursts args o))
        (ltb (length raw) bytes_per_sample) _ _ (λ e. tt)
        (λ e.
          subst
            (λ l.
              EndsIn (λ u s'. s'.0 ≡ l ++ writes_of bursts args o)
                (report_found (logged desk) bursts args (print_all (logged desk) lines s)))
            (print_all-log lines s)
            (report_found-writes bursts args n (print_all (logged desk) lines s) b))
