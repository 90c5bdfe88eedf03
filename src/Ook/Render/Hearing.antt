-- ===== src/Ook/Render/Hearing.antt =====
-- What is sent is what is heard: `render_transmission`, and then `envelope`, `runs` and
-- `split_bursts` of proxyd/src/ook.rs.
use hackrf_proxy.Base.{
  ℕ, zero, suc, ◌+◌, true, false, List, [], ◌∷◌, ◌++◌, All, All-append, ◌≡◌, refl, sym, ◌∙◌, ap,
  arith, leb, if◌then◌else◌, replicate, append_assoc,
}
use hackrf_proxy.Base.Int.{ℤ, pos, negsuc, -ℤ◌, leb_ℤ}
use hackrf_proxy.Base.Floats.{F64}
use hackrf_proxy.Ook.Envelope.{envelope, abs_i8}
use hackrf_proxy.Ook.Runs.{runs, samples_in}
use hackrf_proxy.Ook.Bursts.{split_bursts}
use hackrf_proxy.Ook.Bursts.Edges.{last_is_mark}
use hackrf_proxy.Ook.Bursts.Heard.{resent, Brief, IsSendable, split_bursts-resent}
use hackrf_proxy.Ook.Render.{synthesize, fill, sample_count, is_mark, to_u8, render_transmission}
use hackrf_proxy.Ook.Render.Length.{spaced, render_transmission-eq}
use hackrf_proxy.Ook.Render.RoundTrip.{TakeTurns, IsExact, synthesize-runs}

module _ (fp : F64) (rate : ℕ) (amplitude : ℤ) where
  pub synthesize-append :
      (xs ys : List ℤ)
      → synthesize fp (xs ++ ys) rate amplitude
        ≡ synthesize fp xs rate amplitude ++ synthesize fp ys rate amplitude
  unfolding synthesize
  synthesize-append [] ys = refl
  synthesize-append (x ∷ xs) ys =
      ap (λ w. fill (sample_count fp rate x) (if is_mark x then to_u8 amplitude else 0) ++ w)
        (synthesize-append xs ys)
      ∙ sym (
          append_assoc (fill (sample_count fp rate x) (if is_mark x then to_u8 amplitude else 0))
            (synthesize fp xs rate amplitude) (synthesize fp ys rate amplitude))

  -- A transmission is the waveform of its timings, written out with the gaps.
  synthesize-resent :
      (m : ℕ) (ts : List ℤ) (gap : ℤ)
      → synthesize fp (resent m ts gap) rate amplitude
        ≡ spaced m (synthesize fp ts rate amplitude) (synthesize fp (gap ∷ []) rate amplitude)
  synthesize-resent zero ts gap = refl
  synthesize-resent (suc m) ts gap =
      let frame = synthesize fp ts rate amplitude in
      let one = synthesize fp (gap ∷ []) rate amplitude in
      synthesize-append ts (gap ∷ resent m ts gap)
      ∙ ap (λ w. frame ++ w)
          (synthesize-append (gap ∷ []) (resent m ts gap)
            ∙ ap (λ w. one ++ w) (synthesize-resent m ts gap))

pub render_transmission-resent :
    (fp : F64) (ts : List ℤ) (repeat k rate : ℕ) (amplitude : ℤ)
    → render_transmission fp ts repeat (suc k) rate amplitude
      ≡ synthesize fp (resent repeat ts (negsuc k)) rate amplitude
render_transmission-resent fp ts repeat k rate amplitude =
    let negated : -ℤ◌ (pos (suc k)) ≡ negsuc k = ground arith in
    (render_transmission-eq fp ts repeat (suc k) rate amplitude).0
    ∙ ap
        (λ g.
          spaced repeat (synthesize fp ts rate amplitude) (synthesize fp (g ∷ []) rate amplitude))
        negated
    ∙ sym (synthesize-resent fp rate amplitude repeat ts (negsuc k))

pub TakeTurns-join :
    (gap g : ℤ) (t : ℤ) (ts r : List ℤ)
    → TakeTurns (t ∷ ts)
    → All (Brief gap) (t ∷ ts)
    → last_is_mark (t ∷ ts) ≡ true
    → is_mark g ≡ false
    → TakeTurns (g ∷ r)
    → TakeTurns ((t ∷ ts) ++ g ∷ r)
TakeTurns-join gap g (pos zero) [] r h b l s k = absurd (b.0)
TakeTurns-join gap g (pos (suc n)) [] r h b l s k = (ground arith, k)
TakeTurns-join gap g (negsuc n) [] r h b l s k = ground arith
TakeTurns-join gap g t (u ∷ ts) r h b l s k = (h.0, TakeTurns-join gap g u ts r h.1 b.1 l s k)

module _ (gap : ℤ) (min_edges n : ℕ) (ts : List ℤ) (k : ℕ) (f : IsSendable gap min_edges n ts)
    (turns : TakeTurns (pos (suc n) ∷ ts)) where
  gap-TakeTurns :
      (m : ℕ)
      → TakeTurns (resent m (pos (suc n) ∷ ts) (negsuc k))
      → TakeTurns (negsuc k ∷ resent m (pos (suc n) ∷ ts) (negsuc k))
  gap-TakeTurns zero h = (ground arith, h)
  gap-TakeTurns (suc m) h = (ground arith, h)

  resent-TakeTurns : (m : ℕ) → TakeTurns (resent m (pos (suc n) ∷ ts) (negsuc k))
  resent-TakeTurns zero = turns
  resent-TakeTurns (suc m) =
      TakeTurns-join gap (negsuc k) (pos (suc n)) ts (resent m (pos (suc n) ∷ ts) (negsuc k)) turns
        f.brief f.ends refl (gap-TakeTurns m (resent-TakeTurns m))

pub resent-All :
    (P : ℤ → Type 0) (m : ℕ) (ts : List ℤ) (g : ℤ) → All P ts → P g → All P (resent m ts g)
resent-All P zero ts g h k = h
resent-All P (suc m) ts g h k = All-append P ts (g ∷ resent m ts g) h (k, resent-All P m ts g h k)

-- A transmission is heard as it was sent: slicing it at a threshold above silence that the amplitude
-- reaches, and splitting the runs at a gap no longer than the one between its repetitions, gives its
-- frame, once and once more for each repetition. The frame starts and ends on a mark, its marks and
-- spaces take turns, its spaces are shorter than the gap and its length is within the bounds; its
-- timings and the gap are exact at the sample rate and at least as long as the shortest run.
pub render_transmission-heard :
    (fp : F64) (n : ℕ) (ts : List ℤ) (repeat k rate : ℕ) (amplitude : ℤ) (threshold min_us : ℕ)
    (gap : ℤ) (min_edges : ℕ)
    → leb threshold (abs_i8 (to_u8 amplitude) + 0) ≡ true
    → leb threshold 0 ≡ false
    → TakeTurns (pos (suc n) ∷ ts)
    → IsSendable gap min_edges n ts
    → All (IsExact fp rate (samples_in fp rate (fp.of_ℕ min_us))) (pos (suc n) ∷ ts)
    → IsExact fp rate (samples_in fp rate (fp.of_ℕ min_us)) (negsuc k)
    → leb_ℤ gap (pos (suc k)) ≡ true
    → let sent = render_transmission fp (pos (suc n) ∷ ts) repeat (suc k) rate amplitude in
      split_bursts (runs fp (envelope sent) threshold rate min_us) gap min_edges
      ≡ replicate (suc repeat) (pos (suc n) ∷ ts)
render_transmission-heard fp n ts repeat k rate amplitude threshold min_us gap min_edges loud quiet
      turns f exact exact_gap long =
    let frame = pos (suc n) ∷ ts in
    let P = IsExact fp rate (samples_in fp rate (fp.of_ℕ min_us)) in
    let heard =
      λ (w : List ℕ). split_bursts (runs fp (envelope w) threshold rate min_us) gap min_edges in
    ap heard (render_transmission-resent fp frame repeat k rate amplitude)
    ∙ ap (λ rs. split_bursts rs gap min_edges)
        (synthesize-runs fp (resent repeat frame (negsuc k)) amplitude threshold rate min_us loud
          quiet (resent-TakeTurns gap min_edges n ts k f turns repeat)
          (resent-All P repeat frame (negsuc k) exact exact_gap))
    ∙ split_bursts-resent gap min_edges repeat n ts k f long
