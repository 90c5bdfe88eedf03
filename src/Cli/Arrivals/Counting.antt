-- ===== src/Cli/Arrivals/Counting.antt =====
-- How often the arbiter is told of an arrival, for `serve` of proxyd/src/main.rs and
-- `watch_for_arrivals` of proxyd/src/radio.rs.
use hackrf_proxy.Base.{
  ℕ, zero, suc, ◌+◌, min, if◌then◌else◌, List, [], ◌∷◌, ◌++◌, ◌≡◌, refl, sym, ap, ◌∙◌, length,
  replicate, append_assoc, append-nil, arith,
}
use hackrf_proxy.Base.Queue.{into}
use hackrf_proxy.Engine.Commands.{Command}
use hackrf_proxy.Radio.Hotplug.{HotplugEvent, is_hackrf, arrivals}
use hackrf_proxy.Cli.Arrivals.{forward_arrivals}

-- How many HackRFs were connected.
abbrev pub hackrfs : List HotplugEvent → ℕ
hackrfs [] = 0
hackrfs (e ∷ es) = (if is_hackrf e then 1 else 0) + hackrfs es

length-arrivals : (es : List HotplugEvent) → length (arrivals es) ≡ hackrfs es
unfolding arrivals
length-arrivals [] = refl
length-arrivals (e ∷ es) = let rest = length-arrivals es in ground arith

forward_arrivals-kept :
    (xs : List (Unit {0})) (kept : List Command) (n : ℕ)
    → (forward_arrivals into xs (kept, n)).0
      ≡ kept ++ replicate (min n (length xs)) Command.device_arrived
unfolding forward_arrivals
forward_arrivals-kept [] kept n =
    let count : 0 ≡ min n 0 = omega arith in
    sym (append-nil kept) ∙ ap (λ k. kept ++ replicate k Command.device_arrived) count
forward_arrivals-kept (x ∷ xs) kept zero =
    let count : 0 ≡ min 0 (suc (length xs)) = omega arith in
    sym (append-nil kept) ∙ ap (λ k. kept ++ replicate k Command.device_arrived) count
forward_arrivals-kept (x ∷ xs) kept (suc n) =
    let count : suc (min n (length xs)) ≡ min (suc n) (suc (length xs)) = omega arith in
    forward_arrivals-kept xs (kept ++ Command.device_arrived ∷ []) n
    ∙ append_assoc kept (Command.device_arrived ∷ [])
        (replicate (min n (length xs)) Command.device_arrived)
    ∙ ap (λ k. kept ++ replicate k Command.device_arrived) count

-- The arbiter is told of an arrival once for each HackRF that is connected, and of no other device,
-- up to where its command channel is gone, after `n` commands.
pub forward_arrivals-hackrfs :
    (es : List HotplugEvent) (n : ℕ)
    → (forward_arrivals into (arrivals es) ([], n)).0
      ≡ replicate (min n (hackrfs es)) Command.device_arrived
forward_arrivals-hackrfs es n =
    forward_arrivals-kept (arrivals es) [] n
    ∙ ap (λ k. replicate (min n k) Command.device_arrived) (length-arrivals es)
