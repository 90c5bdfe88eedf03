-- ===== src/Radio/Device/Transmission.antt =====
-- What `Device::transmit` of proxyd/src/radio.rs writes to the radio.
use hackrf_proxy.Base.{
  ℕ, zero, suc, ◌+◌, ◌*◌, ◌≤◌, List, [], ◌∷◌, ◌++◌, ◌≡◌, refl, ap, sym, append-nil, append_assoc,
  arith, length, take, drop, replicate, All, ◌∙◌,
}
use hackrf_proxy.Base.{Bool, true, false, some, Option-cases}
use hackrf_proxy.Base.Results.{Error, Result, ok, err, Result-cases}
use hackrf_proxy.Base.{inl, inr, take-drop, length-drop, length-take}
use hackrf_proxy.Engine.World.{TxParams}
use hackrf_proxy.Radio.Driver.{
  open_radio, Driver, DriverConfig, chunks, transfers, transfer_size, in_flight_transfers,
  write_all,
}
use hackrf_proxy.Radio.Device.{config, Device, handle, send_samples, stop_transmitter, transmit}

-- The chunks, put together again, are the samples.
abbrev pub joined : List (List ℕ) → List ℕ
joined [] = []
joined (c ∷ cs) = c ++ joined cs

joined-chunks : (fuel n : ℕ) (xs : List ℕ) → length xs ≤ fuel → joined (chunks fuel (suc n) xs) ≡ xs
unfolding chunks
joined-chunks zero n [] h = refl
joined-chunks zero n (x ∷ xs) h = absurd (omega arith)
joined-chunks (suc fuel) n [] h = refl
joined-chunks (suc fuel) n (x ∷ xs) h =
    let ih = joined-chunks fuel n (drop n xs) (omega (arith, length-drop n xs)) in
    ap (λ t. x ∷ take n xs ++ t) ih ∙ ap (λ t. x ∷ t) (take-drop n xs)

chunks-length : (fuel n : ℕ) (xs : List ℕ) → All (λ c. length c ≤ suc n) (chunks fuel (suc n) xs)
unfolding chunks
chunks-length zero n xs = tt
chunks-length (suc fuel) n [] = tt
chunks-length (suc fuel) n (x ∷ xs) =
    (omega (arith, length-take n xs), chunks-length fuel n (drop n xs))

-- So many zeros.
pub silence : ℕ → List ℕ
silence n = replicate n 0

silence-add : (m n : ℕ) → silence (m + n) ≡ silence m ++ silence n
unfolding silence
silence-add zero n = ap (λ k. replicate {A = ℕ} k 0) (omega arith)
silence-add (suc m) n =
    let shift : suc m + n ≡ suc (m + n) = omega arith in
    ap (λ k. replicate {A = ℕ} k 0) shift ∙ ap (λ t. 0 ∷ t) (silence-add m n)

silence-zero : silence 0 ≡ []
unfolding silence
silence-zero = refl

joined-replicate : (a b : ℕ) → joined (replicate a (silence b)) ≡ silence (a * b)
joined-replicate zero b =
    let none_left : 0 * b ≡ 0 = omega arith in sym (ap silence none_left ∙ silence-zero)
joined-replicate (suc a) b =
    ap (λ t. silence b ++ t) (joined-replicate a b)
    ∙ sym (silence-add b (a * b))
    ∙ ap silence (omega arith)

silent : (n : ℕ) → replicate n 0 ≡ silence n
unfolding silence
silent n = refl

pub joined-transfers :
    (samples : List ℕ)
    → joined (transfers samples).0 ++ joined (transfers samples).1 ≡ samples ++ silence 131_072
unfolding transfers
joined-transfers samples =
    let sound = joined-chunks (length samples) 32_767 samples (omega arith) in
    let quiet =
      ap (λ t. joined (replicate (in_flight_transfers + 1) t)) (silent transfer_size)
      ∙ joined-replicate 4 transfer_size in
    ap (λ t. joined (chunks (length samples) transfer_size samples) ++ t) quiet
    ∙ ap (λ t. t ++ silence 131_072) sound

-- A call of the driver, logged newest first.
pub data Call : Type 0 where
  opened received transmitting streamed other : Call
  stopped : Bool → Call
  wrote : List ℕ → Call

-- Whether the transmitter may be on: it was to be switched on, and no stop has succeeded since. Only
-- a stop that succeeds is known to switch it off.
abbrev pub is_on_air : List Call → Bool
is_on_air [] = false
is_on_air (Call.opened ∷ l) = is_on_air l
is_on_air (Call.received ∷ l) = is_on_air l
is_on_air (Call.transmitting ∷ l) = true
is_on_air (Call.streamed ∷ l) = is_on_air l
is_on_air (Call.stopped true ∷ l) = false
is_on_air (Call.stopped false ∷ l) = is_on_air l
is_on_air (Call.other ∷ l) = is_on_air l
is_on_air (Call.wrote b ∷ l) = true

-- The bytes that were written, oldest first.
abbrev pub written : List Call → List ℕ
written [] = []
written (Call.wrote b ∷ l) = written l ++ b
written (Call.opened ∷ l) = written l
written (Call.received ∷ l) = written l
written (Call.transmitting ∷ l) = written l
written (Call.streamed ∷ l) = written l
written (Call.stopped b ∷ l) = written l
written (Call.other ∷ l) = written l

abbrev pub is_ok : {A : Type 0} → Result Error A → Bool
is_ok (ok a) = true
is_ok (err e) = false

module _ {Handle Stream W : Type 0} where
  abbrev pub logged : Driver Handle Stream W → Driver Handle Stream (List Call × W)
  logged drv = record {
    open_first = λ (l, w). let (r, w') = drv.open_first w in (r, (Call.opened ∷ l, w'));
    scan = λ (l, w). let (r, w') = drv.scan w in (r, (Call.other ∷ l, w'));
    set_freq = λ h f (l, w). let (r, w') = drv.set_freq h f w in (r, (Call.other ∷ l, w'));
    start_rx = λ h c (l, w). let (r, w') = drv.start_rx h c w in (r, (Call.received ∷ l, w'));
    start_rx_stream =
        λ h n (l, w). let (r, w') = drv.start_rx_stream h n w in (r, (Call.streamed ∷ l, w'));
    read_sync = λ t n (l, w). let (r, w') = drv.read_sync t n w in (r, (Call.other ∷ l, w'));
    start_tx = λ h c (l, w). let (r, w') = drv.start_tx h c w in (r, (Call.transmitting ∷ l, w'));
    start_tx_stream =
        λ h (l, w). let (r, w') = drv.start_tx_stream h w in (r, (Call.streamed ∷ l, w'));
    write_sync = λ t b (l, w). let (r, w') = drv.write_sync t b w in (r, (Call.wrote b ∷ l, w'));
    stop = λ h (l, w). let (r, w') = drv.stop h w in (r, (Call.stopped (is_ok r) ∷ l, w'));
    identify = λ h (l, w). let (r, w') = drv.identify h w in (r, (Call.other ∷ l, w'));
    refusal_text = drv.refusal_text;
    not_receiving = drv.not_receiving;
    no_radio = drv.no_radio;
    no_access = drv.no_access;
  }

  module _ (drv : Driver Handle Stream W) where
    pub write_all-written :
        (stream : Stream) (ts : List (List ℕ)) (l : List Call) (w : W)
        → (write_all (logged drv) stream ts (l, w)).0 ≡ ok tt
        → written (write_all (logged drv) stream ts (l, w)).1.0 ≡ written l ++ joined ts
    unfolding write_all
    write_all-written stream [] l w h = sym (append-nil (written l))
    write_all-written stream (t ∷ ts) l w h =
        let ih = write_all-written stream ts (Call.wrote t ∷ l) (drv.write_sync stream t w).1 in
        ground (arith, append_assoc (written l) t (joined ts))

    -- The transfers of `samples`, and then the silence.
    send_samples-written :
        (h : Handle) (c : DriverConfig) (samples : List ℕ) (l : List Call) (w : W)
        → (send_samples (logged drv) h c samples (l, w)).0 ≡ ok tt
        → written (send_samples (logged drv) h c samples (l, w)).1.0
          ≡ written l ++ (joined (transfers samples).0 ++ joined (transfers samples).1)
    unfolding send_samples
    send_samples-written h c samples l w e =
        let l' = Call.streamed ∷ Call.transmitting ∷ l in
        let w₁ = (drv.start_tx h c w).1 in
        let opened = drv.start_tx_stream h w₁ in
        elim (Result-cases opened.0) [
          | inl (stream, q) ↦
              let body = write_all (logged drv) stream (transfers samples).0 (l', opened.1) in
              let first = write_all-written stream (transfers samples).0 l' opened.1 in
              let last = write_all-written stream (transfers samples).1 body.1.0 body.1.1 in
              let both =
                append_assoc (written l) (joined (transfers samples).0)
                  (joined (transfers samples).1) in
              ground arith
          | inr (x, q) ↦ ground arith
        ]

    write_all-is_on_air :
        (stream : Stream) (ts : List (List ℕ)) (l : List Call) (w : W)
        → is_on_air l ≡ true
        → is_on_air (write_all (logged drv) stream ts (l, w)).1.0 ≡ true
    unfolding write_all
    write_all-is_on_air stream [] l w h = h
    write_all-is_on_air stream (t ∷ ts) l w h =
        let ih =
          write_all-is_on_air stream ts (Call.wrote t ∷ l) (drv.write_sync stream t w).1 refl in
        ground arith

    handle-is_on_air :
        (d : Device Handle Stream) (l : List Call) (w : W)
        → is_on_air l ≡ false
        → is_on_air (handle (logged drv) (d, (l, w))).2.0 ≡ false
    unfolding handle open_radio
    handle-is_on_air d l w h = ground arith

    stop_transmitter-is_on_air :
        ((h : Handle) (v : W) → (drv.stop h v).0 ≡ ok tt)
        → (h : Handle) (result : Result Error (Unit {0})) (d : Device Handle Stream)
          (s : List Call × W)
        → is_on_air (stop_transmitter (logged drv) h result (d, s)).1.1.0 ≡ false
    unfolding stop_transmitter
    stop_transmitter-is_on_air stops h result d (l, w) = let e = stops h w in ground arith

    -- With a driver whose stops succeed, the transmitter is off after a transmission.
    pub transmit-is_on_air :
        (params : TxParams) (samples : List ℕ) (d : Device Handle Stream) (l : List Call) (w : W)
        → ((h : Handle) (v : W) → (drv.stop h v).0 ≡ ok tt)
        → is_on_air l ≡ false
        → is_on_air (transmit (logged drv) params samples (d, (l, w))).1.1.0 ≡ false
    unfolding transmit
    transmit-is_on_air params samples d l w stops h =
        let held = handle (logged drv) (d, (l, w)) in
        let before = handle-is_on_air d l w h in
        elim (Result-cases held.0) [
          | inl (radio, q) ↦
              let c = config held.1 params.frequency_hz params.txvga_db params.amp_enable in
              let sent = send_samples (logged drv) radio c samples held.2 in
              let off = stop_transmitter-is_on_air stops radio sent.0 held.1 sent.1 in ground arith
          | inr (e, q) ↦ ground arith
        ]

    -- A transmission that succeeds has written the samples, all and in order, and then the silence
    -- that pushes them out of the transfers in flight: four transfers of zeros.
    pub transmit-written :
        (params : TxParams) (samples : List ℕ) (d : Device Handle Stream) (l : List Call) (w : W)
        → (transmit (logged drv) params samples (d, (l, w))).0 ≡ ok tt
        → written (transmit (logged drv) params samples (d, (l, w))).1.1.0
          ≡ written l ++ (samples ++ silence 131_072)
    unfolding transmit handle stop_transmitter open_radio
    transmit-written params samples d l w e = elim (Option-cases d.radio) [
      | inl q ↦ elim (Result-cases (drv.open_first w).0) [
        | inl (h, r) ↦
            let d' = record d { radio = some h } in
            let sent =
              send_samples-written h
                (config d' params.frequency_hz params.txvga_db params.amp_enable) samples
                (Call.opened ∷ l) (drv.open_first w).1 in
            let all = joined-transfers samples in ground arith
        | inr (x, r) ↦ ground arith
      ]
      | inr (h, q) ↦
          let sent =
            send_samples-written h (config d params.frequency_hz params.txvga_db params.amp_enable)
              samples l w in
          let all = joined-transfers samples in ground arith
    ]
