-- ===== src/System/OnAir.antt =====
-- The arbiter (`run` of proxyd/src/engine.rs) over the device (`Device` of proxyd/src/radio.rs): what
-- the driver is asked in a whole run of the daemon's radio thread.
use hackrf_proxy.Base.{ℕ, false, List, ◌≡◌, arith}
use hackrf_proxy.Base.Floats.{F64}
use hackrf_proxy.Base.Results.{ok}
use hackrf_proxy.Engine.World.{Os}
use hackrf_proxy.Engine.State.{Config}
use hackrf_proxy.Engine.Arbiter.{Inbox, run}
use hackrf_proxy.Engine.Arbiter.Invariants.{IsKept, run_keeps}
use hackrf_proxy.Radio.Driver.{Driver, open_radio}
use hackrf_proxy.Radio.Device.{
  Device, handle, open_rx_stream, start_rx, read, stop, describe, device_transceiver,
}
use hackrf_proxy.Radio.Device.Transmission.{Call, logged, is_on_air, transmit-is_on_air}

-- The device, the calls of the driver so far, and the rest of the world.
abbrev pub World : Type 0 → Type 0 → Type 0 → Type 0
World Handle Stream W = Device Handle Stream × (List Call × W)

module _ {Handle Stream W : Type 0} where
  -- Clocks and files do not touch the device.
  abbrev pub around : Os W → Os (World Handle Stream W)
  around os = record {
    instant_now = λ (d, (l, w)). let (n, w') = os.instant_now w in (n, (d, (l, w')));
    system_now = λ (d, (l, w)). let (n, w') = os.system_now w in (n, (d, (l, w')));
    sleep = λ n (d, (l, w)). (d, (l, os.sleep n w));
    open_append = λ p (d, (l, w)). let (r, w') = os.open_append p w in (r, (d, (l, w')));
    write_line = λ p f (d, (l, w)). let (r, w') = os.write_line p f w in (r, (d, (l, w')));
  }

  -- The transmitter is off.
  abbrev pub IsOff : World Handle Stream W → Type 0
  IsOff s = is_on_air s.1.0 ≡ false

  -- No stop of the driver fails.
  abbrev pub Stops : Driver Handle Stream W → Type 0
  Stops drv = (h : Handle) (w : W) → (drv.stop h w).0 ≡ ok tt

  module _ (drv : Driver Handle Stream W) (stops : Stops drv) where
    start_rx-IsOff :
        (f : ℕ) (s : World Handle Stream W) → IsOff s → IsOff (start_rx (logged drv) f s).1
    unfolding start_rx handle open_radio open_rx_stream
    start_rx-IsOff f (d, (l, w)) h = ground arith

    read-IsOff :
        (out : List ℕ) (s : World Handle Stream W) → IsOff s → IsOff (read (logged drv) out s).2
    unfolding read
    read-IsOff out (d, (l, w)) h = ground arith

    stop-IsOff : (s : World Handle Stream W) → IsOff s → IsOff (stop (logged drv) s).1
    unfolding stop
    stop-IsOff (d, (l, w)) h = ground (arith, stops)

    describe-IsOff : (s : World Handle Stream W) → IsOff s → IsOff (describe (logged drv) s).1
    unfolding describe handle open_radio
    describe-IsOff (d, (l, w)) h = ground arith

    calls-IsKept : (os : Os W) → IsKept (device_transceiver (logged drv)) (around os) IsOff
    calls-IsKept os = record {
      keep_start_rx = start_rx-IsOff;
      keep_read = read-IsOff;
      keep_stop = stop-IsOff;
      keep_transmit = λ p samples s h. transmit-is_on_air drv p samples s.0 s.1.0 s.1.1 stops h;
      keep_describe = describe-IsOff;
      keep_instant = λ s h. h;
      keep_system = λ s h. h;
      keep_sleep = λ n s h. h;
      keep_open = λ p s h. h;
      keep_write = λ p f s h. h;
    }

    -- With a driver whose stops succeed, after any number of rounds of the arbiter over the device a
    -- stop has succeeded since the transmitter was last switched on, whatever clients ask and
    -- whichever other calls of the driver fail, if the transmitter was off at the start.
    pub run_leaves_air :
        (fp : F64) (os : Os W) (config : Config fp.Float) (s : World Handle Stream W)
        (inbox : List Inbox)
        → is_on_air s.1.0 ≡ false
        → is_on_air (run fp (device_transceiver (logged drv)) (around os) config s inbox).world.1.0
          ≡ false
    run_leaves_air fp os config s inbox h =
        run_keeps (device_transceiver (logged drv)) (around os) IsOff (calls-IsKept os) fp config s
          inbox h
