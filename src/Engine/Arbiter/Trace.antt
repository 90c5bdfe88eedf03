-- ===== src/Engine/Arbiter/Trace.antt =====
-- A transceiver that logs what it is asked, newest first, and the order in which a half-duplex
-- radio may be asked.
use hackrf_proxy.Base.{Bool, true, false, List, [], ◌∷◌, ◌≡◌}
use hackrf_proxy.Base.Results.{Error, Result, ok, err}
use hackrf_proxy.Engine.World.{Transceiver, Os}

-- A call, and whether it succeeded where that matters.
pub data Action : Type 0 where
  started read stopped : Bool → Action
  transmitted described : Action

-- What the radio does as far as its answers tell: it rests, as the arbiter takes it to when a round
-- begins with no receiver running; it listens; a stop has succeeded; the last call that matters has
-- failed, so that what it does is not known; or it sends.
pub data Mode : Type 0 where
  resting listening halted failed sending : Mode

-- The mode after the calls so far, from the mode before the first.
abbrev pub mode : Mode → List Action → Mode
mode m [] = m
mode m (started true ∷ t) = listening
mode m (started false ∷ t) = failed
mode m (read true ∷ t) = listening
mode m (read false ∷ t) = failed
mode m (stopped true ∷ t) = halted
mode m (stopped false ∷ t) = failed
mode m (transmitted ∷ t) = sending
mode m (described ∷ t) = mode m t

-- It is not known to listen or to send.
abbrev pub is_quiet : Mode → Bool
is_quiet resting = true
is_quiet halted = true
is_quiet failed = true
is_quiet listening = false
is_quiet sending = false

-- A frame may be sent.
abbrev pub is_free : Mode → Bool
is_free resting = true
is_free halted = true
is_free failed = false
is_free listening = false
is_free sending = false

-- The receiver is started only on a radio that is not known to listen or to send, a transfer is read
-- only while it listens, and a frame is sent only on a radio that is known to do neither.
abbrev pub Legal : Mode → List Action → Type 0
Legal m [] = Unit
Legal m (started b ∷ t) = (is_quiet (mode m t) ≡ true) × Legal m t
Legal m (read b ∷ t) = (mode m t ≡ listening) × Legal m t
Legal m (stopped b ∷ t) = Legal m t
Legal m (transmitted ∷ t) = (is_free (mode m t) ≡ true) × Legal m t
Legal m (described ∷ t) = Legal m t

abbrev pub is_ok : {A : Type 0} → Result Error A → Bool
is_ok (ok a) = true
is_ok (err e) = false

abbrev pub Log : Type 0 → Type 0
Log W = List Action × W

module _ {W : Type 0} where
  abbrev pub traced : Transceiver W → Transceiver (Log W)
  traced tr = record {
    start_rx = λ f (t, w). let (r, w') = tr.start_rx f w in (r, (started (is_ok r) ∷ t, w'));
    read = λ out (t, w). let (r, out', w') = tr.read out w in (r, out', (read (is_ok r) ∷ t, w'));
    stop = λ (t, w). let (r, w') = tr.stop w in (r, (stopped (is_ok r) ∷ t, w'));
    transmit = λ p b (t, w). let (r, w') = tr.transmit p b w in (r, (transmitted ∷ t, w'));
    describe = λ (t, w). let (r, w') = tr.describe w in (r, (described ∷ t, w'));
  }

  -- Clocks and files do not touch the log.
  abbrev pub beside : Os W → Os (Log W)
  beside os = record {
    instant_now = λ (t, w). let (n, w') = os.instant_now w in (n, (t, w'));
    system_now = λ (t, w). let (n, w') = os.system_now w in (n, (t, w'));
    sleep = λ n (t, w). (t, os.sleep n w);
    open_append = λ p (t, w). let (r, w') = os.open_append p w in (r, (t, w'));
    write_line = λ p f (t, w). let (r, w') = os.write_line p f w in (r, (t, w'));
  }
