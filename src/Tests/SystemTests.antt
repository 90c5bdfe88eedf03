-- ===== src/Tests/SystemTests.antt =====
-- The server, the arbiter and the device together, concretely.
use hackrf_proxy.Base.{List, [], ◌∷◌, some, false, ◌≡◌, refl, take, String, Option}
use hackrf_proxy.Base.Results.{ok, err}
use hackrf_proxy.Base.Queue.{into}
use hackrf_proxy.Wire.{Message, MessagePayload, ErrorText, event}
use hackrf_proxy.Engine.Commands.{Command}
use hackrf_proxy.Engine.Arbiter.{Inbox, run}
use hackrf_proxy.Radio.Device.{device_transceiver}
use hackrf_proxy.Radio.Device.Transmission.{logged, is_on_air}
use hackrf_proxy.Server.Tasks.{writer, forward, lagged, closed}
use hackrf_proxy.Server.Tasks.Delivery.{forward-writer, closing, encoded, heard}
use hackrf_proxy.System.OnAir.{around, run_leaves_air}
use hackrf_proxy.Tests.Rational.{rational}
use hackrf_proxy.Tests.Fixtures.{frame, config, still, driver, device}

abbrev asked : List Inbox
asked = Inbox.received (Command.transmit frame) ∷ Inbox.empty ∷ []

run_leaves_air_example :
    is_on_air
      (run rational
        (device_transceiver (logged driver))
        (around still)
        config
        (device, ([], tt))
        asked).world.1.0
    ≡ false
run_leaves_air_example =
    run_leaves_air driver (λ h w. refl) rational still config (device, ([], tt)) asked refl

-- An event, which is encoded as two characters.
abbrev heard_event : Message
heard_event = event (MessagePayload.error (ErrorText.radio_thread_gone))

abbrev encode : Message → Option String
encode m = some "{}"

forward-writer_example :
    writer encode into
      (closing encode)
      (forward into (ok heard_event ∷ err (lagged 3) ∷ ok heard_event ∷ err closed ∷ []) ([], 8)).0
      ([], 1)
    ≡ (
      take 1 (
          encoded encode
            (take 8 (heard (ok heard_event ∷ err (lagged 3) ∷ ok heard_event ∷ err closed ∷ [])))),
      0,
    )
forward-writer_example =
    forward-writer encode (ok heard_event ∷ err (lagged 3) ∷ ok heard_event ∷ err closed ∷ []) 8 1
