-- ===== src/Tests/ServiceTests.antt =====
-- A connection and a device, concretely.
use hackrf_proxy.Base.{none, none, some, [], ◌∷◌, ◌++◌, ◌≡◌, refl, All}
use hackrf_proxy.Base.Results.{err, ok}
use hackrf_proxy.Server.{WsMessage, read_loop}
use hackrf_proxy.Server.Refusal.{IsAllowed, Keeps, read_loop_sends_allowed}
use hackrf_proxy.Radio.Driver.{Driver, transfers, open_radio}
use hackrf_proxy.Radio.Device.{start_rx, transmit}
use hackrf_proxy.Radio.Device.Failure.{attempt, starting, attempt_drops_handle}
use hackrf_proxy.Radio.Gains.{validate_tx_gain}
use hackrf_proxy.Radio.Device.Transmission.{logged, written, silence, transmit-written}
use hackrf_proxy.Tests.Fixtures.{codec, channels, driver, device, params}

channels-Keeps : Keeps channels (All IsAllowed)
channels-Keeps = record {
  keep_send = λ c s a p. (a, p);
  keep_transmit = λ s p. p;
  keep_configure = λ s p. p;
  keep_status = λ s p. p;
  keep_queue = λ m s p. p;
}

read_loop_sends_allowed_example :
    All IsAllowed (read_loop channels codec (ok (WsMessage.text "{}") ∷ []) []).1
read_loop_sends_allowed_example =
    read_loop_sends_allowed channels (All IsAllowed) channels-Keeps codec
      (ok (WsMessage.text "{}") ∷ []) [] tt

succeeds : (transmit (logged driver) params (1 ∷ 0 ∷ []) (device, ([], tt))).0 ≡ ok tt
unfolding transmit validate_tx_gain transfers open_radio
succeeds = refl

transmit-written_example :
    written (transmit (logged driver) params (1 ∷ 0 ∷ []) (device, ([], tt))).1.1.0
    ≡ [] ++ ((1 ∷ 0 ∷ []) ++ silence 131_072)
transmit-written_example = transmit-written driver params (1 ∷ 0 ∷ []) device [] tt succeeds

-- A driver that cannot open the radio.
abbrev unplugged : Driver (Unit {0}) (Unit {0}) (Unit {0})
unplugged = record driver { open_first = λ w. (err "no radio", w) }

cannot_start : (attempt unplugged (starting 433_920_000) (device, tt)).0 ≡ some "no radio"
unfolding start_rx open_radio
cannot_start = refl

attempt_drops_handle_example :
    (attempt unplugged (starting 433_920_000) (device, tt)).1.0.radio ≡ none
attempt_drops_handle_example =
    attempt_drops_handle unplugged (starting 433_920_000) device tt "no radio" tt cannot_start
