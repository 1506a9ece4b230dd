-- ===== src/IoDevice/Queue.antt =====
-- When `asyncSend` accepts data, and what it does with it.
use transport_cpp.Prelude.{ℕ, ◌≡◌, true, false, Option, none, some, [], ◌∷◌, ◌++◌, arith}
use transport_cpp.Types.{ok, nok, ErrorCode, internal, IoDataChoice, pollout, pollin}
use transport_cpp.Engine
use transport_cpp.Engine.Tables.{has_fd, events_of, events_of-with_events}
use transport_cpp.World.{World}
use transport_cpp.World.Invariant.{IsWellFormed}
use transport_cpp.Devices.{request_write, request_read}
use transport_cpp.IoDevice.{
  Virtual, async_send, io_data_choice_valid, set_io, is_valid_for_outgoing_async,
}

-- What a device's engine polls its handle for.
abbrev pub polled_for : {S : Type 0} → ℕ → ℕ → ℕ → World S → Option ℕ
polled_for e d h w = events_of h (w.engines e).poll_devices

module _ {S : Type 0} where
  -- A handle of a loaded device is polled.
  pub polled_of_loaded :
      (d e h : ℕ) (w : World S)
      → IsWellFormed w
      → (w.devices d).engine ≡ some e
      → (w.devices d).handle ≡ some h
      → has_fd h (w.engines e).poll_devices ≡ true
  polled_of_loaded d e h w v loaded has = ground (arith, v.owner e h d, (v.consistent e).mapped h)

  pub request_write-polled_for :
      (d e h : ℕ) (w : World S)
      → has_fd h (w.engines e).poll_devices ≡ true
      → (w.devices d).engine ≡ some e
      → (w.devices d).handle ≡ some h
      → polled_for e d h (request_write d w) ≡ some pollout
  unfolding request_write Engine.request_write
  request_write-polled_for d e h w p loaded has =
      ground (arith, events_of-with_events h h pollout (w.engines e).poll_devices)

  pub request_read-polled_for :
      (d e h : ℕ) (w : World S)
      → has_fd h (w.engines e).poll_devices ≡ true
      → (w.devices d).engine ≡ some e
      → (w.devices d).handle ≡ some h
      → polled_for e d h (request_read d w) ≡ some pollin
  unfolding request_read Engine.request_read
  request_read-polled_for d e h w p loaded has =
      ground (arith, events_of-with_events h h pollin (w.engines e).poll_devices)

  pub request_write-io : (d : ℕ) (w : World S) → (request_write d w).io ≡ w.io
  unfolding request_write
  request_write-io d w = ground arith

  pub request_read-io : (d : ℕ) (w : World S) → (request_read d w).io ≡ w.io
  unfolding request_read
  request_read-io d w = ground arith

  module _ (v : Virtual S) (d : ℕ) (message : IoDataChoice) (w : World S) where
    -- Data for a device with an engine goes to the end of the queue, and the device's handle is
    -- polled for output from then on.
    pub async_send-enqueues :
        {e h : ℕ}
        → IsWellFormed w
        → (w.devices d).engine ≡ some e
        → (w.devices d).handle ≡ some h
        → io_data_choice_valid message ≡ true
        → let (code, w') = async_send v d message w in
          (code ≡ ok)
          × ((w'.io d).queue ≡ (w.io d).queue ++ message ∷ [])
          × (polled_for e d h w' ≡ some pollout)
    unfolding async_send
    async_send-enqueues {e} {h} i loaded has valid =
        let queued : World S =
          set_io d (record (w.io d) { queue = (w.io d).queue ++ message ∷ [] }) w in
        (
          ground arith,
          ground (arith, request_write-io d queued),
          ground (
            arith,
            request_write-polled_for d e h queued (polled_of_loaded d e h w i loaded has),
          ),
        )

    -- Data behind a null pointer is refused with an error, and no queue changes.
    pub async_send_null :
        io_data_choice_valid message ≡ false
        → let (code, w') = async_send v d message w in
          (code ≡ nok)
          × (w'.io ≡ w.io)
          × ((w'.devices d).last_error.code ≡ internal ErrorCode.invalid_logic)
    unfolding async_send
    async_send_null null = (ground arith, ground arith, ground arith)

    -- Data for a device that has a handle but no engine, and is ready by its handle, is queued and
    -- reported as sent, although the error that is set says that it will be dropped.
    pub async_send_unloaded :
        (h : ℕ)
        → ((u : World S) → (u.devices d).handle ≡ some h → v.device_is_ready d u ≡ true)
        → (w.devices d).engine ≡ none
        → (w.devices d).handle ≡ some h
        → io_data_choice_valid message ≡ true
        → let (code, w') = async_send v d message w in
          (code ≡ ok)
          × ((w'.io d).queue ≡ (w.io d).queue ++ message ∷ [])
          × ((w'.devices d).last_error.code ≡ internal ErrorCode.invalid_logic)
          × (w'.engines ≡ w.engines)
    unfolding async_send request_write
    async_send_unloaded h ready no_engine has valid =
        let w1 : World S = (is_valid_for_outgoing_async d w).1 in
        (
          ground (arith, ready w1),
          ground (arith, ready w1),
          ground (arith, ready w1),
          ground (arith, ready w1),
        )
