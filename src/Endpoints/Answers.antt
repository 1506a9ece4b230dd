-- ===== src/Endpoints/Answers.antt =====
-- A request is sent and its answer received.
use transport_cpp.Prelude.{ℕ, suc, ◌+◌, ◌<◌, ◌≡◌, some, List, [], ◌∷◌, length, arith, ◌∙◌, ap}
use transport_cpp.Int.{negsuc}
use transport_cpp.Types.{ok, Bytes, plain, PollFd}
use transport_cpp.Os.{Os, value}
use transport_cpp.Devices.{request_read}
use transport_cpp.IoDevice.{io_data_choice_valid, device_is_ready, data_ptr}
use transport_cpp.IoDevice.Write.{Writable}
use transport_cpp.IoDevice.Reading.{Feeds, concat, sync_receive-delivers}
use transport_cpp.IoDevice.Receive.{buffer_size, receive_entry, sync_receive}
use transport_cpp.Endpoints.{NetWorld, with_world}
use transport_cpp.Endpoints.Exchange.{
  Hooks, perform_sync_send, sync_send, sync_request_response, after_request, received,
}

module _ {S : Type 0} (os : Os S) (hooks : Hooks S) (d h : ℕ) (put : Bytes → S → S)
    (k : Writable os h put) where
  -- With a handle that takes what is written, the bytes are written and the engine asked to read.
  pub sync_send-writes :
      (b : Bytes) (v : NetWorld S)
      → (v.world.devices d).handle ≡ some h
      → sync_send os hooks d (plain b) v
        ≡ some (ok, with_world v (request_read d (record v.world { sys = put b v.world.sys })))
  unfolding sync_send perform_sync_send io_data_choice_valid device_is_ready data_ptr
  sync_send-writes b v has = ground (arith, k.polls v.world.sys, k.writes b v.world.sys)

  kept_handle :
      (s : S) (v : NetWorld S)
      → (v.world.devices d).handle ≡ some h
      → ((request_read d (record v.world { sys = s })).devices d).handle ≡ some h
  unfolding request_read
  kept_handle s v has = ground arith

  kept_sys : (s : S) (v : NetWorld S) → (request_read d (record v.world { sys = s })).sys ≡ s
  unfolding request_read
  kept_sys s v = ground arith

  -- `syncRequestResponse` writes the request and returns OK with everything that the handle has then,
  -- in order, when the handle takes what is written, `poll` reports it for input afterwards, and the
  -- first read gives something.
  pub sync_request_response-answers :
      (fuel n : ℕ) (b c : Bytes) (cs : List Bytes) (fds : List PollFd) (s end : S) (v : NetWorld S)
      → (v.world.devices d).handle ≡ some h
      → os.poll (receive_entry h ∷ []) (negsuc 0) (put b v.world.sys) ≡ (value (suc n), fds, s)
      → length cs + 1 < fuel
      → Feeds os h (c ∷ cs) (os.read h buffer_size s) end
      → sync_request_response os hooks fuel d b v
        ≡ some (
          record { code = ok; bytes = some (concat (c ∷ cs)) },
          with_world v
              (record (request_read d (record v.world { sys = put b v.world.sys })) { sys = end }),
        )
  unfolding sync_request_response sync_receive
  sync_request_response-answers fuel n b c cs fds s end v has polled f k =
      let sent = request_read d (record v.world { sys = put b v.world.sys }) in
      ap (after_request os hooks (sync_receive os fuel d)) (sync_send-writes b v has)
      ∙ ap (received os hooks (with_world v sent)) (
          sync_receive-delivers os fuel d h n c cs fds s sent end
            (kept_handle (put b v.world.sys) v has)
            (ap (os.poll (receive_entry h ∷ []) (negsuc 0)) (kept_sys (put b v.world.sys) v)
              ∙ polled)
            f k)
