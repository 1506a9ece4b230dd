-- ===== src/NetworkDevice/Datagrams.antt =====
-- What a receiver is told about datagrams.
use transport_cpp.Prelude.{
  ℕ, zero, suc, ◌+◌, ◌<◌, ◌≡◌, refl, ◌≢◌, some, List, [], ◌∷◌, ◌++◌, length, append_assoc,
  append-nil, arith, ◌∙◌, ap, String,
}
use transport_cpp.Types.{Bytes, NetworkMessage}
use transport_cpp.Os.{Outcome, value, failed}
use transport_cpp.World.{World}
use transport_cpp.Sockets.{NetOs, Peer, inet}
use transport_cpp.IoDevice.Reading.{concat}
use transport_cpp.IoDevice.Receive.{is_no_error}
use transport_cpp.NetworkDevice.Receive.{
  receive_loop, receive_message, ready_read, empty_message, no_error, notify_if, notify_callback,
  recv_buffer_len,
}

-- The datagrams that successive calls of `recvfrom` give, up to one that fails or is empty.
abbrev pub Arrive :
    {S : Type 0} → NetOs S → ℕ → List Bytes → Outcome (Bytes × Peer) × S → S → Type 0
Arrive net h [] (failed errno, s) end = s ≡ end
Arrive net h [] (value ([], p), s) end = s ≡ end
Arrive net h [] (value (b ∷ bs, p), s) end = ⊥
Arrive net h (c ∷ cs) (failed errno, s) end = ⊥
Arrive net h (c ∷ cs) (value (b, p), s) end =
    (b ≢ []) × (b ≡ c) × Arrive net h cs (net.recv_from h recv_buffer_len s) end

module _ {S : Type 0} (net : NetOs S) where
  receive_loop-Arrive :
      (fuel h : ℕ) (acc : Bytes) (cs : List Bytes) (r : Outcome (Bytes × Peer) × S) (end : S)
      → length cs < fuel
      → Arrive net h cs r end
      → receive_loop net fuel h acc r ≡ some (acc ++ concat cs, end)
  unfolding receive_loop
  receive_loop-Arrive zero h acc cs r end f k = absurd (omega arith)
  receive_loop-Arrive (suc fuel) h acc [] (failed errno, s) end f k = rw (k, append-nil)
  receive_loop-Arrive (suc fuel) h acc [] (value ([], p), s) end f k = rw (k, append-nil)
  receive_loop-Arrive (suc fuel) h acc [] (value (b ∷ bs, p), s) end f k = absurd k
  receive_loop-Arrive (suc fuel) h acc (c ∷ cs) (failed errno, s) end f k = absurd k
  receive_loop-Arrive (suc fuel) h acc (c ∷ cs) (value ([], p), s) end f k = absurd (k.0 refl)
  receive_loop-Arrive (suc fuel) h acc (c ∷ cs) (value (b ∷ bs, p), s) end f k = rw (← k.1) (
      receive_loop-Arrive fuel h (acc ++ b ∷ bs) cs (net.recv_from h recv_buffer_len s) end
        (omega arith) k.2
      ∙ rw append_assoc)

  -- `receiveMessage` returns these datagrams in one message of the first sender, and no error.
  pub receive_message-Arrive :
      (fuel d h port : ℕ) (ip : String) (c : Bytes) (cs : List Bytes) (w : World S) (s end : S)
      → (w.devices d).handle ≡ some h
      → length cs + 1 < fuel
      → net.recv_from h recv_buffer_len w.sys ≡ (value (c, inet (value ip) port), s)
      → c ≢ []
      → Arrive net h cs (net.recv_from h recv_buffer_len s) end
      → receive_message net fuel d (empty_message net) w
        ≡ some (
          no_error,
          record { bytes = concat (c ∷ cs); peer = record { ip = ip; port = port } },
          record w { sys = end },
        )
  unfolding receive_message is_no_error
  receive_message-Arrive fuel d h port ip c cs w s end has f first some_c rest = ground (
    arith,
    receive_loop-Arrive fuel h [] (c ∷ cs) (value (c, inet (value ip) port), s) end (omega arith)
        (some_c, refl, rest),
    first,
  )

  -- On a device with a handle, the datagrams that successive calls of `recvfrom` give up to one that is
  -- empty or a call that fails, of which the first is not empty, are handed to `notifyCallback` as one
  -- message, whoever sent them. Its peer is the sender of the first datagram, an IPv4 address that can
  -- be written as text. The fuel is more than the number of those datagrams.
  pub ready_read-merges :
      (network_callback : ℕ → NetworkMessage → World S → World S)
      (io_callback : ℕ → Bytes → World S → World S) (fuel d h port : ℕ) (ip : String) (c : Bytes)
      (cs : List Bytes) (w : World S) (s end : S)
      → (w.devices d).handle ≡ some h
      → length cs + 1 < fuel
      → net.recv_from h recv_buffer_len w.sys ≡ (value (c, inet (value ip) port), s)
      → c ≢ []
      → Arrive net h cs (net.recv_from h recv_buffer_len s) end
      → ready_read net network_callback io_callback fuel d w
        ≡ some (
            notify_callback network_callback io_callback d
              (record { bytes = concat (c ∷ cs); peer = record { ip = ip; port = port } })
              (record w { sys = end }))
  unfolding ready_read is_no_error
  ready_read-merges network_callback io_callback fuel d h port ip c cs w s end has f first some_c
        rest =
      ap (notify_if net network_callback io_callback d)
        (receive_message-Arrive fuel d h port ip c cs w s end has f first some_c rest)
