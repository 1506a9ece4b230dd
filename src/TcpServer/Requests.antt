-- ===== src/TcpServer/Requests.antt =====
-- A peer's request is answered.
use transport_cpp.Prelude.{
  ℕ, ◌+◌, ◌<◌, ◌≡◌, refl, true, none, some, List, [], ◌∷◌, ◌++◌, length, ◌∙◌, ap,
}
use transport_cpp.Types.{Bytes, NetworkMessage}
use transport_cpp.Os.{Os, value}
use transport_cpp.Devices.{request_read}
use transport_cpp.IoDevice.Receive.{buffer_size, is_no_error, first_error}
use transport_cpp.IoDevice.Reading.{Feeds, concat, read_io_data-Feeds, Feeds-first}
use transport_cpp.IoDevice.Write.{Writable}
use transport_cpp.Endpoints.{NetWorld, Handlers, with_world, notify}
use transport_cpp.Endpoints.Answers.{sync_send-writes}
use transport_cpp.TcpServer.Peer.{
  hooks, sent, answer, notify_server_handler, message_read, after_read, ready_read,
}

module _ {S : Type 0} (os : Os S) (h : Handlers S) where
  -- What has arrived, as `notifyServerHandler` gets it.
  abbrev pub request_of : ℕ → List Bytes → NetWorld S → NetworkMessage
  request_of d pieces v = record { bytes = concat pieces; peer = (v.endpoints d).host.addr }

  notified :
      (d : ℕ) (m : NetworkMessage) (v : NetWorld S)
      → ((notify h d m v).endpoints d).has_request_handler ≡ true
      → notify_server_handler os h d m v ≡ answer os h d (h.request d m (notify h d m v))
  unfolding notify_server_handler
  notified d m v set = rw set refl

  message_read-notified :
      (d b : ℕ) (bs c rest : Bytes) (v : NetWorld S)
      → c ≡ b ∷ bs
      → message_read os h d (record { error = first_error (value []); bytes = c ++ rest }) v
        ≡ notify_server_handler os h d
            (record { bytes = c ++ rest; peer = (v.endpoints d).host.addr })
            v
  unfolding message_read is_no_error
  message_read-notified d b bs c rest v e = rw e refl

  module _ (fuel d fd : ℕ) (c : Bytes) (cs : List Bytes) (v : NetWorld S) (end : S) where
    -- The state in which the request handler is called.
    abbrev pub told : NetWorld S
    told = notify h d (request_of d (c ∷ cs) v) (with_world v (record v.world { sys = end }))

    ready_read-answer :
        (v.world.devices d).handle ≡ some fd
        → (told.endpoints d).has_request_handler ≡ true
        → length cs + 1 < fuel
        → Feeds os fd (c ∷ cs) (os.read fd buffer_size v.world.sys) end
        → ready_read os h fuel d v ≡ answer os h d (h.request d (request_of d (c ∷ cs) v) told)
    unfolding ready_read after_read
    ready_read-answer has set f k =
        let (b, bs, e) = Feeds-first os fd c cs (os.read fd buffer_size v.world.sys) end k in
        ap (after_read os h d v) (read_io_data-Feeds os fuel d fd c cs v.world end has f k)
        ∙ message_read-notified d b bs c (concat cs) (with_world v (record v.world { sys = end })) e
        ∙ notified d (request_of d (c ∷ cs) v) (with_world v (record v.world { sys = end })) set

    -- `readyRead` of a peer hands the request handler everything that has arrived, in one piece and in
    -- order, after the callbacks. What the handler answers, if that is not empty, is written to the
    -- peer's handle, when the handle takes what is written.
    pub ready_read-answers :
        (put : Bytes → S → S) (h' b : ℕ) (bs : Bytes) (u : NetWorld S)
        → Writable os h' put
        → (v.world.devices d).handle ≡ some fd
        → (told.endpoints d).has_request_handler ≡ true
        → length cs + 1 < fuel
        → Feeds os fd (c ∷ cs) (os.read fd buffer_size v.world.sys) end
        → h.request d (request_of d (c ∷ cs) v) told ≡ (some (b ∷ bs), u)
        → (u.world.devices d).handle ≡ some h'
        → ready_read os h fuel d v
          ≡ some (with_world u (request_read d (record u.world { sys = put (b ∷ bs) u.world.sys })))
    unfolding answer
    ready_read-answers put h' b bs u k has set f feeds answers open_still =
        ready_read-answer has set f feeds
        ∙ ap (answer os h d) answers
        ∙ ap (sent os h) (sync_send-writes os (hooks os h) d h' put k (b ∷ bs) u open_still)

    -- When the request handler answers with no value, `readyRead` of a peer reads the value that is
    -- not there.
    pub ready_read_no_value :
        (u : NetWorld S)
        → (v.world.devices d).handle ≡ some fd
        → (told.endpoints d).has_request_handler ≡ true
        → length cs + 1 < fuel
        → Feeds os fd (c ∷ cs) (os.read fd buffer_size v.world.sys) end
        → h.request d (request_of d (c ∷ cs) v) told ≡ (none, u)
        → (w : NetWorld S) × (ready_read os h fuel d v ≡ some w) × (w.world.fault ≡ true)
    unfolding answer
    ready_read_no_value u has set f feeds answers = (
      with_world u (record u.world { fault = true }),
      ready_read-answer has set f feeds ∙ ap (answer os h d) answers,
      refl,
    )
