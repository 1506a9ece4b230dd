-- ===== src/IoDevice/Write.antt =====
-- `readyWrite` sends the queue in order.
use transport_cpp.Prelude.{
  ℕ, zero, suc, ◌≡◌, refl, true, none, some, List, [], ◌∷◌, length, arith, ◌∙◌,
}
use transport_cpp.Int.{negsuc}
use transport_cpp.Types.{ok, Bytes, IoDataChoice, shared, plain, unique, pollout}
use transport_cpp.Os.{Os, value}
use transport_cpp.World.{World}
use transport_cpp.Devices.{request_read, request_write}
use transport_cpp.IoDevice.{
  Virtual, data_ptr, perform_sync_send, ready_write, send_entry, io_data_choice_valid,
}

-- A kernel whose handle `h` is always ready for output, and that takes whatever is written.
pub record Writable {S : Type 0} (os : Os S) (h : ℕ) (put : Bytes → S → S) : Type 0 where
  pub polls :
      (s : S)
      → os.poll (send_entry h ∷ []) (negsuc 0) s
        ≡ (value 1, record { fd = h; events = pollout; revents = pollout } ∷ [], s)
  pub writes : (b : Bytes) (s : S) → os.write h b s ≡ (value (length b), put b s)

abbrev pub AllValid : List IoDataChoice → Type 0
AllValid [] = Unit {0}
AllValid (m ∷ ms) = (io_data_choice_valid m ≡ true) × AllValid ms

module _ {S : Type 0} where
  -- The bytes behind a queue.
  abbrev pub contents : List IoDataChoice → World S → List Bytes
  contents [] w = []
  contents (m ∷ ms) w = elim (data_ptr m w) [ none ↦ contents ms w | some b ↦ b ∷ contents ms w ]

  abbrev pub put_all : (Bytes → S → S) → List Bytes → S → S
  put_all put [] s = s
  put_all put (b ∷ bs) s = put_all put bs (put b s)

  -- So many calls of `readyWrite`.
  abbrev pub rounds : Virtual S → ℕ → ℕ → World S → World S
  rounds v d zero w = w
  rounds v d (suc n) w = rounds v d n (ready_write v d w)

  pub data_ptr-heap :
      (m : IoDataChoice) (w u : World S) → u.heap ≡ w.heap → data_ptr m u ≡ data_ptr m w
  unfolding data_ptr
  data_ptr-heap (shared none) w u e = refl
  data_ptr-heap (shared (some p)) w u e = rw e
  data_ptr-heap (plain b) w u e = refl
  data_ptr-heap (unique p) w u e = refl

  pub data_ptr-valid :
      (m : IoDataChoice) (w : World S)
      → io_data_choice_valid m ≡ true
      → (b : Bytes) × (data_ptr m w ≡ some b)
  unfolding data_ptr io_data_choice_valid
  data_ptr-valid (shared none) w e = cc
  data_ptr-valid (shared (some p)) w e = (w.heap p, refl)
  data_ptr-valid (plain b) w e = (b, refl)
  data_ptr-valid (unique none) w e = cc
  data_ptr-valid (unique (some b)) w e = (b, refl)

  module _ (os : Os S) (v : Virtual S) (d h : ℕ) (put : Bytes → S → S) (k : Writable os h put) where
    perform_sync_send-writes :
        (m : IoDataChoice) (b : Bytes) (w : World S)
        → (w.devices d).handle ≡ some h
        → data_ptr m w ≡ some b
        → perform_sync_send os v d m w ≡ (ok, request_read d (record w { sys = put b w.sys }))
    unfolding perform_sync_send data_ptr
    perform_sync_send-writes m b w has p = ground (arith, k.polls w.sys, k.writes b w.sys)

    module _
        (inherited : (m : IoDataChoice) (w : World S)
          → v.perform_sync_send d m w ≡ perform_sync_send os v d m w) where
      -- What a round leaves, with `rest` behind the front of the queue.
      record Sent (rest : List IoDataChoice) (b : Bytes) (w : World S) : Type 0 where
        queue : ((ready_write v d w).io d).queue ≡ rest
        handle : ((ready_write v d w).devices d).handle ≡ some h
        engine : ((ready_write v d w).devices d).engine ≡ (w.devices d).engine
        written : (ready_write v d w).sys ≡ put b w.sys
        heap : (ready_write v d w).heap ≡ w.heap
        fault : (ready_write v d w).fault ≡ w.fault

      round :
          (m : IoDataChoice) (rest : List IoDataChoice) (b : Bytes) (w : World S)
          → (w.io d).queue ≡ m ∷ rest
          → (w.devices d).handle ≡ some h
          → data_ptr m w ≡ some b
          → Sent rest b w
      unfolding ready_write request_read request_write
      round m rest b w q has p =
          let sends = inherited m w ∙ perform_sync_send-writes m b w has p in
          record {
            queue = ground (arith, sends);
            handle = ground (arith, sends);
            engine = ground (arith, sends);
            written = ground (arith, sends);
            heap = ground (arith, sends);
            fault = ground (arith, sends);
          }

      contents-heap :
          (ms : List IoDataChoice) (w u : World S) → u.heap ≡ w.heap → contents ms u ≡ contents ms w
      contents-heap [] w u e = refl
      contents-heap (m ∷ ms) w u e = ground (arith, data_ptr-heap m w u e, contents-heap ms w u e)

      -- One call of `readyWrite` for each entry sends everything that is queued, in order, and
      -- leaves the queue empty, if the kernel always takes what is written and no pointer in the
      -- queue is null.
      pub rounds-drain :
          (queue : List IoDataChoice) (w : World S)
          → (w.io d).queue ≡ queue
          → (w.devices d).handle ≡ some h
          → AllValid queue
          → let w' = rounds v d (length queue) w in
            ((w'.io d).queue ≡ [])
            × (w'.sys ≡ put_all put (contents queue w) w.sys)
            × (w'.fault ≡ w.fault)
      rounds-drain [] w q has valid = (q, refl, refl)
      rounds-drain (m ∷ ms) w q has valid =
          let (b, p) = data_ptr-valid m w valid.0 in
          let sent = round m ms b w q has p in
          let later = rounds-drain ms (ready_write v d w) sent.queue sent.handle valid.1 in
          (
            later.0,
            later.1
                ∙ ground (arith, sent.written, contents-heap ms w (ready_write v d w) sent.heap, p),
            later.2 ∙ sent.fault,
          )
