-- ===== src/Multicaster/Sending.antt =====
-- The multicaster's queue goes to the published group (`readyWrite`, src/udpmulticaster.cpp).
use transport_cpp.Prelude.{
  ℕ, zero, suc, ◌≡◌, refl, true, none, some, List, [], ◌∷◌, length, arith, ◌∙◌, ap,
}
use transport_cpp.Types.{Bytes, IoDataChoice}
use transport_cpp.World.{World}
use transport_cpp.Devices.{request_write}
use transport_cpp.IoDevice.{Virtual, data_ptr, io_data_choice_valid}
use transport_cpp.IoDevice.Write.{data_ptr-heap, data_ptr-valid}
use transport_cpp.Sockets.{NetOs}
use transport_cpp.Multicaster.{CasterWorld}
use transport_cpp.Multicaster.Send.{ready_write, write_queued}

abbrev pub AllValid : List IoDataChoice → Type 0
AllValid [] = Unit {0}
AllValid (m ∷ ms) = (io_data_choice_valid m ≡ true) × AllValid ms

module _ {S : Type 0} where
  -- The bytes that a queue stands for.
  abbrev pub pieces : List IoDataChoice → World S → List Bytes
  pieces [] w = []
  pieces (m ∷ ms) w = elim (data_ptr m w) [ none ↦ pieces ms w | some b ↦ b ∷ pieces ms w ]

  pieces-heap :
      (ms : List IoDataChoice) (w u : World S) → u.heap ≡ w.heap → pieces ms u ≡ pieces ms w
  pieces-heap [] w u e = refl
  pieces-heap (m ∷ ms) w u e = ground (arith, data_ptr-heap m w u e, pieces-heap ms w u e)

  module _ (net : NetOs S) (v : Virtual S) (d sock : ℕ) (group : Bytes) where
    -- `sendto` of each piece to the group, in order, whatever it returns.
    abbrev pub send_all : List Bytes → S → S
    send_all [] s = s
    send_all (b ∷ bs) s = send_all bs (net.send_to sock b group s).1

    abbrev pub rounds : ℕ → CasterWorld S → CasterWorld S
    unfolding ready_write
    rounds zero u = u
    rounds (suc n) u = rounds n (ready_write net v d u)

    -- What a round leaves, with `rest` behind the front of the queue.
    record Sent (rest : List IoDataChoice) (b : Bytes) (u : CasterWorld S) : Type 0 where
      queue : ((ready_write net v d u).world.io d).queue ≡ rest
      handle : ((ready_write net v d u).world.devices d).handle ≡ some sock
      written : (ready_write net v d u).world.sys ≡ (net.send_to sock b group u.world.sys).1
      heap : (ready_write net v d u).world.heap ≡ u.world.heap
      same : (ready_write net v d u).casters ≡ u.casters

    round :
        (m : IoDataChoice) (rest : List IoDataChoice) (b : Bytes) (u : CasterWorld S)
        → (u.world.io d).queue ≡ m ∷ rest
        → (u.world.devices d).handle ≡ some sock
        → (u.casters d).published_sock_addr ≡ some group
        → data_ptr m u.world ≡ some b
        → Sent rest b u
    unfolding ready_write write_queued request_write
    round m rest b u q has to p = record {
      queue = ground (arith, q, has, to, p);
      handle = ground (arith, q, has, to, p);
      written = ground (arith, q, has, to, p);
      heap = ground (arith, q, has, to, p);
      same = ground (arith, q, has, to, p);
    }

    -- One call of `readyWrite` for each entry hands everything that is queued to `sendto`, in order
    -- and to the group that was published, and leaves the queue empty, also where `sendto` fails, if
    -- a group was published and no pointer in the queue is null.
    pub rounds-publish :
        (queue : List IoDataChoice) (u : CasterWorld S)
        → (u.world.io d).queue ≡ queue
        → (u.world.devices d).handle ≡ some sock
        → (u.casters d).published_sock_addr ≡ some group
        → AllValid queue
        → let u' = rounds (length queue) u in
          ((u'.world.io d).queue ≡ [])
          × (u'.world.sys ≡ send_all (pieces queue u.world) u.world.sys)
    unfolding rounds
    rounds-publish [] u q has to valid = (q, refl)
    rounds-publish (m ∷ ms) u q has to valid =
        let (b, p) = data_ptr-valid m u.world valid.0 in
        let sent = round m ms b u q has to p in
        let u1 = ready_write net v d u in
        let later =
          rounds-publish ms u1 sent.queue sent.handle
            (ap (λ c. (c d).published_sock_addr) sent.same ∙ to) valid.1 in
        (
          later.0,
          later.1 ∙ ground (arith, sent.written, pieces-heap ms u.world u1.world sent.heap, p),
        )
