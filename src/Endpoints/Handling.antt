-- ===== src/Endpoints/Handling.antt =====
-- Telling the user of data keeps what the user's handlers keep (src/networkdevice.cpp).
use transport_cpp.Prelude.{ℕ, if◌then◌else◌, Bool, true, false}
use transport_cpp.Types.{Bytes, NetworkMessage}
use transport_cpp.Endpoints.{NetWorld, Handlers, notify}

pub record ListenersKeep {S : Type 0} (d : ℕ) (Q : NetWorld S → Type 0) (h : Handlers S)
    : Type 0 where
  pub message : (m : NetworkMessage) (v : NetWorld S) → Q v → Q (h.message d m v)
  pub data_arrived : (b : Bytes) (v : NetWorld S) → Q v → Q (h.data_arrived d b v)
  pub disconnected : (v : NetWorld S) → Q v → Q (h.disconnected d v)

module _ {S : Type 0} (d : ℕ) (Q : NetWorld S → Type 0) where
  pub either_keeps : (b : Bool) (u v : NetWorld S) → Q u → Q v → Q (if b then u else v)
  either_keeps true u v q q' = q
  either_keeps false u v q q' = q'

  pub notify-keeps :
      (h : Handlers S) (m : NetworkMessage) (v : NetWorld S)
      → ListenersKeep d Q h
      → Q v
      → Q (notify h d m v)
  unfolding notify
  notify-keeps h m v user q =
      let told = if (v.world.net d).has_network_callback then h.message d m v else v in
      let first : Q told =
        either_keeps (v.world.net d).has_network_callback (h.message d m v) v (user.message m v q)
          q in
      either_keeps (told.world.io d).has_callback (h.data_arrived d m.bytes told) told
        (user.data_arrived m.bytes told first) first
