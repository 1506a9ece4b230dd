-- ===== src/Logging/Unhandled.antt =====
-- The virtual methods of `Device` (src/device.cpp), which a class that has none of its own inherits:
-- each logs that it is not implemented, and does nothing else.
use transport_cpp.Prelude.{ℕ}
use transport_cpp.EventLoop.{
  Event, ready_read, ready_write, ready_error, ready_hangup, ready_invalid, ready_peer_disconnect,
}
use transport_cpp.Logging.{LogWorld, device_log_debug, device_log_warn, device_log_error}

unfoldable pub unhandled : Event → ℕ → LogWorld → LogWorld
unfolding device_log_debug device_log_warn device_log_error
unhandled ready_read d l =
    device_log_debug d "Device::readyRead"
      "Device is ready to perform a read, but functionality has not been implemented by child" l
unhandled ready_write d l =
    device_log_debug d "Device::readyWrite"
      "Device is ready to perform a write, but functionality has not been implemented by child" l
unhandled ready_error d l =
    device_log_error d "Device::readyError"
      "Device has an error, but functionality has not been implemented by child" l
unhandled ready_hangup d l =
    device_log_warn d "Device::readyHangup"
      "Device peer has hung up, but functionality has not been implemented by child" l
unhandled ready_invalid d l =
    device_log_warn d "Device::readyInvalidRequest"
      "Invalid request, but functionality has not been implemented by child" l
unhandled ready_peer_disconnect d l =
    device_log_warn d "Device::readyPeerDisconnect"
      "Peer has disconnected, but functionality has not been implemented by child" l
