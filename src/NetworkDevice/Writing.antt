-- ===== src/NetworkDevice/Writing.antt =====
-- The single changes of a network device (src/networkdevice.cpp, src/iodevice.cpp) keep the invariant
-- that ties engines to devices.
use transport_cpp.Prelude.{ℕ, true}
use transport_cpp.Types.{IoPart, NetPart}
use transport_cpp.Os.{Os}
use transport_cpp.World.{World}
use transport_cpp.World.Invariant.{IsWellFormed}
use transport_cpp.Devices.Steps.{
  new_sys-IsWellFormed, set_error-IsWellFormed, request_read-IsWellFormed,
  request_write-IsWellFormed,
}
use transport_cpp.IoDevice.{set_io}
use transport_cpp.IoDevice.Stable.{Stable}
use transport_cpp.Sockets.{NetOs}
use transport_cpp.NetworkDevice.Steady.{Steady}
use transport_cpp.NetworkDevice.{set_net}

module _ {S : Type 0} where
  fault-IsWellFormed : (w : World S) → IsWellFormed w → IsWellFormed (record w { fault = true })
  fault-IsWellFormed w v = record {
    consistent = v.consistent;
    distinct = v.distinct;
    listed = v.listed;
    owner = v.owner;
  }

  set_io-IsWellFormed :
      (d : ℕ) (r : IoPart) (w : World S) → IsWellFormed w → IsWellFormed (set_io d r w)
  set_io-IsWellFormed d r w v = record {
    consistent = v.consistent;
    distinct = v.distinct;
    listed = v.listed;
    owner = v.owner;
  }

  set_net-IsWellFormed :
      (d : ℕ) (r : NetPart) (w : World S) → IsWellFormed w → IsWellFormed (set_net d r w)
  set_net-IsWellFormed d r w v = record {
    consistent = v.consistent;
    distinct = v.distinct;
    listed = v.listed;
    owner = v.owner;
  }

  pub IsWellFormed-Stable : (os : Os S) (d : ℕ) → Stable os d IsWellFormed
  IsWellFormed-Stable os d = record {
    polls = λ ps ms w v. new_sys-IsWellFormed _ w v;
    reads = λ h n w v. new_sys-IsWellFormed _ w v;
    writes = λ h b w v. new_sys-IsWellFormed _ w v;
    faults = λ w v. fault-IsWellFormed w v;
    errs = λ code text w v. set_error-IsWellFormed d code text w v;
    requests = λ w v. request_read-IsWellFormed d w v;
  }

  pub IsWellFormed-Steady : (os : Os S) (net : NetOs S) (d : ℕ) → Steady os net d IsWellFormed
  IsWellFormed-Steady os net d = record {
    stable = IsWellFormed-Stable os d;
    request_writes = λ w v. request_write-IsWellFormed d w v;
    io_parts = λ r w v. set_io-IsWellFormed d r w v;
    net_parts = λ r w v. set_net-IsWellFormed d r w v;
    sends = λ h b a w v. new_sys-IsWellFormed _ w v;
    looks_up = λ hints host w v. new_sys-IsWellFormed _ w v;
  }
