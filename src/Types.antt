-- ===== src/Types.antt =====
-- The shared types of include/transport-cpp/transport-cpp.h, and the error types of engine.h and
-- device.h. An `int` handle is its 32-bit pattern, so that -1 is 4294967295.
use transport_cpp.Prelude.{ℕ, String, Bool, Option, List}

-- `RETURN_CODE` with its three constants.
pub data ReturnCode : Type 0 where
  ok nok passable : ReturnCode

pub data EngineErrorCode : Type 0 where
  no_error device_already_registered device_does_not_exist invalid_argument : EngineErrorCode

pub record EngineError : Type 0 where
  pub code : EngineErrorCode
  pub description : String

pub data ErrorCode : Type 0 where
  no_error invalid_argument invalid_logic device_not_ready poll_error timeout : ErrorCode
  general_error : ErrorCode

-- `std::variant<ERROR_CODE, SYS_ERR_CODE>`
pub data DeviceError : Type 0 where
  internal : ErrorCode → DeviceError
  system : ℕ → DeviceError

pub record Error : Type 0 where
  pub code : DeviceError
  pub description : String

-- The events of <poll.h> that the code names.
abbrev pub pollin : ℕ
pollin = 0x001

abbrev pub pollout : ℕ
pollout = 0x004

abbrev pub pollerr : ℕ
pollerr = 0x008

abbrev pub pollhup : ℕ
pollhup = 0x010

abbrev pub pollnval : ℕ
pollnval = 0x020

abbrev pub pollrdhup : ℕ
pollrdhup = 0x2000

-- `pollfd`
pub record PollFd : Type 0 where
  pub fd : ℕ
  pub events : ℕ
  pub revents : ℕ

-- `IODevice::IODATA`; a byte is its 8-bit pattern.
abbrev pub Bytes : Type 0
Bytes = List ℕ

-- `IODATA_CHOICE`. A `shared_ptr` is the address of bytes that its other owners may still change.
pub data IoDataChoice : Type 0 where
  shared : Option ℕ → IoDataChoice
  plain : Bytes → IoDataChoice
  unique : Option Bytes → IoDataChoice

-- The fields of `IODevice`: whether `mCallback` is set, and `mIOOutgoingQueue`, its front first.
pub record IoPart : Type 0 where
  pub has_callback : Bool
  pub queue : List IoDataChoice

-- include/transport-cpp/networking/networkdevice.h
pub data IpVersion : Type 0 where
  any ipv4 ipv6 : IpVersion

pub record HostAddr : Type 0 where
  pub ip : String
  pub port : ℕ

pub record NetworkMessage : Type 0 where
  pub bytes : Bytes
  pub peer : HostAddr

pub record OutgoingMessage : Type 0 where
  pub addr : HostAddr
  pub message : IoDataChoice
  pub ip_hint : IpVersion

-- The fields of `NetworkDevice`: whether its own `mCallback` is set, and `mOutgoingQueue`.
pub record NetPart : Type 0 where
  pub has_network_callback : Bool
  pub outgoing : List OutgoingMessage
