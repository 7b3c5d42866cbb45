-- ===== src/Message.antt =====
-- The messages: the item of c/include/msg_queue.h, the structs of c/include/radio_msg.h that its
-- payload points to, and pointers to them.
use pub_sub_crawl.Base.{ℕ, Bytes}
use pub_sub_crawl.Base.Int.{ℤ}

-- `msg_type_t`. A C enum may hold any `int`; `other` is a value outside the enumeration.
pub data MsgType : Type 0 where
  telemetry alert : MsgType
  other : ℕ → MsgType

pub record TelemetryRaw : Type 0 where
  pub battery_pct : ℕ
  pub rssi_dbm : ℤ

-- A `char code[ALERT_CODE_MAX]` is the C string that it holds.
pub record AlertRaw : Type 0 where
  pub code : Bytes
  pub antenna : ℕ

pub record TelemetryMsg : Type 0 where
  pub seq : ℕ
  pub ts : ℤ
  pub battery_pct : ℕ
  pub rssi_dbm : ℤ

pub record AlertMsg : Type 0 where
  pub seq : ℕ
  pub ts : ℤ
  pub code : Bytes
  pub antenna : ℕ

-- What a payload pointer points to. `part n b` is a block of which only the first `n` bytes, those
-- of `b`, have been written.
pub data Object : Type 0 where
  telemetry_raw : TelemetryRaw → Object
  alert_raw : AlertRaw → Object
  telemetry_msg : TelemetryMsg → Object
  alert_msg : AlertMsg → Object
  part : ℕ → Object → Object

-- A `void *`: NULL, an object in the stack frame of the caller, or a block that `malloc` returned.
pub data Ptr : Type 0 where
  null : Ptr
  local : Object → Ptr
  heap : ℕ → Ptr

pub record Item : Type 0 where
  pub id : ℕ
  pub type : MsgType
  pub payload : Ptr
  pub length : ℕ

abbrev pub alert_code_max : ℕ
alert_code_max = 32

-- `sizeof`, with the padding of the usual 64-bit ABI.
abbrev pub sizeof : Object → ℕ
sizeof (telemetry_raw _) = 8
sizeof (alert_raw _) = 36
sizeof (telemetry_msg _) = 24
sizeof (alert_msg _) = 56
sizeof (part n _) = n
