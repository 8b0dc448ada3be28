-- ===== src/VideoCall/State.antt =====
-- The state of `VideoCallSession`, with what the device will do as a script.
use comelit_man.Prelude.{decimal, Text, ℕ, ◌%◌, ◌^◌, Bool, Option, List, [], ◌∷◌, ◌++◌}
use comelit_man.Bytes.{Bytes}
use comelit_man.Client.{Client}
use comelit_man.Receiver.State.{Receiver}

-- What the session does that others see, in order: a payload on the CTPP channel, a channel opened
-- under its key and its name on the wire, a ring handed to the coordinator, the callback for the
-- end of the call, a reset of the RTSP server, the start of the audio sender, and the task
-- of the answer sequence.
pub data Out : Type 0 where
  payload : Bytes → Out
  opened_channel : Text → Text → Out
  ring_forwarded : Text → ℕ → Out
  call_ended : Out
  rtsp_reset : Out
  audio_started : ℕ → Out
  answer_scheduled : Out

-- The device and the clock: the answers to reads on the CTPP channel, `none` for a time-out; the
-- answers to channel opens, an id with the response body, or a time-out; whether and with which id
-- the device opens its RTPC channel while it is awaited; whether the first video arrives in time,
-- and how many reads the monitor makes while it is awaited; and the seconds since the epoch. A
-- script that has run out answers nothing more.
pub record Device : Type 0 where
  pub reads : List (Option Bytes)
  pub opens : List (Option (ℕ × Bytes))
  pub rtpc_opens : List (Option ℕ)
  pub video_ready : Bool
  pub wait_reads : ℕ
  pub now : ℕ

pub record Session : Type 0 where
  pub apt_address : Text
  pub apt_subaddress : ℕ
  pub caller_address : Text
  pub has_on_ring : Bool
  pub has_on_call_end : Bool
  pub client : Client
  pub device : Device
  pub receiver : Option Receiver
  pub has_rtsp : Bool
  pub external_rtsp : Bool
  pub active : Bool
  pub owns_ctpp : Bool
  pub call_counter : ℕ
  pub device_rtpc_req_id : ℕ
  pub has_inbound_rtpc : Bool
  pub answer_handoff : Option (List Bytes)
  pub out : List Out

abbrev pub ctr_incr_byte4 : ℕ
ctr_incr_byte4 = 0x00010000

abbrev pub ctr_incr_byte5 : ℕ
ctr_incr_byte5 = 0x01000000

-- `f"{apt_addr}{apt_sub}"`
abbrev pub our_addr : Session → Text
our_addr s = s.apt_address ++ decimal s.apt_subaddress

abbrev pub text_or : Text → Text → Text
text_or [] other = other
text_or (c ∷ s) other = c ∷ s

-- `self._config.caller_address or our_addr`
abbrev pub entrance_addr : Session → Text
entrance_addr s = text_or s.caller_address (our_addr s)

-- `_ts`
abbrev pub ts : Session → ℕ
ts s = s.device.now % 2 ^ 32
