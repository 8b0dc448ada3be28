-- ===== src/Doors.antt =====
-- door.py: the messages that open a door on the CTPP channel.
pub mod Order
use comelit_man.VideoCall.Talk.{Talk, ◌>>◌, pure, raise, listen, say}
use comelit_man.Client.{Channel}
use comelit_man.Config.{Door}
use comelit_man.Prelude.{Text, true, false, if◌then◌else◌, Result, err, ok}
use comelit_man.Protocol.Ctpp.{
  encode_open_door, encode_door_init, encode_actuator_init, encode_actuator_open,
}
use comelit_man.Bytes.{Bytes}
use comelit_man.Protocol.Channel.{open_door, open_door_confirm}

-- `_send_open_and_confirm`, before what follows it.
unfoldable pub send_open_and_confirm : Channel → Text → Door → Talk (Unit {0}) → Talk (Unit {0})
send_open_and_confirm ctpp apt_addr door next =
    say ctpp (encode_open_door open_door apt_addr door.output_index door.apt_address)
    >> (say ctpp (encode_open_door open_door_confirm apt_addr door.output_index door.apt_address)
        >> next)

-- `_send_open_and_confirm_for_actuator`
unfoldable pub send_open_and_confirm_for_actuator : Channel → Text → Door → Talk (Unit {0})
send_open_and_confirm_for_actuator ctpp apt_addr door =
    say ctpp (encode_actuator_open apt_addr door.output_index door.apt_address false)
    >> (say ctpp (encode_actuator_open apt_addr door.output_index door.apt_address true) >> pure tt)

-- The door's own init, two responses that may not come, and the last pair.
unfoldable pub init_and_open : Channel → Text → Door → Result Bytes → Talk (Unit {0})
init_and_open ctpp apt_addr door init_open =
    say ctpp init_open
    >> (listen
        >> (listen
            >> (if door.is_actuator
                then send_open_and_confirm_for_actuator ctpp apt_addr door
                else send_open_and_confirm ctpp apt_addr door (pure tt))))

abbrev pub on_encoded : Result Bytes → Talk (Unit {0}) → Talk (Unit {0})
on_encoded (ok init_open) go = go
on_encoded (err e) go = raise e

-- `_open_door_on_channel`, where the actuator's init is encoded for every door.
unfoldable pub open_door_on_channel : Channel → Text → Door → Talk (Unit {0})
open_door_on_channel ctpp apt_addr door =
    let actuator_init = encode_actuator_init apt_addr door.output_index door.apt_address in
    on_encoded actuator_init (
      if door.is_actuator
      then init_and_open ctpp apt_addr door actuator_init
      else send_open_and_confirm ctpp apt_addr door (
          init_and_open ctpp apt_addr door
            (encode_door_init apt_addr door.output_index door.apt_address)))
