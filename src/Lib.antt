-- ===== src/Lib.antt =====
-- A model of the Home Assistant integration for Comelit intercoms, custom_components/comelit_man:
-- what it writes to and reads from the device over the ICONA Bridge protocol, how it carries the
-- device's video and audio to an RTSP client, and how it turns signalling messages into events.
--
-- The parts, and the files that model them:
--   Prelude, Bits, Bytes, Queue, Dict, Texts: Python's sequences, exceptions, `struct`, bit
--     operations, `asyncio.Queue`, dicts and the methods of `str`, as far as the code uses them. A call that may raise returns a
--     `Result`; numbers are natural numbers, and the code's masks are written out as `% 2 ^ w`.
--   Protocol (custom_components/comelit_man/protocol.py): one function for each encoder and
--     decoder, under its name. The client and the listener build their packets with it.
--   Client (client.py, channels.py): the registry of channels, `_read_packet` on the bytes that
--     have arrived (Client/Packets), `_dispatch` with its control packets (Client/Dispatch), and `send_json`
--     (Client/Json).
--     A state is a `Client`; what the code writes, resolves or calls is a list of effects.
--   Vip (vip_listener.py, and `_transform_device_ts` of video_call.py): the message parser with
--     its address pattern, and `VipEventListener`, which takes the messages that the client queues
--     on the CTPP channel and answers them. Times are in microseconds.
--   Receiver (rtp_receiver.py): RTP from the device, over UDP or TCP, demultiplexed into queues,
--     FU-A fragments reassembled, and the audio sender's round for the way back.
--   Rtsp (rtsp_server.py): the server's feed of those queues to its clients: packetisation, output
--     clocks, broadcast, sender reports, the interleaved stream from a client, SETUP and `reset`;
--     and one connection from its first request to its end (Requests, Sdp, Handler), on a script of
--     what the reader yields. Instants are in nanoseconds.
--   Handshake (ctpp.py) and Config (config_reader.py, models.py): the payloads of the CTPP handshake,
--     and the doors of the device's configuration from the items of its JSON text on.
--   Web, Token (token.py) and Provisioning (provisioning.py): what is done on the device's web pages.
--     A program sends requests one after the other; the reply to each is a parameter that may look
--     at all that were sent. Token reads the members of a backup, Provisioning/Users the user table
--     in it, and Provisioning/Steps claims a slot and redeems its activation code.
--   Push (push.py, auth.py): the JSON requests on the UAUT and PUSH channels and the push events, on
--     the outcomes of the client's calls.
--   ConfigFlow (config_flow.py): the steps of the setup dialog as functions from the submitted form
--     and the outcomes of its calls to what the client does and what the step returns.
--   VideoCall (video_call.py): `VideoCallSession`. A session's step takes the `Session`, returns it
--     changed, and a value or an exception (VideoCall/Talk); what was done before an exception stays
--     done. The device's answers, in the order in which the code reads them, are a script in the
--     session, and what the session sends or calls is appended to `out`. Start and Codec are a call
--     that this side makes, Inbound and Answer one that the device makes, Renew and Monitor the loop
--     over the device's messages during either. Ready ends both starts: the monitor makes a number
--     of reads, given with the script, while the first video is awaited, and may end the session.
--     Apart from that a coroutine runs to its end without interleaving.
--   Doors (door.py): the messages that open a door outside a call, on VideoCall's steps.
--   Coordinator (coordinator.py): `ComelitLocalCoordinator` with its suspended coroutines as a list
--     of tasks. A step is a call from outside or one task that goes on to its next await, in any
--     order (Coordinator/Steps). The session's own coroutines are VideoCall's, taken as one step;
--     the state callbacks that follow a start or a stop are awaited, as tasks of their own, and the
--     callbacks' loops are one note. Times are in microseconds.
--
-- The fuel: `fragments` and `drain` take the length of the data, each round taking at least one
-- byte; `find_addresses` takes the length of the message, of which it drops at least one byte in
-- each round; `read_packets` takes one unit for each packet and one for the end; the codec exchange
-- and the wait for the device's link have the code's own ten and five rounds; the waits of an inbound
-- call take one unit for each read of the script, and the monitor's loop one for each read. JSON
-- text, the order in which Python enumerates a set, and wall-clock time are parameters.
--
-- Not modelled: sockets, time-outs, tasks and logging; the PyAV decoder and JPEG snapshots; the TCP
-- media loops and the counter lock of video_call.py; setup, shutdown,
-- keepalive and the go2rtc registration of coordinator.py; the connection that door.py makes when
-- there is none; the archive formats that
-- token.py reads, and text that is not ASCII in patterns and headers; the options form and the forms'
-- schemas; and the entities on Home Assistant's own classes.
pub mod Prelude
pub mod Bits
pub mod Bytes
pub mod Queue
pub mod Dict
pub mod Protocol
pub mod Receiver
pub mod Rtsp
pub mod Vip
pub mod Client
pub mod Config
pub mod Handshake
pub mod Provisioning
pub mod VideoCall
pub mod Coordinator
pub mod Doors
pub mod Texts
pub mod Web
pub mod Token
pub mod ConfigFlow
pub mod Push
mod Tests
