-- ===== src/Lib.antt =====
-- A verification library for the protocol core of the HYMER Connect integration for Home Assistant.
-- The integration talks to the vehicle's control unit (SCU) over two channels: directly over
-- Bluetooth LE, and through a cloud hub. Both carry protobuf messages, written and read by hand.
--
-- Parts and files, with the code that they are about (in custom_components/hymer_connect_metadata):
--   Prelude    lists measured by native numbers, Boolean tests, bit masks as arithmetic, results that
--              may raise, UTF-8
--   Wire       ble_pia.py, _encode_varint to _skip_protobuf_field: the protobuf primitives
--   Frame      ble_pia.py, build_ble_pia_header, encode_ble_pia_frame, decode_ble_pia_frame
--   Message    ble_pia.py, the request builders up to framed requests
--   Response   ble_pia.py, decode_ble_response_payload and decode_pair_mobile_response_payload
--   Transport  ble_transport.py, HymerBleTransport._feed_frames: the stream cut into frames
--   TlsClient  ble_tls.py, LegacyTlsClient
--   Session    ble_transport.py, the loop of _next_frame, _send_frame_await_response and
--              _send_pair_and_await (Session), and send_light_command, send_multi_sensor_command,
--              _send_values and pair_mobile (Session/Requests), and async_pair_over_ble
--              (Session/Pairing)
--   Pia        pia_decoder.py, the cloud encoder and lenient decoder (Pia/Wire), the sensor slots of a
--              message (Pia/Slots), the search for a wrapper (Pia/Envelopes), the request builders
--              (Pia/Requests) and the startup subscriptions (Pia/Subscriptions)
--   SignalR    signalr_client.py, HymerSignalRClient: the state and the steps between two awaits
--              (SignalR), _handle_message (SignalR/Messages, over the values of SignalR/Json),
--              send_pia_request and the commands (SignalR/Requests), the token and standby refreshes
--              and send_refresh (SignalR/Refresh), listen, start and stop (SignalR/Listen). The proofs
--              are about futures and the invariant (SignalR/Core, SignalR/Safety,
--              SignalR/Interleaving), and about the messages, the queue, the burst of subscriptions,
--              the cleanup and the table of open requests (Answer, Queue, Drain, Burst, Release, Tracker)
--   Capability  capability_resolver.py: the provider file is read and checked (Load, Specs), and observed
--              slots are resolved to capabilities (Capability)
--   SlotActions  slot_actions.py and reverse_transform of discovery.py: a catalog action becomes a sensor
--              command; send_slot_actions of signalr_client.py (SlotActions/Sending)
--   Scenario   scenario_availability and resolved_scenarios of catalog.py: the scenarios that a vehicle
--              can run
--   Coordinator  coordinator.py, HymerConnectCoordinator: start and stop of the hub client, the reconnect
--              loop and the connection part of the update cycle (Coordinator), and the sending of a
--              command over the hub or Bluetooth with its retry (Coordinator/Commands)
--   Tests      the theorems at concrete inputs
-- A request goes through Wire, Message and Frame to the transport. What the transport receives is cut
-- into frames by Transport, checked by Frame and read by Response, until Session has found the
-- answer. Messages of the cloud hub are received by SignalR and read by Pia. The actions of a Scenario
-- become a command by SlotActions, which SignalR sends. Wire/Fields is the abstract
-- view that both decoders are measured against: a message is a list of fields.
--
-- Conventions. A byte is a number below 256 and bytes are a list of them; a string is the list of its
-- code points. A position in a buffer is the list of the bytes from it on. A function that may raise
-- returns a Result, whose errors are the classes of exception; `stuck` is no Python value and says
-- that a loop ran out of fuel. `_encode_varint` runs on Acc. The `while offset < len(payload)` loops
-- and `_feed_frames` run on as much fuel as there are bytes, or one more, which is enough since each
-- round takes a byte at least. `_extract_slots_recursive` runs on six levels, the depths 0 to 5.
-- The methods of HymerBleTransport take the frame buffer, the pending frames and the notifications
-- still to come, and return what is left of them; where the list of notifications ends, the deadline
-- passes. The request lock makes one request at a time use them.
--
-- A coroutine of the hub client runs from its start to its end, and takes for each await a function
-- `meanwhile`, what the other tasks do to the client while it is suspended; a future is an address of a
-- heap. SignalR/Interleaving has the runs that nest: a coroutine that starts while another is suspended
-- ends before that goes on. Runs in which two suspensions cross, and the cancellation of a coroutine at
-- an await, are not among them. A wait whose future is still pending as it is resumed has timed out. The rounds of
-- _retry_waiting_requests are fuel: two are enough where nothing is queued while they run.
--
-- In SlotActions the metadata of a slot is a lookup argument, and Python floats are a parameter.
--
-- Parameters stand for what is not in the repository: zlib.crc32, base64, struct.pack and
-- struct.unpack with Python floats, the ssl object, str.isprintable, int(text, 16),
-- str.upper, str.isspace, json.loads and int() of its values, the provider slots of the main switch, and the random request
-- ids and the clock.
--
-- Not modelled: the Bluetooth connection, bonding and start of ble_transport.py, the negotiation and
-- handshake of the hub connection, the metadata and slot bookkeeping of the coordinator, the HTTP client,
-- the vehicle matching and the coverage summaries of catalog.py, and the entities and forms of Home
-- Assistant.
pub mod Prelude
pub mod Wire
pub mod Frame
pub mod Message
pub mod Response
pub mod Transport
pub mod TlsClient
pub mod Session
pub mod Pia
pub mod SignalR
pub mod Capability
pub mod SlotActions
pub mod Scenario
pub mod Coordinator
pub mod Tests
