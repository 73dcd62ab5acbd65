-- ===== src/Lib.antt =====
-- A model of esp-modem-link, a C++ library that gives an application TCP, HTTP, MQTT and WebSocket
-- over a cellular modem. Paths are from the root of the repository.
--
-- The parts, and the files that model them:
--
-- - `Error`: include/esp_modem_link/network_error.h, src/error/network_error.cpp and
--   include/esp_modem_link/at_error.h, src/error/at_error.cpp. `Result` is the `std::expected` of the
--   source. `Error.Names` has `Name` and `Message`.
-- - `AtParser`: src/at_parser/at_parser.cpp, the fields of a line from the modem. The HTTP parser
--   uses its `ParseInt`.
-- - `AtChannel.Response`: src/at_channel/response_parser.cpp, the response of a command. A code of
--   an error that does not fit an `int` overflows it, which the language leaves undefined; the
--   model has the result `overflows` there.
-- - `Http.Url` and `Http.Request`: src/protocol/http/http_request_builder.cpp, `ParseUrl` and
--   `BuildHttpRequest`; `Http.Headers` has the header list that it and the WebSocket client
--   assemble.
-- - `Http.Redirect`: src/protocol/http/http_redirect.cpp.
-- - `Websocket.Handshake`: src/protocol/websocket/ws_handshake.cpp, with its Base64 and its SHA-1
--   in modules of their own. It uses `Http.Parser`, `Http.Url` and `Http.Headers`.
-- - `Websocket.Client`: src/protocol/websocket/software_ws_client.cpp, the state of the client and
--   what it sends; `Websocket.Client.Receive` is `OnTransportData` and the handlers below it, and
--   `Websocket.Client.Session` has `Connect`, `Establish` and `Close`, `Websocket.Client.Maintain`
--   a turn of `MaintainLoop`. The random numbers and the answers of the transport are parameters,
--   what arrives while a call waits is a list, and effects are a log as in `Mqtt.Client`.
-- - `AtChannel.Urc`: src/at_channel/urc_dispatcher.cpp. The order of the buckets of its map is the
--   parameter `arrange`.
-- - `Hal.ModuleRegistry`: src/hal/module_registry.cpp; a call of a null creator is the outcome
--   `null_called`.
-- - `Http.Client`: src/protocol/http/software_http_client.h and .cpp. `Client` is the object's state,
--   `Connection` has `DropTransport` and `EnsureConnected`, `Arrivals` the callbacks of the transport
--   and the waits, `Start` is `StartRequest`, `Redirects` `ApplyRedirect` and the loop over the hops,
--   `Execute` the buffered requests, `Stream` and `Upload` the streamed ones. It uses `Http.Parser`,
--   `Http.Request` and `Http.Redirect`. The factory and the transport answer by functions of the log,
--   what arrives during a wait is a list, and a wait that the list does not satisfy times out. The
--   length of the timeout is a setting that nothing reads.
-- - `AtChannel.Uart`: src/at_channel/at_uart.h and at_uart.cpp, the rounds of the receive task and the
--   processing of a line; `AtChannel.Uart.Command` has the commands. It uses `AtChannel.Response` for
--   the response of a command and `AtChannel.Urc` for the lines. The UART is a parameter, and what is
--   read during a wait is a list of reads.
-- - `Mqtt.Packet`: src/protocol/mqtt/mqtt_packet.cpp up to `EncodePacket`, the framing of packets;
--   `Mqtt.Packet.Messages` is the rest of the file, the packets' contents.
-- - `Mqtt.Client`: src/protocol/mqtt/software_mqtt_client.cpp. `Client` is the object's state;
--   `Mqtt.Client.Handlers` has `OnTransportData` and the handlers below it, `Mqtt.Client.Session` the
--   calls of the application and a round of the keep-alive loop. The transport is a parameter, a
--   function from what has happened so far to its answer; what the client does to the transport and
--   to the callbacks is the list of effects in `log`, newest last.
-- - `Websocket.Frame`: src/protocol/websocket/ws_frame.cpp, `EncodeFrame` and `TakeFrame`.
-- - `Http.Parser`: src/protocol/http/http_parser.cpp, the status line and the headers;
--   `Http.Parser.Feed` has the states of the body, `Feed`, `Finish` and `GetHeader`.
-- - `Common`: lists, bytes, bit operations, integers of two signs, searching, and the association
--   lists that stand for `std::map` and `std::unordered_map`.
--
-- A byte is a number below 256, and a string a list of bytes. A function that changes a buffer or an
-- object returns it beside its result. Fixed-width values keep their `% 2 ^ w`; the width of `size_t`
-- in the HTTP parser is the parameter `size_mod`, 2 ^ w. A mutex makes an operation atomic here: the
-- model runs whole operations one after the other, and it does not have interleavings within one, nor
-- a callback that calls back into the client, nor a transport that answers inside a `Send`.
--
-- Loops that do not follow the structure of their input run on fuel and return `none` without it
-- (`out_of_fuel` in `parse_response`). `split_csv` and `parse_response` have one round for each
-- byte and one more, `on_transport_data` one for each buffered byte and one more (a packet has two
-- bytes at least), `feed` one for each byte and one more (a step that takes no byte ends the loop).
-- `drain_frames` of the WebSocket client has one round for each buffered byte and one more (a frame
-- has two bytes at least), `pad_zeroes` of SHA-1 has 63 (a message is at most 63 bytes short of its
-- length field). `redirect_loop` has one round for each redirect that is allowed and one more, and
-- `cut_lines` one for each buffered byte and one more (a line has two bytes at least). `hex_loop` has
-- sixteen rounds, the hex digits of 64 bits.
--
-- Not modelled: `ToString` and `FromErrno` of the errors and `ParseDouble`; `SetTlsConfig` of
-- the MQTT and the WebSocket client, which only stores a value for the factory of transports; `BackoffFor` of the WebSocket client, which is
-- in floating point; the TCP and UDP clients, the alignment of the baud rate, the device, the two
-- modem modules and the platform backends; the debug log and the start and stop of the receive task of
-- `AtUart`; tools, examples and tests. `Connect` of the MQTT client is in
-- two halves, before and behind its wait for the CONNACK, and the threads and their joining are not
-- in the model.
pub mod Common
pub mod Error
pub mod Mqtt
pub mod AtChannel
pub mod AtParser
pub mod Websocket
pub mod Hal
pub mod Http
