-- ===== src/Lib.antt =====
-- Verification of libsmpp, a library for SMPP 3.4 clients and servers in C and C++.
--
-- The program. A server (src/smppserver.cpp) accepts connections (src/smppconnection.cpp), which
-- turn octets into PDUs and back with the codec of src/libsmpp34 and hand requests to the user
-- manager (src/smppusersmanager.cpp). The user manager keeps the bound users in `m_clients`, asks
-- the application's callbacks about logins and messages, and sends the application's own messages
-- to the user that owns the destination. A client (src/smppclient.cpp) binds over a connection of
-- its own, sends messages with the commands of src/smppcommands.hpp, a long one in segments, and
-- hands incoming ones to the application. Texts go through the converter (src/converter.cpp), which
-- uses the GSM 7-bit alphabet of src/iconv/gsm7.c and the C library's iconv.
--
-- The files.
--   Prelude     numbers, Boolean tests, lists and bit operations that the others share.
--   Gsm7        src/iconv/gsm7.c. Table has `gsmToUnicode` and `gsmEscapes`; ToSeptets has
--               `gsm7_wctomb`, by its tables of cases; FromSeptets has `gsm7_mbtowc`; Packing
--               has `gsm7_encode`. Alphabet and Written relate the two directions; PackedValue
--               and PackedSize are about the packed octets.
--   Converter   src/converter.cpp. Utf8 has `utf8toWStr` and `wstrToUtf8`; Text has `utf8ToGsm7`
--               and `gsm7ToUtf8`; Iconv has `iconv_wrapper`; Charset has
--               `GetCharsetFromDataCoding` and `ConvertInternal`.
--   Codec       src/libsmpp34. Checks has the tests of smpp34_params.c and the lists of
--               def_list; Rules has the .tlv files and Frames the .frame files of def_frame with
--               the dispatch of smpp34_protocol.def. Octets has the macros U32, U16, U08,
--               C_OCTET, OCTET8 and OCTET16 of smpp34_pack.c and smpp34_unpack.c; Fields has
--               DAD, UDAD and the frames' fields; Pdu has TLV, `smpp34_pack` and
--               `smpp34_unpack`. TlvId, CommandId and CommandStatus are constants of smpp34.h.
--               Room, Assembled, Monotone, Limits, RoundTrip, Accepted and Sound are about them;
--               Fitting says what fits a frame.
--   Users       src/smppusersmanager.cpp. Address has the derived classes of `UserAddress`, the
--               parsing of an address range and `ownsAddress`; Clients has `m_clients`; Requests
--               and Manager have `OnCommand`; Sending has `SendMessage`, KeepAlive a round of
--               `KeepAliveThread`. Lookup, Effects, States, Delivery and Ranges are about them.
--   Connection  src/smppconnection.cpp. Sequence has `NextSequenceNumber`; SendPdu has the
--               buffer of `SendPDU`; Pending has `SendRequest` before and behind its wait,
--               `Close` and the branches of `ReadHandler` that end a wait; Reading has the other
--               branches, `CreateCommandFromBuffer` and the loop of `Connect`. Registered has
--               the step relation of a connection; Calls, NetworkError and Closed are about it.
--   Commands    src/smppcommands.hpp. Command has `CSMPPCommand`, which packs and unpacks by
--               Codec; Bind has `CBindCommand`, Submit `CSMPPSubmit`, `CSMPPSubmitSingle` and
--               `CSMPPDelivery`, Multi `CSMPPSubmitMulti`; Arrays has `snprintf` and `memcpy`
--               to arrays of char. Text, Destination and RoundTrip are about them.
--   Client      src/smppclient.cpp. Settings has `MessageSettings` with its defaults; Link is
--               the connection as the client sees it; Sending has `SendMessage`, Session the
--               state of the client with `Bind`, `Unbind`, `SendKeepAlive` and
--               `OnConnectionLost`, Incoming `OnNewData`. Segments, Pieces, Plan, Message,
--               Retries, Delivered, Messages and Attempts are about `SendMessage`; Sessions has
--               the step relation of a client, and Sockets is for it.
--   Server      src/smppserver.cpp. State has `Start`, `Stop`, `AcceptConnection` and the handlers
--               of a connection, which call `OnCommand` of Users; Bound has the step relation
--               of a server, and is about it with Serving.
-- A module named Tests runs definitions on concrete inputs.
--
-- How the code is read. An octet, a character or a C integer is a natural number, with the wrap-
-- around written out where the code relies on it. A string is the list of its octets. A macro of
-- the codec is a function from the room that is left to the octets that it appends, or from the
-- octets that are left to a value and the rest; -1 is `none`. A C array is the list of the octets
-- that it holds, and the text of a C_OCTET is what `strlen` finds. A chain is a list, its head
-- first. A frame is data: the macros are interpreted over the list of its fields. `OnCommand`
-- returns the new `m_clients`, its effects in order and its result; the callbacks, Boost's `split`
-- and `lexical_cast`, and what other threads do to `m_clients` while `ValidateUser` runs without
-- the lock are parameters. The C library's `iconv` is a parameter with the behaviour that its
-- manual states. `strtol` and `atoi` are those of a platform with a `long` of 64 bits.
--
-- An array of char that a command fills has all its octets, and reading it as a string gives
-- `none` where it holds no NUL. Memory for the entries of a chain can always be had. A connection
-- is a state with one function for each stretch of code that runs under its mutex; its step
-- relation lets them follow one another in any order, and lets a wait return spuriously. For a
-- client, the answers of the server to its requests are a parameter, by the number of the request,
-- and so is what a failed conversion leaves, since `SendMessage` does not look at its result. The
-- handlers of a server run one after another, and a connection may be closed between them without
-- an event, as `ReadHandler` and `KeepAliveThread` do.
--
-- Fuel and bounds. The loop over TLVs has the number of octets that are left as its fuel, and
-- every TLV takes at least four. The loop of `gsm7ToUtf8` has the length of its source, of which
-- every round takes an octet. The loop of `iconv_wrapper::convert` has two more than the length of
-- its source, under the assumptions on `iconv`. The buffer of `SendPDU` is doubled four times,
-- from 256 to 4096 octets. The loop of `SendMessage` over segments has the length of the text, of
-- which every round sends an octet at least. The round trip of the codec is for buffers of less than 2 ^ 32 octets,
-- since the length of a PDU is written in 32 bits.
--
-- Not modelled. The network, threads, locks and timers: sockets, the resolver, the thread pools of
-- client and server, the waiting of `KeepAliveThread`. Of smppcommands.hpp, the variants of pack
-- and unpack that throw. smpp.cpp but for the default settings; the dumps of PDUs;
-- win_iconv.c, a copy of another library; logging; the simulator in C#.
mod Prelude
pub mod Gsm7
pub mod Converter
pub mod Codec
pub mod Commands
pub mod Client
pub mod Users
pub mod Server
pub mod Connection
