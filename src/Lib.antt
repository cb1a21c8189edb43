-- ===== src/Lib.antt =====
-- Verification of the core of the Nabto Edge embedded SDK.
--
-- The SDK lets clients reach a device through basestations: the core (src/core) attaches the device,
-- keeps connections alive and dispatches packets; the modules (src/modules) decide who may do what
-- on the device and keep its users.
--
-- - Base: what the files share: lists over the native numbers, bytes, C strings as lists of character
--   codes, and faults. `none` in a function of type `Option` stands for a read through a null pointer
--   or outside of a buffer, or a division by zero, where the comments say so.
-- - Nn: the string sets, string maps and vectors of nabto-common, a submodule, as an interface with
--   the laws that its headers document, and an implementation by lists (Nn/Lists).
-- - Packet: src/core/nc_packet.c, the variable-length integers of packets, on lists of bytes.
-- - KeepAlive: src/core/nc_keep_alive.c, the state that decides when to send a keep-alive packet and
--   when a connection is lost. Counters are 32 bits wide and wrap around.
-- - Policies: src/modules/policies: conditions (Condition), statements (Statement) and policies
--   (Policy) with their evaluation. Floating point numbers and strtod are a parameter (Doubles).
-- - Iam: src/modules/iam: the users, roles and policies of a device. Iam/Access is
--   nm_iam_check_access, Iam/UserIds the search for a free id, Iam/Users the changes of users,
--   Iam/Pairing the pairing of clients and Iam/Handlers the CoAP handlers in front of them. Calls of
--   the device and the change callback are events in the result.
-- - Attacher: src/core/nc_attacher.c with its three requests (nc_attacher_attach_start.c,
--   nc_attacher_sct.c and nc_attacher_attach_end.c): the state machine that resolves the basestation,
--   connects, attaches, follows redirects and closes. A function returns the new context and the
--   calls that it made; what the resolver, DTLS, the CoAP client and the timers answer is an Input
--   of `step`, in any order. Callers that wait for `close` of a DTLS connection see its event later.
-- - Resolver: src/core/nc_dns_multi_resolver.c, the two lookups behind one resolution of a name.
-- - Hex: the hexadecimal text of src/platform/np_util.c, as which fingerprints are kept.
-- - Connections: src/core/nc_client_connection.c and nc_client_connection_dispatch.c: connections
--   with clients. Connections is one connection with its two channels; Connections/Dispatch the ten
--   slots. Connections/Sessions is the finite map that the slots implement.
-- - Rendezvous: src/core/nc_rendezvous.c and nc_rendezvous_coap.c, the queue of packets that open a
--   way through firewalls. What the CBOR reader finds is a list of entries.
-- - Device: src/core/nc_device.c with nc_udp_dispatch.c: the sockets, the way of a packet to a
--   component by its first byte, and closing: first the connections, then the attacher, then the
--   sockets. It composes Attacher, Connections and Rendezvous: a call in the result of one of them is
--   an input of another.
-- - Stun: src/core/nc_stun.c and nc_stun_coap.c (Stun/Endpoints): one analysis for up to ten callers,
--   and the request of a client for the addresses of the device. The STUN client (StunClient) and the
--   CBOR encoder (Cbor, with the sizes of its items in Sizes) are parameters.
-- - Streams: src/core/nc_stream.c, what the user of a stream asks and is told, and
--   src/core/nc_stream_manager.c (Streams/Manager), the ten slots for streams. The protocol of
--   streams is a parameter (StreamLib, with what it does with bytes in Streams/Io).
-- - Spake2: src/core/nc_spake2.c and nc_spake2_coap.c, the authentication of a client by a password.
--   The cryptography is a parameter (Spake2Crypto), and what the CBOR reader finds is an argument.
--
-- Bounds and fuel: the search for a user id tries one id more than there are users, which is enough
-- since the ids it tries differ (Iam/UserIds/Fresh). The loops that read from and write to a stream
-- have one round more than there are bytes to go, and each round takes a byte (Streams/Reads,
-- Streams/Writes). Memory may run out wherever a container of Nn says so.
--
-- Not modelled: the libraries that the program calls (nabto-common, nn, cJSON, tinycbor, mbedtls,
-- libevent, the STUN client, the protocol of streams), sockets and threads, the public interface's
-- futures, the events between a stream's protocol and the DTLS server, TCP tunnels, mDNS, the JSON
-- forms of the state, and the applications and examples.
pub mod Base
pub mod Packet
pub mod KeepAlive
pub mod Nn
pub mod Policies
pub mod Iam
pub mod Attacher
pub mod Connections
pub mod Device
pub mod Hex
pub mod Rendezvous
pub mod Resolver
pub mod Spake2
pub mod Streams
pub mod Stun
