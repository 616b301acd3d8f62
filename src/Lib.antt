-- ===== src/Lib.antt =====
-- A model of the core of the Wirepas C Mesh API library (lib/wpc): the host side of the Dual-MCU
-- protocol, which talks to a mesh node over a serial line.
--
-- Files and sources:
--   Prelude       shared names, lists as C arrays, memcpy, C integers, exclusive or, and `Outcome`,
--                 which is what a piece of C does: return, touch memory outside of an object
--                 (`fault`), or not return for want of fuel or input (`unfinished`).
--   Util          lib/wpc/include/util.h: uint16_encode_le, uint32_decode_le, internal_time_to_ms, ...
--   Slip          lib/wpc/slip.c. Slip.Crc is crc_fromBuffer with its table; Slip.Codec is
--                 slip_decode_buffer, slip_encode_buffer, Slip_decode and Slip_encode; Slip.Frame is
--                 Slip_send_buffer, Slip_get_buffer and Slip_init.
--   Reassembly    lib/wpc/reassembly/reassembly.c. Containers states what is used of uthash and
--                 utlist, which are parameters; Assoc has lists that satisfy it.
--   WpcInternal   lib/wpc/wpc_internal.c: send_request_locked in the file itself, and in
--                 WpcInternal.Indication the indications (get_indication, handle_indication,
--                 dispatch_indication) and the settings (WPC_Int_set_timeout_s_no_answer, ...). The
--                 framing, the clock, the locks and the receiver of indications are a record `Link`.
--   Request       what the services use of lib/wpc/wpc_internal.c, as a record `Requests`, and the
--                 shape that their requests share: the frame is filled (Request.Frame), sent, and
--                 the confirmation is read.
--   Dsap          lib/wpc/dsap.c. Dsap.Callbacks is the table for sent packets, Dsap.Transmit is
--                 dsap_data_tx_request, and Dsap.Receive has the indications and the registration.
--   Attribute     lib/wpc/attribute.c, csap.c and the attribute requests of include/csap.h, msap.h.
--   Msap          lib/wpc/msap.c. Msap.Scratchpad and Msap.ConfigData are the requests, and
--                 Msap.Callbacks has the indications and the registrations, and Msap.Convert the
--                 conversions of include/msap.h.
--   Platform      lib/platform/linux/platform.c: the queue of indications, with
--                 onIndicationReceivedLocked, the rounds of dispatch_indication, and the room in the
--                 queue that poll_for_indication computes without the lock.
--   Wpc           lib/wpc/wpc.c, on top of the services. Wpc.Errors has the results and the tables of
--                 error codes, Wpc.Configuration and Wpc.Management the attributes, Wpc.Multicast
--                 the groups, Wpc.Stack the start and the stop of the stack, Wpc.Scratchpad the
--                 upload and the download, Wpc.Data the configuration data, sink cost and
--                 neighbours, Wpc.Send the sending and the registrations.
--   Engine        the interfaces of Request and Wpc.Stack, filled by the functions of WpcInternal,
--                 with the laws that the interfaces ask for.
--   Proto         lib/wpc_proto/internal_modules/common.c: Common_convert_error_code and its table.
--
-- Conventions. Integers are natural numbers with the wrap-around of their width written out where
-- the code can wrap; an `int` result is an integer `ℤ`. Arrays are lists of all their bytes, and an
-- access outside of an array is `fault`. Arrays on the stack begin with arbitrary contents of the
-- right size. The serial line is a parameter: a write function with a state, and the list of the
-- results of the reads. Logging is left out.
--
-- Fuel. The loop of slip_decode_buffer takes one round more than the length of the input; the
-- theorem on its end below says that this is enough where the index of the loop cannot wrap.
-- The loop of send_request_locked takes 54 rounds of fuel: each round uses one of 50 attempts or of
-- 3 repetitions, or is the last one.
-- The loops of wpc.c over the blocks of a scratchpad take fuel for one block more than there are
-- bytes, as a block has one byte at least if the node allows any. Those that wait for the node take
-- one unit for each reading of the clock; if each reading takes a tick of time, the number of ticks
-- until the time is over is enough.
--
-- Not modelled: reassembly_init, which is empty; WPC_Int_initialize and WPC_Int_close; the build
-- of dsap.c with REGISTER_DATA_PER_ENDPOINT and that of msap.c with LEGACY_APP_CONFIG; the
-- functions WPC_initialize and WPC_close of lib/wpc/wpc.c, the rest of lib/platform and of
-- lib/wpc_proto. The headers uthash.h and utlist.h and the generated protobuf code belong to
-- other projects.
pub mod Prelude
pub mod Util
pub mod Slip
pub mod Reassembly
pub mod WpcInternal
pub mod Request
pub mod Dsap
pub mod Attribute
pub mod Msap
pub mod Platform
pub mod Wpc
pub mod Engine
pub mod Proto
