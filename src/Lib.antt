-- ===== src/Lib.antt =====
-- ZeroFIDO, a FIDO2 and U2F authenticator for the Flipper Zero: the core of its C code as definitions
-- that run, and theorems about them.
--
-- The program. A host talks to the authenticator over USB or NFC. Over USB, src/transport/usb_hid_session.c
-- assembles CTAPHID packets to messages and hands them to src/transport/dispatch.c, which calls the U2F
-- adapter (src/u2f) or the CTAP2 commands (src/ctap). The commands read and write CBOR by
-- src/zerofido_cbor.c, ask src/pin/core whether the user is verified, keep credentials by src/store, and
-- sign by src/crypto. The PIN state is made durable by src/pin/store.
--
-- The parts and their files.
-- - Base: bytes, big-endian numbers, lists over the native numbers, Boolean tests.
-- - Cbor: src/zerofido_cbor.c. Encode has the encoder (zf_cbor_encode_*, zf_cbor_reserve_bytes), its state
--   the capacity and the bytes in front of the offset; Decode has the readers (zf_cbor_read_*) and Skip has
--   zf_cbor_skip, on the list of the bytes that are left; Utf8 has the validator. Item holds the data
--   items of CBOR as trees, which the code does not have: the specification of what is skipped.
-- - Crypto: Sha256 is src/crypto/sha256.c, its state the words, the block that fills and the count of bits;
--   Standard is SHA-256 as FIPS 180-4 defines it, which the code does not have: its constants are computed
--   from the roots of primes, and the code is proved equal to it.
--   Hmac is hmac_sha256.c, Der is ecdsa_der.c, Hash has the two hashes of src/zerofido_crypto.c.
-- - Ctap: Status has the ZF_CTAP_* codes of src/zerofido_types.h. Parse is src/ctap/parse: Parsed has what a
--   parser returns, a value or the status with which it stops, Shared the helpers of shared.c, Cose its
--   parser of key-agreement keys (Entry: one pair of its map, Inverse: what the readers took), Descriptors and Options the lists and option maps, MakeCredential and
--   GetAssertion the requests, whose fields are the code's. Extensions has src/ctap/extensions.
--   Queue is src/ctap/core/assertion_queue.c: the state is the queue, the index and the credentials' files,
--   and the two regions under the lock are two steps, with a step of the other threads in between.
-- - Store: Types has the records of src/zerofido_types.h. Counter has the signature counters of
--   src/store/record_format.c and of src/zerofido_store.c, over the two files of one credential;
--   Counter.Device runs them: what getAssertion of src/ctap/commands/get_assertion.c does with the counter,
--   the start of the device and a loss of power. Index has the lookups and the deletions of the index in
--   memory, whose entries are the list of the first count ones.
-- - Pin: src/pin/core and the state of src/zerofido_pin.h. State has the state and the small functions on
--   it, Retry is retry.c, Token is token.c, Plaintext is plaintext.c, Lifecycle is lifecycle.c. A function
--   that changes the state returns the new state, and the storage where it calls it.
-- - U2f.Apdu: src/u2f/apdu.c, the validation of U2F requests.
-- - Transport: src/transport/usb_hid_session.c. State is the session's state; Cids the table of channels;
--   Frames what is sent; Assembly a message from its first packet to its last; Session the handlers of
--   packets, control packets and ticks. A handler returns the state, the reports that it sends, whether it
--   asks to cancel, and the message that it hands over.
-- The names of the C functions are kept without their prefix: handle_packet is
-- zf_transport_session_handle_packet, require_auth is zerofido_pin_require_auth.
--
-- Parameters. What is not code of the components above is an argument: the storage
-- (Pin.Retry.StateStore, Pin.Lifecycle.PinFile, Store.Counter.Host), the hashes of the PIN
-- (Pin.Token.Hashes), the key of the enclave (Store.Counter.Enclave), random bytes, fresh keys, which are
-- none where the generator fails, the tick, and the arena. A file of a credential that
-- could not be written is as it was, which is what the temporary files of src/zerofido_storage.c are for.
-- No theorem assumes that a write succeeds or that a hash is injective, unless it says so in a hypothesis. The build is a production
-- build: ZF_HOST_TEST and ZF_PACKED_ATTESTATION are off.
--
-- Bounds and fuel. Machine integers are numbers with their wrap-around written out; size_t has 64 bits.
-- The UTF-8 loops, the blocks of SHA-256 and the continuation packets run on fuel, which is the length
-- of their input, since each round takes a byte; the theorems on them show that this is enough. Skipping
-- has the code's own limit of 16 levels.
--
-- What is not modelled. The CTAP commands besides their parsers and the counter of getAssertion, the
-- approvals, the clientPIN subcommands, the PIN's file, the record format and the
-- recovery of the credential store, NFC, the U2F session, the user interface, the block cipher and the curve.
-- Null-pointer guards have no counterpart, nor have delays, the diagnostics that a release build leaves
-- out, and the wiping of local buffers.
pub mod Base
pub mod Cbor
pub mod Crypto
pub mod Ctap
pub mod Pin
pub mod Store
pub mod Transport
pub mod U2f
