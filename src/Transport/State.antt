-- ===== src/Transport/State.antt =====
-- transport/usb_hid_session.h: the state of a CTAPHID session, and what the code around it supplies.
use zerofido.Base.{
  ℕ, ◌+◌, ◌-◌, ◌*◌, ◌%◌, ◌^◌, Bool, false, ◌&&◌, Option, none, some, List, ◌++◌, ltb, ◌==◌, ◌!=◌,
  if◌then◌else◌, length, drop, replicate, get_or,
}

pub record AllocatedCid : Type 0 where
  pub cid : ℕ
  pub last_used : ℕ

-- `payload` is `none` for the null pointer, and else the whole arena: `payload_capacity` is its
-- length. `allocated_cids` holds the entries in front of `allocated_count`.
pub record TransportState : Type 0 where
  pub active : Bool
  pub processing : Bool
  pub processing_resync : Bool
  pub processing_cancel_requested : Bool
  pub stopping : Bool
  pub processing_generation : ℕ
  pub cid : ℕ
  pub cmd : ℕ
  pub total_len : ℕ
  pub received_len : ℕ
  pub next_seq : ℕ
  pub last_activity : ℕ
  pub lock_cid : ℕ
  pub lock_expires_at : ℕ
  pub payload : Option (List ℕ)
  pub allocated_cids : List AllocatedCid

pub record Capabilities : Type 0 where
  pub u2f_enabled : Bool
  pub transport_wink_enabled : Bool
  pub fido2_enabled : Bool

-- What one call sees of its surroundings: the tick, the random numbers in the order in which they are
-- drawn, the capabilities, and the arena, which is `none` where it cannot be acquired.
pub record Host : Type 0 where
  pub tick : ℕ
  pub random : ℕ → ℕ
  pub capabilities : Capabilities
  pub arena : Option (List ℕ)

pub data Protocol : Type 0 where
  ping u2f wink ctap2 : Protocol

-- A packet is the list of its `packet_len` bytes. A call leaves a state, the reports that it sends in
-- order, whether it asks to cancel a pending interaction, and the complete message, if there is one,
-- that it hands to `zf_transport_dispatch_complete_message` as its last act.
abbrev pub Packet : Type 0
Packet = List ℕ

pub record Outcome : Type 0 where
  pub state : TransportState
  pub sent : List Packet
  pub cancels : Bool
  pub completed : Option (Protocol × List ℕ)

abbrev pub packet_size : ℕ
packet_size = 64

abbrev pub max_msg_size : ℕ
max_msg_size = 1024

abbrev pub broadcast_cid : ℕ
broadcast_cid = 0xffff_ffff

abbrev pub cmd_ping : ℕ
cmd_ping = 0x81

abbrev pub cmd_msg : ℕ
cmd_msg = 0x83

abbrev pub cmd_lock : ℕ
cmd_lock = 0x84

abbrev pub cmd_init : ℕ
cmd_init = 0x86

abbrev pub cmd_wink : ℕ
cmd_wink = 0x88

abbrev pub cmd_cbor : ℕ
cmd_cbor = 0x90

abbrev pub cmd_cancel : ℕ
cmd_cancel = 0x91

abbrev pub cmd_error : ℕ
cmd_error = 0xbf

abbrev pub err_invalid_cmd : ℕ
err_invalid_cmd = 0x01

abbrev pub err_invalid_par : ℕ
err_invalid_par = 0x02

abbrev pub err_invalid_len : ℕ
err_invalid_len = 0x03

abbrev pub err_invalid_seq : ℕ
err_invalid_seq = 0x04

abbrev pub err_msg_timeout : ℕ
err_msg_timeout = 0x05

abbrev pub err_channel_busy : ℕ
err_channel_busy = 0x06

abbrev pub err_invalid_channel : ℕ
err_invalid_channel = 0x0b

abbrev pub err_other : ℕ
err_other = 0x7f

-- `memcpy(&cid, packet, 4)` on a little-endian machine.
unfoldable pub packet_cid : Packet → ℕ
packet_cid packet =
    get_or packet 0 0
    + get_or packet 1 0 * 2 ^ 8
    + get_or packet 2 0 * 2 ^ 16
    + get_or packet 3 0 * 2 ^ 24

-- `(int32_t)(now - then) >= 0`
abbrev pub is_due : ℕ → ℕ → Bool
is_due now deadline = ltb ((now + 2 ^ 32 - deadline) % 2 ^ 32) (2 ^ 31)

-- `zf_crypto_secure_zero(payload, used)`, where `used` is at most the payload's capacity.
abbrev pub wipe : ℕ → List ℕ → List ℕ
wipe used payload = replicate used 0 ++ drop used payload

abbrev pub payload_capacity : TransportState → ℕ
payload_capacity state = elim state.payload [ none ↦ 0 | some payload ↦ length payload ]

unfoldable pub session_reset : TransportState → TransportState
session_reset state =
    let most =
      if ltb state.received_len state.total_len then state.total_len else state.received_len in
    let used = if ltb (payload_capacity state) most then payload_capacity state else most in
    record state {
      payload = elim state.payload [ none ↦ none | some payload ↦ some (wipe used payload) ];
      active = false;
      processing = false;
      processing_resync = false;
      processing_cancel_requested = false;
      stopping = false;
      processing_generation = 0;
      cid = 0;
      cmd = 0;
      total_len = 0;
      received_len = 0;
      next_seq = 0;
      last_activity = 0;
    }

unfoldable pub refresh_lock : ℕ → TransportState → TransportState
refresh_lock now state =
    if state.lock_cid == 0
    then state
    else if is_due now state.lock_expires_at
    then record state { lock_cid = 0; lock_expires_at = 0 }
    else state

abbrev pub lock_blocks : TransportState → ℕ → Bool
lock_blocks state cid = state.lock_cid != 0 && cid != state.lock_cid

abbrev pub is_busy_for_cid : TransportState → ℕ → Bool
is_busy_for_cid state cid = state.active && cid != state.cid
