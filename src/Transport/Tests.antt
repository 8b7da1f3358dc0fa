-- ===== src/Transport/Tests.antt =====
-- Runs of a CTAPHID session.
use zerofido.Base.{
  ℕ, ◌+◌, ◌≡◌, inl, refl, true, false, none, some, List, [], ◌∷◌, arith, length-replicate,
  replicate,
}
use zerofido.Transport.State.{
  TransportState, Host, ping, Packet, cmd_ping, cmd_cbor, packet_cid, refresh_lock, lock_blocks,
}
use zerofido.Transport.Frames.{send_frames}
use zerofido.Transport.Cids.{
  cid_is_reserved, is_listed, cid_is_allocated, remember_cid, allocate_loop, allocate_cid,
}
use zerofido.Transport.Cids.Table.{IsTable, Distinct}
use zerofido.Transport.Cids.Allocate.{Allocates, allocate_cid_fresh}
use zerofido.Transport.Cids.Success.{allocate_cid_succeeds}
use zerofido.Transport.Assembly.{protocol_of, command_length_is_valid}
use zerofido.Transport.Assembly.Begin.{IsReady}
use zerofido.Transport.Assembly.Whole.{message_arrives}
use zerofido.Transport.Session.{handle_packet, deliver}
use zerofido.Transport.Session.Valid.{IsValid, Fits}
use zerofido.Transport.Session.Invariant.{Event, received, polled, ticked, run, run-IsValid}
use zerofido.Transport.Session.Undisturbed.{
  Undisturbed, OtherChannel, processing-Undisturbed, assembly-OtherChannel,
}

abbrev host : Host
host = record {
  tick = 5000;
  random = λ n. 77 + n;
  capabilities = record { u2f_enabled = true; transport_wink_enabled = true; fido2_enabled = true };
  arena = none;
}

-- Channels 7 and 9 are allocated.
abbrev idle : TransportState
idle = record {
  active = false;
  processing = false;
  processing_resync = false;
  processing_cancel_requested = false;
  stopping = false;
  processing_generation = 0;
  cid = 0;
  cmd = 0;
  total_len = 0;
  received_len = 0;
  next_seq = 0;
  last_activity = 0;
  lock_cid = 0;
  lock_expires_at = 0;
  payload = some (replicate 1024 0);
  allocated_cids = record { cid = 7; last_used = 100 } ∷ record { cid = 9; last_used = 200 } ∷ [];
}

abbrev processing : TransportState
processing = record idle { processing = true; cid = 7; cmd = cmd_cbor }

abbrev assembling : TransportState
assembling = record idle {
  active = true;
  cid = 7;
  cmd = cmd_ping;
  total_len = 100;
  received_len = 57;
}

-- The first packet of a PING of 2 bytes on channel 9, and a continuation packet on channel 9.
abbrev ping_from_9 : Packet
ping_from_9 = 9 ∷ 0 ∷ 0 ∷ 0 ∷ 0x81 ∷ 0 ∷ 2 ∷ 1 ∷ 2 ∷ []

abbrev rest_from_9 : Packet
rest_from_9 = 9 ∷ 0 ∷ 0 ∷ 0 ∷ 0 ∷ 1 ∷ 2 ∷ []

allocated_7 : cid_is_allocated idle 7 ≡ true
unfolding cid_is_allocated cid_is_reserved is_listed
allocated_7 = refl

idle_IsTable : IsTable idle.allocated_cids
unfolding Distinct cid_is_reserved is_listed
idle_IsTable = record { bounded = omega arith; distinct = (refl, refl, (refl, refl, tt)) }

allocates_77 : (allocate_cid host idle).0 ≡ some 77
unfolding allocate_cid allocate_loop cid_is_allocated cid_is_reserved is_listed remember_cid
allocates_77 = refl

allocate_cid_fresh_example : Allocates idle 77 (allocate_cid host idle).1
allocate_cid_fresh_example = allocate_cid_fresh host idle idle_IsTable allocates_77

second_number_is_free :
    (cid_is_reserved (host.random 1) ≡ false)
    × (is_listed (host.random 1) idle.allocated_cids ≡ false)
unfolding cid_is_reserved is_listed
second_number_is_free = (refl, refl)

allocate_cid_succeeds_example : (cid : ℕ) × ((allocate_cid host idle).0 ≡ some cid)
allocate_cid_succeeds_example =
    allocate_cid_succeeds host idle 1 idle_IsTable (omega arith) second_number_is_free.0
      second_number_is_free.1

idle_IsValid : IsValid idle
unfolding Fits
idle_IsValid = record { fits = inl refl; table = idle_IsTable }

abbrev events : List Event
events = received host ping_from_9 ∷ polled host rest_from_9 ∷ ticked 9000 ∷ []

run-IsValid_example : IsValid (run events idle)
run-IsValid_example = run-IsValid events idle idle_IsValid

cid_9 : (packet_cid ping_from_9 ≡ 9) × (packet_cid rest_from_9 ≡ 9)
unfolding packet_cid
cid_9 = (refl, refl)

processing-Undisturbed_example :
    Undisturbed (refresh_lock host.tick processing) (handle_packet host ping_from_9 processing)
processing-Undisturbed_example =
    processing-Undisturbed host ping_from_9 processing (omega arith) refl (omega (arith, cid_9))
      (inl (omega arith))

unlocked_9 : lock_blocks (refresh_lock 5000 assembling) (packet_cid rest_from_9) ≡ false
unfolding refresh_lock packet_cid
unlocked_9 = refl

assembly-OtherChannel_example :
    OtherChannel rest_from_9
      (refresh_lock host.tick assembling)
      (handle_packet host rest_from_9 assembling)
assembly-OtherChannel_example =
    assembly-OtherChannel host rest_from_9 assembling (omega arith) refl refl (omega (arith, cid_9))
      unlocked_9

idle_IsReady : IsReady 7 idle
idle_IsReady = record {
  idle = refl;
  inactive = refl;
  allocated = allocated_7;
  unlocked = inl refl;
  buffer = replicate 1024 0;
  in_buffer = refl;
  large = omega (arith, length-replicate {A = ℕ} 1024 0);
}

ping_command : (protocol_of cmd_ping ≡ some ping) × (command_length_is_valid cmd_ping 100 ≡ true)
unfolding protocol_of command_length_is_valid
ping_command = (refl, refl)

abbrev text : List ℕ
text = replicate 100 0x2a

message_arrives_example :
    deliver (λ n. host) (send_frames 7 cmd_ping text) idle ≡ ([], (ping, text) ∷ [])
message_arrives_example =
    message_arrives (λ n. host) 7 cmd_ping ping text idle (omega arith) ping_command.0 (omega arith)
      ping_command.1 (omega arith) (omega arith) idle_IsReady
