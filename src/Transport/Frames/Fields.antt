-- ===== src/Transport/Frames/Fields.antt =====
-- What a receiver finds in the packets that `zf_transport_session_send_frames` makes.
use zerofido.Base.{
  ℕ, ◌+◌, ◌-◌, ◌*◌, ◌/◌, ◌^◌, ◌<◌, ◌≤◌, ◌≡◌, refl, List, ◌∷◌, ◌++◌, length, drop, replicate, u8,
  get_or, arith, length-append, length-replicate,
}
use zerofido.Transport.State.{Packet, packet_size, packet_cid}
use zerofido.Transport.Frames.{cid_bytes, pad}

-- The padding behind `content`, as a list.
abbrev pub padding : ℕ → List ℕ
padding n = replicate n 0

-- A continuation packet with `content` in it.
pub record IsContinuation (cid seq : ℕ) (content : List ℕ) (packet : Packet) : Type 0 where
  pub size : length packet ≡ 64
  pub for_cid : packet_cid packet ≡ cid
  pub has_seq : get_or packet 4 0 ≡ seq
  pub spare : ℕ
  pub room : length content + spare ≡ 59
  pub carries : drop 5 packet ≡ content ++ padding spare

pub record IsInitial (cid cmd total : ℕ) (content : List ℕ) (packet : Packet) : Type 0 where
  pub size : length packet ≡ 64
  pub for_cid : packet_cid packet ≡ cid
  pub has_cmd : get_or packet 4 0 ≡ cmd
  pub has_total : get_or packet 5 0 * 256 + get_or packet 6 0 ≡ total
  pub spare : ℕ
  pub room : length content + spare ≡ 57
  pub carries : drop 7 packet ≡ content ++ padding spare

cid_bytes_value :
    (cid : ℕ)
    → cid < 2 ^ 32
    → u8 cid + u8 (cid / 2 ^ 8) * 2 ^ 8 + u8 (cid / 2 ^ 16) * 2 ^ 16 + u8 (cid / 2 ^ 24) * 2 ^ 24
      ≡ cid
cid_bytes_value cid h = omega arith

pub pad-IsContinuation :
    (cid seq : ℕ) (content : List ℕ)
    → cid < 2 ^ 32
    → length content ≤ 59
    → IsContinuation cid seq content (pad (cid_bytes cid ++ seq ∷ content))
unfolding pad cid_bytes packet_cid
pad-IsContinuation cid seq content h k = record {
  size = omega (
    arith,
    length-append content (padding (packet_size - length (cid_bytes cid ++ seq ∷ content))),
    length-replicate {A = ℕ} (packet_size - length (cid_bytes cid ++ seq ∷ content)) 0,
  );
  for_cid = cid_bytes_value cid h;
  has_seq = refl;
  spare = packet_size - length (cid_bytes cid ++ seq ∷ content);
  room = omega arith;
  carries = refl;
}

pub pad-IsInitial :
    (cid cmd total : ℕ) (content : List ℕ)
    → cid < 2 ^ 32
    → total < 2 ^ 16
    → length content ≤ 57
    → IsInitial cid cmd total content
        (pad (cid_bytes cid ++ cmd ∷ u8 (total / 2 ^ 8) ∷ u8 total ∷ content))
unfolding pad cid_bytes packet_cid
pad-IsInitial cid cmd total content h t k = record {
  size = omega (
    arith,
    length-append content (
        padding
          (packet_size - length (cid_bytes cid ++ cmd ∷ u8 (total / 2 ^ 8) ∷ u8 total ∷ content))),
    length-replicate {A = ℕ}
        (packet_size - length (cid_bytes cid ++ cmd ∷ u8 (total / 2 ^ 8) ∷ u8 total ∷ content)) 0,
  );
  for_cid = cid_bytes_value cid h;
  has_cmd = refl;
  has_total = omega arith;
  spare = packet_size - length (cid_bytes cid ++ cmd ∷ u8 (total / 2 ^ 8) ∷ u8 total ∷ content);
  room = omega arith;
  carries = refl;
}
