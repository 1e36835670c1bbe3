-- ===== src/Rudp/Fragments.antt =====
-- src/rudp.rs: `reassemble`, which collects the fragments of a payload.
use cultnet_rs.Base.{ℕ, zero, suc, ◌+◌, List, [], ◌∷◌, ◌++◌, min, max}
use cultnet_rs.Base.{Bool, true, false, ◌||◌, not, ltb, leb, ◌==◌, if◌then◌else◌, length}
use cultnet_rs.Base.{Option, none, some}
use cultnet_rs.Base.Outcome.{Outcome, ok, err, panic}
use cultnet_rs.Base.BTreeMap.{get, insert, remove}
use cultnet_rs.Base.Order.{nat_ord, bytes_ord, pair_ord}
use cultnet_rs.Rudp.Packet.{CultNetRudpPacket, RudpError, zero_fragment_id}
use cultnet_rs.Rudp.Packet.{fragment_index_out_of_range, fragment_metadata_changed}
use cultnet_rs.Rudp.State.{CultNetRudpDeliveredFrame, FragmentBuffer}
use cultnet_rs.Rudp.State.{Run, ◌>>=◌, ◌>>◌, return, check, modify, u32_succ}
use mathlib.Core.Option

-- A complete payload with its flag `ordered` and the sequence after its last packet.
pub record Reassembled : Type 0 where
  pub frame : CultNetRudpDeliveredFrame
  pub ordered : Bool
  pub next_sequence : ℕ

abbrev pub bool_eq : Bool → Bool → Bool
bool_eq true b = b
bool_eq false b = not b

abbrev pub fresh_buffer : CultNetRudpPacket → FragmentBuffer
fresh_buffer packet = record {
  channel_id = packet.channel_id;
  ordered = packet.ordered;
  fragment_count = packet.fragment_count;
  payloads = [];
  sequences = [];
}

-- The buffer with the packet's fragment put in.
unfoldable pub add_fragment : CultNetRudpPacket → FragmentBuffer → FragmentBuffer
add_fragment packet buffer = record buffer {
  payloads = insert packet.fragment_index packet.payload buffer.payloads;
  sequences = insert packet.fragment_index packet.sequence buffer.sequences;
}

-- The loop over the indices, `rounds` of them from `index` on: the payload and the sequences.
unfoldable pub collect : ℕ → ℕ → FragmentBuffer → Option (List ℕ × List ℕ)
collect zero index buffer = some ([], [])
collect (suc rounds) index buffer = elim (get index buffer.payloads) [
  | none ↦ none
  | some chunk ↦ elim (get index buffer.sequences) [
    | none ↦ none
    | some sequence ↦
        Option.map (λ rest. (chunk ++ rest.0, sequence ∷ rest.1))
          (collect rounds (index + 1) buffer)
  ]
]

-- `iter().min()` and `iter().max()`.
unfoldable pub least : List ℕ → Option ℕ
least [] = none
least (x ∷ xs) = some (Option.get_or (Option.map (min x) (least xs)) x)

unfoldable pub greatest : List ℕ → Option ℕ
greatest [] = none
greatest (x ∷ xs) = some (Option.get_or (Option.map (max x) (greatest xs)) x)

-- `unwrap`.
abbrev pub unwrap : {A : Type 0} → Option A → Outcome RudpError A
unwrap none = panic
unwrap (some a) = ok a

abbrev pub key_of : CultNetRudpPacket → List ℕ × ℕ
key_of packet = (packet.channel_id, packet.fragment_id)

-- The end of `reassemble`, when every fragment is there.
unfoldable pub finish_set :
    CultNetRudpPacket → FragmentBuffer → List ℕ × List ℕ → Run (Option Reassembled)
finish_set packet buffer (payload, sequences) = do
  modify (λ s. record s { fragment_buffers = remove (key_of packet) s.fragment_buffers })
  first ← check (λ s. unwrap (least sequences))
  last ← check (λ s. unwrap (greatest sequences))
  next ← check (λ s. u32_succ last)
  return (
      some (record {
        frame = record { channel_id = buffer.channel_id; payload = payload; sequence = first };
        ordered = buffer.ordered;
        next_sequence = next;
      }))

-- `reassemble` for the buffer that holds the set so far. `Ok(None)` if a fragment is missing.
unfoldable pub extend_set : CultNetRudpPacket → FragmentBuffer → Run (Option Reassembled)
extend_set packet found s =
    if not (found.fragment_count == packet.fragment_count)
      || not (bool_eq found.ordered packet.ordered)
    then (err fragment_metadata_changed, s)
    else (let buffer = add_fragment packet found in
        let s' = record s { fragment_buffers = insert (key_of packet) buffer s.fragment_buffers } in
        if ltb (length buffer.payloads) packet.fragment_count
        then (ok none, s')
        else elim (collect packet.fragment_count 0 buffer) [
          | none ↦ (ok none, s')
          | some parts ↦ finish_set packet buffer parts s'
        ])

unfoldable pub reassemble_fragment : CultNetRudpPacket → Run (Option Reassembled)
reassemble_fragment packet = do
  check (λ s. if packet.fragment_id == 0 then err zero_fragment_id else ok tt)
  check (λ s.
      if leb packet.fragment_count packet.fragment_index
      then err fragment_index_out_of_range
      else ok tt)
  found ←
      (λ s. (ok (Option.get_or (get (key_of packet) s.fragment_buffers) (fresh_buffer packet)), s))
  extend_set packet found

unfoldable pub reassemble_whole : CultNetRudpPacket → Run (Option Reassembled)
reassemble_whole packet = do
  next ← check (λ s. u32_succ packet.sequence)
  return (
      some (record {
        frame = record {
          channel_id = packet.channel_id;
          payload = packet.payload;
          sequence = packet.sequence;
        };
        ordered = packet.ordered;
        next_sequence = next;
      }))

unfoldable pub reassemble : CultNetRudpPacket → Run (Option Reassembled)
reassemble packet s =
    if packet.fragment_count == 0 then reassemble_whole packet s else reassemble_fragment packet s
