-- ===== src/Tcpv4/Tx/Send.antt =====
-- Writing a transfer: sendSegments and sendTransfer of CLA/tcpv4/src/tcpv4tx.c. The octets of the
-- segments are gathered and written up to 16 segments at a time.
use ion_dtn_contrib.Prelude.{
  ℕ, zero, suc, ◌+◌, ◌-◌, ◌*◌, Bool, ◌||◌, ◌==◌, ltb, if◌then◌else◌, List, [], ◌∷◌, ◌++◌, length,
  take, drop, Option, none, some, ℤ, pos, negsuc, bit_or,
}
use ion_dtn_contrib.Wire.Pointer.{octets}
use ion_dtn_contrib.Tcpv4.Msg.{encode_xfer_segment_hdr}
use ion_dtn_contrib.Tcpv4.Msg.Types.{Tcpv4XferSegment}
use ion_dtn_contrib.Tcpv4.Ext.{encode_xfer_length_ext}

abbrev pub tcpv4_tx_segs_per_write : ℕ
tcpv4_tx_segs_per_write = 16

abbrev pub tcpv4_txbuf_size : ℕ
tcpv4_txbuf_size = 64 * 1024

abbrev pub tmsg_xferext_length_len : ℕ
tmsg_xferext_length_len = 13

-- What an encoder has written; `none` where it failed.
abbrev pub written : ℤ × List ℕ → Option (List ℕ)
written (pos n, bs) = some bs
written (negsuc n, bs) = none

abbrev pub then_do {ℓ} : {A B : Type ℓ} → (A → Option B) → Option A → Option B
then_do f none = none
then_do f (some a) = f a

-- The result of the C function, `none` for -1, with the octets written so far.
abbrev pub Sent : Type 0
Sent = Option (Unit {0}) × List ℕ

-- `id` and `total` are those of the transfer and `mtu` the session's; `writes wire run` says whether
-- the write of `run` behind `wire` succeeds.
module _ (id mtu total : ℕ) (writes : List ℕ → List ℕ → Bool) where
  abbrev pub chunk_size : ℕ → ℕ
  chunk_size left = if ltb mtu left then mtu else left

  abbrev pub segment_flags : ℕ → ℕ → ℕ
  segment_flags at chunk = bit_or (if at == 0 then 2 else 0) (if at + chunk == total then 1 else 0)

  -- `seg.xferExt`, behind the failure of the encoder.
  abbrev pub length_ext : ℕ → Option (Option (List ℕ))
  length_ext at =
      if at == 0
      then then_do (λ bs. some (some bs))
          (written (encode_xfer_length_ext tmsg_xferext_length_len total))
      else some none

  abbrev pub tx_segment : ℕ → ℕ → Option (List ℕ) → Tcpv4XferSegment
  tx_segment at chunk ext = record {
    flags = segment_flags at chunk;
    transfer_id = id;
    xfer_ext = ext;
    xfer_ext_len = length (octets ext);
    data_length = chunk;
  }

  abbrev pub segment_hdr : ℕ → ℕ → Option (List ℕ)
  segment_hdr at chunk =
      then_do
        (λ ext.
          written
            (encode_xfer_segment_hdr (32 + tmsg_xferext_length_len) (tx_segment at chunk ext)))
        (length_ext at)

  -- The end of a round: a run of segments is written once it is full or the buffer is used up. `next`
  -- is what the rounds behind it do with what is gathered, its number of segments and the octets
  -- written.
  abbrev pub flush : (List ℕ → ℕ → List ℕ → Sent) → Bool → List ℕ → ℕ → List ℕ → Sent
  flush next done run segs wire =
      if segs == tcpv4_tx_segs_per_write || done
      then (if writes wire run then next [] 0 (wire ++ run) else (none, wire))
      else next run segs wire

  abbrev pub with_header :
      (List ℕ → ℕ → List ℕ → Sent) → List ℕ → ℕ → List ℕ → ℕ → List ℕ → Option (List ℕ) → Sent
  with_header next buffer chunk run segs wire none = (none, wire)
  with_header next buffer chunk run segs wire (some hdr) =
      flush next (length (drop chunk buffer) == 0) (run ++ (hdr ++ take chunk buffer)) (segs + 1)
        wire

  -- The loop of sendSegments: `buffer` is `data + consumed` and `at` is `off + consumed`. A round
  -- takes an octet at least, the MTU being positive.
  unfoldable pub send_loop : ℕ → List ℕ → ℕ → List ℕ → ℕ → List ℕ → Sent
  send_loop fuel [] at run segs wire = (some tt, wire)
  send_loop zero (x ∷ xs) at run segs wire = (some tt, wire)
  send_loop (suc fuel) (x ∷ xs) at run segs wire =
      let chunk = chunk_size (length (x ∷ xs)) in
      with_header (send_loop fuel (drop chunk (x ∷ xs)) (at + chunk)) (x ∷ xs) chunk run segs wire
        (segment_hdr at chunk)

  unfoldable pub send_segments : List ℕ → ℕ → List ℕ → Sent
  send_segments buffer off wire = send_loop (length buffer) buffer off [] 0 wire

  -- `read off want` is what e->tx.read gives, `none` where it is not `want` octets, and `refused off`
  -- whether the peer has refused the transfer by then.
  module _ (read : ℕ → ℕ → Option (List ℕ)) (refused : ℕ → Bool) where
    abbrev pub buffer_sent : (ℕ → List ℕ → Sent) → ℕ → ℕ → Sent → Sent
    buffer_sent next off got (none, wire) = (none, wire)
    buffer_sent next off got (some u, wire) =
        if refused (off + got) then (some tt, wire) else next (off + got) wire

    abbrev pub buffer_read : (ℕ → List ℕ → Sent) → ℕ → List ℕ → Option (List ℕ) → Sent
    buffer_read next off wire none = (none, wire)
    buffer_read next off wire (some got) =
        buffer_sent next off (length got) (send_segments got off wire)

    unfoldable pub transfer_loop : ℕ → ℕ → List ℕ → Sent
    transfer_loop zero off wire = (some tt, wire)
    transfer_loop (suc fuel) off wire =
        if ltb off total
        then (let left = total - off in
            let want = if ltb tcpv4_txbuf_size left then tcpv4_txbuf_size else left in
            buffer_read (transfer_loop fuel) off wire (read off want))
        else (some tt, wire)

    -- sendTransfer, for a bundle that e->tx.open opens. A round takes an octet at least.
    unfoldable pub send_transfer : List ℕ → Sent
    send_transfer wire = transfer_loop total 0 wire
