-- ===== src/Agent/Delivery.antt =====
-- A frame from one node to another (internal/agent/agent.go, lines 459 to 581 and 796 to 835).
use mathlib.Core.List.{append_assoc}
use zerogo.Base.{
  ℕ, ◌+◌, ◌^◌, ◌≤◌, ◌<◌, ◌≡◌, inl, inr, refl, sym, ap, ap₂, ◌∙◌, Bool, true, false, none, some,
  List, [], ◌∷◌, ◌++◌, put_be32, put_be16, Bytes, length, take, drop, length-append, length-take,
  length-drop, take-append, copy, ltb, leb, if◌then◌else◌, get_elem?, modify, get_elem?-modify,
  arith, Option-cases, Bool-cases, Result, ok, err,
}
use zerogo.Crypto.{Crypto, Laws}
use zerogo.Vl1.Packet.{decode_header, Header, decode_packet_into, header_size}
use zerogo.Vl1.Packet.RoundTrip.{header_bytes, encode_header-eight, decode_header_bytes}
use zerogo.Vl1.Cipher.{
  NoiseCipher, CipherError, encrypt, decrypt, decrypt_to, noted, get_le, nonce_of,
}
use zerogo.Vl1.Cipher.Traffic.{length-encrypt, decrypt-encrypt, encrypt_to-encrypt}
use zerogo.Vl1.Peer.{Peer, touch, is_connected, encrypt_to_for, decrypt_to_from}
use zerogo.Vl1.Manager.{Ref, get_peer, get_peer_by_endpoint}
use zerogo.Vl2.Sender.{write_failed}
use zerogo.Agent.{
  Datagram, udp, Node, peer_at, change_peer, data_header, data_packet, send_packet, send_to_peer,
}
use zerogo.Agent.Receive.{
  Agent, at_node, deliver_frame, learn_kernel_arp, receive_data, handle_data_packet,
  handle_udp_packet,
}
use zerogo.Agent.Wellformed.{send_connected}

abbrev put_into : Bytes → Result CipherError Bytes → Result CipherError (Bytes × Bytes)
put_into dst (err e) = err e
put_into dst (ok m) = ok (m, if leb (length m) (length dst) then copy m dst else dst)

-- The two decoders decrypt alike.
decrypt_to-decrypt :
    (c : Crypto) (dst input m : Bytes) (nc nc' : NoiseCipher)
    → decrypt c input nc ≡ (nc', ok m)
    → decrypt_to c dst input nc
      ≡ (nc', ok (m, if leb (length m) (length dst) then copy m dst else dst))
unfolding decrypt decrypt_to
decrypt_to-decrypt c dst input m nc nc' h = elim (Bool-cases (ltb (length input) 24)) [
  | inl short ↦ absurd (let e = rw (short, decrypt) at h in cc)
  | inr long ↦
      elim (Option-cases
        (c.unseal nc.recv_key (nonce_of (get_le (take 8 input))) (drop 8 input) [])) [
          | inl refused ↦ absurd (let e = rw (long, decrypt, refused) at h in cc)
          | inr (plaintext, opened) ↦
              let e = rw (long, decrypt, opened) at h in
              rw (long, decrypt_to, opened) (ap (λ z. (z.0, put_into dst z.1)) e)
        ]
]

length-header_bytes : (h : Header) → length (header_bytes h) ≡ 8
unfolding put_be32 put_be16
length-header_bytes h = refl

module _ (c : Crypto) (laws : Laws c) (pool : Bytes) where
  -- The packet of a frame: the header's bytes and what the cipher makes of the frame.
  pub data_packet_lem :
      (id : ℕ) (frame : Bytes) (p : Peer) (nc : NoiseCipher)
      → p.cipher ≡ some nc
      → header_size + length (encrypt c frame nc).1 ≤ length pool
      → data_packet c pool id frame p ≡ (
        record p { cipher = some (encrypt c frame nc).0 },
        ok (header_bytes (data_header id) ++ (encrypt c frame nc).1),
      )
  unfolding data_packet encrypt_to_for
  data_packet_lem id frame p nc has room =
      let (nc', msg) = encrypt c frame nc in
      let dst = drop header_size pool in
      let room' : length msg ≤ length dst = omega (arith, length-drop header_size pool) in
      let eight : length (take header_size pool) ≡ 8 =
        omega (arith, length-take header_size pool) in
      let head = encode_header-eight (data_header id) (take header_size pool) eight in
      let whole = header_bytes (data_header id) ++ msg in
      let size : length whole ≡ header_size + length msg = omega (
        arith,
        length-append (header_bytes (data_header id)) msg,
        length-header_bytes (data_header id),
      ) in
      let fits : ltb (length pool) (header_size + length msg) ≡ false = ground arith in
      let cut : take (header_size + length msg)
            (header_bytes (data_header id) ++ (msg ++ drop (length msg) dst))
          ≡ whole =
        ap (take (header_size + length msg))
          (sym (append_assoc (header_bytes (data_header id)) msg (drop (length msg) dst)))
        ∙ ap (λ k. take k (whole ++ drop (length msg) dst)) (sym size)
        ∙ take-append whole (drop (length msg) dst) in
      elim (encrypt_to-encrypt c laws dst frame nc) [
        | inl (_, done) ↦ rw (head, data_packet, has, done) (rw (fits, cut) refl)
        | inr (inl (_, less, _)) ↦ absurd (omega arith)
        | inr (inr (less, _)) ↦ absurd (omega (arith, length-encrypt c laws frame nc))
      ]

module _ (c : Crypto) (laws : Laws c) (fails : List Datagram → Datagram → Bool) (pool : Bytes) where
  send_to_peer_lem :
      (now : ℕ) (addr : Bytes) (id : ℕ) (frame : Bytes) (node : Node) (r : Ref) (p : Peer)
      (nc : NoiseCipher) (e : Bytes)
      → get_peer addr node.peers ≡ some r
      → peer_at r node ≡ some p
      → is_connected p ≡ true
      → p.cipher ≡ some nc
      → p.ice_conn ≡ none
      → p.endpoint ≡ some e
      → header_size + length (encrypt c frame nc).1 ≤ length pool
      → let packet = header_bytes (data_header id) ++ (encrypt c frame nc).1 in
        let result = send_to_peer c fails pool now addr id frame node in
        (result.0.sent ≡ udp e packet ∷ node.sent)
        × (result.1 ≡ (if fails node.sent (udp e packet) then some write_failed else none))
  unfolding send_packet
  send_to_peer_lem now addr id frame node r p nc e known at up has no_ice ends room =
      rw
        (
          send_connected c fails pool now addr id frame node r p known at up,
          data_packet_lem c laws pool id frame p nc has room,
          no_ice,
          ends,
        )
        (refl, refl)

  -- What a data packet does at a node that knows its source.
  data_received :
      (now id : ℕ) (from : Bytes) (m msg : Bytes) (b : Agent) (r : Ref) (q : Peer)
      (nc nc' : NoiseCipher)
      → id < 4294967296
      → get_peer_by_endpoint from b.node.peers ≡ some r
      → peer_at r b.node ≡ some q
      → q.cipher ≡ some nc
      → decrypt c msg nc ≡ (nc', ok m)
      → handle_udp_packet c fails pool now (header_bytes (data_header id) ++ msg) from b
        ≡ deliver_frame c fails pool now q.address m (learn_kernel_arp c fails pool m) (
            at_node
              (change_peer r (λ _. record (touch now q) { cipher = some nc' }))
              (at_node (change_peer r (touch now)) b))
  unfolding handle_udp_packet handle_data_packet receive_data touch decrypt_to_from
      decode_packet_into decrypt_to deliver_frame put_be32 put_be16
  data_received now id from m msg b r q nc nc' hid known at has opened =
      let header : decode_header (header_bytes (data_header id) ++ msg) ≡ (data_header id, none) =
        decode_header_bytes (data_header id) msg
          (record {
            version_byte = omega arith;
            type_byte = omega arith;
            network_u32 = hid;
            reserved_u16 = omega arith;
          })
          refl in
      let touched : get_elem? (modify r (touch now) b.node.peers.heap) r ≡ some (touch now q) =
        ground (arith, get_elem?-modify r (touch now) b.node.peers.heap r) in
      rw (header, known, touched, has, decrypt_to-decrypt c pool msg m nc nc' opened) refl

  -- A frame that one node sends to a connected peer without ICE goes out as one packet to the
  -- peer's endpoint, and the error is that of the write alone. The node that the packet reaches,
  -- which knows the sender by the packet's source and has the matching receive key, gives that very
  -- frame to its switch under the sender's address, having noted the time and the packet's counter.
  -- The buffer has room for the packet, the network id has 32 bits and the counter 64.
  pub frame_delivered :
      (now later : ℕ) (addr : Bytes) (id : ℕ) (frame : Bytes) (node : Node) (r : Ref) (p : Peer)
      (nc : NoiseCipher) (e from : Bytes) (b : Agent) (t : Ref) (q : Peer) (nc' : NoiseCipher)
      → get_peer addr node.peers ≡ some r
      → peer_at r node ≡ some p
      → is_connected p ≡ true
      → p.cipher ≡ some nc
      → p.ice_conn ≡ none
      → p.endpoint ≡ some e
      → header_size + (8 + length frame + 16) ≤ length pool
      → id < 4294967296
      → nc.send_nonce < 2 ^ 64
      → get_peer_by_endpoint from b.node.peers ≡ some t
      → peer_at t b.node ≡ some q
      → q.cipher ≡ some nc'
      → nc.send_key ≡ nc'.recv_key
      → let result = send_to_peer c fails pool now addr id frame node in
        (packet : Bytes) × (result.0.sent ≡ udp e packet ∷ node.sent)
        × (result.1 ≡ (if fails node.sent (udp e packet) then some write_failed else none))
        × (handle_udp_packet c fails pool later packet from b
            ≡ deliver_frame c fails pool later q.address frame
                (learn_kernel_arp c fails pool frame)
                (at_node
                  (change_peer t
                    (λ _. record (touch later q) { cipher = some (noted c nc.send_nonce nc') }))
                  (at_node (change_peer t (touch later)) b)))
  frame_delivered now later addr id frame node r p nc e from b t q nc' known at up has no_ice ends
        room hid hn known' at' has' keys =
      let msg = (encrypt c frame nc).1 in
      let (_, plain, state) = decrypt-encrypt c laws frame nc nc' keys hn in
      let opened : decrypt c msg nc' ≡ (noted c nc.send_nonce nc', ok frame) =
        ap₂ (λ x y. (x, y)) state plain in
      let (sent, error) =
        send_to_peer_lem now addr id frame node r p nc e known at up has no_ice ends
          (omega (arith, length-encrypt c laws frame nc)) in
      (
        header_bytes (data_header id) ++ msg,
        sent,
        error,
        data_received later id from frame msg b t q nc' (noted c nc.send_nonce nc') hid known' at'
            has' opened,
      )
