-- ===== src/Transport/TcpFramed.antt =====
-- src/transport.rs: frames over a byte stream. The stream is what can be read from it, what has
-- been written to it, and whether writing still works.
use cultnet_rs.Base.{ℕ, ◌+◌, ◌<◌, ◌^◌, ◌≡◌, refl, arith, List, [], ◌++◌, Bool, true, false}
use cultnet_rs.Base.{
  length, take, drop, ltb, not, if◌then◌else◌, take_whole, drop_whole, length-append, ap, ◌∙◌,
}
use cultnet_rs.Base.Outcome.{Outcome, ok, err, panic}
use cultnet_rs.Base.Bytes.{
  to_be_bytes, from_be_bytes, length-to_be_bytes, from_be_bytes-to_be_bytes,
}
use mathlib.Core.List.{append_assoc}
use cultnet_rs.Base.Order.{bytes_eq}
use cultnet_rs.Base.Text.{codes}
use cultnet_rs.Framing.{FrameError, encode_frame, frame_header_bytes}
use cultnet_rs.Transport.{CultNetTransportStats, no_stats, CultNetTransportProfile}
use cultnet_rs.Transport.{CultNetTransportFrame}

pub record Stream : Type 0 where
  pub incoming : List ℕ
  pub outgoing : List ℕ
  pub writable : Bool

pub record TcpFramedTransportConnection : Type 0 where
  pub stream : Stream
  pub profile : CultNetTransportProfile
  pub stats : CultNetTransportStats

pub data TcpError : Type 0 where
  wrong_channel write_failed unexpected_eof : TcpError
  frame_error : FrameError → TcpError

abbrev pub new : Stream → CultNetTransportProfile → TcpFramedTransportConnection
new stream profile = record { stream = stream; profile = profile; stats = no_stats }

-- `write_all` and `flush`.
abbrev pub write_frame :
    List ℕ
    → TcpFramedTransportConnection
    → Outcome TcpError (Unit {0}) × TcpFramedTransportConnection
write_frame frame c =
    if c.stream.writable
    then (
      ok tt,
      record c {
        stream = record c.stream { outgoing = c.stream.outgoing ++ frame };
        stats = record c.stats {
          bytes_sent = c.stats.bytes_sent + length frame;
          frames_sent = c.stats.frames_sent + 1;
        };
      },
    )
    else (err write_failed, c)

abbrev pub send_frame :
    Outcome FrameError (List ℕ)
    → TcpFramedTransportConnection
    → Outcome TcpError (Unit {0}) × TcpFramedTransportConnection
send_frame (ok frame) c = write_frame frame c
send_frame (err e) c = (err (frame_error e), c)
send_frame panic c = (panic, c)

unfoldable pub send :
    List ℕ
    → List ℕ
    → TcpFramedTransportConnection
    → Outcome TcpError (Unit {0}) × TcpFramedTransportConnection
send channel_id payload c =
    if not (bytes_eq channel_id (codes "schema"))
    then (err wrong_channel, c)
    else send_frame (encode_frame payload) c

-- `read_exact`: at the end of the stream it fails, and what was left is read.
abbrev pub read_exact : ℕ → Stream → Outcome TcpError (List ℕ) × Stream
read_exact n s =
    if ltb (length s.incoming) n
    then (err unexpected_eof, record s { incoming = [] })
    else (ok (take n s.incoming), record s { incoming = drop n s.incoming })

-- `receive` once the header is read.
abbrev pub receive_payload :
    Outcome TcpError (List ℕ) × Stream
    → TcpFramedTransportConnection
    → Outcome TcpError CultNetTransportFrame × TcpFramedTransportConnection
receive_payload (ok payload, s) c = (
  ok (record { channel_id = codes "schema"; payload = payload }),
  record c {
    stream = s;
    stats = record c.stats {
      bytes_received = c.stats.bytes_received + (frame_header_bytes + length payload);
      frames_received = c.stats.frames_received + 1;
    };
  },
)
receive_payload (err e, s) c = (err e, record c { stream = s })
receive_payload (panic, s) c = (panic, record c { stream = s })

abbrev pub receive_header :
    Outcome TcpError (List ℕ) × Stream
    → TcpFramedTransportConnection
    → Outcome TcpError CultNetTransportFrame × TcpFramedTransportConnection
receive_header (ok header, s) c = receive_payload (read_exact (from_be_bytes header) s) c
receive_header (err e, s) c = (err e, record c { stream = s })
receive_header (panic, s) c = (panic, record c { stream = s })

unfoldable pub receive :
    TcpFramedTransportConnection
    → Outcome TcpError CultNetTransportFrame × TcpFramedTransportConnection
receive c = receive_header (read_exact frame_header_bytes c.stream) c

encode_frame_inv :
    (payload frame : List ℕ)
    → encode_frame payload ≡ ok frame
    → (length payload < 2 ^ 32) × (frame ≡ to_be_bytes 4 (length payload) ++ payload)
unfolding encode_frame
encode_frame_inv payload frame h = ground arith

read_exact_lem :
    (n : ℕ) (s : Stream) (xs ys : List ℕ)
    → s.incoming ≡ xs ++ ys
    → length xs ≡ n
    → read_exact n s ≡ (ok xs, record s { incoming = ys })
read_exact_lem n s xs ys e l =
    let whole : ltb (length s.incoming) n ≡ false = rw e (ground (arith, length-append xs ys)) in
    rw (whole, e, take_whole n xs ys l, drop_whole n xs ys l) refl

receive_frame :
    (payload rest : List ℕ) (d : TcpFramedTransportConnection)
    → length payload < 2 ^ 32
    → d.stream.incoming ≡ (to_be_bytes 4 (length payload) ++ payload) ++ rest
    → receive d ≡ receive_payload (ok payload, record d.stream { incoming = rest }) d
unfolding receive
receive_frame payload rest d l i =
    let header = to_be_bytes 4 (length payload) in
    let i' : d.stream.incoming ≡ header ++ (payload ++ rest) =
      i ∙ append_assoc header payload rest in
    let s = record d.stream { incoming = payload ++ rest } in
    rw
      (
        read_exact_lem 4 d.stream header (payload ++ rest) i'
            (length-to_be_bytes 4 (length payload)),
        from_be_bytes-to_be_bytes 4 (length payload) l,
        read_exact_lem (length payload) s payload rest refl refl,
      )
      refl

-- A payload that can be framed, a sender whose stream can be written, and a receiver at whose end
-- the frame comes first: `send` on the channel "schema" succeeds, writes the frame and counts it, and `receive`
-- gives the payload on that channel, leaves what comes after the frame, and counts as many bytes as were sent.
pub receive-send :
    (payload frame rest : List ℕ) (c d : TcpFramedTransportConnection)
    → encode_frame payload ≡ ok frame
    → c.stream.writable ≡ true
    → d.stream.incoming ≡ frame ++ rest
    → ((send (codes "schema") payload c).0 ≡ ok tt)
      × ((send (codes "schema") payload c).1.stream.outgoing ≡ c.stream.outgoing ++ frame)
      × ((send (codes "schema") payload c).1.stats.bytes_sent ≡ c.stats.bytes_sent + length frame)
      × ((receive d).0 ≡ ok (record { channel_id = codes "schema"; payload = payload }))
      × ((receive d).1.stream.incoming ≡ rest)
      × ((receive d).1.stats.bytes_received ≡ d.stats.bytes_received + length frame)
unfolding send receive
receive-send payload frame rest c d e w i =
    let (l, framed) = encode_frame_inv payload frame e in
    let size : length frame ≡ 4 + length payload = rw framed (
      omega (
        arith,
        length-append (to_be_bytes 4 (length payload)) payload,
        length-to_be_bytes 4 (length payload),
      )) in
    let taken = receive_frame payload rest d l (i ∙ ap (λ f. f ++ rest) framed) in
    rw (e, w, taken) (refl, refl, refl, refl, refl, omega (arith, size))
