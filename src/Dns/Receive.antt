-- ===== src/Dns/Receive.antt =====
-- The receive loop of `query_server` (src/dns.rs). What the socket delivers within the time limit is
-- a list of datagrams; behind its end the time limit strikes.
use Prim.Native.Nat.{bit_and}
use httprove.Base.{
  ℕ, ◌+◌, ◌*◌, ◌/◌, ◌%◌, ◌≤◌, ◌<◌, ◌≡◌, refl, ap, ◌∙◌, ◌↔◌, List, [], ◌∷◌, ◌++◌, length,
  length-append, get_or, All, Bool, true, false, not, ◌&&◌, leb, ◌==◌, arith, ok, if◌then◌else◌,
}
use httprove.Dns.Wire.{Bytes, Parsed, be16}
use httprove.Dns.Answers.{IpAddr, parse_answers}
use httprove.Dns.Message.{
  Message, message_wire, IsMessage, addresses, wires, question_wire, rr_wire,
}
use httprove.Dns.RoundTrip.{parse_answers-message}

pub data Received : Type 0 where
  timed_out : Received
  answered : Parsed (List IpAddr) → Received

-- `n >= 12 && (buf[2] & 0x80) != 0 && u16::from_be_bytes([buf[0], buf[1]]) == id`
unfoldable pub is_reply : ℕ → Bytes → Bool
is_reply id buf =
    leb 12 (length buf)
    && (not (bit_and (get_or buf 2 0) 0x80 == 0) && get_or buf 0 0 * 256 + get_or buf 1 0 == id)

unfoldable pub receive : ℕ → List Bytes → Received
receive id [] = timed_out
receive id (buf ∷ rest) =
    let later = receive id rest in if is_reply id buf then answered (parse_answers buf) else later

receive_strays :
    (id : ℕ) (strays rest : List Bytes)
    → All (λ d. is_reply id d ≡ false) strays
    → receive id (strays ++ rest) ≡ receive id rest
unfolding receive
receive_strays id [] rest v = refl
receive_strays id (d ∷ ds) rest (stray, v) = rw stray (receive_strays id ds rest v)

is_reply-bytes :
    (id hi lo : ℕ) (rest : Bytes)
    → 8 ≤ length rest
    → id < 65536
    → (bit_and hi 0x80 == 0) ≡ false
    → is_reply id (id / 256 % 256 ∷ id % 256 ∷ hi ∷ lo ∷ rest) ≡ true
unfolding is_reply
is_reply-bytes id hi lo rest long b qr = ground arith

-- The first twelve bytes of a message.
is_reply-message :
    (id flags_hi flags_lo : ℕ) (m : Message)
    → IsMessage m
    → id < 65536
    → m.header_start ≡ id / 256 % 256 ∷ id % 256 ∷ flags_hi ∷ flags_lo ∷ []
    → (bit_and flags_hi 0x80 == 0) ≡ false
    → is_reply id (message_wire m) ≡ true
unfolding is_reply
is_reply-message id flags_hi flags_lo m v b h qr =
    let tail = wires question_wire m.questions ++ (wires rr_wire m.answers ++ m.others) in
    let rest = be16 (length m.questions) ++ (be16 (length m.answers) ++ (m.header_end ++ tail)) in
    ap (λ s. is_reply id (s ++ rest)) h
    ∙ is_reply-bytes id flags_hi flags_lo rest
        (omega (arith, length-append m.header_end tail, v.end_length)) b qr

-- Whatever datagrams come before, as long as none of them is a reply to this query: of a reply that
-- is a message of the grammar, with the id of the query and the QR bit set, the caller gets the
-- addresses of its answers.
pub receive-message :
    (id flags_hi flags_lo : ℕ) (strays rest : List Bytes) (m : Message)
    → id < 65536
    → All (λ d. is_reply id d ≡ false) strays
    → IsMessage m
    → m.header_start ≡ id / 256 % 256 ∷ id % 256 ∷ flags_hi ∷ flags_lo ∷ []
    → (bit_and flags_hi 0x80 == 0) ≡ false
    → receive id (strays ++ message_wire m ∷ rest) ≡ answered (ok (addresses m.answers))
unfolding receive
receive-message id flags_hi flags_lo strays rest m b s v h qr =
    receive_strays id strays (message_wire m ∷ rest) s
    ∙ (rw (is_reply-message id flags_hi flags_lo m v b h qr)
        (ap answered (parse_answers-message m v)))

-- The query runs into its time limit exactly if no datagram is a reply to it.
pub receive-timed_out_iff :
    (id : ℕ) (ds : List Bytes) → (receive id ds ≡ timed_out) ↔ All (λ d. is_reply id d ≡ false) ds
unfolding receive
receive-timed_out_iff id [] = (λ h. tt, λ v. refl)
receive-timed_out_iff id (d ∷ ds) = ground (arith, receive-timed_out_iff id ds)
