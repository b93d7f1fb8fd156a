-- ===== src/Dns/Tests.antt =====
-- The tests of src/dns.rs, and the theorems of its modules at concrete packets.
use httprove.Base.{
  ℕ, ◌≡◌, refl, List, [], ◌∷◌, ◌++◌, Option, none, some, length, arith, ok, err, replicate, subst,
  if◌then◌else◌,
}
use mathlib.Core.Option.{some-injective}
use httprove.Text.{is_empty, codes, split, trim, split_once, parse_unsigned}
use httprove.Dns.Wire.{Bytes, Parsed, skip_name, encode_qname, too_short}
use httprove.Dns.Names.{Advances, skip_name-Advances}
use httprove.Dns.Grammar.{Name, root, pointer, label}
use httprove.Dns.Answers.{IpAddr, v4, v6, parse_answers}
use httprove.Dns.Safety.{Post, Any, parse_answers-safe}
use httprove.Dns.Message.{Rr, IsRr, Message, message_wire, IsMessage}
use httprove.Dns.RoundTrip.{parse_answers-message}
use httprove.Dns.Subnet.{EcsSubnet, parse_ecs, checked_octets, cut_octets, mask_last}
use httprove.Dns.Subnet.Parse.{IsAddress, Describes, parse_ecs-Describes}
use httprove.Dns.Query.{
  encode_query, query_message, encode_query-IsMessage, opt_record, client_subnet_option,
}

-- "a.com", its question, and two answers of type A with a pointer to the name.
abbrev a_com : Name
a_com = label (codes "a") (label (codes "com") root)

abbrev answer : Bytes → Rr
answer octets = record {
  owner = pointer 0xC0 0x0C;
  rrtype = 1;
  filler = 0 ∷ 1 ∷ 0 ∷ 0 ∷ 0 ∷ 60 ∷ [];
  rdata = octets;
}

abbrev cname : Rr
cname = record {
  owner = pointer 0xC0 0x0C;
  rrtype = 5;
  filler = 0 ∷ 1 ∷ 0 ∷ 0 ∷ 0 ∷ 60 ∷ [];
  rdata = 1 ∷ b't' ∷ 0 ∷ [];
}

abbrev response : Message
response = record {
  header_start = 0x12 ∷ 0x34 ∷ 0x81 ∷ 0x80 ∷ [];
  header_end = 0 ∷ 0 ∷ 0 ∷ 0 ∷ [];
  questions = record { qname = a_com; qtail = 0 ∷ 1 ∷ 0 ∷ 1 ∷ [] } ∷ [];
  answers = answer (1 ∷ 2 ∷ 3 ∷ 4 ∷ []) ∷ cname ∷ answer (5 ∷ 6 ∷ 7 ∷ 8 ∷ []) ∷ [];
  others = [];
}

answer_valid : (octets : Bytes) → length octets ≡ 4 → IsRr (answer octets)
answer_valid octets h = record {
  owner_valid = omega arith;
  type_fits = omega arith;
  filler_length = refl;
  data_fits = omega (arith, h);
}

response-IsMessage : IsMessage response
response-IsMessage = record {
  start_length = refl;
  end_length = refl;
  questions_valid = (((omega arith, omega arith, (omega arith, omega arith, tt)), refl), tt);
  answers_valid = (
    answer_valid (1 ∷ 2 ∷ 3 ∷ 4 ∷ []) refl,
    (
      record {
        owner_valid = omega arith;
        type_fits = omega arith;
        filler_length = refl;
        data_fits = omega arith;
      },
      (answer_valid (5 ∷ 6 ∷ 7 ∷ 8 ∷ []) refl, tt),
    ),
  );
  question_count = omega arith;
  answer_count = omega arith;
  size = omega arith;
}

short_is_refused : parse_answers (replicate 4 0) ≡ err (too_short 4)
unfolding parse_answers httprove.Dns.Answers.answer_section_start
short_is_refused = refl

skip_name-Advances_example : Advances (1 ∷ b'a' ∷ 0 ∷ []) 0 (skip_name (1 ∷ b'a' ∷ 0 ∷ []) 0)
skip_name-Advances_example = skip_name-Advances (1 ∷ b'a' ∷ 0 ∷ []) 0

abbrev a_com_wire : Bytes
a_com_wire = 1 ∷ b'a' ∷ 3 ∷ b'c' ∷ b'o' ∷ b'm' ∷ 0 ∷ []

parse_answers-safe_example : Post Any (parse_answers (replicate 20 255))
parse_answers-safe_example = parse_answers-safe (replicate 20 255)

parse_answers-message_example :
    parse_answers (message_wire response)
    ≡ ok (v4 (1 ∷ 2 ∷ 3 ∷ 4 ∷ []) ∷ v4 (5 ∷ 6 ∷ 7 ∷ 8 ∷ []) ∷ [])
parse_answers-message_example = parse_answers-message response response-IsMessage

-- The standard library's parser, as far as the tests need it.
abbrev parse_ip : List ℕ → Option IpAddr
parse_ip t = if is_empty t then none else some (v4 (10 ∷ 20 ∷ 30 ∷ 40 ∷ []))

parse_ip-IsAddress : (t : List ℕ) (ip : IpAddr) → parse_ip t ≡ some ip → IsAddress ip
parse_ip-IsAddress [] ip h = cc
parse_ip-IsAddress (c ∷ cs) ip h =
    subst IsAddress (some-injective (v4 (10 ∷ 20 ∷ 30 ∷ 40 ∷ [])) ip h)
      (refl, (omega arith, (omega arith, (omega arith, (omega arith, tt)))))

abbrev subnet : EcsSubnet
subnet = record { family = 1; source_prefix = 20; addr_bytes = 10 ∷ 20 ∷ 16 ∷ [] }

parse_ecs-Describes_example : Describes parse_ip (codes "10.20.30.40/20") subnet
unfolding parse_ecs split_once trim parse_unsigned checked_octets cut_octets mask_last
parse_ecs-Describes_example =
    parse_ecs-Describes parse_ip (codes "10.20.30.40/20") subnet parse_ip-IsAddress refl

abbrev packet : Bytes
packet =
    (0x12 ∷ 0x34 ∷ 1 ∷ 0 ∷ 0 ∷ 1 ∷ 0 ∷ 0 ∷ 0 ∷ 0 ∷ 0 ∷ 1 ∷ [])
    ++ (a_com_wire
        ++ (0 ∷ 1 ∷ 0 ∷ 1 ∷ 0 ∷ 0 ∷ 41 ∷ 16 ∷ 0 ∷ 0 ∷ 0 ∷ 0 ∷ 0 ∷ 0 ∷ 11 ∷ 0 ∷ 8 ∷ 0 ∷ 7 ∷ 0 ∷ 1
            ∷ 20 ∷ 0 ∷ 10 ∷ 20 ∷ 16 ∷ []))

encode_query-IsMessage_example :
    (packet ≡ message_wire (query_message 0x1234 (codes "a.com") 1 (some subnet)))
    × IsMessage (query_message 0x1234 (codes "a.com") 1 (some subnet))
unfolding encode_query encode_qname httprove.Dns.Wire.encode_labels split httprove.Text.strip_suffix
    httprove.Text.push_head opt_record client_subnet_option
encode_query-IsMessage_example =
    encode_query-IsMessage 0x1234 1 (codes "a.com") (some subnet) packet refl (omega arith)

-- A datagram of another query, then the response.
abbrev stray : Bytes
stray = 0x99 ∷ 0x99 ∷ 0x81 ∷ replicate 12 0
