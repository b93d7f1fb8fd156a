-- ===== src/Dns/Query.antt =====
-- `encode_query` of src/dns.rs: the packet of a question, with the client subnet of `--ecs`.
use mathlib.Core.List.{append_assoc, append-nil}
use httprove.Base.{
  ℕ, ◌+◌, ◌^◌, ◌<◌, ◌≡◌, refl, sym, ap, subst, ◌∙◌, List, [], ◌∷◌, ◌++◌, Option, none, some, length,
  arith, ok, ◌>>=◌, >>=-eq-ok,
}
use httprove.Dns.Wire.{Bytes, be16, Parsed, encode_qname}
use httprove.Dns.Subnet.{EcsSubnet}
use httprove.Dns.Grammar.{name_of, host_labels, root, IsName, name_wire, encode_qname-ok_iff}
use httprove.Dns.Message.{Rr, Message, message_wire, IsMessage, wires, rr_wire}

abbrev pub rr_opt : ℕ
rr_opt = 41

abbrev pub edns_udp_payload : ℕ
edns_udp_payload = 4096

abbrev pub edns_opt_client_subnet : ℕ
edns_opt_client_subnet = 8

abbrev pub qclass_in : ℕ
qclass_in = 1

-- The option, behind the two lengths: code, length, family, the two prefix lengths, the address.
unfoldable pub client_subnet_option : EcsSubnet → Bytes
client_subnet_option subnet =
    let option_data_len = 4 + length subnet.addr_bytes in
    be16 edns_opt_client_subnet
    ++ (be16 option_data_len
        ++ (be16 subnet.family ++ (subnet.source_prefix ∷ 0 ∷ subnet.addr_bytes)))

-- The OPT record: the root name, its type, the payload size and the four zero bytes of the flags.
unfoldable pub opt_record : Option EcsSubnet → Bytes
unfolding client_subnet_option
opt_record none = []
opt_record (some subnet) =
    let rdlength = 4 + (4 + length subnet.addr_bytes) in
    (0 ∷ [])
    ++ (be16 rr_opt
        ++ (be16 edns_udp_payload
            ++ ((0 ∷ 0 ∷ 0 ∷ 0 ∷ []) ++ (be16 rdlength ++ client_subnet_option subnet))))

abbrev pub arcount : Option EcsSubnet → ℕ
arcount none = 0
arcount (some subnet) = 1

-- The twelve bytes of the header: id, flags with RD set, one question, and the counts.
abbrev pub query_header : ℕ → Option EcsSubnet → Bytes
query_header id ecs =
    be16 id ++ (be16 0x0100 ++ (be16 1 ++ (be16 0 ++ (be16 0 ++ be16 (arcount ecs)))))

unfoldable pub encode_query : ℕ → Bytes → ℕ → Option EcsSubnet → Parsed Bytes
unfolding opt_record
encode_query id host qtype ecs = do
  pkt ← encode_qname (query_header id ecs) host
  ok (pkt ++ (be16 qtype ++ (be16 qclass_in ++ opt_record ecs)))

-- The message that the packet is to be, in the grammar of messages: one question, no answer, and
-- the OPT record, if there is one, behind.
abbrev pub opt_rr : EcsSubnet → Rr
opt_rr subnet = record {
  owner = root;
  rrtype = rr_opt;
  filler = be16 edns_udp_payload ++ (0 ∷ 0 ∷ 0 ∷ 0 ∷ []);
  rdata = client_subnet_option subnet;
}

abbrev pub additional : Option EcsSubnet → List Rr
additional none = []
additional (some subnet) = opt_rr subnet ∷ []

abbrev pub query_message : ℕ → Bytes → ℕ → Option EcsSubnet → Message
query_message id host qtype ecs = record {
  header_start = be16 id ++ be16 0x0100;
  header_end = be16 0 ++ be16 (length (additional ecs));
  questions =
      record { qname = name_of (host_labels host); qtail = be16 qtype ++ be16 qclass_in } ∷ [];
  answers = [];
  others = wires rr_wire (additional ecs);
}

length-option :
    (subnet : EcsSubnet) → 4 + (4 + length subnet.addr_bytes) ≡ length (client_subnet_option subnet)
unfolding client_subnet_option
length-option subnet = omega arith

opt_record-wires : (ecs : Option EcsSubnet) → opt_record ecs ≡ wires rr_wire (additional ecs)
unfolding opt_record client_subnet_option
opt_record-wires none = refl
opt_record-wires (some subnet) =
    let start = (0 ∷ []) ++ (be16 rr_opt ++ (be16 edns_udp_payload ++ (0 ∷ 0 ∷ 0 ∷ 0 ∷ []))) in
    ap (λ n. start ++ (be16 n ++ client_subnet_option subnet)) (length-option subnet)
    ∙ sym (append-nil (rr_wire (opt_rr subnet)))

ok_value : (m : Parsed Bytes) {a b : Bytes} → m ≡ ok a → m ≡ ok b → a ≡ b
ok_value m h k = cc

length-additional : (ecs : Option EcsSubnet) → arcount ecs ≡ length (additional ecs)
length-additional none = refl
length-additional (some subnet) = refl

message_shape :
    (id qtype : ℕ) (host : Bytes) (ecs : Option EcsSubnet)
    → (query_header id ecs ++ name_wire (name_of (host_labels host)))
        ++ (be16 qtype ++ (be16 qclass_in ++ opt_record ecs))
      ≡ message_wire (query_message id host qtype ecs)
message_shape id qtype host ecs =
    rw (opt_record-wires ecs) (rw (length-additional ecs) (simp (append_assoc, append-nil)))

query_message-IsMessage :
    (id qtype : ℕ) (host : Bytes) (ecs : Option EcsSubnet)
    → IsName (name_of (host_labels host))
    → length (message_wire (query_message id host qtype ecs)) < 2 ^ 64
    → IsMessage (query_message id host qtype ecs)
query_message-IsMessage id qtype host ecs v b = record {
  start_length = refl;
  end_length = refl;
  questions_valid = ((v, refl), tt);
  answers_valid = tt;
  question_count = omega arith;
  answer_count = omega arith;
  size = b;
}

-- A packet that `encode_query` returns, if it is shorter than 2 ^ 64 bytes, is the message of the
-- grammar with the one question of the host's labels, no answer, and as only other record the OPT
-- record of the client subnet.
pub encode_query-IsMessage :
    (id qtype : ℕ) (host : Bytes) (ecs : Option EcsSubnet) (pkt : Bytes)
    → encode_query id host qtype ecs ≡ ok pkt
    → length pkt < 2 ^ 64
    → (pkt ≡ message_wire (query_message id host qtype ecs))
      × IsMessage (query_message id host qtype ecs)
unfolding encode_query
encode_query-IsMessage id qtype host ecs pkt h b =
    let head = query_header id ecs in
    let (out, e, h₁) = >>=-eq-ok (encode_qname head host) _ h in
    let (valid, made) = (encode_qname-ok_iff head host out).0 e in
    let same : pkt ≡ message_wire (query_message id host qtype ecs) =
      sym (ok_value _ refl h₁)
      ∙ (ap (λ o. o ++ (be16 qtype ++ (be16 qclass_in ++ opt_record ecs))) made
          ∙ message_shape id qtype host ecs) in
    (same, query_message-IsMessage id qtype host ecs valid (subst (λ p. length p < 2 ^ 64) same b))
