-- ===== src/Dns/Message.antt =====
-- The grammar of a DNS message, said apart from the parsers of src/dns.rs, and `parse_answers` on it.
use httprove.Base.{ℕ, ◌^◌, ◌<◌, ◌≡◌, List, [], ◌∷◌, ◌++◌, ◌&&◌, length, ◌==◌, if◌then◌else◌, All}
use httprove.Dns.Wire.{Bytes, be16}
use httprove.Dns.Grammar.{Name, name_wire, IsName}
use httprove.Dns.Answers.{IpAddr, v4, v6, qtype_a, qtype_aaaa}

-- A question: its name, and the four bytes of type and class.
pub record Question : Type 0 where
  pub qname : Name
  pub qtail : Bytes

abbrev pub IsQuestion : Question → Type 0
IsQuestion q = IsName q.qname × (length q.qtail ≡ 4)

abbrev pub question_wire : Question → Bytes
question_wire q = name_wire q.qname ++ q.qtail

-- A resource record: the six bytes between its type and its length are class and time to live.
pub record Rr : Type 0 where
  pub owner : Name
  pub rrtype : ℕ
  pub filler : Bytes
  pub rdata : Bytes

pub record IsRr (r : Rr) : Type 0 where
  pub owner_valid : IsName r.owner
  pub type_fits : r.rrtype < 65536
  pub filler_length : length r.filler ≡ 6
  pub data_fits : length r.rdata < 65536

abbrev pub rr_wire : Rr → Bytes
rr_wire r = name_wire r.owner ++ (be16 r.rrtype ++ (r.filler ++ (be16 (length r.rdata) ++ r.rdata)))

abbrev pub wires {ℓ} : {A : Type ℓ} → (A → Bytes) → List A → Bytes
wires f [] = []
wires f (x ∷ xs) = f x ++ wires f xs

-- The address that a record carries.
abbrev pub rr_address : Rr → List IpAddr
rr_address r =
    if r.rrtype == qtype_a && length r.rdata == 4
    then v4 r.rdata ∷ []
    else if r.rrtype == qtype_aaaa && length r.rdata == 16
    then v6 r.rdata ∷ []
    else []

abbrev pub addresses : List Rr → List IpAddr
addresses [] = []
addresses (r ∷ rs) = rr_address r ++ addresses rs

-- The start and the end of the header are the four bytes of id and flags, and those of the counts of
-- the other sections, which stand behind the answers.
pub record Message : Type 0 where
  pub header_start : Bytes
  pub header_end : Bytes
  pub questions : List Question
  pub answers : List Rr
  pub others : Bytes

abbrev pub message_wire : Message → Bytes
message_wire m =
    m.header_start
    ++ (be16 (length m.questions)
        ++ (be16 (length m.answers)
            ++ (m.header_end
                ++ (wires question_wire m.questions ++ (wires rr_wire m.answers ++ m.others)))))

pub record IsMessage (m : Message) : Type 0 where
  pub start_length : length m.header_start ≡ 4
  pub end_length : length m.header_end ≡ 4
  pub questions_valid : All IsQuestion m.questions
  pub answers_valid : All IsRr m.answers
  pub question_count : length m.questions < 65536
  pub answer_count : length m.answers < 65536
  pub size : length (message_wire m) < 2 ^ 64
