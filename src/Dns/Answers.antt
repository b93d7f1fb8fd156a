-- ===== src/Dns/Answers.antt =====
-- `parse_answers` of src/dns.rs, and the part of it that `answer_section_start` repeats. An index
-- into the buffer and a slice of it, which panic out of bounds, are steps that can fail.
use httprove.Base.{
  ℕ, zero, suc, ◌+◌, ◌-◌, ◌*◌, List, [], ◌∷◌, ◌++◌, ◌&&◌, length, get_elem?, take, drop, ltb, leb,
  ◌==◌, if◌then◌else◌, ok, err, ◌>>=◌, ok_or,
}
use httprove.Dns.Wire.{
  Bytes, Parsed, too_short, question_overflow, question_truncated, header_overflow,
  header_truncated, rdata_overflow, rdata_truncated, panicked, checked_add, skip_name,
}

pub data IpAddr : Type 0 where
  v4 : Bytes → IpAddr
  v6 : Bytes → IpAddr

abbrev pub qtype_a : ℕ
qtype_a = 1

abbrev pub qtype_aaaa : ℕ
qtype_aaaa = 28

-- `buf[i]`
abbrev pub index : Bytes → ℕ → Parsed ℕ
index buf i = ok_or (get_elem? buf i) panicked

-- `&buf[from..to]`
abbrev pub slice : Bytes → ℕ → ℕ → Parsed Bytes
slice buf from to =
    if leb from to && leb to (length buf)
    then ok (take (to - from) (drop from buf))
    else err panicked

-- `u16::from_be_bytes([buf[i], buf[i + 1]])`
abbrev pub u16_at : Bytes → ℕ → Parsed ℕ
u16_at buf i = do hi ← index buf i; lo ← index buf (i + 1); ok (hi * 256 + lo)

-- The first loop: past `n` questions.
unfoldable pub skip_questions : ℕ → Bytes → ℕ → Parsed ℕ
skip_questions zero buf pos = ok pos
skip_questions (suc n) buf pos = do
  name_end ← skip_name buf pos
  next ← ok_or (checked_add name_end 4) question_overflow
  if ltb (length buf) next then err question_truncated else skip_questions n buf next

-- The head of the message: the position behind the questions, and the count of answers.
unfoldable pub answer_section_start : Bytes → Parsed (ℕ × ℕ)
answer_section_start buf = if ltb (length buf) 12 then err (too_short (length buf)) else (do
  qdcount ← u16_at buf 4
  ancount ← u16_at buf 6
  pos ← skip_questions qdcount buf 12
  ok (pos, ancount))

-- The fixed part of a resource record, and where its data stands.
pub record RecordHead : Type 0 where
  pub rtype : ℕ
  pub rdlength : ℕ
  pub rdata_start : ℕ
  pub rdata_end : ℕ

unfoldable pub record_head : Bytes → ℕ → Parsed RecordHead
record_head buf start = do
  pos ← skip_name buf start
  fixed_end ← ok_or (checked_add pos 10) header_overflow
  if ltb (length buf) fixed_end then err header_truncated else (do
    rtype ← u16_at buf pos
    rdlength ← u16_at buf (pos + 8)
    rdata_end ← ok_or (checked_add fixed_end rdlength) rdata_overflow
    if ltb (length buf) rdata_end
        then err rdata_truncated
        else ok (record {
          rtype = rtype;
          rdlength = rdlength;
          rdata_start = fixed_end;
          rdata_end = rdata_end;
        }))

-- `Ipv4Addr::from` of the four octets at `start`.
unfoldable pub v4_at : Bytes → ℕ → Parsed IpAddr
v4_at buf start = do
  a ← index buf start
  b ← index buf (start + 1)
  c ← index buf (start + 2)
  d ← index buf (start + 3)
  ok (v4 (a ∷ b ∷ c ∷ d ∷ []))

-- The `match rtype` of `parse_answers`: the addresses with the record's own one behind.
unfoldable pub push_address : Bytes → RecordHead → List IpAddr → Parsed (List IpAddr)
push_address buf r ips =
    if r.rtype == qtype_a && r.rdlength == 4
    then (do ip ← v4_at buf r.rdata_start; ok (ips ++ ip ∷ []))
    else if r.rtype == qtype_aaaa && r.rdlength == 16
    then (do octets ← slice buf r.rdata_start r.rdata_end; ok (ips ++ v6 octets ∷ []))
    else ok ips

unfoldable pub read_answers : ℕ → Bytes → ℕ → List IpAddr → Parsed (List IpAddr)
read_answers zero buf pos ips = ok ips
read_answers (suc n) buf pos ips = do
  r ← record_head buf pos
  ips' ← push_address buf r ips
  read_answers n buf r.rdata_end ips'

unfoldable pub parse_answers : Bytes → Parsed (List IpAddr)
unfolding answer_section_start skip_questions read_answers record_head push_address v4_at
parse_answers buf = do (pos, ancount) ← answer_section_start buf; read_answers ancount buf pos []
