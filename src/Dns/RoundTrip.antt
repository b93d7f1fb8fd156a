-- ===== src/Dns/RoundTrip.antt =====
-- `parse_answers` of src/dns.rs on whole messages.
use mathlib.Core.List.{append_assoc}
use httprove.Base.{◌+◌, ◌≡◌, refl, [], ◌++◌, arith, length, length-append, ok}
use httprove.Dns.Answers.{answer_section_start, parse_answers}
use httprove.Dns.Wire.{be16}
use httprove.Dns.Message.{
  question_wire, rr_wire, wires, addresses, Message, message_wire, IsMessage,
}
use httprove.Dns.Questions.{u16_at-be16, ltb_within, skip_questions-wires}
use httprove.Dns.Records.{read_answers-wires}

answer_section_start-wire :
    (m : Message)
    → IsMessage m
    → answer_section_start (message_wire m)
      ≡ ok (12 + length (wires question_wire m.questions), length m.answers)
unfolding answer_section_start
answer_section_start-wire m v =
    let buf = message_wire m in
    let q = be16 (length m.questions) in
    let a = be16 (length m.answers) in
    let qs = wires question_wire m.questions in
    let rest = wires rr_wire m.answers ++ m.others in
    let before = m.header_start ++ (q ++ (a ++ m.header_end)) in
    let split_buf : buf ≡ before ++ (qs ++ rest) = simp append_assoc in
    let long = length-append m.header_start (q ++ (a ++ (m.header_end ++ (qs ++ rest)))) in
    let long_end = length-append m.header_end (qs ++ rest) in
    let long_before = length-append m.header_start (q ++ (a ++ m.header_end)) in
    let counted =
      u16_at-be16 (length m.questions) m.header_start (a ++ (m.header_end ++ (qs ++ rest))) buf
        {i = 4} v.question_count refl (omega arith) in
    let answered =
      u16_at-be16 (length m.answers) (m.header_start ++ q) (m.header_end ++ (qs ++ rest)) buf
        {i = 6} v.answer_count (simp append_assoc)
        (omega (arith, length-append m.header_start q, v.start_length)) in
    let skipped =
      skip_questions-wires m.questions before rest buf {pos = 12} v.questions_valid split_buf
        (omega (arith, v.start_length, v.end_length)) v.size in
    rw (ltb_within (length buf) 12 (omega (arith, v.start_length, v.end_length)))
      (rw counted (rw answered (rw skipped)))

-- `parse_answers` reads a message of the grammar whole: of its records it returns, in their order,
-- the addresses of those of type A with four bytes and of type AAAA with sixteen.
pub parse_answers-message :
    (m : Message) → IsMessage m → parse_answers (message_wire m) ≡ ok (addresses m.answers)
unfolding parse_answers
parse_answers-message m v =
    let q = be16 (length m.questions) in
    let a = be16 (length m.answers) in
    let qs = wires question_wire m.questions in
    let before = m.header_start ++ (q ++ (a ++ (m.header_end ++ qs))) in
    let long = length-append m.header_start (q ++ (a ++ (m.header_end ++ qs))) in
    let long_end = length-append m.header_end qs in
    rw (answer_section_start-wire m v) (
      read_answers-wires m.answers before m.others (message_wire m) [] v.answers_valid
        (simp append_assoc) (omega (arith, v.start_length, v.end_length)) v.size)
