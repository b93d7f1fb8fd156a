-- ===== src/Dns/Questions.antt =====
-- Reading a buffer at a known place, and `skip_questions` of src/dns.rs on the questions of a message.
use mathlib.Core.List.{append_assoc}
use httprove.Base.{
  ℕ, ◌+◌, ◌/◌, ◌%◌, ◌^◌, ◌≤◌, ◌<◌, ◌≡◌, ap, ◌∙◌, List, [], ◌∷◌, ◌++◌, some, arith, length,
  length-append, ltb, ok, false, All,
}
use httprove.Dns.Wire.{be16, Bytes, skip_name, checked_add}
use httprove.Dns.Grammar.{Name, name_wire, IsName, skip_name-wire, get_elem?-append}
use httprove.Dns.Answers.{index, u16_at, skip_questions}
use httprove.Dns.Message.{Question, IsQuestion, question_wire, wires}

pub skip_name_at :
    (n : Name) (pre post buf : Bytes) {pos : ℕ}
    → IsName n
    → buf ≡ pre ++ (name_wire n ++ post)
    → pos ≡ length pre
    → length buf < 2 ^ 64
    → skip_name buf pos ≡ ok (pos + length (name_wire n))
skip_name_at n pre post buf v e h b = rw e (skip_name-wire n pre post v h (rw (← e) b))

pub index_at :
    (x : ℕ) (pre post buf : Bytes) {i : ℕ}
    → buf ≡ pre ++ x ∷ post
    → i ≡ length pre
    → index buf i ≡ ok x
index_at x pre post buf e h = rw e (rw (get_elem?-append pre x post h))

pub u16_at-be16 :
    (n : ℕ) (pre post buf : Bytes) {i : ℕ}
    → n < 65536
    → buf ≡ pre ++ (be16 n ++ post)
    → i ≡ length pre
    → u16_at buf i ≡ ok n
u16_at-be16 n pre post buf {i} h e p = rw (index_at (n / 256 % 256) pre (n % 256 ∷ post) buf e p) (
    rw
      (index_at (n % 256) (pre ++ n / 256 % 256 ∷ []) post buf {i = i + 1} (e ∙ simp append_assoc)
        (omega (arith, length-append pre (n / 256 % 256 ∷ []))))
      (ap ok (omega arith)))

pub checked_add_fits : (a b : ℕ) → a + b < 2 ^ 64 → checked_add a b ≡ some (a + b)
checked_add_fits a b h = ground arith

pub ltb_within : (a b : ℕ) → b ≤ a → ltb a b ≡ false
ltb_within a b h = ground arith

pub skip_questions-wires :
    (qs : List Question) (pre post buf : Bytes) {pos : ℕ}
    → All IsQuestion qs
    → buf ≡ pre ++ (wires question_wire qs ++ post)
    → pos ≡ length pre
    → length buf < 2 ^ 64
    → skip_questions (length qs) buf pos ≡ ok (pos + length (wires question_wire qs))
unfolding skip_questions
skip_questions-wires [] pre post buf v e h b = ap ok (omega arith)
skip_questions-wires (q ∷ qs) pre post buf {pos} ((vn, vt), vs) e h b =
    let w = question_wire q in
    let rest = wires question_wire qs ++ post in
    let eq : buf ≡ (pre ++ w) ++ rest = e ∙ simp append_assoc in
    let long = length-append (pre ++ w) rest in
    let long_pre = length-append pre w in
    let long_q = length-append (name_wire q.qname) q.qtail in
    let whole = ap length eq in
    let long_rest = length-append w (wires question_wire qs) in
    let next : ℕ = pos + length (name_wire q.qname) + 4 in
    let ih = skip_questions-wires qs (pre ++ w) post buf {pos = next} vs eq (omega arith) b in
    rw (skip_name_at q.qname pre (q.qtail ++ rest) buf vn (e ∙ simp append_assoc) h b)
      (ground arith)
