-- ===== src/Dns/Records.antt =====
-- The resource records of a message, read by the functions of src/dns.rs.
use mathlib.Core.List.{append_assoc, append-nil}
use httprove.Base.{
  ℕ, ◌+◌, ◌-◌, ◌^◌, ◌≤◌, ◌<◌, ◌≡◌, refl, ap, ◌∙◌, List, [], ◌∷◌, ◌++◌, arith, ◌&&◌, length,
  length-append, take, drop, ◌==◌, ok, Bool-cases, inl, inr, All,
}
use httprove.Dns.Wire.{be16, Bytes}
use httprove.Dns.Grammar.{name_wire}
use httprove.Dns.Answers.{
  IpAddr, v4, qtype_a, qtype_aaaa, RecordHead, slice, record_head, push_address, v4_at,
  read_answers,
}
use httprove.Dns.Message.{Rr, IsRr, rr_wire, wires, rr_address, addresses}
use httprove.Dns.Questions.{skip_name_at, index_at, u16_at-be16, checked_add_fits, ltb_within}

drop-append {ℓ} : {A : Type ℓ} (xs ys : List A) {n : ℕ} → n ≡ length xs → drop n (xs ++ ys) ≡ ys
drop-append [] ys h = rw h
drop-append (x ∷ xs) ys h = rw h (drop-append xs ys refl)

take-append {ℓ} : {A : Type ℓ} (xs ys : List A) {n : ℕ} → n ≡ length xs → take n (xs ++ ys) ≡ xs
take-append [] ys h = rw h
take-append (x ∷ xs) ys h = rw h (ap (λ l. x ∷ l) (take-append xs ys refl))

pub slice_at :
    (mid pre post buf : Bytes) {from to : ℕ}
    → buf ≡ pre ++ (mid ++ post)
    → from ≡ length pre
    → to ≡ from + length mid
    → slice buf from to ≡ ok mid
slice_at mid pre post buf {from} {to} e h k =
    let long = ap length e ∙ length-append pre (mid ++ post) in
    let long_mid = length-append mid post in
    let cut : take (to - from) (drop from buf) ≡ mid =
      rw e (rw (drop-append pre (mid ++ post) h) (take-append mid post (omega arith))) in
    ground arith

-- The head of a record of the grammar.
abbrev pub head_of : Rr → ℕ → RecordHead
head_of r start =
    let fixed_end = start + length (name_wire r.owner) + 10 in
    record {
      rtype = r.rrtype;
      rdlength = length r.rdata;
      rdata_start = fixed_end;
      rdata_end = fixed_end + length r.rdata;
    }

pub length-rr_wire :
    (r : Rr) → IsRr r → length (rr_wire r) ≡ length (name_wire r.owner) + 10 + length r.rdata
length-rr_wire r v =
    let n = name_wire r.owner in
    let l = be16 (length r.rdata) in
    omega (
      arith,
      length-append n (be16 r.rrtype ++ (r.filler ++ (l ++ r.rdata))),
      length-append r.filler (l ++ r.rdata),
      v.filler_length,
    )

pub record_head-wire :
    (r : Rr) (pre post buf : Bytes) {pos : ℕ}
    → IsRr r
    → buf ≡ pre ++ (rr_wire r ++ post)
    → pos ≡ length pre
    → length buf < 2 ^ 64
    → record_head buf pos ≡ ok (head_of r pos)
unfolding record_head
record_head-wire r pre post buf {pos} v e h b =
    let n = name_wire r.owner in
    let t = be16 r.rrtype in
    let l = be16 (length r.rdata) in
    let named =
      skip_name_at r.owner pre (t ++ (r.filler ++ (l ++ (r.rdata ++ post)))) buf v.owner_valid
        (e ∙ simp append_assoc) h b in
    let typed =
      u16_at-be16 r.rrtype (pre ++ n) (r.filler ++ (l ++ (r.rdata ++ post))) buf
        {i = pos + length n} v.type_fits (e ∙ simp append_assoc)
        (omega (arith, length-append pre n)) in
    let sized =
      u16_at-be16 (length r.rdata) (pre ++ (n ++ (t ++ r.filler))) (r.rdata ++ post) buf
        {i = pos + length n + 8} v.data_fits (e ∙ simp append_assoc)
        (omega (
          arith,
          length-append pre (n ++ (t ++ r.filler)),
          length-append n (t ++ r.filler),
          length-append t r.filler,
          v.filler_length,
        )) in
    let long = ap length e ∙ length-append pre (rr_wire r ++ post) in
    let long_post = length-append (rr_wire r) post in
    let long_name = length-append n (t ++ (r.filler ++ (l ++ r.rdata))) in
    let long_filler = length-append r.filler (l ++ r.rdata) in
    let six = v.filler_length in
    let room : pos + length n + 10 + length r.rdata ≤ length buf =
      omega (arith, length-append l r.rdata, length-append t (r.filler ++ (l ++ r.rdata))) in
    rw named (
      rw (checked_add_fits (pos + length n) 10 (omega arith)) (
        rw (ltb_within (length buf) (pos + length n + 10) (omega arith)) (
          rw typed (
            rw sized (
              rw (checked_add_fits (pos + length n + 10) (length r.rdata) (omega arith))
                (rw (ltb_within (length buf) (pos + length n + 10 + length r.rdata) room)))))))

v4_at-wire :
    (octets pre post buf : Bytes) {start : ℕ}
    → length octets ≡ 4
    → buf ≡ pre ++ (octets ++ post)
    → start ≡ length pre
    → v4_at buf start ≡ ok (v4 octets)
unfolding v4_at
v4_at-wire (a ∷ b ∷ c ∷ d ∷ []) pre post buf {start} l e h =
    let long_a = length-append pre (a ∷ []) in
    let long_b = length-append pre (a ∷ b ∷ []) in
    let long_c = length-append pre (a ∷ b ∷ c ∷ []) in
    rw (index_at a pre (b ∷ c ∷ d ∷ post) buf {i = start} e h) (
      rw
        (index_at b (pre ++ a ∷ []) (c ∷ d ∷ post) buf {i = start + 1} (e ∙ simp append_assoc)
          (omega arith))
        (rw
          (index_at c (pre ++ a ∷ b ∷ []) (d ∷ post) buf {i = start + 2} (e ∙ simp append_assoc)
            (omega arith))
          (rw (
            index_at d (pre ++ a ∷ b ∷ c ∷ []) post buf {i = start + 3} (e ∙ simp append_assoc)
              (omega arith)))))
v4_at-wire [] pre post buf l e h = absurd (omega arith)
v4_at-wire (a ∷ []) pre post buf l e h = absurd (omega arith)
v4_at-wire (a ∷ b ∷ []) pre post buf l e h = absurd (omega arith)
v4_at-wire (a ∷ b ∷ c ∷ []) pre post buf l e h = absurd (omega arith)
v4_at-wire (a ∷ b ∷ c ∷ d ∷ x ∷ xs) pre post buf l e h = absurd (omega arith)

pub push_address-wire :
    (r : Rr) (pre post buf : Bytes) (ips : List IpAddr) {pos : ℕ}
    → IsRr r
    → buf ≡ pre ++ (rr_wire r ++ post)
    → pos ≡ length pre
    → push_address buf (head_of r pos) ips ≡ ok (ips ++ rr_address r)
unfolding push_address
push_address-wire r pre post buf ips {pos} v e h =
    let n = name_wire r.owner in
    let t = be16 r.rrtype in
    let l = be16 (length r.rdata) in
    let start = pos + length n + 10 in
    let before = pre ++ (n ++ (t ++ (r.filler ++ l))) in
    let split_buf : buf ≡ before ++ (r.rdata ++ post) = e ∙ simp append_assoc in
    let long_before = length-append pre (n ++ (t ++ (r.filler ++ l))) in
    let long_n = length-append n (t ++ (r.filler ++ l)) in
    let long_filler = length-append r.filler l in
    let at : start ≡ length before = omega (arith, v.filler_length) in
    elim (Bool-cases (r.rrtype == qtype_a && length r.rdata == 4)) [
      | inl a ↦ rw (a, v4_at-wire r.rdata before post buf (ground arith) split_buf at)
      | inr not_a ↦ rw not_a (elim (Bool-cases (r.rrtype == qtype_aaaa && length r.rdata == 16)) [
        | inl aaaa ↦ rw (
          aaaa,
          slice_at r.rdata before post buf {from = start} {to = start + length r.rdata} split_buf at
              refl,
        )
        | inr neither ↦ rw (neither, append-nil)
      ])
    ]

pub read_answers-wires :
    (rs : List Rr) (pre post buf : Bytes) (ips : List IpAddr) {pos : ℕ}
    → All IsRr rs
    → buf ≡ pre ++ (wires rr_wire rs ++ post)
    → pos ≡ length pre
    → length buf < 2 ^ 64
    → read_answers (length rs) buf pos ips ≡ ok (ips ++ addresses rs)
unfolding read_answers
read_answers-wires [] pre post buf ips vs e h b = rw append-nil
read_answers-wires (r ∷ rs) pre post buf ips {pos} (v, vs) e h b =
    let rest = wires rr_wire rs ++ post in
    let here : buf ≡ pre ++ (rr_wire r ++ rest) = e ∙ simp append_assoc in
    let further : buf ≡ (pre ++ rr_wire r) ++ rest = e ∙ simp append_assoc in
    let long = length-append pre (rr_wire r) in
    let long_r = length-rr_wire r v in
    rw (record_head-wire r pre rest buf v here h b) (
      rw (push_address-wire r pre rest buf ips v here h) (
        read_answers-wires rs (pre ++ rr_wire r) post buf (ips ++ rr_address r)
          {pos = (head_of r pos).rdata_end} vs further (omega arith) b
        ∙ ap ok (append_assoc ips (rr_address r) (addresses rs))))
