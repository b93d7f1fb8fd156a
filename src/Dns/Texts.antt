-- ===== src/Dns/Texts.antt =====
-- `parse_txt`, `parse_ptr` and `parse_name` of src/dns.rs. `lossy` is `String::from_utf8_lossy`.
use Prim.Native.Nat.{bit_and}
use httprove.Base.{
  ℕ, zero, suc, ◌+◌, ◌-◌, ◌*◌, ◌≤◌, ◌<◌, min, List, [], ◌∷◌, ◌++◌, Option, none, some, Bool, true,
  false, length, get_elem?, leb, ltb, ◌&&◌, ◌==◌, if◌then◌else◌, ok, err, ◌>>=◌, ok_or, arith,
}
use httprove.Dns.Wire.{
  Bytes, Parsed, dot, out_of_fuel, compression_loop, length_out_of_bounds, label_out_of_bounds,
  pointer_out_of_bounds, invalid_label,
}
use httprove.Dns.Answers.{index, slice, answer_section_start, record_head}
use httprove.Dns.Safety.{
  Post, holds, fails, Any, Post-bind, Post-ok_or, Post-if, IsInside, index-Post, u16_at-Post,
  skip_questions-Post, record_head-Post,
}

abbrev pub qtype_txt : ℕ
qtype_txt = 16

abbrev pub qtype_ptr : ℕ
qtype_ptr = 12

abbrev pub guard_limit : ℕ
guard_limit = 128

-- The segments of the data of a TXT record, one behind the other.
unfoldable pub txt_segments : ℕ → (Bytes → Bytes) → Bytes → ℕ → ℕ → Parsed Bytes
txt_segments zero lossy buf p rdata_end = err out_of_fuel
txt_segments (suc fuel) lossy buf p rdata_end = if leb rdata_end p then ok [] else (do
  seg_len ← index buf p
  segment ← slice buf (p + 1) (min (p + 1 + seg_len) rdata_end)
  rest ← txt_segments fuel lossy buf (min (p + 1 + seg_len) rdata_end) rdata_end
  ok (lossy segment ++ rest))

unfoldable pub read_txt : ℕ → (Bytes → Bytes) → Bytes → ℕ → List Bytes → Parsed (List Bytes)
unfolding txt_segments
read_txt zero lossy buf pos out = ok out
read_txt (suc n) lossy buf pos out = do
  r ← record_head buf pos
  if r.rtype == qtype_txt
      then (do
        s ← txt_segments (suc r.rdlength) lossy buf r.rdata_start r.rdata_end
        read_txt n lossy buf r.rdata_end (out ++ s ∷ []))
      else read_txt n lossy buf r.rdata_end out

unfoldable pub parse_txt : (Bytes → Bytes) → Bytes → Parsed (List Bytes)
unfolding read_txt
parse_txt lossy buf = do
  (pos, ancount) ← answer_section_start buf
  read_txt ancount lossy buf pos []

-- The loop of `parse_name`, for at most so many rounds: where it stands, whether it jumped, the
-- position behind the name, and the labels so far.
unfoldable pub name_loop :
    ℕ → (Bytes → Bytes) → Bytes → ℕ → Bool → ℕ → List Bytes → Parsed (List Bytes × ℕ)
name_loop zero lossy buf pos jumped next labels = err compression_loop
name_loop (suc n) lossy buf pos jumped next labels = do
  len ← ok_or (get_elem? buf pos) length_out_of_bounds
  if bit_and len 0xC0 == 0
      then (if len == 0
          then ok (labels, if jumped then next else pos + 1)
          else if ltb (length buf) (pos + 1 + len)
          then err label_out_of_bounds
          else (do
            l ← slice buf (pos + 1) (pos + 1 + len)
            name_loop n lossy buf (pos + 1 + len) jumped next (labels ++ lossy l ∷ [])))
      else if bit_and len 0xC0 == 0xC0
      then (do
        b2 ← ok_or (get_elem? buf (pos + 1)) pointer_out_of_bounds
        name_loop n lossy buf (bit_and len 0x3F * 256 + b2) true (if jumped then next else pos + 2)
            labels)
      else err invalid_label

-- `labels.join(".")`
abbrev pub join : List Bytes → Bytes
join [] = []
join (l ∷ []) = l
join (l ∷ m ∷ ls) = l ++ dot ∷ join (m ∷ ls)

unfoldable pub parse_name : (Bytes → Bytes) → Bytes → ℕ → Parsed (Bytes × ℕ)
unfolding name_loop
parse_name lossy buf start = do
  (labels, next) ← name_loop guard_limit lossy buf start false start []
  ok (join labels, next)

unfoldable pub read_ptr : ℕ → (Bytes → Bytes) → Bytes → ℕ → Parsed (Option Bytes)
unfolding parse_name
read_ptr zero lossy buf pos = ok none
read_ptr (suc n) lossy buf pos = do
  r ← record_head buf pos
  if r.rtype == qtype_ptr
      then (do (name, next) ← parse_name lossy buf r.rdata_start; ok (some name))
      else read_ptr n lossy buf r.rdata_end

unfoldable pub parse_ptr : (Bytes → Bytes) → Bytes → Parsed (Option Bytes)
unfolding read_ptr
parse_ptr lossy buf = do (pos, ancount) ← answer_section_start buf; read_ptr ancount lossy buf pos

slice-Post : (buf : Bytes) (a b : ℕ) → a ≤ b → b ≤ length buf → Post Any (slice buf a b)
slice-Post buf a b h k =
    Post-if Any (leb a b && leb b (length buf)) _ _ (λ _. holds tt) (λ t. absurd (ground arith))

start-Post : (buf : Bytes) → Post Any (answer_section_start buf)
unfolding answer_section_start
start-Post buf =
    Post-if Any (ltb (length buf) 12) _ _ (λ _. fails tt)
      λ t. Post-bind Any _ _ _ (u16_at-Post buf 4 (ground arith)) λ qdcount _.
        Post-bind Any _ _ _ (u16_at-Post buf 6 (ground arith)) λ ancount _.
          Post-bind _ _ _ _ (skip_questions-Post qdcount buf 12 (ground arith)) λ _ _. holds tt

txt_segments-Post :
    (fuel : ℕ) (lossy : Bytes → Bytes) (buf : Bytes) (p rdata_end : ℕ)
    → rdata_end ≤ length buf
    → rdata_end - p < fuel
    → Post Any (txt_segments fuel lossy buf p rdata_end)
unfolding txt_segments
txt_segments-Post zero lossy buf p rdata_end h k = absurd (omega (arith, k))
txt_segments-Post (suc fuel) lossy buf p rdata_end h k =
    Post-if Any (leb rdata_end p) _ _ (λ _. holds tt)
      λ t.
        let inside : p < rdata_end = ground arith in
        Post-bind Any _ (index buf p) _ (index-Post buf p (omega (arith, inside, h))) λ seg_len _.
          Post-bind Any _ _ _
            (slice-Post buf (p + 1) (min (p + 1 + seg_len) rdata_end) (omega (arith, inside))
              (omega (arith, h)))
            λ segment _.
              Post-bind Any _ _ _
                (txt_segments-Post fuel lossy buf (min (p + 1 + seg_len) rdata_end) rdata_end h
                  (omega (arith, inside, k)))
                λ rest _. holds tt

read_txt-Post :
    (n : ℕ) (lossy : Bytes → Bytes) (buf : Bytes) (pos : ℕ) (out : List Bytes)
    → Post Any (read_txt n lossy buf pos out)
unfolding read_txt
read_txt-Post zero lossy buf pos out = holds tt
read_txt-Post (suc n) lossy buf pos out =
    Post-bind (IsInside buf) _ (record_head buf pos) _ (record_head-Post buf pos) λ r (h, e).
      Post-if Any (r.rtype == qtype_txt) _ _
        (λ _.
          Post-bind Any _ _ _
            (txt_segments-Post (suc r.rdlength) lossy buf r.rdata_start r.rdata_end h
              (omega (arith, e)))
            λ s _. read_txt-Post n lossy buf r.rdata_end (out ++ s ∷ []))
        λ _. read_txt-Post n lossy buf r.rdata_end out

name_loop-Post :
    (n : ℕ) (lossy : Bytes → Bytes) (buf : Bytes) (pos : ℕ) (jumped : Bool) (next : ℕ)
    (labels : List Bytes)
    → Post Any (name_loop n lossy buf pos jumped next labels)
unfolding name_loop
name_loop-Post zero lossy buf pos jumped next labels = fails tt
name_loop-Post (suc n) lossy buf pos jumped next labels =
    Post-bind Any _ _ _ (Post-ok_or Any (get_elem? buf pos) length_out_of_bounds tt (λ _ _. tt))
      λ len _.
        Post-if Any (bit_and len 0xC0 == 0) _ _
          (λ _.
            Post-if Any (len == 0) _ _ (λ _. holds tt)
              λ _.
                Post-if Any (ltb (length buf) (pos + 1 + len)) _ _ (λ _. fails tt)
                  λ t.
                    Post-bind Any _ _ _
                      (slice-Post buf (pos + 1) (pos + 1 + len) (omega arith) (ground arith))
                      λ l _.
                        name_loop-Post n lossy buf (pos + 1 + len) jumped next
                          (labels ++ lossy l ∷ []))
          λ _.
            Post-if Any (bit_and len 0xC0 == 0xC0) _ _
              (λ _.
                Post-bind Any _ _ _
                  (Post-ok_or Any (get_elem? buf (pos + 1)) pointer_out_of_bounds tt (λ _ _. tt))
                  λ b2 _.
                    name_loop-Post n lossy buf (bit_and len 0x3F * 256 + b2) true
                      (if jumped then next else pos + 2) labels)
              λ _. fails tt

read_ptr-Post :
    (n : ℕ) (lossy : Bytes → Bytes) (buf : Bytes) (pos : ℕ) → Post Any (read_ptr n lossy buf pos)
unfolding read_ptr parse_name
read_ptr-Post zero lossy buf pos = holds tt
read_ptr-Post (suc n) lossy buf pos =
    Post-bind (IsInside buf) _ (record_head buf pos) _ (record_head-Post buf pos) λ r _.
      Post-if Any (r.rtype == qtype_ptr) _ _
        (λ _.
          Post-bind Any _ (parse_name lossy buf r.rdata_start) _
            (Post-bind Any _ _ _
              (name_loop-Post guard_limit lossy buf r.rdata_start false r.rdata_start [])
              λ _ _. holds tt)
            λ _ _. holds tt)
        λ _. read_ptr-Post n lossy buf r.rdata_end

-- On every sequence of bytes `parse_txt` returns, with texts or with one of the errors of the
-- source: no loop is cut off, no index and no slice is out of bounds.
pub parse_txt-safe : (lossy : Bytes → Bytes) (buf : Bytes) → Post Any (parse_txt lossy buf)
unfolding parse_txt
parse_txt-safe lossy buf =
    Post-bind Any _ (answer_section_start buf) _ (start-Post buf)
      λ (pos, ancount) _. read_txt-Post ancount lossy buf pos []

-- On every sequence of bytes `parse_ptr` returns, also when compression pointers form a loop: with
-- a name, with none, or with one of the errors of the source, and no index and no slice is out of
-- bounds.
pub parse_ptr-safe : (lossy : Bytes → Bytes) (buf : Bytes) → Post Any (parse_ptr lossy buf)
unfolding parse_ptr
parse_ptr-safe lossy buf =
    Post-bind Any _ (answer_section_start buf) _ (start-Post buf)
      λ (pos, ancount) _. read_ptr-Post ancount lossy buf pos
