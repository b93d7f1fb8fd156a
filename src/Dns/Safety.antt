-- ===== src/Dns/Safety.antt =====
-- `parse_answers` of src/dns.rs returns on every byte sequence: no loop runs on, and no index and no
-- slice is out of bounds.
use httprove.Base.{
  ℕ, zero, suc, ◌+◌, ◌≤◌, ◌<◌, ◌≡◌, refl, List, [], ◌∷◌, Option, none, some, arith, length, ltb,
  leb, ◌==◌, ◌&&◌, if◌then◌else◌, ok, err, ◌>>=◌, ok_or, Bool, true, false,
}
use httprove.Dns.Wire.{Bytes, Parsed, WireError, skip_name, checked_add}
use httprove.Dns.Names.{Advances, IsSourceError, skip_name-Advances}
use httprove.Dns.Answers.{
  IpAddr, RecordHead, index, slice, u16_at, skip_questions, answer_section_start, record_head,
  push_address, v4_at, read_answers, parse_answers, qtype_a, qtype_aaaa,
}

-- The result is one of the source's errors, or has `P`.
pub data Post {A : Type 0} (P : A → Type 0) : Parsed A → Type 0 where
  holds : {a : A} → P a → Post P (ok a)
  fails : {e : WireError} → IsSourceError e → Post P (err e)

pub Post-bind :
    {A B : Type 0} (P : A → Type 0) (Q : B → Type 0) (m : Parsed A) (f : A → Parsed B)
    → Post P m
    → ((a : A) → P a → Post Q (f a))
    → Post Q (m >>= f)
Post-bind P Q m f (holds {a} p) k = k a p
Post-bind P Q m f (fails e) k = fails e

pub Post-ok_or :
    {A : Type 0} (P : A → Type 0) (o : Option A) (e : WireError)
    → IsSourceError e
    → ((a : A) → o ≡ some a → P a)
    → Post P (ok_or o e)
Post-ok_or P none e s h = fails s
Post-ok_or P (some a) e s h = holds (h a refl)

pub Post-if :
    {A : Type 0} (P : A → Type 0) (b : Bool) (m n : Parsed A)
    → (b ≡ true → Post P m)
    → (b ≡ false → Post P n)
    → Post P (if b then m else n)
Post-if P true m n hm hn = hm refl
Post-if P false m n hm hn = hn refl

abbrev pub Any : {A : Type 0} → A → Type 0
Any a = Unit {0}

pub index-Post : (buf : Bytes) (i : ℕ) → i < length buf → Post Any (index buf i)
index-Post [] i h = absurd (omega arith)
index-Post (b ∷ buf) zero h = holds tt
index-Post (b ∷ buf) (suc i) h = index-Post buf i (omega arith)

pub u16_at-Post : (buf : Bytes) (i : ℕ) → i + 1 < length buf → Post Any (u16_at buf i)
u16_at-Post buf i h =
    Post-bind Any Any (index buf i) _ (index-Post buf i (omega arith))
      λ hi _. Post-bind Any Any (index buf (i + 1)) _ (index-Post buf (i + 1) h) λ lo _. holds tt

skip_name-Post : (buf : Bytes) (pos : ℕ) → Post (λ next. next ≤ length buf) (skip_name buf pos)
skip_name-Post buf pos = go (skip_name buf pos) (skip_name-Advances buf pos)
  where
    go : (r : Parsed ℕ) → Advances buf pos r → Post (λ next. next ≤ length buf) r
    go (ok next) a = holds a.1
    go (err e) a = fails a

checked_add-Post :
    (a b : ℕ) (e : WireError) → IsSourceError e → Post (λ s. s ≡ a + b) (ok_or (checked_add a b) e)
checked_add-Post a b e s = Post-ok_or _ (checked_add a b) e s (λ t h. ground arith)

pub skip_questions-Post :
    (n : ℕ) (buf : Bytes) (pos : ℕ)
    → pos ≤ length buf
    → Post (λ next. next ≤ length buf) (skip_questions n buf pos)
unfolding skip_questions
skip_questions-Post zero buf pos h = holds h
skip_questions-Post (suc n) buf pos h =
    Post-bind (λ e. e ≤ length buf) _ (skip_name buf pos) _ (skip_name-Post buf pos)
      λ name_end _. Post-bind _ _ _ _ (checked_add-Post name_end 4 _ tt) λ next e.
        Post-if _ (ltb (length buf) next) _ _ (λ _. fails tt)
          λ t. skip_questions-Post n buf next (ground arith)

-- The data of a record lies in the buffer.
abbrev pub IsInside : Bytes → RecordHead → Type 0
IsInside buf r = (r.rdata_end ≤ length buf) × (r.rdata_end ≡ r.rdata_start + r.rdlength)

pub record_head-Post : (buf : Bytes) (pos : ℕ) → Post (IsInside buf) (record_head buf pos)
unfolding record_head
record_head-Post buf start =
    Post-bind (λ e. e ≤ length buf) _ (skip_name buf start) _ (skip_name-Post buf start)
      λ pos _. Post-bind _ _ _ _ (checked_add-Post pos 10 _ tt) λ fixed_end e.
        Post-if _ (ltb (length buf) fixed_end) _ _ (λ _. fails tt)
          λ t. Post-bind Any _ _ _ (u16_at-Post buf pos (ground arith)) λ rtype _.
            Post-bind Any _ _ _ (u16_at-Post buf (pos + 8) (ground arith)) λ rdlength _.
              Post-bind _ _ _ _ (checked_add-Post fixed_end rdlength _ tt) λ rdata_end e'.
                Post-if _ (ltb (length buf) rdata_end) _ _ (λ _. fails tt)
                  λ t'. holds (ground arith, e')

v4_at-Post : (buf : Bytes) (start : ℕ) → start + 3 < length buf → Post Any (v4_at buf start)
unfolding v4_at
v4_at-Post buf start h = Post-bind Any _ _ _ (index-Post buf start (omega arith)) λ _ _.
    Post-bind Any _ _ _ (index-Post buf (start + 1) (omega arith)) λ _ _.
      Post-bind Any _ _ _ (index-Post buf (start + 2) (omega arith))
        λ _ _. Post-bind Any _ _ _ (index-Post buf (start + 3) h) λ _ _. holds tt

push_address-Post :
    (buf : Bytes) (r : RecordHead) (ips : List IpAddr)
    → IsInside buf r
    → Post Any (push_address buf r ips)
unfolding push_address
push_address-Post buf r ips (h, e) =
    Post-if Any (r.rtype == qtype_a && r.rdlength == 4) _ _
      (λ a. Post-bind Any _ _ _ (v4_at-Post buf r.rdata_start (ground arith)) λ _ _. holds tt)
      λ _.
        Post-if Any (r.rtype == qtype_aaaa && r.rdlength == 16) _ _
          (λ _.
            Post-bind Any _ (slice buf r.rdata_start r.rdata_end) _
              (Post-if Any (leb r.rdata_start r.rdata_end && leb r.rdata_end (length buf)) _ _
                (λ _. holds tt) (λ t. absurd (ground arith)))
              λ _ _. holds tt)
          λ _. holds tt

read_answers-Post :
    (n : ℕ) (buf : Bytes) (pos : ℕ) (ips : List IpAddr) → Post Any (read_answers n buf pos ips)
unfolding read_answers
read_answers-Post zero buf pos ips = holds tt
read_answers-Post (suc n) buf pos ips =
    Post-bind (IsInside buf) _ (record_head buf pos) _ (record_head-Post buf pos) λ r inside.
      Post-bind Any _ _ _ (push_address-Post buf r ips inside)
        λ ips' _. read_answers-Post n buf r.rdata_end ips'

-- On every sequence of bytes `parse_answers` returns, with addresses or with one of the errors of
-- the source: no loop is cut off, no index and no slice is out of bounds.
pub parse_answers-safe : (buf : Bytes) → Post Any (parse_answers buf)
unfolding parse_answers
parse_answers-safe buf =
    Post-bind Any _ (answer_section_start buf) _
      (Post-if Any (ltb (length buf) 12) _ _ (λ _. fails tt)
        λ t. Post-bind Any _ _ _ (u16_at-Post buf 4 (ground arith)) λ qdcount _.
          Post-bind Any _ _ _ (u16_at-Post buf 6 (ground arith)) λ ancount _.
            Post-bind _ _ _ _ (skip_questions-Post qdcount buf 12 (ground arith)) λ _ _. holds tt)
      λ (pos, ancount) _. read_answers-Post ancount buf pos []
