-- ===== src/Prom/Labels.antt =====
-- One line that src/output/prom.rs prints of a legal sample, and how it is read.
use mathlib.Core.Option
use httprove.Base.{
  ℕ, zero, suc, ◌≤◌, List, [], ◌∷◌, ◌++◌, some, Bool, true, false, ◌==◌, if◌then◌else◌, length, ◌≡◌,
  refl, sym, ap, ◌∙◌, arith, All-append,
}
use httprove.Text.{codes}
use httprove.Types.{Text}
use httprove.Output.{label_char, escape_label}
use httprove.Output.Escapes.{read_label, read_label-escape_label}
use httprove.Prom.{Value, escaped, verbatim, value_text, print_labels, with_labels}
use httprove.Prom.Reading.{
  is_name_char, span_name, sampled, Labels, after_value, after_key, read_labels, entry_of,
  max_labels, after_name, read_line, meant, meant_labels, IsLine, IsPlain, IsName, IsLegalValue,
  AreLegalLabels, IsHead,
}

span_name-IsName :
    (t rest : Text) (c : ℕ)
    → IsName t
    → is_name_char c ≡ false
    → span_name (t ++ (c ∷ rest)) ≡ (t, c ∷ rest)
unfolding span_name
span_name-IsName [] rest c h e = rw e refl
span_name-IsName (x ∷ t) rest c (h, hs) e =
    rw h (ap (λ (p : Text × Text). (x ∷ p.0, p.1)) (span_name-IsName t rest c hs e))

escape_label-IsPlain : (t : Text) → IsPlain t → escape_label t ≡ t
unfolding escape_label
escape_label-IsPlain [] h = refl
escape_label-IsPlain (c ∷ cs) (h, hs) =
    let one : label_char c ≡ c ∷ [] = ground (arith, h) in
    ap (λ l. l ++ escape_label cs) one ∙ ap (◌∷◌ c) (escape_label-IsPlain cs hs)

read_label-value_text :
    (v : Value) (rest : Text)
    → IsLegalValue v
    → read_label false (value_text v ++ (34 ∷ rest)) ≡ some (meant v, rest)
read_label-value_text (escaped t) rest h = read_label-escape_label t rest
read_label-value_text (verbatim t) rest h =
    ap (λ l. read_label false (l ++ (34 ∷ rest))) (sym (escape_label-IsPlain t h))
    ∙ read_label-escape_label t rest

read_labels-print_labels :
    (n : ℕ) (key : Text) (v : Value) (ls : List (Text × Value)) (value : Text)
    → AreLegalLabels ((key, v) ∷ ls)
    → length ls ≤ n
    → read_labels (suc n) (print_labels (key, v) ls (32 ∷ value))
      ≡ some (meant_labels ((key, v) ∷ ls), value)
unfolding read_labels
read_labels-print_labels n key v [] value (k, h, hs) b =
    ap (after_key (read_labels n)) (span_name-IsName key _ b'=' k refl)
    ∙ ap (after_value (read_labels n) key) (read_label-value_text v (b'}' ∷ 32 ∷ value) h)
read_labels-print_labels zero key v (l ∷ ls) value h b = absurd (omega (arith, b))
read_labels-print_labels (suc n) key v ((key', v') ∷ ls) value (k, h, hs) b =
    let again = read_labels (suc n) in
    ap (after_key again) (span_name-IsName key _ b'=' k refl)
    ∙ ap (after_value again key)
        (read_label-value_text v (b',' ∷ print_labels (key', v') ls (32 ∷ value)) h)
    ∙ ap (Option.map (λ (l : Labels). ((key, meant v) ∷ l.0, l.1)))
        (read_labels-print_labels n key' v' ls value hs (omega (arith, b)))

pub IsName-IsLine : (t : Text) → IsName t → IsLine t
IsName-IsLine [] h = tt
IsName-IsLine (c ∷ cs) (h, hs) = (ground (arith, h), IsName-IsLine cs hs)

pub IsPlain-IsLine : (t : Text) → IsPlain t → IsLine t
IsPlain-IsLine [] h = tt
IsPlain-IsLine (c ∷ cs) (h, hs) = (ground (arith, h), IsPlain-IsLine cs hs)

label_char-IsLine : (c : ℕ) → IsLine (label_char c)
label_char-IsLine c = label_cases (c == 92) (c == 34) (c == 10) refl
  where
    label_cases :
        (b q n : Bool)
        → (c == 10) ≡ n
        → IsLine (
            if b
            then codes "\\\\"
            else if q
            then codes "\\\""
            else if n
            then codes "\\n"
            else c ∷ [])
    label_cases true q n e = (refl, (refl, tt))
    label_cases false true n e = (refl, (refl, tt))
    label_cases false false true e = (refl, (refl, tt))
    label_cases false false false e = (e, tt)

escape_label-IsLine : (t : Text) → IsLine (escape_label t)
unfolding escape_label
escape_label-IsLine [] = tt
escape_label-IsLine (c ∷ cs) =
    All-append _ (label_char c) (escape_label cs) (label_char-IsLine c) (escape_label-IsLine cs)

value_text-IsLine : (v : Value) → IsLegalValue v → IsLine (value_text v)
value_text-IsLine (escaped t) h = escape_label-IsLine t
value_text-IsLine (verbatim t) h = IsPlain-IsLine t h

print_labels-IsLine :
    (key : Text) (v : Value) (ls : List (Text × Value)) (end : Text)
    → AreLegalLabels ((key, v) ∷ ls)
    → IsLine end
    → IsLine (print_labels (key, v) ls end)
print_labels-IsLine key v [] end (k, h, hs) e =
    All-append _ key _ (IsName-IsLine key k)
      (refl, (refl, All-append _ (value_text v) _ (value_text-IsLine v h) (refl, (refl, e))))
print_labels-IsLine key v ((key', v') ∷ ls) end (k, h, hs) e =
    let more = print_labels-IsLine key' v' ls end hs e in
    All-append _ key _ (IsName-IsLine key k)
      (refl, (refl, All-append _ (value_text v) _ (value_text-IsLine v h) (refl, (refl, more))))

pub with_labels-IsLine :
    (ls : List (Text × Value)) (end : Text)
    → AreLegalLabels ls
    → IsLine end
    → IsLine (with_labels ls end)
with_labels-IsLine [] end h e = e
with_labels-IsLine ((key, v) ∷ ls) end h e = (refl, print_labels-IsLine key v ls end h e)

-- A line that is read.
read_line-name :
    (name rest : Text) (c : ℕ)
    → IsHead name
    → is_name_char c ≡ false
    → read_line (name ++ (c ∷ rest)) ≡ after_name (name, c ∷ rest)
unfolding read_line
read_line-name [] rest c h e = elim h [ ]
read_line-name (x ∷ t) rest c (h, hs) e =
    let x_is_no_hash : (x == b'#') ≡ false = ground (arith, h) in
    rw x_is_no_hash (ap after_name (span_name-IsName (x ∷ t) rest c (h, hs) e))

pub read_line-labelled :
    (name : Text) (ls : List (Text × Value)) (value : Text)
    → IsHead name
    → AreLegalLabels ls
    → length ls ≤ max_labels
    → read_line (name ++ with_labels ls (32 ∷ value)) ≡ sampled name (meant_labels ls) value
read_line-labelled name [] value n h b = read_line-name name value 32 n refl
read_line-labelled name ((key, v) ∷ ls) value n h b =
    read_line-name name _ b'{' n refl
    ∙ ap (entry_of name) (read_labels-print_labels 7 key v ls value h (omega (arith, b)))
