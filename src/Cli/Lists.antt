-- ===== src/Cli/Lists.antt =====
-- The lists between commas that src/cli.rs reads: when they are refused, and what is kept of them.
use httprove.Base.{
  List, [], ◌∷◌, Option, none, some, if◌then◌else◌, ok, err, ◌>>=◌, ◌≡◌, ◌≢◌, ◌⊎◌, ◌↔◌, inl, inr,
  refl, sym, ap, subst, arith, Bool-cases,
}
use httprove.Text.{split, trim, is_empty}
use httprove.Types.{Text}
use httprove.Cli.{
  Parsed, CliError, read_parts, refuse_empty, SocketAddr, AddrOps, read_server, push_new,
  parse_dns_servers, no_dns,
}

-- The parts between commas that are not blank, trimmed.
abbrev pub items : List Text → List Text
items [] = []
items (part ∷ parts) = if is_empty (trim part) then items parts else trim part ∷ items parts

-- The first of the items that cannot be read.
module _ {A : Type 0} where
  abbrev pub first_error : (Text → Parsed A) → List Text → Option CliError
  first_error read [] = none
  first_error read (t ∷ l) = elim (read t) [ err e ↦ some e | ok a ↦ first_error read l ]

  -- What the loop gives when nothing is wrong.
  abbrev pub read_all : (Text → Parsed A) → (List A → A → List A) → List Text → List A → List A
  read_all read push [] acc = acc
  read_all read push (t ∷ l) acc = elim (read t) [
    | err e ↦ acc
    | ok a ↦ read_all read push l (push acc a)
  ]

  -- The loop against the two readings of its items.
  abbrev outcome : Option CliError → List A → Parsed (List A)
  outcome (some e) l = err e
  outcome none l = ok l

  bind-outcome :
      (r : Parsed A) (next : A → Parsed (List A)) (found : Option CliError) (acc : List A)
      (rest : A → List A)
      → ((a : A) → next a ≡ outcome found (rest a))
      → (r >>= next)
        ≡ outcome
            (elim r [ err e ↦ some e | ok a ↦ found ])
            (elim r [ err e ↦ acc | ok a ↦ rest a ])
  bind-outcome (err e) next found acc rest h = refl
  bind-outcome (ok a) next found acc rest h = h a

  read_parts-outcome :
      (read : Text → Parsed A) (push : List A → A → List A) (parts : List Text) (acc : List A)
      → read_parts read push parts acc
        ≡ outcome (first_error read (items parts)) (read_all read push (items parts) acc)
  unfolding read_parts
  read_parts-outcome read push [] acc = refl
  read_parts-outcome read push (part ∷ parts) acc = elim (Bool-cases (is_empty (trim part))) [
    | inl e ↦ rw e (read_parts-outcome read push parts acc)
    | inr e ↦ rw e (
        bind-outcome (read (trim part)) (λ a. read_parts read push parts (push acc a))
          (first_error read (items parts)) acc (λ a. read_all read push (items parts) (push acc a))
          (λ a. read_parts-outcome read push parts (push acc a)))
  ]

push_new-nonempty : (ops : AddrOps) (l : List SocketAddr) (a : SocketAddr) → push_new ops l a ≢ []
push_new-nonempty ops [] a e = cc
push_new-nonempty ops (b ∷ l) a e = ground arith

read_all-nonempty :
    (ops : AddrOps) (l : List Text) (acc : List SocketAddr)
    → acc ≢ []
    → read_all (read_server ops) (push_new ops) l acc ≢ []
read_all-nonempty ops [] acc h = h
read_all-nonempty ops (t ∷ l) acc h =
    elim (read_server ops t)
      as (λ r.
        elim r [
          | err e ↦ acc
          | ok a ↦ read_all (read_server ops) (push_new ops) l (push_new ops acc a)
        ]
        ≢ []) [
          | err e ↦ h
          | ok a ↦ read_all-nonempty ops l (push_new ops acc a) (push_new-nonempty ops acc a)
        ]

refuse_empty-outcome :
    {A : Type 0} (found : Option CliError) (l : List A) (none_left e : CliError)
    → l ≢ []
    → ((outcome found l >>= refuse_empty none_left) ≡ err e) ↔ (found ≡ some e)
refuse_empty-outcome (some x) l none_left e h = (λ k. cc, λ k. cc)
refuse_empty-outcome none [] none_left e h = absurd (h refl)
refuse_empty-outcome none (a ∷ l) none_left e h = (λ k. absurd (let x = k in cc), λ k. cc)

-- An item that is read leaves a server.
first_error-outcome :
    (ops : AddrOps) (t : Text) (l : List Text) (none_left e : CliError)
    → ((outcome
            (first_error (read_server ops) (t ∷ l))
            (read_all (read_server ops) (push_new ops) (t ∷ l) [])
          >>= refuse_empty none_left)
        ≡ err e)
      ↔ (first_error (read_server ops) (t ∷ l) ≡ some e)
first_error-outcome ops t l none_left e =
    elim (read_server ops t)
      as (λ r.
        ((outcome (elim r [ err x ↦ some x | ok a ↦ first_error (read_server ops) l ])
              (elim r [
                | err x ↦ []
                | ok a ↦ read_all (read_server ops) (push_new ops) l (push_new ops [] a)
              ])
            >>= refuse_empty none_left)
          ≡ err e)
        ↔ (elim r [ err x ↦ some x | ok a ↦ first_error (read_server ops) l ] ≡ some e)) [
          | err x ↦ (λ k. cc, λ k. cc)
          | ok a ↦
              refuse_empty-outcome (first_error (read_server ops) l)
                (read_all (read_server ops) (push_new ops) l (push_new ops [] a)) none_left e
                (read_all-nonempty ops l (push_new ops [] a) (push_new-nonempty ops [] a))
        ]

-- Why the list is refused: the first item that is no address, or that there is no item.
abbrev pub Refused : AddrOps → Text → CliError → Type 0
Refused ops spec e =
    (first_error (read_server ops) (items (split b',' spec)) ≡ some e)
    ⊎ ((items (split b',' spec) ≡ []) × (e ≡ no_dns spec))

refused_items :
    (ops : AddrOps) (l : List Text) (none_left e : CliError)
    → ((outcome (first_error (read_server ops) l) (read_all (read_server ops) (push_new ops) l [])
          >>= refuse_empty none_left)
        ≡ err e)
      ↔ ((first_error (read_server ops) l ≡ some e) ⊎ ((l ≡ []) × (e ≡ none_left)))
refused_items ops [] none_left e = (
  λ h. inr (refl, cc),
  λ h. elim h [ inl k ↦ absurd (let x = k in cc) | inr k ↦ ap err (sym k.1) ],
)
refused_items ops (t ∷ l) none_left e =
    let here = first_error-outcome ops t l none_left e in
    (λ h. inl (here.0 h), λ h. elim h [ inl k ↦ here.1 k | inr k ↦ absurd (let x = k.0 in cc) ])

-- `--dns` is refused with an error exactly if it is the error of the first item that is no address,
-- or there is no item at all and the error says so.
pub parse_dns_servers-Refused :
    (ops : AddrOps) (spec : Text) (e : CliError)
    → (parse_dns_servers ops (some spec) ≡ err e) ↔ Refused ops spec e
unfolding parse_dns_servers
parse_dns_servers-Refused ops spec e =
    subst (λ r. ((r >>= refuse_empty (no_dns spec)) ≡ err e) ↔ Refused ops spec e)
      (sym (read_parts-outcome (read_server ops) (push_new ops) (split b',' spec) []))
      (refused_items ops (items (split b',' spec)) (no_dns spec) e)
