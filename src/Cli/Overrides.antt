-- ===== src/Cli/Overrides.antt =====
-- Every argument of `--resolve` that src/cli.rs accepts has its effect.
use httprove.Base.{
  ℕ, List, [], ◌∷◌, ◌++◌, Option, some, Bool, true, false, if◌then◌else◌, Result, ok, err, ◌>>=◌,
  >>=-eq-ok, ◌≡◌, refl, sym, subst, arith, All,
}
use httprove.Text.{to_ascii_lowercase, is_some}
use httprove.Text.Equal.{same_text_refl}
use httprove.Types.{Text}
use httprove.Dns.Answers.{IpAddr}
use httprove.Cli.{second_global, duplicate}
use httprove.Cli.Pinned.{Gives, Honours, read_override-Honours}
use httprove.Cli.Resolve.{
  Key, ResolveOverrides, find_key, lookup, Override, everywhere, pinned, read_override,
  add_override, add_all, no_overrides, parse_resolve_overrides,
}

-- What one set of overrides gives, another one gives too.
abbrev Keeps : ResolveOverrides → ResolveOverrides → Type 0
Keeps o o' =
    ((ip : IpAddr) → o.global ≡ some ip → o'.global ≡ some ip)
    × ((key : Key) (ip : IpAddr)
        → find_key key o.per_host ≡ some ip
        → find_key key o'.per_host ≡ some ip)

find_key-append_some :
    (key : Key) (l m : List (Key × IpAddr)) (ip : IpAddr)
    → find_key key l ≡ some ip
    → find_key key (l ++ m) ≡ some ip
unfolding find_key
find_key-append_some key [] m ip h = absurd (let e = h in cc)
find_key-append_some key ((k, a) ∷ l) m ip h = ground (arith, find_key-append_some key l m ip)

find_key-append_none :
    (key : Key) (l : List (Key × IpAddr)) (ip : IpAddr)
    → is_some (find_key key l) ≡ false
    → find_key key (l ++ ((key, ip) ∷ [])) ≡ some ip
unfolding find_key
find_key-append_none key [] ip h = ground (arith, same_text_refl key.0)
find_key-append_none key ((k, a) ∷ l) ip h = ground (arith, find_key-append_none key l ip)

find_key-Gives :
    (o : ResolveOverrides) (h : Text) (port : ℕ) (ip : IpAddr)
    → find_key (h, port) o.per_host ≡ some ip
    → Gives o (pinned (h, port) ip)
unfolding lookup
find_key-Gives o h port ip e host low =
    let found : find_key (to_ascii_lowercase host, port) o.per_host ≡ some ip =
      subst (λ t. find_key (t, port) o.per_host ≡ some ip) (sym low) e in
    rw (found, lookup) refl

is_some-none {ℓ} : {A : Type ℓ} (o : Option A) → is_some o ≡ false → (a : A) → ¬ (o ≡ some a)
is_some-none o h a e = ground (arith, h, e)

if-eq-ok {ℓ} :
    {E A : Type ℓ} (b : Bool) (e : E) {a out : A}
    → ◌≡◌ {A = Result E A} (if b then err e else ok a) (ok out)
    → (b ≡ false) × (a ≡ out)
if-eq-ok true e h = absurd (let e = h in cc)
if-eq-ok false e h = (refl, cc)

-- What a set of overrides records of what is asked for.
abbrev Records : ResolveOverrides → Override → Type 0
Records o (everywhere ip) = o.global ≡ some ip
Records o (pinned key ip) = find_key key o.per_host ≡ some ip

Records-Gives : (o : ResolveOverrides) (asked : Override) → Records o asked → Gives o asked
Records-Gives o (everywhere ip) h = h
Records-Gives o (pinned (k, port) ip) h = find_key-Gives o k port ip h

Keeps-Records :
    (o o' : ResolveOverrides) (asked : Override) → Keeps o o' → Records o asked → Records o' asked
Keeps-Records o o' (everywhere ip) k h = k.0 ip h
Keeps-Records o o' (pinned key ip) k h = k.1 key ip h

add_override-Records :
    (o o' : ResolveOverrides) (asked : Override)
    → add_override o asked ≡ ok o'
    → Records o' asked × Keeps o o'
unfolding add_override
add_override-Records o o' (everywhere ip) h =
    let (fresh, e) = if-eq-ok (is_some o.global) second_global h in
    subst (λ x. Records x (everywhere ip) × Keeps o x) e
      (refl, (λ ip' g. absurd (is_some-none o.global fresh ip' g), λ key ip' found. found))
add_override-Records o o' (pinned key ip) h =
    let (fresh, e) = if-eq-ok (is_some (find_key key o.per_host)) (duplicate key.0) h in
    subst (λ x. Records x (pinned key ip) × Keeps o x) e
      (
        find_key-append_none key o.per_host ip fresh,
        (
          λ ip' g. g,
          λ key' ip' found. find_key-append_some key' o.per_host ((key, ip) ∷ []) ip' found,
        ),
      )

add_all-Records :
    (parse_ip : Text → Option IpAddr) (raws : List Text) (o o' : ResolveOverrides)
    → add_all parse_ip raws o ≡ ok o'
    → Keeps o o'
      × All
          (λ raw. (asked : Override) × (read_override parse_ip raw ≡ ok asked) × Records o' asked)
          raws
unfolding add_all
add_all-Records parse_ip [] o o' h =
    let e : o ≡ o' = cc in subst (λ x. Keeps o x × Unit {0}) e ((λ ip g. g, λ key ip f. f), tt)
add_all-Records parse_ip (raw ∷ raws) o o' h =
    let (o1, first, rest) =
      >>=-eq-ok (read_override parse_ip raw >>= add_override o) (add_all parse_ip raws) h in
    let (asked, read, added) = >>=-eq-ok (read_override parse_ip raw) (add_override o) first in
    let (recorded, kept) = add_override-Records o o1 asked added in
    let (kept', later) = add_all-Records parse_ip raws o1 o' rest in
    (
      (λ ip g. kept'.0 ip (kept.0 ip g), λ key ip f. kept'.1 key ip (kept.1 key ip f)),
      ((asked, read, Keeps-Records o1 o' asked kept' recorded), later),
    )

All-map {ℓ κ} :
    {A : Type ℓ} (P Q : A → Type κ) (l : List A) → ((a : A) → P a → Q a) → All P l → All Q l
All-map P Q [] f h = tt
All-map P Q (a ∷ l) f h = (f a h.0, All-map P Q l f h.1)

-- If the arguments of `--resolve` are accepted, each of them has its effect: it is an address
-- alone, and that is the one for all hosts; or it is a host that is not blank, a port and an
-- address, in brackets or not, with colons between them, and the look-up of that host, in whatever
-- case, and that port gives that address.
pub parse_resolve_overrides-Honours :
    (parse_ip : Text → Option IpAddr) (raws : List Text) (o : ResolveOverrides)
    → parse_resolve_overrides parse_ip raws ≡ ok o
    → All (Honours parse_ip o) raws
unfolding parse_resolve_overrides
parse_resolve_overrides-Honours parse_ip raws o h =
    All-map (λ raw. (asked : Override) × (read_override parse_ip raw ≡ ok asked) × Records o asked)
      (Honours parse_ip o) raws
      (λ raw (asked, read, recorded).
        read_override-Honours parse_ip o raw asked read (Records-Gives o asked recorded))
      ((add_all-Records parse_ip raws no_overrides o h).1)
