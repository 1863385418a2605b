-- ===== src/Config/Order.antt =====
-- What a container is answered does not depend on the order of the files in the directory nor on the
-- order in which Rust visits a map: the answers as a set.
mod Tests
use mathlib.Core.Quot
use mathlib.Core.Quot.{Quot}
use aardvark_dns.Prelude.{
  ◌≡◌, ◌↔◌, sym, ◌∙◌, subst, inl, inr, Bool, true, Bool-cases, Option, List, Has,
}
use aardvark_dns.Text.{Str}
use aardvark_dns.Result.{Result, ok}
use aardvark_dns.Error.{IoError}
use aardvark_dns.HashMap.{found}
use aardvark_dns.HashSet.{contains, contains_iff}
use aardvark_dns.Net.Addr.{IpAddr, ip_eq}
use aardvark_dns.Backend.{lookup}
use aardvark_dns.Config.Entry.{CtrEntry, ParsedNetworkConfig}
use aardvark_dns.Config.Directory.{DirEntry, FileSystem, Parsed, Order, parse_configs}
use aardvark_dns.Config.Sources.{Configures, Declares}
use aardvark_dns.Config.Contents.Run.{VisitsAll}
use aardvark_dns.Config.Contents.Names.{Declared}
use aardvark_dns.Config.Contents.Networks.{Joined}
use aardvark_dns.Config.Isolation.{Sees, lookup-Sees}

-- Two lists have the same items.
abbrev pub SameItems : {A : Type 0} → List A → List A → Type 0
SameItems {A} xs ys = (a : A) → Has a xs ↔ Has a ys

SameItems-sym : {A : Type 0} (xs ys : List A) → SameItems xs ys → SameItems ys xs
SameItems-sym xs ys s a = ((s a).1, (s a).0)

-- The addresses of an answer, without their order and how often each stands there.
abbrev pub AnswerSet : Type 0
AnswerSet = Quot {α = List IpAddr} SameItems

abbrev pub answer_set : Option (List IpAddr) → AnswerSet
answer_set answer = Quot.mk (found answer)

pub contains-same :
    (ip : IpAddr) (xs ys : List IpAddr) → SameItems xs ys → contains xs ip ≡ contains ys ip
contains-same ip xs ys s = elim (Bool-cases (contains xs ip)) [
  | inl here ↦ here ∙ sym ((contains_iff ys ip).1 ((s ip).0 ((contains_iff xs ip).0 here)))
  | inr missing ↦ elim (Bool-cases (contains ys ip)) [
    | inl there ↦ (contains_iff xs ip).1 ((s ip).1 ((contains_iff ys ip).0 there)) ∙ sym there
    | inr gone ↦ missing ∙ sym gone
  ]
]

-- Whether an address is in the set.
unfoldable pub member : IpAddr → AnswerSet → Bool
member ip = Quot.lift (hlevel) (λ xs. contains xs ip) (contains-same ip)

-- The set has the addresses of the answer, and no others.
pub member-answer_set :
    (ip : IpAddr) (answer : Option (List IpAddr))
    → (member ip (answer_set answer) ≡ true) ↔ Has ip (found answer)
unfolding member
member-answer_set ip answer = contains_iff (found answer) ip

-- What holds of the files of a directory holds of the same files in another order.
module _ (unicode : Str → Str) (fs fs' : FileSystem)
    (same_files : fs.read_to_string ≡ fs'.read_to_string)
    {configs configs' : List (Result DirEntry IoError)} (same : SameItems configs configs') where
  Configures-reordered :
      {net : Str} {c : ParsedNetworkConfig}
      → Configures unicode fs.read_to_string configs net c
      → Configures unicode fs'.read_to_string configs' net c
  Configures-reordered {net} {c} d =
      subst (λ read. Configures unicode read configs' net c) same_files
        (record { cfg = d.cfg; listed = (same (ok d.cfg)).0 d.listed; source = d.source })

  Declares-reordered :
      {net : Str} {entry : CtrEntry}
      → Declares unicode fs.read_to_string configs net entry
      → Declares unicode fs'.read_to_string configs' net entry
  Declares-reordered d = record {
    config = d.config;
    file = Configures-reordered d.file;
    present = d.present;
  }

  Declared-reordered :
      {net alias : Str} {ip : IpAddr}
      → Declared unicode fs configs net alias ip
      → Declared unicode fs' configs' net alias ip
  Declared-reordered (entry, d, a, i) = (entry, Declares-reordered d, a, i)

  Joined-reordered :
      {ip : IpAddr} {net : Str}
      → Joined unicode fs configs ip net
      → Joined unicode fs' configs' ip net
  Joined-reordered (other, entry, d, i, joined, d', e) =
      (other, entry, Declares-reordered d, i, joined, Declares-reordered d', e)

module _ (unicode : Str → Str) (fs fs' : FileSystem)
    (same_files : fs.read_to_string ≡ fs'.read_to_string)
    {configs configs' : List (Result DirEntry IoError)} (same : SameItems configs configs') where
  Sees-reordered :
      {requester : IpAddr} {network net : Str}
      → Sees unicode fs configs requester network net
      → Sees unicode fs' configs' requester network net
  Sees-reordered (inl j) = inl (Joined-reordered unicode fs fs' same_files same j)
  Sees-reordered (inr (e, none_joined)) = inr (
    e,
    λ n j.
        none_joined n (
          Joined-reordered unicode fs' fs (sym same_files) (SameItems-sym configs configs' same) j),
  )

module _ (unicode : Str → Str) (domain dir : Str) (fs fs' : FileSystem) (order order' : Order)
    (r r' : Parsed) (configs configs' : List (Result DirEntry IoError)) (all : VisitsAll order)
    (all' : VisitsAll order') (listing : fs.read_dir dir ≡ ok configs)
    (listing' : fs'.read_dir dir ≡ ok configs')
    (h : parse_configs unicode order domain fs dir ≡ ok r)
    (h' : parse_configs unicode order' domain fs' dir ≡ ok r') where
  -- Two successful reads of directories with the same entries, listed in any order, and the same
  -- texts of the files give every requester the same set of addresses for every name, in whatever
  -- orders the maps of containers are visited.
  pub lookup-reordered :
      SameItems configs configs'
      → fs.read_to_string ≡ fs'.read_to_string
      → (requester : IpAddr) (network name : Str)
      → answer_set (lookup unicode r.backend requester network name)
        ≡ answer_set (lookup unicode r'.backend requester network name)
  lookup-reordered same same_files requester network name = Quot.sound (λ ip.
      let here =
        lookup-Sees unicode order domain fs dir r configs all listing h requester ip network name in
      let there =
        lookup-Sees unicode order' domain fs' dir r' configs' all' listing' h' requester ip network
          name in
      let back_files = sym same_files in
      let back = SameItems-sym configs configs' same in
      (
        λ x.
            let (net, s, d) = here.0 x in
            there.1 (
              net,
              Sees-reordered unicode fs fs' same_files same s,
              Declared-reordered unicode fs fs' same_files same d,
            ),
        λ x.
            let (net, s, d) = there.0 x in
            here.1 (
              net,
              Sees-reordered unicode fs' fs back_files back s,
              Declared-reordered unicode fs' fs back_files back d,
            ),
      ))
