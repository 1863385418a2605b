-- ===== src/Server/Isolated.antt =====
-- From the files of the directory to the messages of the listeners: a container of internal networks
-- sends nothing to the outside.
mod Tests
use aardvark_dns.Prelude.{
  ℕ, ◌≡◌, refl, inl, inr, sym, ap, ◌∙◌, subst, Bool, true, false, List, [], ◌∷◌, some, none, Has,
  All, Option-cases,
}
use aardvark_dns.Text.{Str, str_eq}
use aardvark_dns.Result.{Result, ok}
use aardvark_dns.Error.{IoError}
use aardvark_dns.HashMap.{get, found}
use aardvark_dns.Net.Addr.{IpAddr, ip_eq, SocketAddr, ip_of}
use aardvark_dns.Backend.{DnsBackend, ctr_is_internal}
use aardvark_dns.Backend.Internal.{NotExternal, ctr_is_internal_iff}
use aardvark_dns.Config.Entry.{CtrEntry, ParsedNetworkConfig}
use aardvark_dns.Config.Directory.{DirEntry, FileSystem, Parsed, Order, new_ctr_ips, parse_configs}
use aardvark_dns.Config.Sources.{Configures, Declares}
use aardvark_dns.Config.Contents.Run.{VisitsAll}
use aardvark_dns.Config.Contents.Networks.{Joined, parse_configs-networks}
use aardvark_dns.Config.Contents.Internal.{parse_configs-internal}
use aardvark_dns.Dns.Message.{Hickory, Protocol, forward}
use aardvark_dns.Dns.Process.{CoreDnsData, process_message}
use aardvark_dns.Dns.Process.Guards.{process_message-MayForward}

-- Every file of the network is marked as internal in its name.
abbrev pub IsInternal : (Str → Str) → FileSystem → List (Result DirEntry IoError) → Str → Type 0
IsInternal unicode fs configs net =
    (c : ParsedNetworkConfig) (d : Configures unicode fs.read_to_string configs net c)
    → d.source.internal ≡ true

All-of : {A : Type 0} (P : A → Type 0) (xs : List A) → ((a : A) → Has a xs → P a) → All P xs
All-of P [] h = tt
All-of P (x ∷ xs) h = (h x (inl refl), All-of P xs (λ a m. h a (inr m)))

module _ (unicode : Str → Str) (order : Order) (domain : Str) (fs : FileSystem) (dir : Str)
    (r : Parsed) (configs : List (Result DirEntry IoError)) (all : VisitsAll order)
    (listing : fs.read_dir dir ≡ ok configs)
    (h : parse_configs unicode order domain fs dir ≡ ok r) where
  internal_lem :
      (requester : IpAddr) (home : Str) (self : CtrEntry)
      → Declares unicode fs.read_to_string configs home self
      → Has requester (new_ctr_ips self)
      → ((net : Str) → Joined unicode fs configs requester net → IsInternal unicode fs configs net)
      → ctr_is_internal r.backend requester ≡ true
  internal_lem requester home self declared owned marked =
      let networks = parse_configs-networks unicode order domain fs dir r configs all listing h in
      let own = (networks requester home).1 (home, self, declared, owned, self, declared, refl) in
      elim (Option-cases (get r.backend.ip_mappings requester)) [
        | inl unknown ↦ absurd (rw unknown at own)
        | inr (nets, known) ↦
            let same : found (get r.backend.ip_mappings requester) ≡ nets = rw known refl in
            (ctr_is_internal_iff r.backend requester).1 (
              nets,
              known,
              All-of (NotExternal r.backend) nets (λ net m recorded.
                  let (c, d, outside) =
                    parse_configs-internal unicode order domain fs dir r configs listing h net false
                      recorded in
                  cc (
                    marked net ((networks requester net).0 (subst (Has net) (sym same) m)) c d,
                    outside,
                  )),
            )
      ]

  -- When the directory was read without an error, a container whose address some file declares, and
  -- whose networks have only files that are marked as internal, has no request passed on, whatever
  -- it asks for, on whatever listener.
  pub process_message-isolated :
      {Name Message : Type 0} (hickory : Hickory Name Message) (core : CoreDnsData)
      (src_address : SocketAddr) (proto : Protocol) (msg : List ℕ) (home : Str) (self : CtrEntry)
      → core.backend ≡ r.backend
      → Declares unicode fs.read_to_string configs home self
      → Has (ip_of src_address) (new_ctr_ips self)
      → ((net : Str)
          → Joined unicode fs configs (ip_of src_address) net
          → IsInternal unicode fs configs net)
      → (nameservers : List SocketAddr) (request : Message) (by : Protocol)
      → ¬ Has
          (forward nameservers request by)
          (process_message hickory unicode core src_address proto msg)
  process_message-isolated hickory core src_address proto msg home self store declared owned marked
        nameservers request by sent =
      let may =
        (process_message-MayForward hickory unicode core src_address proto msg nameservers request
            by).0
          sent in
      cc (
        may.not_internal,
        ap (λ (b : DnsBackend). ctr_is_internal b (ip_of src_address)) store,
        internal_lem (ip_of src_address) home self declared owned marked,
      )
