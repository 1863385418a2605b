-- ===== src/Dns/Samples.antt =====
-- Messages that are a query and its answers, and a store with one network.
use aardvark_dns.Prelude.{ℕ, true, false, List, [], ◌∷◌, ◌++◌, Option, some}
use aardvark_dns.Text.{Str, codes}
use aardvark_dns.Net.Addr.{v4, v6, SocketAddr, socket_v4}
use aardvark_dns.Backend.{DnsBackend}
use aardvark_dns.Dns.Message.{RecordType, type_a, type_aaaa, Record, Hickory}
use aardvark_dns.Dns.Process.{CoreDnsData}

-- A name is its text; a message is its id, its question and its answers.
pub record Packet : Type 0 where
  pub id : ℕ
  pub question : Option (Str × RecordType)
  pub answers : List (Record Str)

abbrev pub plain_packets : Hickory Str Packet
plain_packets = record {
  default_name = [];
  to_string = λ n. n;
  from_ascii = λ s. some s;
  from_str_relaxed = λ s. some s;
  from_vec = λ bytes. some (record { id = 7; question = some (bytes, type_a); answers = [] });
  to_vec = λ m. some (m.id ∷ []);
  first_query = λ m. m.question;
  add_answer = λ m r. record m { answers = m.answers ++ r ∷ [] };
  into_response = λ m. m;
  set_nx_domain = λ m. m;
  recursion_desired = λ m. true;
  recursion_available = λ m. false;
  set_recursion_available = λ m. m;
  id = λ m. m.id;
  set_id = λ m n. record m { id = n };
}

abbrev pub same_text : Str → Str
same_text s = s

-- One container, whose network knows `web`.
abbrev pub one_network : DnsBackend
one_network = record {
  ip_mappings = (v4 2, codes "a" ∷ []) ∷ [];
  name_mappings = (codes "a", (codes "web", v4 3 ∷ v6 3 ∷ []) ∷ []) ∷ [];
  reverse_mappings = [];
  ctr_dns_server = [];
  network_dns_server = [];
  network_is_internal = (codes "a", false) ∷ [];
  search_domain = codes "dns.podman.";
}

abbrev pub core : CoreDnsData
core = record {
  network_name = codes "a";
  backend = one_network;
  no_proxy = false;
  nameservers = socket_v4 9 53 ∷ [];
}

abbrev pub client : SocketAddr
client = socket_v4 2 4000

abbrev pub web_question : Packet
web_question = record { id = 7; question = some (codes "web", type_aaaa); answers = [] }
