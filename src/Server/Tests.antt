-- ===== src/Server/Tests.antt =====
-- A resolv.conf and a set of tasks, and the theorems at concrete inputs.
use aardvark_dns.Prelude.{
  ℕ, ◌≡◌, ◌≤◌, refl, sym, inl, inr, List, [], ◌∷◌, some, All, length, take, arith, ap, subst,
}
use aardvark_dns.Prelude.Classes.{nat_eq, pair_eq}
use aardvark_dns.Text.{Str, str_eq, codes}
use aardvark_dns.Text.Split.{split, split_once, split_whitespace}
use aardvark_dns.HashMap.{HashMap, get, keys}
use aardvark_dns.HashSet.{Distinct}
use aardvark_dns.Result.{Result, ok, err, ◌>>=◌}
use aardvark_dns.Error.{wrap, AardvarkResult, IoError, other}
use aardvark_dns.Net.Addr.{Ipv4Addr, v4, SocketAddr, socket_v4}
use aardvark_dns.Net.Parser.{parse_ip}
use aardvark_dns.Config.File.{collect}
use aardvark_dns.Server.Resolv.{
  add_lines, add_words, strip_comment, parse_resolv_conf, parse_nameserver,
}
use aardvark_dns.Server.Resolv.Lines.{
  HasDnsPort, nameserver_words, parse_resolv_conf-collect, parse_resolv_conf_bounds,
}
use aardvark_dns.Server.Threads.{Binder, Threads, udp, tcp, stop_threads, stop_and_start_threads}
use aardvark_dns.Server.Threads.Stop.{Stopped, Present, stop_threads-Stopped}
use aardvark_dns.Server.Threads.Outcome.{IsVisit, Reloaded, stop_and_start_threads-Reloaded}

abbrev refused : IoError
refused = record { kind = other; text = codes "refused" }

abbrev no_interface : Str → Result ℕ IoError
no_interface name = err refused

abbrev resolv_text : Str
resolv_text =
    codes
      "# host\nnameserver 10.0.0.1\nsearch lan\nnameserver 10.0.0.2 # second\nnameserver 10.0.0.3\nnameserver 10.0.0.4"

abbrev first_three : List SocketAddr
first_three = socket_v4 0x0a000001 53 ∷ socket_v4 0x0a000002 53 ∷ socket_v4 0x0a000003 53 ∷ []

resolv_read : parse_resolv_conf no_interface resolv_text ≡ ok first_three
unfolding parse_resolv_conf parse_ip add_lines split add_words split_whitespace strip_comment
    split_once parse_nameserver wrap
resolv_read = refl

parse_resolv_conf-collect_example : parse_resolv_conf no_interface resolv_text ≡ (
    collect (parse_nameserver no_interface) (nameserver_words (split b'\n' resolv_text))
    >>= λ nameservers. ok (take 3 nameservers))
parse_resolv_conf-collect_example = parse_resolv_conf-collect no_interface resolv_text

parse_resolv_conf_bounds_example : (length first_three ≤ 3) × All HasDnsPort first_three
parse_resolv_conf_bounds_example =
    parse_resolv_conf_bounds no_interface resolv_text first_three resolv_read

-- Two tasks run; the second network moves to another address, whose TCP socket is refused.
abbrev running : Threads Ipv4Addr
running = record { handles = ((codes "a", 1), 10) ∷ ((codes "b", 2), 20) ∷ []; events = [] }

abbrev moved : HashMap Str (List Ipv4Addr)
moved = (codes "a", 1 ∷ []) ∷ (codes "b", 3 ∷ []) ∷ []

abbrev no_tcp : Binder
no_tcp events udp addr = ok tt
no_tcp events tcp addr = err refused

abbrev any_text : SocketAddr → Str
any_text addr = codes "address"

abbrev same_order : List (Str × Ipv4Addr) → List (Str × Ipv4Addr)
same_order l = l

same_order-IsVisit : IsVisit same_order
same_order-IsVisit = (λ l a. (λ h. h, λ h. h), λ l d. d)

clash : ◌≡◌ {A = ℕ} 1 2 → ⊥
clash h = omega arith

apart : ◌≡◌ {A = Str × Ipv4Addr} (codes "a", 1) (codes "b", 2) → ⊥
apart h = clash (ap (λ (k : Str × Ipv4Addr). k.1) h)

running-Distinct : Distinct (keys running.handles)
running-Distinct =
    ((λ h. elim h [ inl same ↦ absurd (apart same) | inr x ↦ absurd x ]), ((λ x. x), tt))

stop_and_start_threads-Reloaded_example :
    (t' : Threads Ipv4Addr) × (r : AardvarkResult (Unit {0})) × (stop_and_start_threads v4 any_text
        no_tcp 53 same_order moved running
      ≡ some (t', r))
    × Reloaded v4 moved running t' r
stop_and_start_threads-Reloaded_example =
    stop_and_start_threads-Reloaded v4 any_text no_tcp 53 same_order same_order-IsVisit moved
      running running-Distinct

b_running : Present v4 running ((codes "b", 2) ∷ [])
unfolding get
b_running key (inl h) = (20, subst (λ k. get running.handles k ≡ some 20) (sym h) refl)
b_running key (inr x) = absurd x

stop_threads-Stopped_example :
    (t' : Threads Ipv4Addr) × (stop_threads v4 running (some ((codes "b", 2) ∷ [])) ≡ some t')
    × Stopped v4 ((codes "b", 2) ∷ []) running t'
stop_threads-Stopped_example =
    stop_threads-Stopped v4 running ((codes "b", 2) ∷ []) ((λ x. x), tt) b_running
