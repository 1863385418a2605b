-- ===== src/Config/Log.antt =====
-- What `parse_configs` logs of a file that cannot be read and of an entry that cannot be listed.
use aardvark_dns.Prelude.{◌≡◌, ◌↔◌, refl, []}
use aardvark_dns.Text.{Str}
use aardvark_dns.Error.{
  AardvarkError, message, io_error, chain, list, addr_parse_error, IoError, ErrorKind, not_found,
  other,
}
use aardvark_dns.Config.Directory.{log_read, log_list}

-- The error is an I/O error that does not say that the file is gone.
abbrev pub OtherIo : AardvarkError → Type 0
OtherIo (io_error e) = e.kind ≡ other
OtherIo _ = ⊥

io_silent :
    (path : Str) (text : Str) (kind : ErrorKind)
    → (log_read path (io_error (record { kind = kind; text = text })) ≡ []) ↔ (kind ≡ other)
unfolding log_read
io_silent path text not_found = (λ h. cc, λ x. cc)
io_silent path text other = (λ h. refl, λ x. refl)

log_read_iff : (path : Str) (e : AardvarkError) → (log_read path e ≡ []) ↔ OtherIo e
unfolding log_read
log_read_iff path (message s) = (λ h. cc, λ x. absurd x)
log_read_iff path (io_error e) = io_silent path e.text e.kind
log_read_iff path (chain s e) = (λ h. cc, λ x. absurd x)
log_read_iff path (list l) = (λ h. cc, λ x. absurd x)
log_read_iff path (addr_parse_error e) = (λ h. cc, λ x. absurd x)

log_list_iff :
    (text : Str) (kind : ErrorKind)
    → (log_list (record { kind = kind; text = text }) ≡ []) ↔ (kind ≡ not_found)
unfolding log_list
log_list_iff text not_found = (λ h. refl, λ x. refl)
log_list_iff text other = (λ h. cc, λ x. cc)

-- An error of reading a file is left out of the log exactly when it is an I/O error other than
-- `NotFound`; an error of listing an entry exactly when it is `NotFound`. So a file that was
-- removed is logged, and one that may not be read is not.
pub log_read-log_list :
    (path : Str) (e : AardvarkError) (l : IoError)
    → ((log_read path e ≡ []) ↔ OtherIo e) × ((log_list l ≡ []) ↔ (l.kind ≡ not_found))
log_read-log_list path e l = (log_read_iff path e, log_list_iff l.text l.kind)
