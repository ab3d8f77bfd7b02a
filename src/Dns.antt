-- ===== src/Dns.antt =====
-- What the program reads of miekg/dns values: response codes, record types, records and messages.
use chn_resolver_go.Prelude.{ℕ, Bool, List}
use chn_resolver_go.Text.{Text}

abbrev pub rcode_success : ℕ
rcode_success = 0

abbrev pub rcode_format_error : ℕ
rcode_format_error = 1

abbrev pub rcode_server_failure : ℕ
rcode_server_failure = 2

abbrev pub rcode_name_error : ℕ
rcode_name_error = 3

abbrev pub type_a : ℕ
type_a = 1

abbrev pub type_aaaa : ℕ
type_aaaa = 28

-- `dns.SOA`: the two fields that the program reads, and `body` for those that it passes on.
pub record Soa : Type 0 where
  pub ttl : ℕ
  pub minttl : ℕ
  pub body : ℕ

-- The dynamic type of a `dns.RR`, with the fields that the program reads: the bytes of an address,
-- the target of a CNAME.
pub data Body : Type 0 where
  a aaaa : List ℕ → Body
  cname : Text → Body
  soa : Soa → Body
  other : Body

pub record Rr : Type 0 where
  pub name : Text
  pub rrtype : ℕ
  pub ttl : ℕ
  pub body : Body

pub record Msg : Type 0 where
  pub rcode : ℕ
  pub truncated : Bool
  pub answer : List Rr
  pub ns : List Rr
