-- ===== src/Rrsig.antt =====
-- src/kskm/common/signature.py: `make_raw_rrsig`, `_dn2wire` and `dndepth`.
pub mod Sorting
pub mod KeyOrder
use text.Mathlib.Text.{◌==◌ as str_eq}
use sam_ken_x_dnssec_keytool.Prelude.{
  ℕ, zero, suc, ◌+◌, ◌/◌, String, List, [], ◌∷◌, ◌++◌, length, nat_eqb, if◌then◌else◌,
}
use sam_ken_x_dnssec_keytool.Prelude.Int.{ℤ, pos, negsuc}
use sam_ken_x_dnssec_keytool.Outcome.{
  Result, ok, raise, ◌>>=◌, map_each, not_implemented_error, struct_error,
}
use sam_ken_x_dnssec_keytool.Codec.BigEndian.{pack}
use sam_ken_x_dnssec_keytool.Data.{Bytes, Datetime, Set, Key, Signature, type_value}
use sam_ken_x_dnssec_keytool.Data.Algorithm.{algorithm_value}
use sam_ken_x_dnssec_keytool.Dnssec.{key_to_rdata}
use Sorting.{sorted}

-- _dn2wire
unfoldable pub dn2wire : String → Result Bytes
dn2wire dn = if str_eq dn "." then ok (0 ∷ []) else raise not_implemented_error

-- dndepth
unfoldable pub dndepth : String → Result ℕ
dndepth dn = if str_eq dn "." then ok 0 else raise not_implemented_error

-- `struct.pack("!I", int(t.timestamp()))`: `int` drops the fraction towards zero
pack_time : Datetime → Result Bytes
pack_time (pos t) = pack 4 (t / 1_000_000)
pack_time (negsuc t) = if nat_eqb (suc t / 1_000_000) 0 then pack 4 0 else raise struct_error

-- the fields of the RRSIG, as `struct.pack("!HBBIIIH", ...)` writes them
rrsig_header : Signature → Result Bytes
unfolding pack_time
rrsig_header sig = do
  type_covered ← pack 2 (type_value sig.type_covered)
  algorithm ← pack 1 (algorithm_value sig.algorithm)
  labels ← pack 1 sig.labels
  original_ttl ← pack 4 sig.original_ttl
  expiration ← pack_time sig.signature_expiration
  inception ← pack_time sig.signature_inception
  key_tag ← pack 2 sig.key_tag
  ok (
      type_covered
      ++ (algorithm ++ (labels ++ (original_ttl ++ (expiration ++ (inception ++ key_tag))))))

-- the owner name, type, class IN and TTL that stand before every key
rr_prefix : Signature → Result Bytes
rr_prefix sig = do
  owner ← dn2wire sig.signers_name
  type_covered ← pack 2 (type_value sig.type_covered)
  class_in ← pack 2 1
  original_ttl ← pack 4 sig.original_ttl
  ok (owner ++ (type_covered ++ (class_in ++ original_ttl)))

-- the loop over the sorted keys
add_keys : Bytes → Bytes → List Bytes → Result Bytes
add_keys prefix res [] = ok res
add_keys prefix res (this ∷ rest) = do
  len ← pack 2 (length this)
  add_keys prefix (res ++ (prefix ++ (len ++ this))) rest

-- make_raw_rrsig
unfoldable pub make_raw_rrsig : Signature → Set Key → Result Bytes
unfolding rrsig_header rr_prefix add_keys
make_raw_rrsig sig keys = do
  header ← rrsig_header sig
  signer ← dn2wire sig.signers_name
  prefix ← rr_prefix sig
  rdata ← map_each key_to_rdata keys
  add_keys prefix (header ++ signer) (sorted rdata)
