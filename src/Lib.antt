-- ===== src/Lib.antt =====
-- DNSSEC key tools: the signer of the root zone's DNSKEY sets, src/kskm of the repository. The operator of
-- the zone signing key (ZSK) sends a key signing request (KSR) with nine or so bundles of keys for a
-- quarter; the operator of the key signing key (KSK) checks the request and answers with a response (SKR)
-- of signed bundles. This library models how requests and responses are checked, bit for bit down to the
-- wire form that is signed.
--
-- The files, and the source that each one models (paths are below src/kskm):
--   Prelude      Boolean tests, lists, integers, equality, dictionaries, over the native numbers
--   Outcome      exceptions as values, loops, the pattern of two limits, checks that can be off
--   Data         common/data.py, ksr/data.py, skr/data.py: records and enumerations
--   Codec        big-endian numbers (struct.pack, int.to_bytes) and base64
--   PublicKey    common/rsa_utils.py, common/ecdsa_utils.py: public keys in DNSKEY form
--   Dnssec       common/dnssec.py and Key.__post_init__: RDATA and the key tag
--   Config       common/config_misc.py: the policies
--   Configuration  common/config.py: the schemas, the names of files, the policy for requests
--   Texts        Python's int() and str() of decimal numbers, on lists of code points
--   Duration     duration_to_timedelta of common/parse_utils.py, timedelta_to_duration of skr/output.py
--   Wordlist     common/wordlist.py
--   Crypto       misc/crypto.py over the package `cryptography`, the record Cryptography
--   Rrsig        make_raw_rrsig of common/signature.py
--   Signatures   validate_signatures of common/signature.py
--   Ksr          ksr/validate.py, with Ksr/Header, Ksr/Bundles and Ksr/Policy for ksr/verify_header.py,
--                ksr/verify_bundles.py and ksr/verify_policy.py
--   Skr          skr/validate.py
--   Xml          common/xml_parser.py
--   Loading      ksr/load.py, skr/load.py, over the files and their XML, the record Documents
--   Hsm          misc/hsm.py: finding keys and signing, over PyKCS11, the record Pkcs11; parse_hsmconfig
--                (Hsm/Settings)
--   Signer       signer/verify_chain.py (Signer/Chain, Signer/Presence, Signer/FirstKey), signer/policy.py
--                (Signer/Safety), signer/key.py with common/config_ksk.py and ta/keydigest.py (Signer/Key),
--                and signer/sign.py (Signer/Sign); create_skr of signer/__init__.py (Signer/Create)
--   Command      tools/ksrsigner.py: the command, whose result is what it writes
--   Upload       wksr/server.py: who may upload, the file that is saved, its validation
--   Keymaster    keymaster/keygen.py, keymaster/common.py, keymaster/delete.py and keygen of
--                tools/keymaster.py, over an HSM with a state, the record Token
--   Tests        concrete requests and responses, runs of the checks, the theorems applied to them
--
-- How they correspond: a function that may raise returns a Result, whose `raise e` is the exception; a
-- function of the source that returns None is a Checked. Functions keep their names, without a leading
-- underscore; a loop body or a nested block is a helper of its own. A loop is structural recursion, so
-- that no fuel is needed, except for the length of a number in bytes and its decimal digits, whose fuel is
-- the number itself, and for the loop of duration_to_timedelta, whose fuel is the length of the text: a
-- round that does not raise takes at least two characters, so that the fuel is enough; for
-- the interpolation of parse_hsmconfig, whose fuel is the length of the value: a round removes a `$`; and
-- for the loops of the XML parser, whose fuel is the length of the text, of which a round takes a part. Its
-- regular expressions are written out, and what `\w` matches is a parameter.
-- Logging has no counterpart. The time of the clock is an argument, dt_now. A datetime is a number of
-- microseconds since 1970 in UTC; where the source adds to one it is checked against the years 1 to 9999,
-- and other exceptions of datetime arithmetic do not arise. A set is the list of its elements in the order
-- of iteration.
--
-- The package `cryptography` is the record Cryptography: loading a key and verifying a signature, each of
-- which may raise. PyKCS11 and the hash functions are the record Pkcs11, whose calls return what the
-- attribute or the search returns, or raise. Nothing is assumed of either, so that every theorem holds for
-- any implementation. A module of the HSM is the list of its open sessions. What the file system, the
-- parser of the XML, the operator and the opening of the HSMs give the command are parameters too. The
-- Unicode database of the interpreter is the record CharacterTable, of which the ASCII part is known.
--
-- Not modelled: opening the modules of the HSM, the reading of configuration files, the records that are
-- made of parsed XML, the output of responses, trust anchor files, the inventory of keys, the pages of the
-- upload server, the parsing of arguments, and logging and display.
pub mod Prelude
pub mod Outcome
pub mod Data
pub mod Codec
pub mod PublicKey
pub mod Dnssec
pub mod Config
pub mod Configuration
pub mod Crypto
pub mod Rrsig
pub mod Signatures
pub mod Ksr
pub mod Duration
pub mod Hsm
pub mod Skr
pub mod Loading
pub mod Signer
pub mod Command
pub mod Keymaster
pub mod Upload
pub mod Wordlist
pub mod Xml
pub mod Tests
pub mod Texts
