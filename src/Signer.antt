-- ===== src/Signer.antt =====
-- src/kskm/signer: the checks of a request against the last response and of the new response against
-- the last one, the loading of keys, and the signing of bundles.
pub mod Chain
pub mod Safety
pub mod Key
pub mod Sign
pub mod FirstKey
pub mod Presence
pub mod Create
