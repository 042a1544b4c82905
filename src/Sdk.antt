-- ===== src/Sdk.antt =====
-- packages/buyerSdkTs/src: the part of the buyer SDK that the mesh's tools stand on. SHA-256 and
-- Ed25519 (isomorphicCrypto.ts, tweetnacl) are arguments of the definitions that use them.
pub mod Json
pub mod Pow
pub mod Keys
pub mod Mandates
