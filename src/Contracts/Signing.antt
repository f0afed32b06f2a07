-- ===== src/Contracts/Signing.antt =====
-- What buyer, seller and platform use of `node:crypto` and `JSON.stringify`: Ed25519 signatures and
-- SHA-256. They are parameters of the model.
use remote_subagent_protocol.Prelude.{String, ◌≡◌, Bool, true, Option, some}
use remote_subagent_protocol.Json.{Fields}

pub record Crypto : Type 0 where
  -- the bytes of `JSON.stringify(object)`
  pub encode : Fields → String
  -- `crypto.sign` by a private key, in base64
  pub sign : String → String → String
  -- `crypto.verify` by a public key in PEM; `none` where a key or a signature cannot be read
  pub verify : String → String → String → Option Bool
  -- the SHA-256, in hexadecimal, of what a base64 text holds
  pub sha256 : String → String

-- A public key verifies what its private key signs.
abbrev pub KeyPair : Crypto → String → String → Type 0
KeyPair c private public =
    (message : String) → c.verify public message (c.sign private message) ≡ some true
