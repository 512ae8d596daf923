-- ===== src/Codec.antt =====
-- What the source uses of Python's `struct`, `int.to_bytes`, `int.from_bytes` and `base64`.
pub mod BigEndian
pub mod Base64
