-- ===== src/Python.antt =====
-- What the source uses of Python and its standard library.
pub mod Bytes
pub mod Encode
pub mod Int
pub mod Json
pub mod Runtime
pub mod Str
pub mod Sets
pub mod Dicts
pub mod DictLaws
pub mod SetLaws
pub mod Url
pub mod Ascii
