-- ===== src/Py.antt =====
-- The part of Python that the scripts rest on: exceptions, JSON values with their dynamic
-- operations, number conversions, text files, and loops that build lists.
mod Exceptions
mod Values
mod Convert
mod Files
mod Loops
mod Lines
mod Decoded
mod Stripped
unfoldable pub use Exceptions.*
unfoldable pub use Values.*
unfoldable pub use Convert.*
unfoldable pub use Files.*
unfoldable pub use Loops.*
unfoldable pub use Lines.*
unfoldable pub use Decoded.*
unfoldable pub use Stripped.*
