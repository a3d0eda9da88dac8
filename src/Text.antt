-- ===== src/Text.antt =====
-- Python's `str`, as a list of code points, and the methods of it that the program calls.
mod Equality
mod Search
mod Space
mod Number
mod Assoc
mod Blocked
mod Strips
mod Contains
mod Digits
unfoldable pub use Equality.*
unfoldable pub use Search.*
unfoldable pub use Space.*
unfoldable pub use Number.*
unfoldable pub use Assoc.*
unfoldable pub use Blocked.*
unfoldable pub use Strips.*
unfoldable pub use Contains.*
unfoldable pub use Digits.*
