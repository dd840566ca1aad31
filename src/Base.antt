-- ===== src/Base.antt =====
-- Names that the other modules share: those of the libraries, passed on, and those of the
-- children (tests and keys, Python's sets, dicts and `sorted`).
mod Tests
mod Sets
mod Dicts
mod Order
mod Lists
mod Words
mod Texts
mod Sorting
unfoldable pub use Tests.*
unfoldable pub use Sets.*
unfoldable pub use Dicts.*
unfoldable pub use Order.*
unfoldable pub use Lists.*
unfoldable pub use Words.*
unfoldable pub use Texts.*
unfoldable pub use Sorting.*
