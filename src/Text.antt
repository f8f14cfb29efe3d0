-- ===== src/Text.antt =====
-- What the program takes from Go's `strings`, `strconv` and `fmt`, over bytes. Case folding and
-- trimming are those of ASCII text; the program applies them to words of its configuration.
mod Decimal
mod Words
mod Split
mod Hosts
unfoldable pub use Words.*
unfoldable pub use Decimal.*
unfoldable pub use Split.*
unfoldable pub use Hosts.*
