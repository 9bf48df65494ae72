-- ===== src/AddressBook.antt =====
-- crates/address-book: the book of peer addresses and its file.
pub mod Record
pub mod RoundTrip
pub mod Table
pub mod File
