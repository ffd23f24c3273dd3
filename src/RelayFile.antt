-- ===== src/RelayFile.antt =====
-- File transfer over a stream, of p2put/relayfile.go and p2put/filecomp.go: frames, the bitmap of
-- chunks, the payload of a data frame, and the receiving side.
pub mod Frame
pub mod Roundtrip
pub mod Bitmap
pub mod Chunks
pub mod Pack
pub mod Unpack
pub mod Detect
pub mod Receive
pub mod Acks
pub mod Transfer
pub mod Accept
pub mod Resume
pub mod Send
pub mod Active
pub mod Poll
mod Examples
