-- ===== src/RelayFile/Send/Examples.antt =====
-- Three bytes, sent and received.
use peerscale.Prelude.{ℕ, ◌+◌, ◌≡◌, refl, true, false, none, some, List, [], ◌∷◌, arith, length}
use peerscale.RelayFile.Pack.{Zstd, zstd, compress_auto}
use peerscale.RelayFile.Unpack.{IsLossless}
use peerscale.RelayFile.Accept.{Disk}
use peerscale.RelayFile.Send.{total_chunks, LocalFile, send_file}
use peerscale.RelayFile.Send.Remote.{Remote, remote}
use peerscale.RelayFile.Send.Complete.{saved_file, send_file-saves}

abbrev prefixing : Zstd
prefixing = record {
  encode = λ block. some (9 ∷ block);
  decode = λ packed. elim packed [ [] ↦ none | b ∷ bs ↦ some bs ];
}

prefixing-IsLossless : IsLossless prefixing
prefixing-IsLossless = record { decodes = λ block h. (9, block, refl, refl) }

abbrev note : LocalFile
note = record {
  content = 10 ∷ 20 ∷ 30 ∷ [];
  unreadable = λ at. false;
  checksum = 3;
  detected = zstd;
}

abbrev empty_disk : Disk
empty_disk = record { makes_dir = true; part = none; creates = true; writes = true }

abbrev idle : Remote
idle = record { offset = none; flow = none; read = 0 }

abbrev first_byte : List ℕ → ℕ
first_byte [] = 0
first_byte (b ∷ bs) = b

send_file-saves_example :
    let link =
      remote prefixing
        (λ content. length content)
        first_byte
        empty_disk
        (λ total checksum. checksum ∷ []) in
    (s' : Remote) × (send_file link prefixing compress_auto note (total_chunks 3 + 2) idle
      ≡ some (none, s'))
    × (saved_file s' ≡ some (10 ∷ 20 ∷ 30 ∷ []))
send_file-saves_example =
    send_file-saves prefixing (λ content. length content) first_byte
      (λ total checksum. checksum ∷ []) empty_disk compress_auto note prefixing-IsLossless
      (omega arith) (λ at. refl) idle (refl, refl, refl) refl refl
