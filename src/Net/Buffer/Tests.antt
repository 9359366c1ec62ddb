-- ===== src/Net/Buffer/Tests.antt =====
-- Runs of the buffer, and the theorems at concrete buffers.
use czy_net_frame.Common.{
  ℕ, ◌≤◌, ◌≡◌, refl, ap, none, some, List, [], ◌∷◌, arith, length, take, length-take, done,
}
use czy_net_frame.Net.Endian.{little}
use czy_net_frame.Net.Buffer
use czy_net_frame.Net.Buffer.{Buffer, Received, failed, received, max_size}
use czy_net_frame.Net.Buffer.Contents.{Inv, contents}
use czy_net_frame.Net.Buffer.Room.{Holds, ensure_writable_bytes-contents}
use czy_net_frame.Net.Buffer.Write.{append-contents}
use czy_net_frame.Net.Buffer.ReadFd.{Obeys, Fed, read_fd-contents}
use czy_net_frame.Net.Buffer.Integers.{append_int, read_int, read_int-append_int}

-- Three bytes are readable, ten were used, two are free.
abbrev small : Buffer
small = record {
  buffer = 0 ∷ 0 ∷ 0 ∷ 0 ∷ 0 ∷ 0 ∷ 0 ∷ 0 ∷ 0 ∷ 0 ∷ 97 ∷ 13 ∷ 10 ∷ 0 ∷ 0 ∷ [];
  reader_index = 10;
  writer_index = 13;
}

small-Inv : Inv small
small-Inv = record {
  in_order = omega arith;
  in_bounds = omega arith;
  has_prepend = omega arith;
  fits = omega arith;
}

methods : Unit {0}
unfolding Buffer.append Buffer.ensure_writable_bytes Buffer.make_space Buffer.copy_to Buffer.read_at
    Buffer.resize Buffer.has_written
methods = tt

-- Four bytes do not fit behind, and the contents move to the front.
compacts :
    (b : Buffer) × (Buffer.append small (1 ∷ 2 ∷ 3 ∷ 4 ∷ []) ≡ done b)
    × (b.reader_index ≡ 8)
    × (b.writer_index ≡ 15)
unfolding methods
compacts = (_, refl, refl, refl)

-- Five do not fit at all, and the vector grows.
grows :
    (b : Buffer) × (Buffer.append small (1 ∷ 2 ∷ 3 ∷ 4 ∷ 5 ∷ []) ≡ done b)
    × (b.reader_index ≡ 10)
    × (b.writer_index ≡ 18)
unfolding methods
grows = (_, refl, refl, refl)

append-contents_example :
    Holds (Buffer.append small (1 ∷ 2 ∷ 3 ∷ 4 ∷ [])) (97 ∷ 13 ∷ 10 ∷ 1 ∷ 2 ∷ 3 ∷ 4 ∷ [])
append-contents_example = append-contents small (1 ∷ 2 ∷ 3 ∷ 4 ∷ []) small-Inv (omega arith)

ensure_writable_bytes-contents_example :
    (c : Buffer) × (Buffer.ensure_writable_bytes small 4 ≡ done c)
    × Inv c
    × (contents c ≡ 97 ∷ 13 ∷ 10 ∷ [])
    × (4 ≤ Buffer.writable_bytes c)
ensure_writable_bytes-contents_example =
    ensure_writable_bytes-contents small 4 small-Inv (omega arith)

-- A kernel that has three bytes to give, as far as they are asked for.
abbrev kernel : List ℕ → Received
kernel [] = failed 22
kernel (n ∷ lens) = received (take n (1 ∷ 2 ∷ 3 ∷ []))

read_int-append_int_example :
    (c : Buffer) × (d : Buffer) × (e : Buffer) × (append_int little 4 small 0x01020304 ≡ done c)
    × (Buffer.retrieve c 3 ≡ done d)
    × (read_int little 4 d ≡ done (0x01020304, e))
    × (contents e ≡ [])
read_int-append_int_example =
    read_int-append_int little 4 small 0x01020304 small-Inv (omega arith) (omega arith)

kernel-Obeys : Obeys kernel
kernel-Obeys [] bytes e = cc e
kernel-Obeys (n ∷ lens) bytes e = omega (arith, ap count e, length-take n three)
  where
    three : List ℕ
    three = 1 ∷ 2 ∷ 3 ∷ []

    count : Received → ℕ
    count (received bs) = length bs
    count (failed e) = 0

read_fd-contents_example :
    ((bytes : List ℕ)
      → kernel (Buffer.offered small) ≡ received bytes
      → Fed (Buffer.read_fd kernel small) (97 ∷ 13 ∷ 10 ∷ []) bytes)
    × ((e : ℕ)
        → kernel (Buffer.offered small) ≡ failed e
        → Buffer.read_fd kernel small
          ≡ done (record { count = none; saved_errno = some e; after = small }))
read_fd-contents_example = read_fd-contents kernel small kernel-Obeys small-Inv (omega arith)
