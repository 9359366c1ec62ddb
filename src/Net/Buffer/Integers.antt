-- ===== src/Net/Buffer/Integers.antt =====
-- The integers of src/net/Buffer.h: `appendInt64` to `prependInt8`. `w` is the size of the type in
-- bytes, and an integer is its bit pattern.
use czy_net_frame.Common.{
  ℕ, ◌+◌, ◌^◌, ◌≤◌, ◌<◌, ◌≡◌, refl, sym, ap, ◌∙◌, List, [], ◌++◌, append-nil, arith, leb, le→leb,
  length, drop, length-append, take-length_append, drop-length_append, ◌>>=◌, ◌>>◌, assert, Outcome,
  done,
}
use czy_net_frame.Net.Endian.{
  ByteOrder, big, store, load, host_to_network, network_to_host, wire, length-store,
  store-host_to_network, network_to_host-load,
}
use czy_net_frame.Net.Buffer.{
  Buffer, max_size, readable_bytes, prependable_bytes, read_at, retrieve, append, prepend,
}
use czy_net_frame.Net.Buffer.Contents.{Inv, contents, readable-contents, read_at-contents}
use czy_net_frame.Net.Buffer.Room.{Holds}
use czy_net_frame.Net.Buffer.Write.{append-contents, prepend-contents}
use czy_net_frame.Net.Buffer.Read.{retrieve-contents}

module _ (host : ByteOrder) where
  -- `appendInt64`, `appendInt32` and `appendInt16` for w = 8, 4 and 2.
  pub append_int : ℕ → Buffer → ℕ → Outcome Buffer
  append_int w b x = append b (store host w (host_to_network host w x))

  -- `appendInt8` converts nothing.
  pub append_int8 : Buffer → ℕ → Outcome Buffer
  append_int8 b x = append b (store host 1 x)

  pub peek_int : ℕ → Buffer → Outcome ℕ
  peek_int w b = do
    assert (leb w (readable_bytes b))
    bytes ← read_at b.buffer b.reader_index w
    done (network_to_host host w (load host bytes))

  pub peek_int8 : Buffer → Outcome ℕ
  peek_int8 b = do
    assert (leb 1 (readable_bytes b))
    bytes ← read_at b.buffer b.reader_index 1
    done (load host bytes)

  -- `retrieveInt64` and the like.
  pub retrieve_int : ℕ → Buffer → Outcome Buffer
  retrieve_int w b = retrieve b w

  pub read_int : ℕ → Buffer → Outcome (ℕ × Buffer)
  read_int w b = do result ← peek_int w b; b' ← retrieve_int w b; done (result, b')

  pub read_int8 : Buffer → Outcome (ℕ × Buffer)
  read_int8 b = do result ← peek_int8 b; b' ← retrieve_int 1 b; done (result, b')

  pub prepend_int : ℕ → Buffer → ℕ → Outcome Buffer
  prepend_int w b x = prepend b (store host w (host_to_network host w x))

  pub prepend_int8 : Buffer → ℕ → Outcome Buffer
  prepend_int8 b x = prepend b (store host 1 x)

  -- Appending an integer puts its bytes, the highest first, behind the contents.
  append_int-contents :
      (w : ℕ) (b : Buffer) (x : ℕ)
      → Inv b
      → b.writer_index + w ≤ max_size
      → Holds (append_int w b x) (contents b ++ wire w x)
  unfolding append_int
  append_int-contents w b x v fit =
      rw (store-host_to_network host w x)
        (append-contents b (wire w x) v (omega (arith, length-store big w x, fit)))

  prepend_int-contents :
      (w : ℕ) (b : Buffer) (x : ℕ)
      → Inv b
      → w ≤ prependable_bytes b
      → Holds (prepend_int w b x) (wire w x ++ contents b)
  unfolding prepend_int
  prepend_int-contents w b x v fit =
      rw (store-host_to_network host w x)
        (prepend-contents b (wire w x) v (omega (arith, length-store big w x, fit)))

  peek_int-contents :
      (w : ℕ) (b : Buffer) (x : ℕ) (rest : List ℕ)
      → Inv b
      → x < 256 ^ w
      → contents b ≡ wire w x ++ rest
      → peek_int w b ≡ done x
  unfolding peek_int
  peek_int-contents w b x rest v small e =
      rw
        (
          readable-contents b v,
          le→leb w (length (contents b)) room,
          read_at-contents b w v room,
          e,
          take-length_append (wire w x) rest w (sym (length-store big w x)),
        )
        (ap done (network_to_host-load host w x small))
    where
      room : w ≤ length (contents b)
      room = omega (arith, ap length e, length-append (wire w x) rest, length-store big w x)

  -- Reading an integer whose bytes stand at the front of the contents returns it and takes just
  -- those bytes away.
  read_int-contents :
      (w : ℕ) (b : Buffer) (x : ℕ) (rest : List ℕ)
      → Inv b
      → x < 256 ^ w
      → contents b ≡ wire w x ++ rest
      → (c : Buffer) × (read_int w b ≡ done (x, c)) × Inv c × (contents c ≡ rest)
  unfolding read_int retrieve_int
  read_int-contents w b x rest v small e =
      let room : w ≤ length (contents b) =
        omega (arith, ap length e, length-append (wire w x) rest, length-store big w x) in
      let (c, q, u, m) = (retrieve-contents b w v).0 room in
      (
        c,
        rw (peek_int-contents w b x rest v small e, q),
        u,
        m ∙ ap (drop w) e ∙ drop-length_append (wire w x) rest w (sym (length-store big w x)),
      )

  -- In a buffer that holds the bytes `m`, appending an integer and then taking `m` away leaves a
  -- buffer from which the same integer is read, and nothing more.
  pub read_int-append_int :
      (w : ℕ) (b : Buffer) (x : ℕ)
      → Inv b
      → x < 256 ^ w
      → b.writer_index + w ≤ max_size
      → (c : Buffer) × (d : Buffer) × (e : Buffer) × (append_int w b x ≡ done c)
        × (retrieve c (length (contents b)) ≡ done d)
        × (read_int w d ≡ done (x, e))
        × (contents e ≡ [])
  read_int-append_int w b x v small fit =
      let (c, appended, vc, mc) = append_int-contents w b x v fit in
      let enough : length (contents b) ≤ length (contents c) =
        omega (arith, ap length mc, length-append (contents b) (wire w x)) in
      let (d, taken, vd, md) = (retrieve-contents c (length (contents b)) vc).0 enough in
      let at_front : contents d ≡ wire w x ++ [] =
        md
        ∙ ap (drop (length (contents b))) mc
        ∙ drop-length_append (contents b) (wire w x) _ refl
        ∙ sym (append-nil (wire w x)) in
      let (e, got, ve, me) = read_int-contents w d x [] vd small at_front in
      (c, d, e, appended, taken, got, me)

  -- A prepended integer, such as a length in front of a message, is read first, and the contents
  -- are then what they were.
  pub read_int-prepend_int :
      (w : ℕ) (b : Buffer) (x : ℕ)
      → Inv b
      → x < 256 ^ w
      → w ≤ prependable_bytes b
      → (c : Buffer) × (d : Buffer) × (prepend_int w b x ≡ done c)
        × (peek_int w c ≡ done x)
        × (read_int w c ≡ done (x, d))
        × (contents d ≡ contents b)
  read_int-prepend_int w b x v small fit =
      let (c, put, vc, mc) = prepend_int-contents w b x v fit in
      let (d, got, vd, md) = read_int-contents w c x (contents b) vc small mc in
      (c, d, put, peek_int-contents w c x (contents b) vc small mc, got, md)
