-- ===== src/Net/Buffer/ReadFd.antt =====
-- `readFd` of src/net/Buffer.cc by its effect on the contents.
use czy_net_frame.Common.{
  ℕ, ◌+◌, ◌≤◌, ◌<◌, ◌≡◌, refl, sym, ap, ◌∙◌, subst, none, some, List, [], ◌∷◌, ◌++◌, append_assoc,
  arith, lt→leb, le→leb, length, take, drop, length-append, length-take, length-drop,
  take-append-drop, take_all, Outcome, done,
}
use native.Mathlib.Decide.{dec_le}
use czy_net_frame.Net.Buffer.{
  Buffer, max_size, writable_bytes, Received, failed, received, extra_size, offered, ReadResult,
  store_received, read_fd,
}
use czy_net_frame.Net.Buffer.Contents.{
  Inv, contents, whole, used, free, eq_whole, IsSized, whole-Inv, contents-whole, parts-IsSized,
  writable-whole,
}
use czy_net_frame.Net.Buffer.Room.{as_whole}
use czy_net_frame.Net.Buffer.Write.{
  append-contents, left_over, left_over-IsSized, overwritten, filled, filled-eq, length-filled,
}

-- `readv(2)`: it never delivers more than the lengths that it was given.
abbrev pub sum : List ℕ → ℕ
sum [] = 0
sum (n ∷ ns) = n + sum ns

abbrev pub Obeys : (List ℕ → Received) → Type 0
Obeys readv = (lens bytes : List ℕ) → readv lens ≡ received bytes → length bytes ≤ sum lens

-- What a successful `readFd` comes to.
abbrev pub Fed : Outcome ReadResult → List ℕ → List ℕ → Type 0
Fed o m bytes =
    (r : ReadResult) × (o ≡ done r)
    × (r.count ≡ some (length bytes))
    × (r.saved_errno ≡ none)
    × Inv r.after
    × (contents r.after ≡ m ++ bytes)

module _ (f m k bytes : List ℕ) (s : IsSized f m k) where
  -- All bytes fit into the free part.
  store-short :
      length bytes ≤ length k → Fed (store_received (whole f m k) (received bytes)) m bytes
  unfolding store_received filled
  store-short le =
      rw
        (
          writable-whole f m k s,
          take_all (length k) bytes le,
          overwritten f m k bytes s le,
          le→leb (length bytes) (length k) le,
        )
        (
          _,
          refl,
          refl,
          refl,
          subst Inv (sym (filled-eq f m k bytes s le))
              (whole-Inv f (m ++ bytes) _ (left_over-IsSized f m k bytes s le)),
          ap contents (filled-eq f m k bytes s le) ∙ contents-whole f (m ++ bytes) _,
        )

  -- The free part is filled and the rest is appended from `extrabuf`.
  module _ (lt : length k < length bytes) where
    abbrev head : List ℕ
    head = take (length k) bytes

    length-head : length head ≡ length k
    length-head = omega (arith, length-take (length k) bytes)

    head-le : length head ≤ length k
    head-le = omega (arith, length-head)

    full : Buffer
    full = record {
      buffer = (f ++ m) ++ (head ++ left_over f m k head s head-le);
      reader_index = length f;
      writer_index = length ((f ++ m) ++ (head ++ left_over f m k head s head-le));
    }

    full-eq : full ≡ whole f (m ++ head) (left_over f m k head s head-le)
    unfolding full filled
    full-eq =
        as_whole f (m ++ head) (left_over f m k head s head-le) full
          (ap (λ t. t.buffer) (filled-eq f m k head s head-le)) refl
          (omega (arith, length-filled f m k head s head-le, length-append m head, length-head))

    store-long :
        length f + (length m + length bytes) ≤ max_size
        → Fed (store_received (whole f m k) (received bytes)) m bytes
    unfolding store_received full
    store-long fit =
        let fullInv : Inv full =
          subst Inv (sym full-eq)
            (whole-Inv f (m ++ head) _ (left_over-IsSized f m k head s head-le)) in
        let (c, e, w, q) = append-contents full (drop (length k) bytes) fullInv (
          omega
            (arith, fit, length-filled f m k head s head-le, length-drop (length k) bytes, lt)) in
        rw
          (
            writable-whole f m k s,
            overwritten f m k head s head-le,
            lt→leb (length bytes) (length k) lt,
            e,
          )
          (
            _,
            refl,
            refl,
            refl,
            w,
            q
                ∙ ap (λ t. t ++ drop (length k) bytes)
                    (ap contents full-eq ∙ contents-whole f (m ++ head) _)
                ∙ append_assoc m head (drop (length k) bytes)
                ∙ ap (◌++◌ m) (take-append-drop (length k) bytes),
          )

store-received :
    (f m k bytes : List ℕ)
    → IsSized f m k
    → length f + (length m + length bytes) ≤ max_size
    → Fed (store_received (whole f m k) (received bytes)) m bytes
store-received f m k bytes s fit = elim (dec_le (length bytes) (length k)) [
  | yes le ↦ store-short f m k bytes s le
  | no gt ↦ store-long f m k bytes s (omega (arith, gt)) fit
]

sum-offered : (b : Buffer) → sum (offered b) ≤ writable_bytes b + extra_size
unfolding offered
sum-offered b = ground arith

-- `readFd` adds exactly the bytes that the kernel delivered to the contents, whether they fit into
-- the free part or spill into the extra buffer, and reports their number; a failed read changes
-- nothing and saves the errno.
pub read_fd-contents :
    (readv : List ℕ → Received) (b : Buffer)
    → Obeys readv
    → Inv b
    → length b.buffer + extra_size ≤ max_size
    → ((bytes : List ℕ)
        → readv (offered b) ≡ received bytes
        → Fed (read_fd readv b) (contents b) bytes)
      × ((e : ℕ)
          → readv (offered b) ≡ failed e
          → read_fd readv b ≡ done (record { count = none; saved_errno = some e; after = b }))
unfolding read_fd
read_fd-contents readv b obeys v room = (delivered, λ e p. rw p)
  where
    delivered :
        (bytes : List ℕ)
        → readv (offered b) ≡ received bytes
        → Fed (read_fd readv b) (contents b) bytes
    delivered bytes p = rw p (
        subst (λ x. Fed (store_received x (received bytes)) (contents b) bytes) (sym (eq_whole b v))
          (store-received (used b) (contents b) (free b) bytes (parts-IsSized b v) (
            omega (
              arith,
              obeys (offered b) bytes p,
              sum-offered b,
              v.in_bounds,
              v.fits,
              room,
              ap (λ x. x.writer_index) (eq_whole b v),
            ))))
