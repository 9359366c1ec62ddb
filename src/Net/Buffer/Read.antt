-- ===== src/Net/Buffer/Read.antt =====
-- `retrieve` and `retrieveAsString` of src/net/Buffer.h by their effect on the contents.
use czy_net_frame.Common.{
  ℕ, ◌+◌, ◌≤◌, ◌<◌, ◌≡◌, refl, sym, ap, ap₂, ◌∙◌, subst, List, [], ◌∷◌, ◌++◌, append_assoc,
  append-nil, arith, lt→ltb, le→ltb, lt→leb, le→leb, length, take, drop, length-append, length-take,
  take-append-drop, take_all, drop_all, done, assert_failed,
}
use czy_net_frame.Net.Buffer.{
  Buffer, retrieve_all, retrieve, retrieve_as_string, retrieve_all_as_string,
}
use czy_net_frame.Net.Buffer.Contents.{
  Inv, contents, whole, used, free, eq_whole, IsSized, whole-Inv, parts-IsSized, readable-contents,
  readable-whole, read_at-contents,
}
use czy_net_frame.Net.Buffer.Room.{Holds, whole-Holds, as_whole}

-- `retrieve_all` leaves an empty buffer.
retrieve_all-contents :
    (b : Buffer) → Inv b → Inv (retrieve_all b) × (contents (retrieve_all b) ≡ [])
unfolding retrieve_all
retrieve_all-contents b v = (
  record {
    in_order = omega arith;
    in_bounds = v.has_prepend;
    has_prepend = v.has_prepend;
    fits = v.fits;
  },
  refl,
)

retrieve-whole :
    (f p q k : List ℕ) → IsSized f (p ++ q) k → Holds (retrieve (whole f (p ++ q) k) (length p)) q
unfolding retrieve
retrieve-whole f p [] k s =
    rw
      (
        readable-whole f (p ++ []) k s,
        le→leb (length p) (length (p ++ [])) (omega (arith, size)),
        le→ltb (length p) (length (p ++ [])) (omega (arith, size)),
      )
      (let (v, e) = retrieve_all-contents (whole f (p ++ []) k) (whole-Inv f (p ++ []) k s) in
        (retrieve_all (whole f (p ++ []) k), refl, v, e))
  where
    size : length (p ++ []) ≡ length p
    size = ap length (append-nil p)
retrieve-whole f p (c ∷ q) k s =
    rw
      (
        readable-whole f (p ++ c ∷ q) k s,
        le→leb (length p) (length (p ++ c ∷ q)) (omega (arith, size)),
        lt→ltb (length p) (length (p ++ c ∷ q)) (omega (arith, size)),
      )
      (whole-Holds (f ++ p) (c ∷ q) k _ sized (
        ap done (
          as_whole (f ++ p) (c ∷ q) k _ shape (omega (arith, length-append f p, s.fits, size))
            (omega (arith, length-append f p, size)))))
  where
    size : length (p ++ c ∷ q) ≡ length p + length (c ∷ q)
    size = length-append p (c ∷ q)

    shape : f ++ ((p ++ c ∷ q) ++ k) ≡ (f ++ p) ++ (c ∷ q ++ k)
    shape = ap (◌++◌ f) (append_assoc p (c ∷ q) k) ∙ sym (append_assoc f p (c ∷ q ++ k))

    sized : IsSized (f ++ p) (c ∷ q) k
    sized = record {
      has_prepend = omega (arith, length-append f p, size, s.has_prepend);
      fits = omega (arith, length-append f p, size, s.fits);
    }

-- Taking `n` bytes of the contents away leaves the rest; the assertion of `retrieve` stops the
-- program exactly when there are fewer.
pub retrieve-contents :
    (b : Buffer) (n : ℕ)
    → Inv b
    → (n ≤ length (contents b) → Holds (retrieve b n) (drop n (contents b)))
      × (length (contents b) < n → retrieve b n ≡ assert_failed)
retrieve-contents b n v = (enough, few)
  where
    p : List ℕ
    p = take n (contents b)

    parted : b ≡ whole (used b) (p ++ drop n (contents b)) (free b)
    parted =
        eq_whole b v ∙ ap (λ t. whole (used b) t (free b)) (sym (take-append-drop n (contents b)))

    enough : n ≤ length (contents b) → Holds (retrieve b n) (drop n (contents b))
    enough le =
        let size : n ≡ length p = omega (arith, length-take n (contents b)) in
        subst (λ t. Holds t (drop n (contents b))) (sym (ap₂ retrieve parted size))
          (retrieve-whole (used b) p (drop n (contents b)) (free b) (
            subst (λ t. IsSized (used b) t (free b)) (sym (take-append-drop n (contents b)))
              (parts-IsSized b v)))

    few : length (contents b) < n → retrieve b n ≡ assert_failed
    few lt = unfold retrieve in rw (readable-contents b v, lt→leb n (length (contents b)) lt)

-- The string that `retrieveAsString` returns is the first `n` bytes of the contents, and the rest
-- stays behind.
pub retrieve_as_string-contents :
    (b : Buffer) (n : ℕ)
    → Inv b
    → n ≤ length (contents b)
    → (c : Buffer) × (retrieve_as_string b n ≡ done (take n (contents b), c))
      × Inv c
      × (contents c ≡ drop n (contents b))
unfolding retrieve_as_string
retrieve_as_string-contents b n v le =
    let (c, e, w, m) = (retrieve-contents b n v).0 le in
    (
      c,
      rw (readable-contents b v, le→leb n (length (contents b)) le, read_at-contents b n v le, e),
      w,
      m,
    )

-- `retrieveAllAsString` hands out all the contents.
pub retrieve_all_as_string-contents :
    (b : Buffer)
    → Inv b
    → (c : Buffer) × (retrieve_all_as_string b ≡ done (contents b, c)) × Inv c × (contents c ≡ [])
unfolding retrieve_all_as_string
retrieve_all_as_string-contents b v =
    let (c, e, w, m) = retrieve_as_string-contents b (length (contents b)) v (omega arith) in
    (
      c,
      rw (readable-contents b v)
          (e ∙ ap (λ t. done (t, c)) (take_all _ (contents b) (omega arith))),
      w,
      m ∙ drop_all _ (contents b) (omega arith),
    )
