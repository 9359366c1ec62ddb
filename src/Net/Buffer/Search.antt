-- ===== src/Net/Buffer/Search.antt =====
-- `findCRLF` and `findEOL` of src/net/Buffer.h: the first match in the contents.
use mathlib.Core.Option
use czy_net_frame.Common.{
  ℕ, zero, suc, ◌<◌, ◌≡◌, inl, inr, ◌&&◌, Option, none, some, List, [], ◌∷◌, arith, ◌==◌,
  Bool-cases, get_elem?, Outcome, done,
}
use czy_net_frame.Net.Buffer.{
  Buffer, add_size, readable_bytes, read_at, search_crlf, search_eol, find_crlf, find_eol, peek_all,
}
use czy_net_frame.Net.Buffer.Contents.{Inv, contents, peek_all-contents}

abbrev pub CrlfAt : List ℕ → ℕ → Type 0
CrlfAt bytes n = (get_elem? bytes n ≡ some 13) × (get_elem? bytes (suc n) ≡ some 10)

abbrev pub EolAt : List ℕ → ℕ → Type 0
EolAt bytes n = get_elem? bytes n ≡ some 10

-- `r` is the first place where `At` holds, or none.
abbrev pub IsFirst : (ℕ → Type 0) → Option ℕ → Type 0
IsFirst At none = (n : ℕ) → ¬ At n
IsFirst At (some n) = At n × ((k : ℕ) → k < n → ¬ At k)

-- One byte further on.
IsFirst-map :
    (At Later : ℕ → Type 0) (r : Option ℕ)
    → ¬ At 0
    → ((n : ℕ) → At (suc n) → Later n)
    → ((n : ℕ) → Later n → At (suc n))
    → IsFirst Later r
    → IsFirst At (Option.map suc r)
IsFirst-map At Later none now to from h = not_at
  where
    not_at : (n : ℕ) → ¬ At n
    not_at zero = now
    not_at (suc n) = λ a. h n (to n a)
IsFirst-map At Later (some m) now to from h = (from m h.0, earlier)
  where
    earlier : (k : ℕ) → k < suc m → ¬ At k
    earlier zero lt = now
    earlier (suc k) lt = λ a. h.1 k (omega arith) (to k a)

search_crlf-IsFirst : (bytes : List ℕ) → IsFirst (CrlfAt bytes) (search_crlf bytes)
unfolding search_crlf
search_crlf-IsFirst [] = λ n h. cc h.0
search_crlf-IsFirst (c ∷ []) = λ n h. cc h.1
search_crlf-IsFirst (c ∷ d ∷ bytes) = elim (Bool-cases ((c == 13) && (d == 10))) [
  | inl hit ↦ rw hit ((ground arith, ground arith), λ k lt. absurd (omega arith))
  | inr miss ↦ rw miss (
      IsFirst-map (CrlfAt (c ∷ d ∷ bytes)) (CrlfAt (d ∷ bytes)) (search_crlf (d ∷ bytes))
        (λ h. ground (arith, h.0, h.1)) (λ n h. h) (λ n h. h) (search_crlf-IsFirst (d ∷ bytes)))
]

search_eol-IsFirst : (bytes : List ℕ) → IsFirst (EolAt bytes) (search_eol bytes)
unfolding search_eol
search_eol-IsFirst [] = λ n h. cc h
search_eol-IsFirst (c ∷ bytes) = elim (Bool-cases (c == 10)) [
  | inl hit ↦ rw hit (ground arith, λ k lt. absurd (omega arith))
  | inr miss ↦ rw miss (
      IsFirst-map (EolAt (c ∷ bytes)) (EolAt bytes) (search_eol bytes) (λ h. ground (arith, h))
        (λ n h. h) (λ n h. h) (search_eol-IsFirst bytes))
]

-- The pointer, counted from the start of the vector, that the search of `bytes` stands for.
abbrev pub Finds : Buffer → (List ℕ → ℕ → Type 0) → Outcome (Option ℕ) → Type 0
Finds b At o =
    (r : Option ℕ) × IsFirst (At (contents b)) r
    × (o ≡ done (Option.map (λ n. add_size b.reader_index n) r))

-- `findCRLF` points at the first "\r\n" of the contents, and is null exactly when there is none;
-- `findEOL` does the same for the first "\n".
pub find_crlf-Finds :
    (b : Buffer) → Inv b → Finds b CrlfAt (find_crlf b) × Finds b EolAt (find_eol b)
unfolding find_crlf find_eol
find_crlf-Finds b v = (
  (search_crlf (contents b), search_crlf-IsFirst (contents b), rw (read_all)),
  (search_eol (contents b), search_eol-IsFirst (contents b), rw (read_all)),
)
  where
    read_all : read_at b.buffer b.reader_index (readable_bytes b) ≡ done (contents b)
    read_all = unfold peek_all in peek_all-contents b v
