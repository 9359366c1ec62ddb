-- ===== src/Net/Endian.antt =====
-- src/net/Endian.h: conversions between host and network byte order. An integer of `w` bytes is its
-- bit pattern, a number below 256 ^ w. The byte order of the host is a
-- parameter.
use czy_net_frame.Common.{
  ℕ, zero, suc, ◌+◌, ◌*◌, ◌/◌, ◌%◌, ◌^◌, ◌<◌, ◌≡◌, refl, sym, ap, ◌∙◌, List, [], ◌∷◌, arith, length,
  All, length-append, All-append,
}
use mathlib.Core.List.{reverse, reverse-reverse, reverse-cons}
use native.Mathlib.Nat.{pow-suc}

pub data ByteOrder : Type 0 where
  little big : ByteOrder

-- The bytes of an integer, lowest first.
pub store_little : ℕ → ℕ → List ℕ
store_little zero x = []
store_little (suc w) x = (x % 256) ∷ store_little w (x / 256)

pub load_little : List ℕ → ℕ
load_little [] = 0
load_little (b ∷ bs) = b + 256 * load_little bs

-- How an integer lies in memory, and the integer that lies there.
pub store : ByteOrder → ℕ → ℕ → List ℕ
store little w x = store_little w x
store big w x = reverse (store_little w x)

pub load : ByteOrder → List ℕ → ℕ
load little bs = load_little bs
load big bs = load_little (reverse bs)

-- `htobe64`, `htobe32`, `htobe16`: the number that the host reads where the big-endian bytes lie.
pub host_to_network : ByteOrder → ℕ → ℕ → ℕ
host_to_network host w x = load host (store big w x)

-- `be64toh`, `be32toh`, `be16toh`.
pub network_to_host : ByteOrder → ℕ → ℕ → ℕ
network_to_host host w x = load big (store host w x)

abbrev pub IsByte : ℕ → Type 0
IsByte b = b < 256

pub length-store_little : (w x : ℕ) → length (store_little w x) ≡ w
unfolding store_little
length-store_little zero x = refl
length-store_little (suc w) x = ap suc (length-store_little w (x / 256))

pub load_little-store_little : (w x : ℕ) → x < 256 ^ w → load_little (store_little w x) ≡ x
unfolding store_little load_little
load_little-store_little zero x h = omega arith
load_little-store_little (suc w) x h =
    omega (arith, load_little-store_little w (x / 256) (omega (arith, h, pow-suc 256 w)))

length-reverse {ℓ} : {A : Type ℓ} (xs : List A) → length (reverse xs) ≡ length xs
length-reverse [] = refl
length-reverse (x ∷ xs) =
    ap length (reverse-cons x xs)
    ∙ omega (arith, length-append (reverse xs) (x ∷ []), length-reverse xs)

pub store_little-load_little :
    (bs : List ℕ) → All IsByte bs → store_little (length bs) (load_little bs) ≡ bs
unfolding store_little load_little
store_little-load_little [] h = refl
store_little-load_little (b ∷ bs) (lt, h) =
    let low : (b + 256 * load_little bs) % 256 ≡ b = omega arith in
    let high : (b + 256 * load_little bs) / 256 ≡ load_little bs = omega arith in
    rw (low, high, store_little-load_little bs h)

All-reverse {ℓ κ} : {A : Type ℓ} (P : A → Type κ) (xs : List A) → All P xs → All P (reverse xs)
All-reverse P [] h = h
All-reverse P (x ∷ xs) h =
    rw (reverse-cons x xs) (All-append P (reverse xs) (x ∷ []) (All-reverse P xs h.1) (h.0, tt))

store_little-IsByte : (w x : ℕ) → All IsByte (store_little w x)
unfolding store_little
store_little-IsByte zero x = tt
store_little-IsByte (suc w) x = (omega arith, store_little-IsByte w (x / 256))

pub length-store : (host : ByteOrder) (w x : ℕ) → length (store host w x) ≡ w
unfolding store
length-store little w x = length-store_little w x
length-store big w x = length-reverse (store_little w x) ∙ length-store_little w x

load-store : (host : ByteOrder) (w x : ℕ) → x < 256 ^ w → load host (store host w x) ≡ x
unfolding load store
load-store little w x h = load_little-store_little w x h
load-store big w x h = rw (reverse-reverse (store_little w x)) (load_little-store_little w x h)

-- The bytes of an integer in network order, whatever the host.
abbrev pub wire : ℕ → ℕ → List ℕ
wire w x = store big w x

store-load-wire : (host : ByteOrder) (w x : ℕ) → store host w (load host (wire w x)) ≡ wire w x
unfolding load store
store-load-wire little w x =
    ap (λ n. store_little n (load_little (reverse (store_little w x))))
      (sym (length-reverse (store_little w x) ∙ length-store_little w x))
    ∙ store_little-load_little (reverse (store_little w x))
        (All-reverse IsByte (store_little w x) (store_little-IsByte w x))
store-load-wire big w x =
    ap (λ t. reverse (store_little w (load_little t))) (reverse-reverse (store_little w x))
    ∙ ap (λ n. reverse (store_little n (load_little (store_little w x))))
        (sym (length-store_little w x))
    ∙ ap reverse (store_little-load_little (store_little w x) (store_little-IsByte w x))

-- On every host, the bytes in memory of a converted integer are its bytes from the highest to the
-- lowest.
pub store-host_to_network :
    (host : ByteOrder) (w x : ℕ) → store host w (host_to_network host w x) ≡ wire w x
unfolding host_to_network
store-host_to_network host w x = store-load-wire host w x

-- Reading those bytes and converting them back gives the integer.
pub network_to_host-load :
    (host : ByteOrder) (w x : ℕ) → x < 256 ^ w → network_to_host host w (load host (wire w x)) ≡ x
unfolding network_to_host
network_to_host-load host w x h = rw (store-load-wire host w x) (load-store big w x h)
