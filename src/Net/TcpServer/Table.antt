-- ===== src/Net/TcpServer/Table.antt =====
-- The table of connections of Net/TcpServer, by how often it has a name, and the removals that wait.
use native.Mathlib.Decide.{ℕ_discrete}
use czy_net_frame.Common.{
  ℕ, suc, ◌+◌, ◌≤◌, ◌<◌, ◌≡◌, refl, sym, ap, ◌∙◌, ◌≢◌, inl, inr, Bool, true, false, List, [], ◌∷◌,
  ◌++◌, append_assoc, arith, ◌==◌, Bool-cases, ==→eq, ==→ne, All, All-append, update, update_self,
  update_ne, ==_refl,
}
use czy_net_frame.Net.TcpServer.{
  Connection, Task, establish, destroy, remove_in_loop, listen, erase, erased, put,
}

pub erased-erase_self : (n : ℕ) (cs : List Connection) → erased n (erase n cs) ≡ 0
erased-erase_self n [] = refl
erased-erase_self n (c ∷ cs) = elim (Bool-cases (c.name == n)) [
  | inl p ↦ rw p (erased-erase_self n cs)
  | inr p ↦ rw (p, p) (erased-erase_self n cs)
]

pub erased-erase_ne : (m n : ℕ) (cs : List Connection) → m ≢ n → erased m (erase n cs) ≡ erased m cs
erased-erase_ne m n [] ne = refl
erased-erase_ne m n (c ∷ cs) ne = elim (Bool-cases (c.name == n)) [
  | inl p ↦
      let q : (c.name == m) ≡ false = ground (arith, ne, ==→eq _ _ p) in
      rw (p, q) (erased-erase_ne m n cs ne)
  | inr p ↦ rw p (elim (Bool-cases (c.name == m)) [
    | inl q ↦ rw q (ap suc (erased-erase_ne m n cs ne))
    | inr q ↦ rw q (erased-erase_ne m n cs ne)
  ])
]

pub erased-put_self : (c : Connection) (cs : List Connection) → erased c.name (put c cs) ≡ 1
erased-put_self c cs = rw (==_refl c.name) (ap suc (erased-erase_self c.name cs))

pub erased-put_ne :
    (m : ℕ) (c : Connection) (cs : List Connection) → m ≢ c.name → erased m (put c cs) ≡ erased m cs
erased-put_ne m c cs ne =
    let q : (c.name == m) ≡ false = ground (arith, ne) in rw q (erased-erase_ne m c.name cs ne)

-- The names in the removals that wait.
abbrev pub removal : Task → List ℕ
removal (establish c) = []
removal (destroy c) = []
removal (remove_in_loop c) = c.name ∷ []
removal listen = []

abbrev pub removals : List (ℕ × Task) → List ℕ
removals [] = []
removals ((l, t) ∷ ts) = removal t ++ removals ts

pub removals-append : (xs ys : List (ℕ × Task)) → removals (xs ++ ys) ≡ removals xs ++ removals ys
removals-append [] ys = refl
removals-append ((l, t) ∷ xs) ys =
    ap (λ ns. removal t ++ ns) (removals-append xs ys)
    ∙ sym (append_assoc (removal t) (removals xs) (removals ys))

abbrev pub Distinct : List ℕ → Type 0
Distinct [] = Unit
Distinct (n ∷ ns) = All (λ m. m ≢ n) ns × Distinct ns

module _ {ℓ κ} {A : Type ℓ} (P : A → Type κ) where
  -- One taken out of the middle.
  pub All-middle :
      (xs : List A) (n : A) (ys : List A) → All P (xs ++ (n ∷ ys)) → P n × All P (xs ++ ys)
  All-middle [] n ys h = h
  All-middle (x ∷ xs) n ys h = let r = All-middle xs n ys h.1 in (r.0, (h.0, r.1))

  pub All-map {μ} : (Q : A → Type μ) (ns : List A) → ((n : A) → P n → Q n) → All P ns → All Q ns
  All-map Q [] f h = tt
  All-map Q (n ∷ ns) f h = (f n h.0, All-map Q ns f h.1)

  pub All-map₂ {μ ν} :
      (Q : A → Type μ) (R : A → Type ν) (ns : List A)
      → ((n : A) → P n → Q n → R n)
      → All P ns
      → All Q ns
      → All R ns
  All-map₂ Q R [] f h g = tt
  All-map₂ Q R (n ∷ ns) f h g = (f n h.0 g.0, All-map₂ Q R ns f h.1 g.1)

pub Distinct-middle :
    (xs : List ℕ) (n : ℕ) (ys : List ℕ)
    → Distinct (xs ++ (n ∷ ys))
    → All (λ m. m ≢ n) (xs ++ ys) × Distinct (xs ++ ys)
Distinct-middle [] n ys h = h
Distinct-middle (x ∷ xs) n ys h =
    let r = Distinct-middle xs n ys h.1 in
    let front = All-middle (λ m. m ≢ x) xs n ys h.0 in
    (((λ e. front.0 (sym e)), r.0), (front.1, r.1))

pub Distinct-snoc :
    (xs : List ℕ) (n : ℕ) → Distinct xs → All (λ m. m ≢ n) xs → Distinct (xs ++ (n ∷ []))
Distinct-snoc [] n h a = (tt, tt)
Distinct-snoc (x ∷ xs) n h a =
    (All-append (λ m. m ≢ x) xs (n ∷ []) h.0 ((λ e. a.0 (sym e)), tt), Distinct-snoc xs n h.1 a.1)

-- What the table, the numbers given out, the close callbacks called and the removals that wait have
-- to do with each other.
pub record IsKept (next : ℕ) (cs : List Connection) (closed : ℕ → Bool) (waiting : List ℕ)
    : Type 0 where
  -- A connection that was not closed is in the table, once.
  pub open_in : (n : ℕ) → 0 < n → n < next → closed n ≡ false → erased n cs ≡ 1
  pub waiting_in : All (λ n. erased n cs ≡ 1) waiting
  pub once : Distinct waiting
  pub waiting_closed : All (λ n. closed n ≡ true) waiting
  pub fresh : (n : ℕ) → next ≤ n → (erased n cs ≡ 0) × (closed n ≡ false)

other_name : (closed : ℕ → Bool) (m n : ℕ) → closed m ≡ true → closed n ≡ false → m ≢ n
other_name closed m n p q e = true≢false (sym p ∙ ap closed e ∙ q)
  where
    true≢false : ◌≡◌ {A = Bool} true false → ⊥
    true≢false r = cc

module _ (next : ℕ) (cs : List Connection) (closed : ℕ → Bool) where
  pub IsKept-put :
      (c : Connection) (waiting : List ℕ)
      → c.name ≡ next
      → IsKept next cs closed waiting
      → IsKept (next + 1) (put c cs) closed waiting
  IsKept-put c waiting e k = record {
    open_in = λ m low high open_yet. elim (ℕ_discrete m c.name) [
      | yes q ↦ ap (λ i. erased i (put c cs)) q ∙ erased-put_self c cs
      | no ne ↦
          erased-put_ne m c cs ne
          ∙ k.open_in m low (omega (arith, e, λ (q : m ≡ next). ne (q ∙ sym e))) open_yet
    ];
    waiting_in =
        All-map (λ m. erased m cs ≡ 1) (λ m. erased m (put c cs) ≡ 1) waiting
          (λ m one. erased-put_ne m c cs (λ q. not_zero m one (q ∙ e)) ∙ one) k.waiting_in;
    once = k.once;
    waiting_closed = k.waiting_closed;
    fresh = λ m h. (
      erased-put_ne m c cs (λ q. omega (arith, q, e, h)) ∙ (k.fresh m (omega arith)).0,
      (k.fresh m (omega arith)).1,
    );
  }
    where
      not_zero : (m : ℕ) → erased m cs ≡ 1 → m ≡ next → ⊥
      not_zero m one q = omega (arith, one, (k.fresh m (omega (arith, q))).0)

  module _ (n : ℕ) (e : closed n ≡ false) where
    still_open : (m : ℕ) → update closed n true m ≡ false → m ≢ n
    still_open m p q = elim (Bool-cases (m == n)) [
      | inl r ↦ other_name (update closed n true) n m (update_self closed n true) p (sym q)
      | inr r ↦ ==→ne _ _ r q
    ]

    still_closed :
        (ms : List ℕ) → All (λ m. closed m ≡ true) ms → All (λ m. update closed n true m ≡ true) ms
    still_closed ms h =
        All-map (λ m. closed m ≡ true) (λ m. update closed n true m ≡ true) ms
          (λ m p. update_ne closed n true m (other_name closed m n p e) ∙ p) h

  pub IsKept-close :
      (n : ℕ) (waiting : List ℕ)
      → 0 < n
      → n < next
      → closed n ≡ false
      → IsKept next cs closed waiting
      → IsKept next cs (update closed n true) (waiting ++ (n ∷ []))
  IsKept-close n waiting low high e k = record {
    open_in = λ m low high p.
        k.open_in m low high (sym (update_ne closed n true m (still_open n e m p)) ∙ p);
    waiting_in =
        All-append (λ m. erased m cs ≡ 1) waiting (n ∷ []) k.waiting_in
          (k.open_in n low high e, tt);
    once = Distinct-snoc waiting n k.once (
        All-map (λ m. closed m ≡ true) (λ m. m ≢ n) waiting (λ m p. other_name closed m n p e)
          k.waiting_closed);
    waiting_closed =
        All-append (λ m. update closed n true m ≡ true) waiting (n ∷ [])
          (still_closed n e waiting k.waiting_closed) (update_self closed n true, tt);
    fresh = λ m h.
        ((k.fresh m h).0, update_ne closed n true m (omega (arith, high, h)) ∙ (k.fresh m h).1);
  }

  pub IsKept-close_erase :
      (n : ℕ) (waiting : List ℕ)
      → 0 < n
      → n < next
      → closed n ≡ false
      → IsKept next cs closed waiting
      → IsKept next (erase n cs) (update closed n true) waiting
  IsKept-close_erase n waiting low high e k = record {
    open_in = λ m low high p.
        erased-erase_ne m n cs (still_open n e m p)
        ∙ k.open_in m low high (sym (update_ne closed n true m (still_open n e m p)) ∙ p);
    waiting_in =
        All-map₂ (λ m. closed m ≡ true) (λ m. erased m cs ≡ 1) (λ m. erased m (erase n cs) ≡ 1)
          waiting (λ m p one. erased-erase_ne m n cs (other_name closed m n p e) ∙ one)
          k.waiting_closed k.waiting_in;
    once = k.once;
    waiting_closed = still_closed n e waiting k.waiting_closed;
    fresh = λ m h. (
      erased-erase_ne m n cs (omega (arith, high, h)) ∙ (k.fresh m h).0,
      update_ne closed n true m (omega (arith, high, h)) ∙ (k.fresh m h).1,
    );
  }

  pub IsKept-erase :
      (n : ℕ) (xs ys : List ℕ)
      → IsKept next cs closed (xs ++ (n ∷ ys))
      → (erased n cs ≡ 1) × IsKept next (erase n cs) closed (xs ++ ys)
  IsKept-erase n xs ys k = (
    here.0,
    record {
      open_in = λ m low high p.
          erased-erase_ne m n cs (λ q. other_name closed n m shut.0 p (sym q))
          ∙ k.open_in m low high p;
      waiting_in =
          All-map₂ (λ m. m ≢ n) (λ m. erased m cs ≡ 1) (λ m. erased m (erase n cs) ≡ 1) (xs ++ ys)
            (λ m ne one. erased-erase_ne m n cs ne ∙ one) apart.0 here.1;
      once = apart.1;
      waiting_closed = shut.1;
      fresh = λ m h. (
        erased-erase_ne m n cs (λ q. other_name closed n m shut.0 (k.fresh m h).1 (sym q))
            ∙ (k.fresh m h).0,
        (k.fresh m h).1,
      );
    },
  )
    where
      here : (erased n cs ≡ 1) × All (λ m. erased m cs ≡ 1) (xs ++ ys)
      here = All-middle (λ m. erased m cs ≡ 1) xs n ys k.waiting_in

      apart : All (λ m. m ≢ n) (xs ++ ys) × Distinct (xs ++ ys)
      apart = Distinct-middle xs n ys k.once

      shut : (closed n ≡ true) × All (λ m. closed m ≡ true) (xs ++ ys)
      shut = All-middle (λ m. closed m ≡ true) xs n ys k.waiting_closed
