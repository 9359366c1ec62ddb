-- ===== src/Base/TimeZone/Reading/Format.antt =====
-- Reads of the counters, of the tables and of the types of local time, of a file that goes on with the
-- bytes they are laid out in (RFC 8536).
use czy_net_frame.Common.{
  ℕ, ◌≡◌, refl, sym, ap, ◌∙◌, Bool, true, false, not, List, [], ◌∷◌, ◌++◌, append_assoc, append-nil,
  ◌==◌, if◌then◌else◌, length, All, Outcome, done,
}
use czy_net_frame.Base.TimeZone.{LocalTime, Data, add_local_time}
use czy_net_frame.Base.TimeZone.File.{File}
use czy_net_frame.Base.TimeZone.Bytes.{advance, At, Is32, int32, read_int32-At, read_uint8-At}
use czy_net_frame.Base.TimeZone.Reading.{Counts, read_counts, read_times, read_type, read_types}

-- The counters, in front of what follows them.
abbrev pub before : Counts → List ℕ → List ℕ
before c rest =
    int32 c.isutccnt
    ++ (int32 c.isstdcnt
        ++ (int32 c.leapcnt ++ (int32 c.timecnt ++ (int32 c.typecnt ++ (int32 c.charcnt ++ rest)))))

pub record AreInts (c : Counts) : Type 0 where
  pub isutc : Is32 c.isutccnt
  pub isstd : Is32 c.isstdcnt
  pub leaps : Is32 c.leapcnt
  pub times : Is32 c.timecnt
  pub types : Is32 c.typecnt
  pub chars : Is32 c.charcnt

pub read_counts-At :
    (c : Counts) (f : File) (rest : List ℕ)
    → AreInts c
    → At f (before c rest)
    → (g : File) × (read_counts f ≡ done (c, g)) × At g rest
unfolding read_counts
read_counts-At c f rest h at =
    let r0 = read_int32-At c.isutccnt f _ h.isutc at in
    let r1 = read_int32-At c.isstdcnt (advance 4 f) _ h.isstd r0.1 in
    let r2 = read_int32-At c.leapcnt (advance 4 (advance 4 f)) _ h.leaps r1.1 in
    let r3 = read_int32-At c.timecnt (advance 4 (advance 4 (advance 4 f))) _ h.times r2.1 in
    let r4 =
      read_int32-At c.typecnt (advance 4 (advance 4 (advance 4 (advance 4 f)))) _ h.types r3.1 in
    let r5 =
      read_int32-At c.charcnt (advance 4 (advance 4 (advance 4 (advance 4 (advance 4 f))))) rest
        h.chars r4.1 in
    (
      advance 4 (advance 4 (advance 4 (advance 4 (advance 4 (advance 4 f))))),
      rw (r0.0, r1.0, r2.0, r3.0, r4.0, r5.0) refl,
      r5.1,
    )

pub all_bytes {ℓ} : {A : Type ℓ} → (A → List ℕ) → List A → List ℕ
all_bytes bytes_of [] = []
all_bytes bytes_of (x ∷ xs) = bytes_of x ++ all_bytes bytes_of xs

module _ {ℓ} {A : Type ℓ} (Ok : A → Type 0) (bytes_of : A → List ℕ)
    (read_one : File → Outcome (A × File)) where
  pub read_times-At :
      ((x : A) (f : File) (rest : List ℕ)
        → Ok x
        → At f (bytes_of x ++ rest)
        → (g : File) × (read_one f ≡ done (x, g)) × At g rest)
      → (xs : List A) (f : File) (rest : List ℕ) → All Ok xs
      → At f (all_bytes bytes_of xs ++ rest)
      → (g : File) × (read_times read_one (length xs) f ≡ done (xs, g)) × At g rest
  unfolding read_times all_bytes
  read_times-At one [] f rest h at = (f, refl, at)
  read_times-At one (x ∷ xs) f rest h at =
      let a =
        one x f (all_bytes bytes_of xs ++ rest) h.0
          (at ∙ append_assoc (bytes_of x) (all_bytes bytes_of xs) rest) in
      let ih = read_times-At one xs a.0 rest h.1 a.2 in (ih.0, rw (a.1, ih.1) refl, ih.2)

pub type_bytes : LocalTime → List ℕ
type_bytes lt = int32 lt.utc_offset ++ ((if lt.is_dst then 1 else 0) ∷ lt.desig_idx ∷ [])

abbrev pub OkType : LocalTime → Type 0
OkType lt = Is32 lt.utc_offset

abbrev pub with_types : Data → List LocalTime → Data
with_types d ls = record d { localtimes = d.localtimes ++ ls }

dst_back : (b : Bool) → not ((if b then 1 else 0) == 0) ≡ b
dst_back true = refl
dst_back false = refl

pub read_types-At :
    (ls : List LocalTime) (d : Data) (f : File) (rest : List ℕ)
    → All OkType ls
    → At f (all_bytes type_bytes ls ++ rest)
    → (g : File) × (read_types (length ls) d f ≡ done (with_types d ls, g)) × At g rest
unfolding read_types read_type all_bytes type_bytes add_local_time
read_types-At [] d f rest h at =
    (f, ap (λ l. done (record d { localtimes = l }, f)) (sym (append-nil d.localtimes)), at)
read_types-At (lt ∷ ls) d f rest h at =
    let dst = if lt.is_dst then 1 else 0 in
    let tail = all_bytes type_bytes ls ++ rest in
    let split =
      at
      ∙ append_assoc (type_bytes lt) (all_bytes type_bytes ls) rest
      ∙ append_assoc (int32 lt.utc_offset) (dst ∷ lt.desig_idx ∷ []) tail in
    let r0 = read_int32-At lt.utc_offset f (dst ∷ lt.desig_idx ∷ tail) h.0 split in
    let r1 = read_uint8-At dst (advance 4 f) (lt.desig_idx ∷ tail) r0.1 in
    let r2 = read_uint8-At lt.desig_idx (advance 1 (advance 4 f)) tail r1.1 in
    let ih =
      read_types-At ls (with_types d (lt ∷ [])) (advance 1 (advance 1 (advance 4 f))) rest h.1
        r2.1 in
    (
      ih.0,
      rw (r0.0, r1.0, r2.0, dst_back lt.is_dst)
          (ih.1
            ∙ ap (λ l. done (record d { localtimes = l }, ih.0))
                (append_assoc d.localtimes (lt ∷ []) ls)),
      ih.2,
    )
